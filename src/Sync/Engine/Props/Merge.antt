-- ===== src/Sync/Engine/Props/Merge.antt =====
-- What the loops of `set_props` and `unset_props` do to the property that a key finds.
use mkb.Base.{
  ◌||◌, Bool, true, false, ◌≡◌, ap, sym, ◌∙◌, List, [], ◌∷◌, ◌++◌, map, none, some, ok, arith,
  if◌then◌else◌, any,
}
use mkb.Text.Chars.{Str, to_ascii_lowercase}
use mkb.Text.Strings.{str_eq, str_eq_sound, eq_ignore_ascii_case}
use mkb.Text.Trim.{trim}
use mkb.Map.{str_eq_iff}
use mkb.Blockfile.Write.{Prop}
use mkb.Block.Views.{find_prop}
use mkb.Sync.Engine.Props.{upsert, merge_props, drop_props}

-- Keys that are the same but for the case find the same.
same_key :
    (a b c : Str)
    → eq_ignore_ascii_case a b ≡ true
    → eq_ignore_ascii_case a c ≡ eq_ignore_ascii_case b c
unfolding eq_ignore_ascii_case
same_key a b c h =
    ap (λ s. str_eq s (map to_ascii_lowercase c))
      (str_eq_sound (map to_ascii_lowercase a) (map to_ascii_lowercase b) h)

same_keys :
    (a b c : Str)
    → eq_ignore_ascii_case a c ≡ true
    → eq_ignore_ascii_case b c ≡ true
    → eq_ignore_ascii_case a b ≡ true
unfolding eq_ignore_ascii_case
same_keys a b c h g = (str_eq_iff (map to_ascii_lowercase a) (map to_ascii_lowercase b)).1 (
    str_eq_sound (map to_ascii_lowercase a) (map to_ascii_lowercase c) h
    ∙ sym (str_eq_sound (map to_ascii_lowercase b) (map to_ascii_lowercase c) g))

find_prop-upsert :
    (key k v : Str) (ps : List Prop)
    → find_prop key (upsert k v ps)
      ≡ (if eq_ignore_ascii_case k key then some v else find_prop key ps)
unfolding upsert find_prop
find_prop-upsert key k v [] = ground arith
find_prop-upsert key k v ((j, w) ∷ rest) =
    ground (arith, find_prop-upsert key k v rest, same_key j k key, same_keys j k key)

-- Is the key among those of the properties, trimmed and whatever the case?
unfoldable pub named : Str → List Prop → Bool
named key [] = false
named key ((k, v) ∷ rest) = eq_ignore_ascii_case (trim k) key || named key rest

-- The loop, if it succeeds, changes nothing about a key that is not among those set.
pub merge_props-others :
    (key : Str) (ps : List Prop) (seen : List Str) (new : List Prop) {out : List Prop}
    → named key new ≡ false
    → merge_props ps seen new ≡ ok out
    → find_prop key out ≡ find_prop key ps
unfolding merge_props named
merge_props-others key ps seen [] n e = ground arith
merge_props-others key ps seen ((k, v) ∷ rest) {out} n e = ground (
  arith,
  merge_props-others key ps seen rest {out = out},
  merge_props-others key (upsert (trim k) v ps) (seen ++ trim k ∷ []) rest {out = out},
  find_prop-upsert key (trim k) v ps,
)

any-same :
    (k key : Str) (ds : List Str)
    → eq_ignore_ascii_case k key ≡ true
    → any (λ d. eq_ignore_ascii_case d k) ds ≡ any (λ d. eq_ignore_ascii_case d key) ds
unfolding eq_ignore_ascii_case
any-same k key ds h =
    ap (λ s. any (λ (d : Str). str_eq (map to_ascii_lowercase d) s) ds)
      (str_eq_sound (map to_ascii_lowercase k) (map to_ascii_lowercase key) h)

-- The list without the keys: every other key finds what it found, and the keys find nothing.
pub find_prop-drop_props :
    (key : Str) (ps : List Prop) (keys : List Str)
    → find_prop key (drop_props ps keys)
      ≡ (if any (λ d. eq_ignore_ascii_case d key) (map trim keys) then none else find_prop key ps)
unfolding drop_props find_prop
find_prop-drop_props key [] keys = ground arith
find_prop-drop_props key ((k, v) ∷ rest) keys =
    ground (arith, find_prop-drop_props key rest keys, any-same k key (map trim keys))
