-- ===== src/Sync/Engine/Props.antt =====
-- The property lists of `set_props` and `unset_props`, and the tags of `set_tags`, before they
-- are written.
pub mod Merge
pub mod Dedup
pub mod Stored
use mkb.Base.{not, ◌||◌, List, [], ◌∷◌, ◌++◌, map, Result, ok, err, if◌then◌else◌, any, filter}
use mkb.Text.Chars.{Str}
use mkb.Text.Strings.{eq_ignore_ascii_case, is_empty}
use mkb.Text.Trim.{trim}
use mkb.Blockfile.Keys.{is_prop_key, is_managed_key}
use mkb.Blockfile.Write.{Prop}
use mkb.Sync.Host.{IndexError, invalid_key, reserved_key, empty_value}

-- The first property with the key gets the value, or a new one is put at the end.
unfoldable pub upsert : Str → Str → List Prop → List Prop
upsert key value [] = (key, value) ∷ []
upsert key value ((k, v) ∷ rest) =
    if eq_ignore_ascii_case k key then (k, value) ∷ rest else (k, v) ∷ upsert key value rest

-- The loop over the properties that are set.
unfoldable pub merge_props : List Prop → List Str → List Prop → Result IndexError (List Prop)
merge_props merged seen [] = ok merged
merge_props merged seen ((k, v) ∷ rest) =
    let key = trim k in
    let skip = merge_props merged seen rest in
    let set = merge_props (upsert key v merged) (seen ++ key ∷ []) rest in
    if is_empty key
    then skip
    else if not (is_prop_key key)
    then err (invalid_key key)
    else if is_managed_key key
    then err (reserved_key key)
    else if is_empty (trim v)
    then err (empty_value key)
    else if any (λ x. eq_ignore_ascii_case x key) seen
    then skip
    else set

unfoldable pub drop_props : List Prop → List Str → List Prop
drop_props props keys =
    let drops = map trim keys in
    filter (λ ((k, v) : Prop). not (any (λ d. eq_ignore_ascii_case d k) drops)) props

-- Trimmed and without duplicates, whatever the case.
unfoldable pub dedup_tags : List Str → List Str → List Str
dedup_tags clean [] = clean
dedup_tags clean (t ∷ ts) =
    let tag = trim t in
    dedup_tags
      (if is_empty tag || any (λ x. eq_ignore_ascii_case x tag) clean
        then clean
        else clean ++ tag ∷ [])
      ts
