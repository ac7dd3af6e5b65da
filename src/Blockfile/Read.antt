-- ===== src/Blockfile/Read.antt =====
-- What the frontmatter says: `parse_named_scalar`, `parse_locked`, `parse_fm_tags` and
-- `parse_fm_props` of crates/mkb-core/src/blockfile.rs.
use mkb.Base.{
  ℕ, Bool, true, false, not, ◌||◌, List, [], ◌∷◌, ◌++◌, map, Option, none, some, ◌==◌,
  if◌then◌else◌, any,
}
use mkb.Text.Chars.{Str, codes, to_ascii_lowercase}
use mkb.Text.Strings.{str_eq, eq_ignore_ascii_case, strip_prefix, starts_with, split_once, is_empty}
use mkb.Text.Trim.{trim, trim_start_matches, trim_end_matches, trim_matches}
use mkb.Text.Lines.{lines, split}
use mkb.Blockfile.Scalar.{quote, apostrophe, tab, parse_scalar}
use mkb.Blockfile.Keys.{tags_key, locked_key, is_managed_key, is_prop_key}
use mkb.Blockfile.Write.{Prop}

-- `line.trim().strip_prefix("key:")`
unfoldable pub field_of : Str → Str → Option Str
unfolding strip_prefix
field_of key line = strip_prefix (key ++ b':' ∷ []) (trim line)

unfoldable pub named_scalar : Str → List Str → Option Str
named_scalar key [] = none
named_scalar key (line ∷ rest) =
    let later = named_scalar key rest in
    elim (field_of key line) [
      | none ↦ later
      | some raw ↦ let v = parse_scalar raw in if is_empty v then later else some v
    ]

unfoldable pub parse_named_scalar : Str → Str → Option Str
unfolding named_scalar
parse_named_scalar fm key = named_scalar key (lines fm)

unfoldable pub is_truthy : Str → Bool
is_truthy raw =
    let v = map to_ascii_lowercase (parse_scalar raw) in
    str_eq v (codes "true")
    || str_eq v (codes "yes")
    || str_eq v (codes "on")
    || str_eq v (codes "1")

unfoldable pub locked_in : List Str → Bool
locked_in [] = false
locked_in (line ∷ rest) =
    let later = locked_in rest in
    elim (field_of locked_key line) [ none ↦ later | some raw ↦ is_truthy raw ]

unfoldable pub parse_locked : Str → Bool
unfolding locked_in
parse_locked fm = locked_in (lines fm)

abbrev pub is_quote : ℕ → Bool
is_quote c = c == quote || c == apostrophe

-- `t.trim().trim_matches(['"', '\'']).trim()`
unfoldable pub tag_text : Str → Str
tag_text t = trim (trim_matches is_quote (trim t))

-- A tag is kept if something of it is left.
unfoldable pub keep_tag : Str → List Str
keep_tag t = if is_empty t then [] else t ∷ []

unfoldable pub keep_tags : List Str → List Str
unfolding keep_tag tag_text
keep_tags [] = []
keep_tags (t ∷ ts) = keep_tag (tag_text t) ++ keep_tags ts

-- `[a, b, c]`
unfoldable pub flow_tags : Str → List Str
unfolding keep_tags
flow_tags rest =
    keep_tags
      (split b',' (trim_end_matches (λ c. c == b']') (trim_start_matches (λ c. c == b'[') rest)))

-- The flag tells that the lines before are a `tags:` line and `- item` lines.
unfoldable pub tags_in : Bool → List Str → List Str
unfolding keep_tag tag_text
tags_in listing [] = []
tags_in listing (line ∷ rest) =
    let more = tags_in true rest in
    let others = tags_in false rest in
    elim (if listing then strip_prefix (codes "-") (trim line) else none) [
      | some item ↦ keep_tag (tag_text item) ++ more
      | none ↦ elim (field_of tags_key line) [
        | none ↦ others
        | some raw ↦
            let value = trim raw in
            if starts_with (codes "[") value
            then flow_tags value ++ others
            else if is_empty value
            then more
            else keep_tag (tag_text value) ++ others
      ]
    ]

unfoldable pub parse_fm_tags : Str → List Str
unfolding tags_in
parse_fm_tags fm = tags_in false (lines fm)

-- Is there a property with this key, whatever the case?
unfoldable pub has_prop : Str → List Prop → Bool
has_prop key props = any (λ ((k, v) : Prop). eq_ignore_ascii_case k key) props

-- The property that a line holds.
unfoldable pub prop_of : Str → Option Prop
prop_of line =
    if starts_with (codes " ") line || starts_with (tab ∷ []) line
    then none
    else (elim (split_once b':' line) [
      | none ↦ none
      | some (before, behind) ↦
          let key = trim before in
          let value = parse_scalar behind in
          if not (is_prop_key key) || is_managed_key key || is_empty value
          then none
          else some (key, value)
    ])

-- The first property with a key stays.
unfoldable pub add_prop : List Prop → Option Prop → List Prop
unfolding has_prop
add_prop props none = props
add_prop props (some (k, v)) = if has_prop k props then props else props ++ (k, v) ∷ []

unfoldable pub collect_props : List Prop → List Str → List Prop
unfolding prop_of add_prop
collect_props props [] = props
collect_props props (line ∷ rest) = collect_props (add_prop props (prop_of line)) rest

unfoldable pub parse_fm_props : Str → List Prop
unfolding collect_props
parse_fm_props fm = collect_props [] (lines fm)
