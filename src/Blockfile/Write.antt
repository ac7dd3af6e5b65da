-- ===== src/Blockfile/Write.antt =====
-- `write_block` of crates/mkb-core/src/blockfile.rs: metadata and body into the text of a file.
use mkb.Base.{
  Bool, true, false, not, ◌&&◌, List, [], ◌∷◌, ◌++◌, map, Option, none, some, ◌==◌, if◌then◌else◌,
  is_none, filter,
}
use mkb.Text.Chars.{Str, codes, newline}
use mkb.Text.Strings.{concat, join, is_empty}
use mkb.Text.Trim.{trim, trim_start_matches}
use mkb.Blockfile.Scalar.{yaml_scalar}
use mkb.Blockfile.Keys.{title_key, tags_key, locked_key, updated_key, is_managed_key, is_prop_key}

abbrev pub Prop : Type 0
Prop = Str × Str

-- `t.map(str::trim).filter(|t| !t.is_empty())`
unfoldable pub clean_text : Option Str → Option Str
clean_text none = none
clean_text (some t) = if is_empty (trim t) then none else some (trim t)

unfoldable pub clean_tags : List Str → List Str
clean_tags tags = filter (λ t. not (is_empty t)) (map trim tags)

abbrev pub is_written : Prop → Bool
is_written (k, v) = is_prop_key k && not (is_managed_key k)

unfoldable pub clean_props : List Prop → List Prop
clean_props props = filter is_written (map (λ ((k, v) : Prop). (trim k, v)) props)

-- `format!("{}: {}\n", k, v)`
unfoldable pub entry_text : Str → Str → Str
entry_text k v = k ++ (codes ": " ++ (v ++ newline ∷ []))

abbrev pub scalar_text : Str → Option Str → Str
scalar_text k none = []
scalar_text k (some t) = entry_text k (yaml_scalar t)

abbrev pub tags_text : List Str → Str
tags_text [] = []
tags_text (t ∷ ts) = entry_text tags_key (b'[' ∷ (join (codes ", ") (t ∷ ts) ++ b']' ∷ []))

abbrev pub locked_text : Bool → Str
locked_text true = entry_text locked_key (codes "true")
locked_text false = []

abbrev pub props_text : List Prop → Str
props_text props = concat (map (λ ((k, v) : Prop). entry_text k (yaml_scalar v)) props)

-- The metadata that is left when it is cleaned.
pub record Metadata : Type 0 where
  pub title : Option Str
  pub tags : List Str
  pub locked : Bool
  pub updated : Option Str
  pub props : List Prop

abbrev pub is_nil {ℓ} : {A : Type ℓ} → List A → Bool
is_nil [] = true
is_nil (x ∷ xs) = false

abbrev pub is_bare : Metadata → Bool
is_bare m = is_none m.title && is_nil m.tags && not m.locked && is_none m.updated && is_nil m.props

abbrev pub frontmatter_text : Metadata → Str
frontmatter_text m =
    scalar_text title_key m.title
    ++ (tags_text m.tags
        ++ (locked_text m.locked ++ (scalar_text updated_key m.updated ++ props_text m.props)))

unfoldable pub clean : Option Str → List Str → Bool → Option Str → List Prop → Metadata
unfolding clean_text clean_tags clean_props
clean title tags locked updated props = record {
  title = clean_text title;
  tags = clean_tags tags;
  locked = locked;
  updated = clean_text updated;
  props = clean_props props;
}

unfoldable pub write_block : Option Str → List Str → Bool → Option Str → List Prop → Str → Str
write_block title tags locked updated props body =
    let m = clean title tags locked updated props in
    if is_bare m
    then body
    else codes "---\n"
      ++ (frontmatter_text m ++ (codes "---\n\n" ++ trim_start_matches (λ c. c == newline) body))
