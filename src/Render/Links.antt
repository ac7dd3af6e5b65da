-- ===== src/Render/Links.antt =====
-- The links that `render_block` and `render_flat` write.
use mkb.Base.{
  ℕ, suc, ◌-◌, List, [], ◌∷◌, ◌++◌, Option, none, some, if◌then◌else◌, length, take, drop,
  replicate,
}
use mkb.Text.Chars.{Str, codes}
use mkb.Text.Strings.{str_eq, concat, join}
use mkb.Text.Lines.{split}
use mkb.Text.Replace.{replace}
use mkb.Id.{BlockId}
use mkb.Block.Views.{display_title}
use mkb.Map
use mkb.Map.{Map}
use mkb.Platform.{Platform}
use mkb.Vault
use mkb.Vault.{Vault}
pub use mkb.Paths.{slash}

-- The components that two paths begin with, but never the last one of the second.
unfoldable pub common_dirs : List Str → List Str → ℕ
common_dirs [] to = 0
common_dirs (d ∷ ds) [] = 0
common_dirs (d ∷ ds) (t ∷ []) = 0
common_dirs (d ∷ ds) (t ∷ u ∷ ts) =
    let rest = common_dirs ds (u ∷ ts) in if str_eq d t then suc rest else 0

unfoldable pub relative_link : Str → Str → Str
unfolding common_dirs
relative_link from to =
    let from_parts = split slash from in
    let from_dirs = take (length from_parts - 1) from_parts in
    let to_parts = split slash to in
    let common = common_dirs from_dirs to_parts in
    concat (replicate (length from_dirs - common) (codes "../"))
    ++ join (slash ∷ []) (drop common to_parts)

unfoldable pub escape_link_text : Str → Str
unfolding replace
escape_link_text s =
    replace (replace (replace s (codes "\\") (codes "\\\\")) (codes "[") (codes "\\[")) (codes "]")
      (codes "\\]")

-- The blocks that are exported together: the output path of each, and that of this one.
pub record FlatSet : Type 0 where
  pub paths : Map Str
  pub self_path : Str

-- `[text](url)`
unfoldable pub link_to : Str → Str → Str
link_to text url = codes "[" ++ (text ++ (codes "](" ++ (url ++ codes ")")))

abbrev pub unresolved : Str
unresolved = codes "mkb:?unresolved"

unfoldable pub link_text : Vault → BlockId → Str → Str → Str
link_text v id target label =
    if str_eq label target
    then (elim (Vault.block v id) [ none ↦ label | some b ↦ display_title b ])
    else label

module _ (pf : Platform) where
  unfoldable pub render_reference : Vault → Str → Str → Str
  unfolding link_text link_to escape_link_text
  render_reference v target label = elim (Vault.resolve pf v target) [
    | none ↦ link_to (escape_link_text label) unresolved
    | some id ↦ link_to (escape_link_text (link_text v id target label)) (codes "mkb:" ++ id.as_str)
  ]

  -- A link to the file of a block of the set, or else its text.
  abbrev in_set : Option FlatSet → BlockId → Str → Str
  in_set none id text = text
  in_set (some set) id text = elim (Map.get id.as_str set.paths) [
    | none ↦ text
    | some path ↦ link_to text (relative_link set.self_path path)
  ]

  unfoldable pub flat_reference : Vault → Option FlatSet → Str → Str → Str
  unfolding link_text relative_link link_to
  flat_reference v set target label = elim (Vault.resolve pf v target) [
    | none ↦ label
    | some id ↦ in_set set id (link_text v id target label)
  ]
