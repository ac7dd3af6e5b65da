-- ===== src/Export.antt =====
-- crates/mkb-core/src/export.rs: which blocks become files, and what their paths are.
pub mod Plan
pub mod Follow
pub mod Closure
pub mod Closed
pub mod Merge
use mkb.Base.{
  ◌==◌, ℕ, zero, suc, ◌+◌, Bool, true, false, not, ◌&&◌, ◌||◌, List, [], ◌∷◌, ◌++◌, map, Option,
  none, some, if◌then◌else◌, take, filter, any, is_none, ltb,
}
use mkb.Text.Chars.{Str, codes, is_ascii_alphanumeric, to_ascii_lowercase}
use mkb.Text.Strings.{str_eq, eq_ignore_ascii_case, is_empty, contains_char, join}
use mkb.Text.Trim.{trim, trim_matches}
use mkb.Text.Lines.{split}
use mkb.Id.{BlockId}
use mkb.Block.{Block}
use mkb.Block.Views.{display_title, tag_names, prop}
use mkb.Blockfile.Write.{is_nil}
use mkb.Link.{filter_map}
use mkb.Paths.{slash, dot, dot_dot}
use mkb.Platform.{Platform}
use mkb.Vault
use mkb.Vault.{Vault, blocks, str_leb}
use mkb.Vault.Search.{has}
use mkb.Export.Follow.{expand_follow_links}

pub record ExportEntry : Type 0 where
  pub path : Str
  pub block : Str
  pub raw : Bool

pub record Manifest : Type 0 where
  pub entries : List ExportEntry

pub data SlugSelection : Type 0 where
  tag : Str → Bool → SlugSelection
  all_roots : SlugSelection

-- `manifest` has its entries and `include_path_props`; `slugs` has `selection`, `follow_links` and
-- `raw`.
pub data ExportRequest : Type 0 where
  manifest : List ExportEntry → Bool → ExportRequest
  slugs : SlugSelection → Bool → Bool → ExportRequest

-- The flag is `prev_dash`.
unfoldable pub slug_from : Bool → Str → Str
slug_from prev_dash [] = []
slug_from prev_dash (c ∷ s) =
    let word = slug_from false s in
    let gap = slug_from true s in
    if is_ascii_alphanumeric c
    then to_ascii_lowercase c ∷ word
    else if prev_dash
    then gap
    else b'-' ∷ gap

abbrev pub is_dash : ℕ → Bool
is_dash c = c == b'-'

unfoldable pub slug : Str → Str
unfolding slug_from
slug title = trim_matches is_dash (slug_from false (trim title))

unfoldable pub insert_entry : ExportEntry → List ExportEntry → List ExportEntry
insert_entry e [] = e ∷ []
insert_entry e (f ∷ fs) = if str_leb e.path f.path then e ∷ f ∷ fs else f ∷ insert_entry e fs

unfoldable pub sort_entries : List ExportEntry → List ExportEntry
unfolding insert_entry
sort_entries [] = []
sort_entries (e ∷ es) = insert_entry e (sort_entries es)

abbrev pub or_id : Str → BlockId → Str
or_id s id = if is_empty s then id.as_str else s

-- How often a text occurs.
unfoldable pub occurrences : Str → List Str → ℕ
occurrences s [] = 0
occurrences s (t ∷ ts) = (if str_eq s t then 1 else 0) + occurrences s ts

unfoldable pub with_md_ext : Str → Str
with_md_ext name = if contains_char b'.' name then name else name ++ codes ".md"

-- The directories that a `path` property names.
unfoldable pub directories : Str → List Str
directories text =
    filter (λ s. not (is_empty s || str_eq s dot || str_eq s dot_dot)) (map trim (split slash text))

abbrev by_title : Block → Str
by_title b = or_id (slug (display_title b)) b.id ++ codes ".md"

unfoldable pub file_name : Block → Str
unfolding slug with_md_ext
file_name b = elim (prop b (codes "filename")) [
  | none ↦ by_title b
  | some name ↦ if is_empty (trim name) then by_title b else with_md_ext (trim name)
]

unfoldable pub path_prop_entry : Block → Bool → Option ExportEntry
unfolding file_name directories
path_prop_entry b raw = elim (prop b (codes "path")) [
  | none ↦ none
  | some text ↦
      let dir = directories text in
      let file = file_name b in
      some (record {
        path = if is_nil dir then file else join (slash ∷ []) dir ++ slash ∷ file;
        block = b.id.as_str;
        raw = raw;
      })
]

-- An entry is added unless its path is used.
unfoldable pub add_new : List Str → List ExportEntry → List ExportEntry → List ExportEntry
add_new used entries [] = entries
add_new used entries (e ∷ es) =
    let same = add_new used entries es in
    let more = add_new (e.path ∷ used) (entries ++ e ∷ []) es in
    if any (str_eq e.path) used then same else more

module _ (pf : Platform) (v : Vault) where
  unfoldable pub slug_for : BlockId → Str
  unfolding slug
  slug_for id = elim (Vault.block v id) [
    | none ↦ id.as_str
    | some b ↦ or_id (slug (display_title b)) id
  ]

  -- A slug that several blocks have gets the beginning of the id behind it.
  unfoldable pub entry_for : List Str → Bool → BlockId → ExportEntry
  unfolding slug_for occurrences
  entry_for used raw id =
      let base = slug_for id in
      record {
        path =
            (if ltb 1 (occurrences base used) then base ++ b'-' ∷ take 8 id.as_str else base)
            ++ codes ".md";
        block = id.as_str;
        raw = raw;
      }

  unfoldable pub manifest_from_ids : List BlockId → Bool → Manifest
  unfolding entry_for sort_entries
  manifest_from_ids ids raw = record {
    entries = sort_entries (map (entry_for (map slug_for ids) raw) ids);
  }

  unfoldable pub has_tag : Str → BlockId → Bool
  has_tag name id = elim (Vault.block v id) [
    | none ↦ false
    | some b ↦ any (λ t. eq_ignore_ascii_case t name) (tag_names b)
  ]

  -- Both lists are sorted by id.
  unfoldable pub select_tag_ids : Str → Bool → List BlockId
  unfolding has_tag
  select_tag_ids name include_non_root =
      filter (has_tag (trim name)) (if include_non_root then Vault.ids v else Vault.roots pf v)

  -- Is the block of an entry one that the manifest names?
  unfoldable pub is_covered : List BlockId → ExportEntry → Bool
  is_covered covered e = elim (Vault.resolve pf v e.block) [
    | none ↦ false
    | some id ↦ has id covered
  ]

  unfoldable pub merge_path_prop_entries : Manifest → Manifest
  unfolding path_prop_entry sort_entries is_covered add_new
  merge_path_prop_entries m =
      let covered = filter_map (λ (e : ExportEntry). Vault.resolve pf v e.block) m.entries in
      let derived =
        filter (λ e. not (is_covered covered e))
          (filter_map (λ b. path_prop_entry b false) (blocks v)) in
      record {
        entries =
            add_new (map (λ (e : ExportEntry). e.path) m.entries) m.entries (sort_entries derived);
      }

  unfoldable pub select : SlugSelection → List BlockId
  unfolding select_tag_ids
  select (tag name include_non_root) = select_tag_ids name include_non_root
  select all_roots = Vault.roots pf v

  unfoldable pub manifest_for_request : ExportRequest → Manifest
  unfolding merge_path_prop_entries manifest_from_ids select
  manifest_for_request (manifest entries include_path_props) =
      if include_path_props
      then merge_path_prop_entries (record { entries = entries })
      else record { entries = entries }
  manifest_for_request (slugs selection follow_links raw) =
      let ids = select selection in
      manifest_from_ids (if follow_links then expand_follow_links pf v ids else ids) raw
