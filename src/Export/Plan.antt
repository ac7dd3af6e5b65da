-- ===== src/Export/Plan.antt =====
-- The contents of the exported files: `plan_exports` of crates/mkb-core/src/export.rs.
pub mod Answers
use mathlib.Core.Option
use mkb.Base.{
  ℕ, ◌+◌, ◌-◌, Bool, true, false, not, ◌||◌, List, [], ◌∷◌, ◌++◌, map, Option, none, some, Result,
  ok, err, ◌>>=◌, ◌==◌, if◌then◌else◌, length, take, drop, filter, is_none,
}
use mkb.Text.Chars.{Str, codes, newline, carriage_return}
use mkb.Text.Strings.{str_eq, starts_with, split_once, ends_with}
use mkb.Text.Trim.{trim_start_matches, trim_end_matches}
use mkb.Text.Lines.{split_inclusive}
use mkb.Id.{BlockId}
use mkb.Block.Views.{display_title}
use mkb.Link.{filter_map}
use mkb.Map
use mkb.Map.{Map}
use mkb.Platform.{Platform}
use mkb.Vault
use mkb.Vault.{Vault}
use mkb.Render.Links.{FlatSet}
use mkb.Render.Flat.{render_flat_with}
use mkb.Render.Targets.{flat_reference_targets}
use mkb.Export.{ExportEntry, Manifest}

pub data ExportError : Type 0 where
  not_found : Str → Str → ExportError
  not_rendered : BlockId → ExportError

pub record PlannedDoc : Type 0 where
  pub path : Str
  pub block_id : BlockId
  pub content : Str
  pub warnings : List Str

unfoldable pub banner : BlockId → Str → Str
banner id title =
    codes "<!-- @generated by mkb from vault block "
    ++ (id.as_str
        ++ (codes " ("
            ++ (title
                ++ codes
                    ").\n     Do not edit this file directly — edit the block in the vault and run `mkb export`. -->\n\n")))

abbrev is_newline : ℕ → Bool
is_newline c = c == newline

abbrev is_line_end : ℕ → Bool
is_line_end c = c == newline || c == carriage_return

-- The position behind the closing fence; the number is the position of the first line.
unfoldable pub closing_fence : ℕ → List Str → Option ℕ
closing_fence offset [] = none
closing_fence offset (line ∷ rest) =
    let later = closing_fence (offset + length line) rest in
    if str_eq (trim_end_matches is_line_end line) (codes "---")
    then some (offset + length line)
    else later

unfoldable pub frontmatter_end : Str → Option ℕ
unfolding closing_fence
frontmatter_end s =
    let t = trim_start_matches is_newline s in
    if starts_with (codes "---\n") t || starts_with (codes "---\r\n") t
    then (elim (split_once newline t) [
      | none ↦ none
      | some (fence, rest) ↦
          closing_fence (length s - length t + length fence + 1) (split_inclusive rest)
    ])
    else none

unfoldable pub splice_banner : Str → Str → Str
unfolding frontmatter_end
splice_banner text body = elim (frontmatter_end body) [
  | none ↦ text ++ body
  | some end ↦
      trim_end_matches is_newline (take end body)
      ++ (codes "\n\n" ++ (text ++ trim_start_matches is_newline (drop end body)))
]

unfoldable pub with_newline : Str → Str
with_newline s = if ends_with newline s then s else s ++ newline ∷ []

module _ (pf : Platform) (v : Vault) where
  unfoldable pub title_or_id : BlockId → Str
  title_or_id id = elim (Vault.block v id) [ none ↦ id.as_str | some b ↦ display_title b ]

  unfoldable pub warning : Str → BlockId → Str
  unfolding title_or_id
  warning path t =
      path
      ++ (codes ": link to \""
          ++ (title_or_id t
              ++ (codes "\" ("
                  ++ (t.as_str
                      ++ codes
                          ") is not in the export — rendered as plain text (use --follow-links to include it)"))))

  -- The links of the flat text to blocks that are not exported with it.
  unfoldable pub left_out : Map Str → BlockId → List BlockId
  left_out paths id =
      filter (λ t. is_none (Map.get t.as_str paths)) (flat_reference_targets pf v id)

  abbrev set_for : Option (Map Str) → Str → Option FlatSet
  set_for none path = none
  set_for (some paths) path = some (record { paths = paths; self_path = path })

  abbrev warnings_for : Option (Map Str) → Str → BlockId → List Str
  warnings_for none path id = []
  warnings_for (some paths) path id = map (warning path) (left_out paths id)

  unfoldable pub content_of : Bool → BlockId → Str → Str
  unfolding banner splice_banner title_or_id with_newline
  content_of raw id text =
      let body = trim_end_matches is_newline text in
      with_newline (if raw then body else splice_banner (banner id (title_or_id id)) body)

  unfoldable pub plan_doc_inner : Option (Map Str) → ExportEntry → Result ExportError PlannedDoc
  unfolding content_of warning left_out
  plan_doc_inner paths e = elim (Vault.resolve pf v e.block) [
    | none ↦ err (not_found e.block e.path)
    | some id ↦ elim (render_flat_with pf v (set_for paths e.path) id) [
      | none ↦ err (not_rendered id)
      | some text ↦ ok (record {
        path = e.path;
        block_id = id;
        content = content_of e.raw id text;
        warnings = warnings_for paths e.path id;
      })
    ]
  ]

  abbrev pub plan_doc : ExportEntry → Result ExportError PlannedDoc
  plan_doc = plan_doc_inner none

  -- The paths of the blocks of a set: the last entry for a block counts.
  unfoldable pub set_paths : Map Str → List ExportEntry → Map Str
  set_paths paths [] = paths
  set_paths paths (e ∷ es) = elim (Vault.resolve pf v e.block) [
    | none ↦ set_paths paths es
    | some id ↦ set_paths (Map.insert id.as_str e.path paths) es
  ]

  -- The first error ends it.
  unfoldable pub plan_all :
      Option (Map Str) → List ExportEntry → Result ExportError (List PlannedDoc)
  unfolding plan_doc_inner
  plan_all paths [] = ok []
  plan_all paths (e ∷ es) = do
    doc ← plan_doc_inner paths e
    docs ← plan_all paths es
    ok (doc ∷ docs)

  unfoldable pub plan_exports : Manifest → Result ExportError (List PlannedDoc)
  unfolding plan_all set_paths
  plan_exports m = plan_all (some (set_paths [] m.entries)) m.entries
