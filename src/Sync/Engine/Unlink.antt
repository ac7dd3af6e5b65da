-- ===== src/Sync/Engine/Unlink.antt =====
-- `remove_directives_to` of crates/mkb-core/src/sync.rs.
use mkb.Blockfile.Write.{is_nil}
use mkb.Base.{
  ℕ, ◌+◌, Bool, true, false, List, [], ◌∷◌, ◌++◌, map, Option, none, some, if◌then◌else◌, length,
  take, drop, filter, leb,
}
use mkb.Text.Chars.{Str, newline}
use mkb.Text.Strings.{starts_with}
use mkb.Text.Trim.{trim_end}
use mkb.Id.{BlockId}
use mkb.Link.{Reference, extract_references}
use mkb.Platform.{Platform}
use mkb.Sync.Host.{Host, unknown_block, panicked}
use mkb.Sync.Exec.{pure, fail, gets, ◌>>=◌, ◌>>◌}
use mkb.Sync.Engine.{Action, require}
use mkb.Sync.Engine.Writes.{update_block, targets, line_start, line_end}

-- The line or lines that a directive stands on, without the newline at the end.
abbrev pub line_span : Str → Reference → ℕ × ℕ
line_span old r = (line_start old r.start, line_end old r.end)

-- Spans by their starts, the last one first; equal starts keep their order.
unfoldable pub insert_span : ℕ × ℕ → List (ℕ × ℕ) → List (ℕ × ℕ)
insert_span s [] = s ∷ []
insert_span s (t ∷ ts) = if leb t.0 s.0 then s ∷ t ∷ ts else t ∷ insert_span s ts

unfoldable pub sort_spans : List (ℕ × ℕ) → List (ℕ × ℕ)
unfolding insert_span
sort_spans [] = []
sort_spans (s ∷ ss) = insert_span s (sort_spans ss)

-- One span goes, with a newline behind it. A span that ends outside the text is a panic.
unfoldable pub cut_span : Str → ℕ × ℕ → Option Str
cut_span body (start, end) =
    if leb end (length body)
    then some (
        take start body
        ++ drop (if starts_with (newline ∷ []) (drop end body) then end + 1 else end) body)
    else none

unfoldable pub cut_spans : Str → List (ℕ × ℕ) → Option Str
unfolding cut_span
cut_spans body [] = some body
cut_spans body (s ∷ ss) = elim (cut_span body s) [ none ↦ none | some rest ↦ cut_spans rest ss ]

module _ (pf : Platform) (h : Host) where
  -- What is left of the body is written, unless the cutting panics.
  unfoldable pub write_cut : Str → BlockId → Option Str → Option Str → Action pf h Bool
  write_cut now id title none = fail panicked
  write_cut now id title (some body) =
      update_block pf h now id title (trim_end body ++ newline ∷ []) >> pure true

  unfoldable pub remove_directives_to : Str → BlockId → BlockId → Action pf h Bool
  remove_directives_to now id target = do
    block ← require pf h (unknown_block id) id
    v ← gets (λ e. e.vault)
    let spans =
        map (line_span block.body)
          (filter (targets pf h v target) (extract_references pf.ref_captures block.body))
    (if is_nil spans
        then pure false
        else write_cut now id block.title (cut_spans block.body (sort_spans spans)))
