-- ===== src/Link.antt =====
-- crates/mkb-core/src/link.rs: the directives of a body. Positions count code points where the
-- source counts bytes. The regular expression is run by the `regex` crate, so its matches are a
-- parameter.
pub mod Mask
use mathlib.Core.Option
use mkb.Base.{
  ℕ, zero, suc, ◌+◌, Bool, true, false, not, List, [], ◌∷◌, ◌++◌, Option, none, some, ◌==◌,
  if◌then◌else◌, drop, replicate, length, unwrap_or, get_elem?,
}
use mkb.Text.Chars.{Str, codes}
use mkb.Text.Strings.{split_once, is_empty}
use mkb.Text.Trim.{trim}
use mkb.Text.Lines.{split_inclusive}
use mkb.Blockfile.Code.{backtick, run_length, close_end, is_fence}

pub record Reference : Type 0 where
  pub embed : Bool
  pub target : Str
  pub display : Option Str
  pub start : ℕ
  pub end : ℕ

unfoldable pub label : Reference → Str
label r = unwrap_or r.display r.target

-- One match of `(!?)\[\[([^\]\n]+)\]\]`, with its two groups.
pub record RefMatch : Type 0 where
  pub start : ℕ
  pub end : ℕ
  pub bang : Str
  pub inner : Str

-- `mark_inline_code`: a run of backticks that is not closed leaves the rest of the line unmarked.
unfoldable pub mark_from : ℕ → Str → List Bool
mark_from zero s = []
mark_from (suc fuel) [] = []
mark_from (suc fuel) (c ∷ s) =
    let n = run_length (c ∷ s) in
    let behind = drop n (c ∷ s) in
    let plain = false ∷ mark_from fuel s in
    let span = λ (k : ℕ). replicate (n + k) true ++ mark_from fuel (drop k behind) in
    if c == backtick
    then (elim (close_end (length behind) n behind) [
      | some k ↦ span k
      | none ↦ replicate (length (c ∷ s)) false
    ])
    else plain

unfoldable pub mark_inline_code : Str → List Bool
unfolding mark_from
mark_inline_code line = mark_from (length line) line

-- The flag is `in_fence`.
unfoldable pub mask_lines : Bool → List Str → List Bool
unfolding is_fence mark_inline_code
mask_lines in_fence [] = []
mask_lines in_fence (line ∷ rest) =
    let toggled = mask_lines (not in_fence) rest in
    let others = mask_lines in_fence rest in
    if is_fence line
    then replicate (length line) true ++ toggled
    else if in_fence
    then replicate (length line) true ++ others
    else mark_inline_code line ++ others

unfoldable pub code_mask : Str → List Bool
unfolding mask_lines
code_mask content = mask_lines false (split_inclusive content)

-- The directive of a match, unless it begins in code or its target is blank.
unfoldable pub reference_of : List Bool → RefMatch → Option Reference
reference_of mask m =
    let parts : Str × Option Str = elim (split_once b'|' m.inner) [
      | some (t, d) ↦ (trim t, some (trim d))
      | none ↦ (trim m.inner, none)
    ] in
    if unwrap_or (get_elem? mask m.start) false
    then none
    else if is_empty parts.0
    then none
    else some (record {
      embed = not (is_empty m.bang);
      target = parts.0;
      display = parts.1;
      start = m.start;
      end = m.end;
    })

abbrev pub filter_map {ℓ} : {A B : Type ℓ} → (A → Option B) → List A → List B
filter_map f [] = []
filter_map f (x ∷ xs) = elim (f x) [ none ↦ filter_map f xs | some y ↦ y ∷ filter_map f xs ]

module _ (ref_captures : Str → List RefMatch) where
  unfoldable pub extract_references : Str → List Reference
  unfolding reference_of
  extract_references content = filter_map (reference_of (code_mask content)) (ref_captures content)
