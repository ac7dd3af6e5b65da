-- ===== src/Link/Mask.antt =====
-- The masks of code have a flag for each character, so the fuel of the loops is enough.
use mkb.Base.{
  ◌∙◌, subst, unwrap_or, ℕ, zero, suc, ◌+◌, ◌-◌, ◌≤◌, ◌<◌, Bool, true, false, not, ◌≡◌, refl, ap,
  List, [], ◌∷◌, Option, some, Bool-cases, Option-cases, inl, inr, arith, ◌==◌, drop, replicate,
  length, length-append, length-replicate, length-drop,
}
use mkb.Text.Chars.{space, Str}
use mkb.Text.Strings.{concat}
use mkb.Text.Lines.{split_inclusive}
use mkb.Text.Lines.Laws.{concat-split_inclusive}
use mkb.Blockfile.Code.{backtick, run_length, close_end, mask_from, mask_code_spans}
use mkb.Link.{mark_from, mark_inline_code, mask_lines, code_mask}

run_length-le : (s : Str) → run_length s ≤ length s
unfolding run_length
run_length-le [] = omega arith
run_length-le (c ∷ s) = ground (arith, run_length-le s)

run_length_pos : (c : ℕ) (s : Str) → (c == backtick) ≡ true → 0 < run_length (c ∷ s)
unfolding run_length
run_length_pos c s h = ground arith

-- A closing run ends inside the text.
close_end-le : (fuel n : ℕ) (s : Str) → unwrap_or (close_end fuel n s) 0 ≤ length s
unfolding close_end
close_end-le zero n s = omega arith
close_end-le (suc fuel) n [] = omega arith
close_end-le (suc fuel) n (c ∷ s) =
    let m = run_length (c ∷ s) in
    ground (
      arith,
      close_end-le fuel n (drop m (c ∷ s)),
      close_end-le fuel n s,
      run_length-le (c ∷ s),
      length-drop m (c ∷ s),
    )

module _ (c : ℕ) (s : Str) (h : (c == backtick) ≡ true) where
  abbrev run : ℕ
  run = run_length (c ∷ s)

  abbrev behind : Str
  behind = drop run (c ∷ s)

  run_facts : (0 < run) × (run ≤ length (c ∷ s)) × (length behind ≡ length (c ∷ s) - run)
  run_facts = (run_length_pos c s h, run_length-le (c ∷ s), length-drop run (c ∷ s))

  span_fits : (n k : ℕ) → close_end (length behind) n behind ≡ some k → k ≤ length behind
  span_fits n k e =
      subst (λ (o : Option ℕ). unwrap_or o 0 ≤ length behind) e
        (close_end-le (length behind) n behind)

length-mark_from : (fuel : ℕ) (s : Str) → length s ≤ fuel → length (mark_from fuel s) ≡ length s
unfolding mark_from
length-mark_from zero [] h = refl
length-mark_from zero (c ∷ s) h = absurd (omega arith)
length-mark_from (suc fuel) [] h = refl
length-mark_from (suc fuel) (c ∷ s) h = elim (Bool-cases (c == backtick)) [
  | inr p ↦ rw p (omega (arith, length-mark_from fuel s (omega arith)))
  | inl b ↦
      let n = run_length (c ∷ s) in
      let rest = drop n (c ∷ s) in
      elim (Option-cases (close_end (length rest) n rest)) [
        | inl e ↦ rw b (rw (e, mark_from) (length-replicate (length (c ∷ s)) false))
        | inr (k, e) ↦ rw b (
            rw (e, mark_from)
              (omega (
                arith,
                length-append (replicate (n + k) true) (mark_from fuel (drop k rest)),
                length-replicate (n + k) true,
                length-drop k rest,
                run_facts c s b,
                span_fits c s b n k e,
                length-mark_from fuel (drop k rest)
                    (omega (arith, length-drop k rest, run_facts c s b)),
              )))
      ]
]

length-mask_from : (fuel : ℕ) (s : Str) → length s ≤ fuel → length (mask_from fuel s) ≡ length s
unfolding mask_from
length-mask_from zero [] h = refl
length-mask_from zero (c ∷ s) h = absurd (omega arith)
length-mask_from (suc fuel) [] h = refl
length-mask_from (suc fuel) (c ∷ s) h = elim (Bool-cases (c == backtick)) [
  | inr p ↦ rw p (omega (arith, length-mask_from fuel s (omega arith)))
  | inl b ↦
      let n = run_length (c ∷ s) in
      let rest = drop n (c ∷ s) in
      elim (Option-cases (close_end (length rest) n rest)) [
        | inl e ↦ rw b (
            rw (e, mask_from)
              (omega (
                arith,
                length-append (replicate n backtick) (mask_from fuel rest),
                length-replicate n backtick,
                run_facts c s b,
                length-mask_from fuel rest (omega (arith, run_facts c s b)),
              )))
        | inr (k, e) ↦ rw b (
            rw (e, mask_from)
              (omega (
                arith,
                length-append (replicate (n + k) space) (mask_from fuel (drop k rest)),
                length-replicate (n + k) space,
                length-drop k rest,
                run_facts c s b,
                span_fits c s b n k e,
                length-mask_from fuel (drop k rest)
                    (omega (arith, length-drop k rest, run_facts c s b)),
              )))
      ]
]

-- Blanking the code spans of a line keeps its length.
pub length-mask_code_spans : (line : Str) → length (mask_code_spans line) ≡ length line
unfolding mask_code_spans
length-mask_code_spans line = length-mask_from (length line) line (omega arith)

length-concat : (l : Str) (ls : List Str) → length (concat (l ∷ ls)) ≡ length l + length (concat ls)
unfolding concat
length-concat l ls = length-append l (concat ls)

length-mask_lines :
    (in_fence : Bool) (ls : List Str) → length (mask_lines in_fence ls) ≡ length (concat ls)
unfolding mask_lines
length-mask_lines in_fence [] = unfold concat in refl
length-mask_lines in_fence (l ∷ ls) = ground (
  arith,
  length-concat l ls,
  length-append (replicate (length l) true) (mask_lines (not in_fence) ls),
  length-append (replicate (length l) true) (mask_lines in_fence ls),
  length-append (mark_inline_code l) (mask_lines in_fence ls),
  length-replicate (length l) true,
  length-mark_from (length l) l (omega arith),
  length-mask_lines (not in_fence) ls,
  length-mask_lines in_fence ls,
)

-- The mask of a body has one flag for each of its characters.
pub length-code_mask : (content : Str) → length (code_mask content) ≡ length content
unfolding code_mask
length-code_mask content =
    length-mask_lines false (split_inclusive content)
    ∙ ap (λ (s : Str). length s) (concat-split_inclusive content)
