-- ===== src/Edit/Replace.antt =====
-- What `exact_replace` does: it counts, and it changes the counted matches alone.
use mkb.Base.{
  ◌↔◌, subst, ℕ, zero, suc, ◌+◌, ◌-◌, ◌*◌, ◌≤◌, true, ◌≡◌, ◌≢◌, refl, ap, ◌∙◌, [], ◌∷◌, ◌++◌,
  Bool-cases, inl, inr, ok, arith, length, length-append, drop,
}
use mkb.Text.Chars.{Str}
use mkb.Text.Strings.{starts_with}
use mkb.Text.Replace.{replace_from, replace, count_from, count_matches}
use mkb.Edit.{exact_replace}

-- A text that begins with another is that text and the rest.
starts_with-drop : (p s : Str) → starts_with p s ≡ true → p ++ drop (length p) s ≡ s
unfolding starts_with
starts_with-drop [] s h = refl
starts_with-drop (d ∷ p) [] h = ground arith
starts_with-drop (d ∷ p) (c ∷ s) h = ground (arith, starts_with-drop p s)

starts_with-le : (p s : Str) → starts_with p s ≡ true → length p ≤ length s
unfolding starts_with
starts_with-le [] s h = omega arith
starts_with-le (d ∷ p) [] h = ground arith
starts_with-le (d ∷ p) (c ∷ s) h = ground (arith, starts_with-le p s)

filled-length : (p : Str) → p ≢ [] → length p ≡ suc (length p - 1)
filled-length [] h = absurd (h refl)
filled-length (c ∷ p) h = omega arith

module _ (p : Str) (filled : p ≢ []) where
  -- Each replaced match changes the length by the difference of pattern and replacement.
  length-replace_from :
      (t : Str) (k : ℕ) (s : Str)
      → k ≤ length s
      → length (replace_from p t k s) + (k + count_from p k s * length p)
        ≡ length s + count_from p k s * length t
  unfolding replace_from count_from
  length-replace_from t zero [] b = omega arith
  length-replace_from t (suc k) [] b = absurd (omega arith)
  length-replace_from t (suc k) (c ∷ s) b = omega (arith, length-replace_from t k s (omega arith))
  length-replace_from t zero (c ∷ s) b = elim (Bool-cases (starts_with p (c ∷ s))) [
    | inl e ↦ rw e (
        omega (
          arith,
          filled-length p filled,
          length-append t (replace_from p t (length p - 1) s),
          length-replace_from t (length p - 1) s
              (omega (arith, starts_with-le p (c ∷ s) e, filled-length p filled)),
        ))
    | inr e ↦ rw e (omega (arith, length-replace_from t 0 s (omega arith)))
  ]

  -- A match that is replaced by itself leaves the text as it was.
  replace_from_self : (k : ℕ) (s : Str) → replace_from p p k s ≡ drop k s
  unfolding replace_from
  replace_from_self zero [] = refl
  replace_from_self (suc k) [] = refl
  replace_from_self (suc k) (c ∷ s) = replace_from_self k s
  replace_from_self zero (c ∷ s) = elim (Bool-cases (starts_with p (c ∷ s))) [
    | inl e ↦
        rw (e, replace_from_self (length p - 1) s)
          (subst (λ n. p ++ drop n (c ∷ s) ≡ c ∷ s) (filled-length p filled)
            (starts_with-drop p (c ∷ s) e))
    | inr e ↦ rw (e, replace_from_self 0 s)
  ]

  -- With no match nothing changes.
  replace_from_none :
      (t : Str) (k : ℕ) (s : Str) → count_from p k s ≡ 0 → replace_from p t k s ≡ drop k s
  unfolding replace_from count_from
  replace_from_none t zero [] h = refl
  replace_from_none t (suc k) [] h = refl
  replace_from_none t (suc k) (c ∷ s) h = replace_from_none t k s h
  replace_from_none t zero (c ∷ s) h = ground (arith, replace_from_none t 0 s)

-- An exact replacement succeeds just if the search text is not empty, the expected count is not
-- zero and it is the number of matches; then the result is the body with the matches replaced.
pub exact_replace_iff :
    (body old new : Str) (n : ℕ) (out : Str)
    → (exact_replace body old new n ≡ ok out)
      ↔ ((old ≢ []) × (n ≢ 0) × (count_matches body old ≡ n) × (out ≡ replace body old new))
unfolding exact_replace
exact_replace_iff body [] new n out = (λ h. cc, λ h. absurd (h.0 refl))
exact_replace_iff body (c ∷ old) new n out = ground arith

-- A successful replacement of `n` matches makes the body longer by `n` new texts and shorter by
-- `n` old ones.
pub length-exact_replace :
    (body old new : Str) (n : ℕ) {out : Str}
    → exact_replace body old new n ≡ ok out
    → length out + n * length old ≡ length body + n * length new
unfolding count_matches replace
length-exact_replace body old new n {out} h =
    let (filled, _, counted, result) = (exact_replace_iff body old new n out).0 h in
    omega (
      arith,
      length-replace_from old filled new 0 body (omega arith),
      counted,
      ap (λ (s : Str). length s) result,
      ap (λ (m : ℕ). m * length old) counted,
      ap (λ (m : ℕ). m * length new) counted,
    )

-- Replacing a text by itself gives the body back.
pub exact_replace_self :
    (body old : Str) (n : ℕ) {out : Str} → exact_replace body old old n ≡ ok out → out ≡ body
unfolding replace
exact_replace_self body old n {out} h =
    let (filled, _, _, result) = (exact_replace_iff body old old n out).0 h in
    result ∙ replace_from_self old filled 0 body
