-- ===== src/Text/Trim/Laws.antt =====
-- Trimming a text that has nothing to trim, and the end of an appended text.
use mkb.Base.{
  ◌∙◌, All, ℕ, Bool, true, false, ◌≡◌, ◌≢◌, refl, [], ◌∷◌, ◌++◌, ◌≤◌, suc, inl, inr, ap, arith,
  Bool-cases, length, if◌then◌else◌,
}
use mkb.Text.Chars.{Str, is_whitespace}
use mkb.Text.Trim.{trim_start_matches, keep_end, trim_end_matches, trim_start, trim_end, trim}

module _ (p : ℕ → Bool) where
  keep_end-ne-nil : (c : ℕ) (s : Str) → s ≢ [] → keep_end p c s ≡ c ∷ s
  unfolding keep_end
  keep_end-ne-nil c [] h = absurd (h refl)
  keep_end-ne-nil c (d ∷ s) h = refl

  pub trim_end_matches-append :
      (s t : Str) → t ≢ [] → trim_end_matches p t ≡ t → trim_end_matches p (s ++ t) ≡ s ++ t
  unfolding trim_end_matches
  trim_end_matches-append [] t h e = e
  trim_end_matches-append (c ∷ []) t h e = rw (e, keep_end-ne-nil c t h)
  trim_end_matches-append (c ∷ d ∷ s) t h e =
      rw (trim_end_matches-append (d ∷ s) t h e, keep_end-ne-nil c (d ∷ s ++ t) (cc))

  pub trim_end_matches-last :
      (s : Str) (d : ℕ) → p d ≡ false → trim_end_matches p (s ++ d ∷ []) ≡ s ++ d ∷ []
  unfolding trim_end_matches
  trim_end_matches-last s d h = trim_end_matches-append s (d ∷ []) (cc) (unfold keep_end in rw h)

  length-keep_end : (c : ℕ) (s : Str) → length (keep_end p c s) ≤ suc (length s)
  unfolding keep_end
  length-keep_end c [] = ground arith
  length-keep_end c (d ∷ s) = omega arith

  pub length-trim_end_matches : (s : Str) → length (trim_end_matches p s) ≤ length s
  unfolding trim_end_matches
  length-trim_end_matches [] = omega arith
  length-trim_end_matches (c ∷ s) =
      omega (arith, length-keep_end c (trim_end_matches p s), length-trim_end_matches s)

  pub length-trim_start_matches : (s : Str) → length (trim_start_matches p s) ≤ length s
  unfolding trim_start_matches
  length-trim_start_matches [] = omega arith
  length-trim_start_matches (c ∷ s) = ground (arith, length-trim_start_matches s)

module _ (p : ℕ → Bool) where
  -- Nothing is trimmed where no character passes the test.
  pub trim_end_matches_none : (s : Str) → All (λ c. p c ≡ false) s → trim_end_matches p s ≡ s
  unfolding trim_end_matches
  trim_end_matches_none [] h = refl
  trim_end_matches_none (c ∷ []) (hc, hs) = unfold keep_end in rw hc
  trim_end_matches_none (c ∷ d ∷ s) (hc, hs) =
      unfold keep_end in rw (trim_end_matches_none (d ∷ s) hs)

  pub trim_start_matches_none : (s : Str) → All (λ c. p c ≡ false) s → trim_start_matches p s ≡ s
  unfolding trim_start_matches
  trim_start_matches_none [] h = refl
  trim_start_matches_none (c ∷ s) (hc, hs) = rw hc

  -- A character that passes the test goes from the end.
  pub trim_end_matches_drop :
      (s : Str) (d : ℕ) → p d ≡ true → trim_end_matches p (s ++ d ∷ []) ≡ trim_end_matches p s
  unfolding trim_end_matches
  trim_end_matches_drop [] d h = unfold keep_end in rw h
  trim_end_matches_drop (c ∷ s) d h = ap (keep_end p c) (trim_end_matches_drop s d h)

-- A text that `trim` leaves alone does not begin with white space.
pub trim-head : (c : ℕ) (s : Str) → trim (c ∷ s) ≡ c ∷ s → is_whitespace c ≡ false
unfolding trim trim_start_matches
trim-head c s h = elim (Bool-cases (is_whitespace c)) [ inr e ↦ e | inl e ↦ absurd (longer e) ]
  where
    shorter : length (trim (c ∷ s)) ≤ length (trim_start (c ∷ s))
    shorter = length-trim_end_matches is_whitespace (trim_start (c ∷ s))

    longer : is_whitespace c ≡ true → ⊥
    longer e = omega (
      arith,
      shorter,
      ap length h,
      (ap (λ (b : Bool). length (if b then trim_start_matches is_whitespace s else c ∷ s)) e),
      length-trim_start_matches is_whitespace s,
    )

pub trim_start-head : (c : ℕ) (s : Str) → is_whitespace c ≡ false → trim_start (c ∷ s) ≡ c ∷ s
unfolding trim_start
trim_start-head c s h = rw h

-- A text with an unblank first character whose end is fixed is fixed.
pub trim_fixed :
    (c : ℕ) (s : Str) → is_whitespace c ≡ false → trim_end (c ∷ s) ≡ c ∷ s → trim (c ∷ s) ≡ c ∷ s
unfolding trim
trim_fixed c s h e = rw (trim_start-head c s h) e

pub trim_end_fixed : (c : ℕ) (s : Str) → trim (c ∷ s) ≡ c ∷ s → trim_end (c ∷ s) ≡ c ∷ s
unfolding trim
trim_end_fixed c s h = rw (trim_start-head c s (trim-head c s h)) at h

-- Blanks in front make no difference.
pub trim_blank : (c : ℕ) (s : Str) → is_whitespace c ≡ true → trim (c ∷ s) ≡ trim s
unfolding trim trim_start_matches
trim_blank c s h = rw h

module _ (p : ℕ → Bool) where
  keep_end_fixed :
      (c : ℕ) (t : Str)
      → trim_end_matches p t ≡ t
      → trim_end_matches p (keep_end p c t) ≡ keep_end p c t
  unfolding trim_end_matches keep_end
  keep_end_fixed c [] h = ground arith
  keep_end_fixed c (d ∷ t) h = rw h

  pub trim_end_matches_idem :
      (s : Str) → trim_end_matches p (trim_end_matches p s) ≡ trim_end_matches p s
  unfolding trim_end_matches
  trim_end_matches_idem [] = refl
  trim_end_matches_idem (c ∷ s) = keep_end_fixed c (trim_end_matches p s) (trim_end_matches_idem s)

  -- With a first character that stays, trimming the end leaves it in place.
  trim_end_matches_head :
      (c : ℕ) (s : Str)
      → p c ≡ false
      → trim_start_matches p (trim_end_matches p (c ∷ s)) ≡ trim_end_matches p (c ∷ s)
  unfolding trim_start_matches trim_end_matches keep_end
  trim_end_matches_head c s h = head (trim_end_matches p s)
    where
      head : (t : Str) → trim_start_matches p (keep_end p c t) ≡ keep_end p c t
      head [] = ground arith
      head (d ∷ t) = rw h

  pub trim_matches_start :
      (s : Str)
      → trim_start_matches p (trim_end_matches p (trim_start_matches p s))
        ≡ trim_end_matches p (trim_start_matches p s)
  unfolding trim_start_matches
  trim_matches_start [] = unfold trim_end_matches in refl
  trim_matches_start (c ∷ s) = elim (Bool-cases (p c)) [
    | inl e ↦ rw e (trim_matches_start s)
    | inr e ↦ rw e (trim_end_matches_head c s e)
  ]

pub trim_idem : (s : Str) → trim (trim s) ≡ trim s
unfolding trim
trim_idem s =
    ap (trim_end_matches is_whitespace) (trim_matches_start is_whitespace s)
    ∙ trim_end_matches_idem is_whitespace (trim_start s)
