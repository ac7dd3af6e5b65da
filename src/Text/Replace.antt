-- ===== src/Text/Replace.antt =====
-- `s.replace(p, t)` and `s.matches(p).count()` for a pattern that is not empty: the matches are
-- taken from the left and do not overlap.
use mkb.Base.{ℕ, zero, suc, ◌-◌, [], ◌∷◌, ◌++◌, if◌then◌else◌, length}
use mkb.Text.Chars.{Str}
use mkb.Text.Strings.{starts_with}

module _ (p : Str) where
  -- The first number counts the characters of a match that are still to be passed over.
  unfoldable pub replace_from : Str → ℕ → Str → Str
  replace_from t k [] = []
  replace_from t (suc k) (c ∷ s) = replace_from t k s
  replace_from t zero (c ∷ s) =
      let matched = replace_from t (length p - 1) s in
      let unmatched = replace_from t 0 s in
      if starts_with p (c ∷ s) then t ++ matched else c ∷ unmatched

  unfoldable pub count_from : ℕ → Str → ℕ
  count_from k [] = 0
  count_from (suc k) (c ∷ s) = count_from k s
  count_from zero (c ∷ s) =
      let matched = count_from (length p - 1) s in
      let unmatched = count_from 0 s in if starts_with p (c ∷ s) then suc matched else unmatched

-- The text, the pattern and what replaces it.
unfoldable pub replace : Str → Str → Str → Str
unfolding replace_from
replace s p t = replace_from p t 0 s

unfoldable pub count_matches : Str → Str → ℕ
unfolding count_from
count_matches s p = count_from p 0 s
