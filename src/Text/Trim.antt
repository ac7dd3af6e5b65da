-- ===== src/Text/Trim.antt =====
-- `trim` and its relatives.
pub mod Laws
use mkb.Base.{ℕ, Bool, ◌≡◌, refl, List, [], ◌∷◌, if◌then◌else◌}
use mkb.Text.Chars.{Str, is_whitespace}

-- `s.trim_start_matches(p)` and `s.trim_end_matches(p)`
module _ (p : ℕ → Bool) where
  unfoldable pub trim_start_matches : Str → Str
  trim_start_matches [] = []
  trim_start_matches (c ∷ s) = if p c then trim_start_matches s else c ∷ s

  -- The last part of a text with its end trimmed stays if something stays behind it.
  unfoldable pub keep_end : ℕ → Str → Str
  keep_end c [] = if p c then [] else c ∷ []
  keep_end c (d ∷ s) = c ∷ d ∷ s

  unfoldable pub trim_end_matches : Str → Str
  unfolding keep_end
  trim_end_matches [] = []
  trim_end_matches (c ∷ s) = keep_end c (trim_end_matches s)

  unfoldable pub trim_matches : Str → Str
  unfolding trim_start_matches trim_end_matches
  trim_matches s = trim_end_matches (trim_start_matches s)

unfoldable pub trim_start : Str → Str
unfolding trim_start_matches
trim_start = trim_start_matches is_whitespace

unfoldable pub trim_end : Str → Str
unfolding trim_end_matches
trim_end = trim_end_matches is_whitespace

unfoldable pub trim : Str → Str
unfolding trim_start trim_end
trim s = trim_end (trim_start s)
