-- ===== src/Text/Lines.antt =====
-- `split_inclusive('\n')` and `lines`.
pub mod Laws
pub mod Split
use mkb.Base.{ℕ, List, [], ◌∷◌, map, none, some, ◌==◌, if◌then◌else◌}
use mkb.Text.Chars.{Str, newline, carriage_return}
use mkb.Text.Strings.{strip_suffix}

-- A character in front of the first piece.
abbrev pub join_first : ℕ → List Str → List Str
join_first c [] = (c ∷ []) ∷ []
join_first c (l ∷ ls) = (c ∷ l) ∷ ls

-- The pieces of a text, each with the newline that ends it; the last piece may have none.
unfoldable pub split_inclusive : Str → List Str
split_inclusive [] = []
split_inclusive (c ∷ s) =
    let rest = split_inclusive s in if c == newline then (c ∷ []) ∷ rest else join_first c rest

-- `\n` or `\r\n` at the end of a piece is no part of the line.
unfoldable pub strip_eol : Str → Str
unfolding strip_suffix
strip_eol l = elim (strip_suffix newline l) [
  | none ↦ l
  | some t ↦ elim (strip_suffix carriage_return t) [ none ↦ t | some u ↦ u ]
]

unfoldable pub lines : Str → List Str
unfolding split_inclusive strip_eol
lines s = map strip_eol (split_inclusive s)

-- `s.split(c)`: at least one piece.
module _ (d : ℕ) where
  unfoldable pub split : Str → List Str
  split [] = [] ∷ []
  split (c ∷ s) = let rest = split s in if c == d then [] ∷ rest else join_first c rest
