-- ===== src/Text/Lines/Laws.antt =====
-- Lines that are written one after the other are read back.
use mkb.Base.{ℕ, ◌≡◌, refl, [], ◌∷◌, ◌++◌, none, arith, List, map, All, append_assoc, append-nil}
use mkb.Text.Chars.{Str, Lacks, newline, carriage_return}
use mkb.Text.Strings.{strip_suffix, strip_suffix-append, concat}
use mkb.Text.Lines.{split_inclusive, strip_eol, lines, join_first}

abbrev pub end_line : Str → Str
end_line l = l ++ newline ∷ []

-- The lines in a row, each with its newline.
unfoldable pub unlines : List Str → Str
unfolding concat
unlines ls = concat (map end_line ls)

-- A text that is one line, and does not end in a carriage return.
abbrev pub IsLine : Str → Type 0
IsLine l = Lacks newline l × (strip_suffix carriage_return l ≡ none)

pub split_inclusive-line :
    (l rest : Str)
    → Lacks newline l
    → split_inclusive (l ++ newline ∷ rest) ≡ end_line l ∷ split_inclusive rest
unfolding split_inclusive
split_inclusive-line [] rest h = refl
split_inclusive-line (c ∷ l) rest h = ground (arith, split_inclusive-line l rest)

concat-join_first : (c : ℕ) (ps : List Str) → concat (join_first c ps) ≡ c ∷ concat ps
unfolding concat
concat-join_first c [] = refl
concat-join_first c (p ∷ ps) = refl

concat-cons : (p : Str) (ps : List Str) → concat (p ∷ ps) ≡ p ++ concat ps
unfolding concat
concat-cons p ps = refl

pub concat-split_inclusive : (s : Str) → concat (split_inclusive s) ≡ s
unfolding split_inclusive
concat-split_inclusive [] = unfold concat in refl
concat-split_inclusive (c ∷ s) = ground (
  arith,
  concat-cons (c ∷ []) (split_inclusive s),
  concat-join_first c (split_inclusive s),
  concat-split_inclusive s,
)

strip_eol-end_line : (l : Str) → strip_suffix carriage_return l ≡ none → strip_eol (end_line l) ≡ l
unfolding strip_eol
strip_eol-end_line l h = ground (arith, strip_suffix-append newline l)

pub split_inclusive-unlines :
    (ls : List Str) (rest : Str)
    → All IsLine ls
    → split_inclusive (unlines ls ++ rest) ≡ map end_line ls ++ split_inclusive rest
unfolding unlines
split_inclusive-unlines [] rest h = refl
split_inclusive-unlines (l ∷ ls) rest ((hl, _), hs) =
    rw (append_assoc, append_assoc, split_inclusive-line l _ hl, split_inclusive-unlines ls rest hs)

map-strip_eol : (ls : List Str) → All IsLine ls → map strip_eol (map end_line ls) ≡ ls
map-strip_eol [] h = refl
map-strip_eol (l ∷ ls) ((_, hl), hs) = rw (strip_eol-end_line l hl, map-strip_eol ls hs)

pub lines-unlines : (ls : List Str) → All IsLine ls → lines (unlines ls) ≡ ls
unfolding lines
lines-unlines ls h =
    rw (← append-nil (unlines ls), split_inclusive-unlines ls [] h, append-nil) (map-strip_eol ls h)
