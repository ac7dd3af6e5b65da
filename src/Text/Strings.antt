-- ===== src/Text/Strings.antt =====
-- Equality, prefixes, suffixes and search.
pub mod Laws
use mathlib.Core.Option
use mkb.Base.{
  List, ℕ, ◌+◌, ◌≡◌, refl, Bool, true, false, ◌&&◌, ◌||◌, [], ◌∷◌, ◌++◌, map, Option, none, some,
  arith, ◌==◌, ==_refl, if◌then◌else◌, any,
}
use mkb.Text.Chars.{Str, to_ascii_lowercase, len_utf8, is_whitespace}

unfoldable pub str_eq : Str → Str → Bool
str_eq [] [] = true
str_eq [] (d ∷ t) = false
str_eq (c ∷ s) [] = false
str_eq (c ∷ s) (d ∷ t) = c == d && str_eq s t

pub str_eq_sound : (s t : Str) → str_eq s t ≡ true → s ≡ t
unfolding str_eq
str_eq_sound [] [] h = refl
str_eq_sound [] (d ∷ t) h = ground arith
str_eq_sound (c ∷ s) [] h = ground arith
str_eq_sound (c ∷ s) (d ∷ t) h = ground (arith, str_eq_sound s t)

pub str_eq_refl : (s : Str) → str_eq s s ≡ true
unfolding str_eq
str_eq_refl [] = refl
str_eq_refl (c ∷ s) = ground (arith, str_eq_refl s)

-- `s.len()`: the bytes of the text.
unfoldable pub byte_len : Str → ℕ
byte_len [] = 0
byte_len (c ∷ s) = len_utf8 c + byte_len s

-- `s.eq_ignore_ascii_case(t)`
unfoldable pub eq_ignore_ascii_case : Str → Str → Bool
eq_ignore_ascii_case s t = str_eq (map to_ascii_lowercase s) (map to_ascii_lowercase t)

-- `s.strip_prefix(p)`, the prefix first.
unfoldable pub strip_prefix : Str → Str → Option Str
strip_prefix [] s = some s
strip_prefix (d ∷ p) [] = none
strip_prefix (d ∷ p) (c ∷ s) = if d == c then strip_prefix p s else none

unfoldable pub starts_with : Str → Str → Bool
starts_with [] s = true
starts_with (d ∷ p) [] = false
starts_with (d ∷ p) (c ∷ s) = d == c && starts_with p s

-- `s.strip_suffix(c)` for a character `c`.
unfoldable pub strip_suffix : ℕ → Str → Option Str
strip_suffix d [] = none
strip_suffix d (c ∷ []) = if c == d then some [] else none
strip_suffix d (c ∷ c' ∷ s) = Option.map (λ t. c ∷ t) (strip_suffix d (c' ∷ s))

unfoldable pub ends_with : ℕ → Str → Bool
ends_with d [] = false
ends_with d (c ∷ []) = c == d
ends_with d (c ∷ c' ∷ s) = ends_with d (c' ∷ s)

-- `s.contains(c)` for a character, and for a text.
unfoldable pub contains_char : ℕ → Str → Bool
contains_char d = any (λ c. c == d)

unfoldable pub contains : Str → Str → Bool
contains p [] = starts_with p []
contains p (c ∷ s) = starts_with p (c ∷ s) || contains p s

-- `s.split_once(c)`, and the two parts that `s.find(c)` cuts.
unfoldable pub split_once : ℕ → Str → Option (Str × Str)
split_once d [] = none
split_once d (c ∷ s) =
    if c == d
    then some ([], s)
    else Option.map (λ ((a, b) : Str × Str). (c ∷ a, b)) (split_once d s)

-- `s.rsplit_once(c)`: the cut is at the last occurrence.
unfoldable pub rsplit_once : ℕ → Str → Option (Str × Str)
rsplit_once d [] = none
rsplit_once d (c ∷ s) = elim (rsplit_once d s) [
  | some (a, b) ↦ some (c ∷ a, b)
  | none ↦ if c == d then some ([], s) else none
]

pub strip_prefix-append : (p s : Str) → strip_prefix p (p ++ s) ≡ some s
unfolding strip_prefix
strip_prefix-append [] s = refl
strip_prefix-append (d ∷ p) s = rw (==_refl d) (strip_prefix-append p s)

pub strip_suffix-append : (d : ℕ) (s : Str) → strip_suffix d (s ++ d ∷ []) ≡ some s
unfolding strip_suffix
strip_suffix-append d [] = rw (==_refl d)
strip_suffix-append d (c ∷ []) = rw (==_refl d)
strip_suffix-append d (c ∷ c' ∷ s) = rw (strip_suffix-append d (c' ∷ s))

-- The pieces in a row, and `join(sep)`.
unfoldable pub concat : List Str → Str
concat [] = []
concat (p ∷ ps) = p ++ concat ps

unfoldable pub join : Str → List Str → Str
join sep [] = []
join sep (p ∷ []) = p
join sep (p ∷ q ∷ ps) = p ++ (sep ++ join sep (q ∷ ps))

-- `s.is_empty()`
abbrev pub is_empty : Str → Bool
is_empty [] = true
is_empty (c ∷ s) = false

-- `s.split_whitespace().next()`: the first word.
unfoldable pub take_word : Str → Str
take_word [] = []
take_word (c ∷ s) = if is_whitespace c then [] else c ∷ take_word s
