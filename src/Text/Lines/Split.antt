-- ===== src/Text/Lines/Split.antt =====
-- `split(c)`: the pieces of a text, and of joined pieces.
use mkb.Base.{ℕ, ◌≡◌, ◌≢◌, refl, ap, List, [], ◌∷◌, ◌++◌, Bool-cases, inl, inr, arith, ◌==◌, All}
use mkb.Text.Chars.{Str, Lacks}
use mkb.Text.Strings.{join}
use mkb.Text.Lines.{split, join_first}

pub split-append : (d : ℕ) (l r : Str) → Lacks d l → split d (l ++ d ∷ r) ≡ l ∷ split d r
unfolding split
split-append d [] r h = ground arith
split-append d (c ∷ l) r h = ground (arith, split-append d l r)

pub split_whole : (d : ℕ) (l : Str) → Lacks d l → split d l ≡ l ∷ []
unfolding split
split_whole d [] h = refl
split_whole d (c ∷ l) h = ground (arith, split_whole d l)

-- The pieces between the separators do not have it.
Lacks-join_first :
    (d c : ℕ) (ls : List Str) → c ≢ d → All (Lacks d) ls → All (Lacks d) (join_first c ls)
Lacks-join_first d c [] n h = ((n, tt), tt)
Lacks-join_first d c (l ∷ ls) n (h, hs) = ((n, h), hs)

pub Lacks-split : (d : ℕ) (s : Str) → All (Lacks d) (split d s)
unfolding split
Lacks-split d [] = (tt, tt)
Lacks-split d (c ∷ s) = elim (Bool-cases (c == d)) [
  | inl e ↦ rw e (tt, Lacks-split d s)
  | inr e ↦ rw e (Lacks-join_first d c (split d s) (ground arith) (Lacks-split d s))
]

pub split-join :
    (d : ℕ) (c : Str) (cs : List Str)
    → All (Lacks d) (c ∷ cs)
    → split d (join (d ∷ []) (c ∷ cs)) ≡ c ∷ cs
unfolding join
split-join d c [] (h, hs) = split_whole d c h
split-join d c (c' ∷ cs) (h, hs) =
    rw (split-append d c (join (d ∷ []) (c' ∷ cs)) h)
      (ap (λ (ls : List Str). c ∷ ls) (split-join d c' cs hs))
