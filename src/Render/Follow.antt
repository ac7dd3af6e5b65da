-- ===== src/Render/Follow.antt =====
-- Following the link that `relative_link` writes leads to the file that it is for.
use mkb.Base.{
  length-drop, append-nil, ◌==◌, ℕ, zero, suc, ◌-◌, false, ◌≡◌, refl, ap, sym, ◌∙◌, List, [], ◌∷◌,
  ◌++◌, arith, All, if◌then◌else◌, length, take, drop, replicate, Bool-cases, inl, inr,
  append_assoc,
}
use mkb.Text.Chars.{Str, codes, Lacks}
use mkb.Base.{Bool, ◌||◌}
use mkb.Text.Strings.{is_empty, str_eq_refl, str_eq, str_eq_sound, concat, join}
use mkb.Text.Lines.{join_first, split}
use mkb.Text.Lines.Split.{split-append, split-join, Lacks-split}
use mkb.Render.Links.{slash, common_dirs, relative_link}

abbrev pub parent : Str
parent = codes ".."

-- A component that is no name leads nowhere: it is empty or `.`.
abbrev pub is_here : Str → Bool
is_here c = is_empty c || str_eq c (codes ".")

-- From a directory, one component of a path after the other: `..` leads to the directory above.
-- The list has the innermost directory last.
unfoldable pub drop_last : List Str → List Str
drop_last [] = []
drop_last (d ∷ []) = []
drop_last (d ∷ e ∷ ds) = d ∷ drop_last (e ∷ ds)

unfoldable pub follow : List Str → List Str → List Str
unfolding drop_last
follow dirs [] = dirs
follow dirs (c ∷ cs) =
    let stay = follow dirs cs in
    let up = follow (drop_last dirs) cs in
    let down = follow (dirs ++ c ∷ []) cs in
    if is_here c then stay else if str_eq c parent then up else down

-- A path whose components all are names.
abbrev pub IsNamed : List Str → Type 0
IsNamed cs = All (λ c. (is_here c || str_eq c parent) ≡ false) cs

or-left : (a b : Bool) → (a || b) ≡ false → a ≡ false
or-left a b h = ground arith

or-right : (a b : Bool) → (a || b) ≡ false → b ≡ false
or-right a b h = ground arith

follow_names : (dirs cs : List Str) → IsNamed cs → follow dirs cs ≡ dirs ++ cs
unfolding follow
follow_names dirs [] h = sym (append-nil dirs)
follow_names dirs (c ∷ cs) (h, hs) =
    rw (or-left (is_here c) (str_eq c parent) h, or-right (is_here c) (str_eq c parent) h)
      (follow_names (dirs ++ c ∷ []) cs hs ∙ append_assoc dirs (c ∷ []) cs)

drop_last-append :
    (xs : List Str) (y : Str) (ys : List Str) → drop_last (xs ++ y ∷ ys) ≡ xs ++ drop_last (y ∷ ys)
unfolding drop_last
drop_last-append [] y ys = refl
drop_last-append (x ∷ []) y ys = refl
drop_last-append (x ∷ x' ∷ xs) y ys = ap (λ l. x ∷ l) (drop_last-append (x' ∷ xs) y ys)

length-drop_last : (y : Str) (ys : List Str) → length (drop_last (y ∷ ys)) ≡ length ys
unfolding drop_last
length-drop_last y [] = refl
length-drop_last y (z ∷ ys) = ap suc (length-drop_last z ys)

parent_moves : str_eq parent (codes ".") ≡ false
unfolding str_eq
parent_moves = refl

-- As many steps up as there are inner directories.
follow_up :
    (k : ℕ) (xs ys cs : List Str)
    → length ys ≡ k
    → follow (xs ++ ys) (replicate k parent ++ cs) ≡ follow xs cs
unfolding follow
follow_up zero xs [] cs e = ap (λ ds. follow ds cs) (append-nil xs)
follow_up zero xs (y ∷ ys) cs e = ground arith
follow_up (suc k) xs [] cs e = ground arith
follow_up (suc k) xs (y ∷ ys) cs e =
    rw (parent_moves, str_eq_refl parent)
      (ap (λ ds. follow ds (replicate k parent ++ cs)) (drop_last-append xs y ys)
        ∙ follow_up k xs (drop_last (y ∷ ys)) cs (omega (arith, length-drop_last y ys, e)))

take-common_dirs : (ds ts : List Str) → take (common_dirs ds ts) ds ≡ take (common_dirs ds ts) ts
unfolding common_dirs
take-common_dirs [] [] = refl
take-common_dirs [] (t ∷ ts) = refl
take-common_dirs (d ∷ ds) [] = refl
take-common_dirs (d ∷ ds) (t ∷ []) = refl
take-common_dirs (d ∷ ds) (t ∷ u ∷ ts) = elim (Bool-cases (str_eq d t)) [
  | inl e ↦ rw (e) (
      ap (λ x. x ∷ take (common_dirs ds (u ∷ ts)) ds) (str_eq_sound d t e)
      ∙ ap (λ l. t ∷ l) (take-common_dirs ds (u ∷ ts)))
  | inr n ↦ rw (n) refl
]

take-drop : (n : ℕ) (xs : List Str) → take n xs ++ drop n xs ≡ xs
take-drop zero xs = refl
take-drop (suc n) [] = refl
take-drop (suc n) (x ∷ xs) = ap (λ l. x ∷ l) (take-drop n xs)

IsNamed-drop : (n : ℕ) (cs : List Str) → IsNamed cs → IsNamed (drop n cs)
IsNamed-drop zero cs h = h
IsNamed-drop (suc n) [] h = h
IsNamed-drop (suc n) (c ∷ cs) (_, hs) = IsNamed-drop n cs hs

IsNamed-take : (n : ℕ) (cs : List Str) → IsNamed cs → IsNamed (take n cs)
IsNamed-take zero cs h = tt
IsNamed-take (suc n) [] h = tt
IsNamed-take (suc n) (c ∷ cs) (hc, hs) = (hc, IsNamed-take n cs hs)

Lacks-drop : (n : ℕ) (cs : List Str) → All (Lacks slash) cs → All (Lacks slash) (drop n cs)
Lacks-drop zero cs h = h
Lacks-drop (suc n) [] h = h
Lacks-drop (suc n) (c ∷ cs) (_, hs) = Lacks-drop n cs hs

abbrev Filled : List Str → Type 0
Filled [] = ⊥
Filled (c ∷ cs) = Unit

Filled-join_first : (c : ℕ) (ls : List Str) → Filled (join_first c ls)
Filled-join_first c [] = tt
Filled-join_first c (l ∷ ls) = tt

Filled-split : (d : ℕ) (s : Str) → Filled (split d s)
unfolding split
Filled-split d [] = tt
Filled-split d (c ∷ s) = elim (Bool-cases (c == d)) [
  | inl e ↦ rw (e) tt
  | inr n ↦ rw (n) (Filled-join_first c (split d s))
]

-- A component of the target is always left.
Filled-rest : (ds ts : List Str) → Filled ts → Filled (drop (common_dirs ds ts) ts)
unfolding common_dirs
Filled-rest [] ts h = h
Filled-rest (d ∷ ds) [] h = h
Filled-rest (d ∷ ds) (t ∷ []) h = tt
Filled-rest (d ∷ ds) (t ∷ u ∷ ts) h = elim (Bool-cases (str_eq d t)) [
  | inl e ↦ rw (e) (Filled-rest ds (u ∷ ts) tt)
  | inr n ↦ rw (n) tt
]

split-rest :
    (cs : List Str) → Filled cs → All (Lacks slash) cs → split slash (join (slash ∷ []) cs) ≡ cs
split-rest [] f h = absurd f
split-rest (c ∷ cs) f h = split-join slash c cs h

split-ups :
    (k : ℕ) (s : Str)
    → split slash (concat (replicate k (codes "../")) ++ s) ≡ replicate k parent ++ split slash s
unfolding concat
split-ups zero s = refl
split-ups (suc k) s =
    split-append slash parent (concat (replicate k (codes "../")) ++ s) (ground arith)
    ∙ ap (λ l. parent ∷ l) (split-ups k s)

-- The directories of the path of a file.
abbrev pub dirs_of : Str → List Str
dirs_of path = take (length (split slash path) - 1) (split slash path)

-- The link from one file to another, followed from the directory of the first one, which is reached
-- by its path, leads to where the path of the second one leads, if the components of both paths are
-- names: not empty, `.` or `..`.
pub follow-relative_link :
    (from to : Str)
    → IsNamed (split slash from)
    → IsNamed (split slash to)
    → follow (follow [] (dirs_of from)) (split slash (relative_link from to))
      ≡ follow [] (split slash to)
unfolding relative_link
follow-relative_link from to g h =
    let dirs = take (length (split slash from) - 1) (split slash from) in
    let ts = split slash to in
    let n = common_dirs dirs ts in
    ap (λ ds. follow ds (split slash (relative_link from to)))
      (follow_names [] dirs (IsNamed-take (length (split slash from) - 1) (split slash from) g))
    ∙ ap (follow dirs) (
        split-ups (length dirs - n) (join (slash ∷ []) (drop n ts))
        ∙ ap (λ l. replicate (length dirs - n) parent ++ l)
            (split-rest (drop n ts) (Filled-rest dirs ts (Filled-split slash to))
              (Lacks-drop n ts (Lacks-split slash to))))
    ∙ ap (λ ds. follow ds (replicate (length dirs - n) parent ++ drop n ts))
        (sym (take-drop n dirs))
    ∙ follow_up (length dirs - n) (take n dirs) (drop n dirs) (drop n ts) (length-drop n dirs)
    ∙ follow_names (take n dirs) (drop n ts) (IsNamed-drop n ts h)
    ∙ ap (λ l. l ++ drop n ts) (take-common_dirs dirs ts)
    ∙ take-drop n ts
    ∙ sym (follow_names [] ts h)
