-- ===== src/Paths/Confined.antt =====
-- An accepted path stays inside the vault.
use mkb.Base.{
  ◌||◌, subst, ℕ, false, ◌≡◌, ◌≢◌, ap, sym, List, [], ◌∷◌, Result, ok, err, ◌>>=◌, Bool-cases, inl,
  inr, arith, All,
}
use mkb.Text.Chars.{Str, Lacks}
use mkb.Text.Strings.{str_eq, str_eq_refl, contains_char, starts_with, is_empty}
use mkb.Text.Trim.{trim}
use mkb.Text.Lines.Split.{split-join, Lacks-split}
use mkb.Text.Lines.{split}
use mkb.Paths.{
  slash, dot, dot_dot, PathError, forward_slashes, components, joined, safe_relative_path,
}

-- A component that names an entry of its directory.
pub record IsPlain (c : Str) : Type 0 where
  pub filled : c ≢ []
  pub not_dot : c ≢ dot
  pub not_dot_dot : c ≢ dot_dot
  pub no_colon : Lacks b':' c
  pub no_slash : Lacks slash c

contains_char-Lacks : (d : ℕ) (s : Str) → contains_char d s ≡ false → Lacks d s
unfolding contains_char
contains_char-Lacks d [] h = tt
contains_char-Lacks d (c ∷ s) h = (ground arith, contains_char-Lacks d s (ground arith))

refused : (c d : Str) → str_eq c d ≡ false → c ≢ d
refused c d h p = ground (arith, ap (str_eq c) p, str_eq_refl c)

filled_of : (c : Str) → is_empty c ≡ false → c ≢ []
filled_of [] h = ground arith
filled_of (x ∷ c) h = cc

-- What is said of the value of a computation that succeeds.
abbrev OnOk {ℓ} : {E A : Type 0} → (A → Type ℓ) → Result E A → Type ℓ
OnOk P (ok a) = P a
OnOk P (err e) = Unit

OnOk-cons :
    (c : Str) (r : Result PathError (List Str))
    → IsPlain c
    → OnOk (All IsPlain) r
    → OnOk (All IsPlain) (r >>= λ clean. ok (c ∷ clean))
OnOk-cons c (ok cs) h hs = (h, hs)
OnOk-cons c (err e) h hs = tt

IsPlain-of :
    (c : Str)
    → (is_empty c || str_eq c dot) ≡ false
    → str_eq c dot_dot ≡ false
    → contains_char b':' c ≡ false
    → Lacks slash c
    → IsPlain c
IsPlain-of c p q r h = record {
  filled = filled_of c (ground arith);
  not_dot = refused c dot (ground arith);
  not_dot_dot = refused c dot_dot q;
  no_colon = contains_char-Lacks b':' c r;
  no_slash = h;
}

components-IsPlain :
    (rel : Str) (cs : List Str) → All (Lacks slash) cs → OnOk (All IsPlain) (components rel cs)
unfolding components
components-IsPlain rel [] h = tt
components-IsPlain rel (c ∷ cs) (h, hs) = elim (Bool-cases (is_empty c || str_eq c dot)) [
  | inl p ↦ rw p (components-IsPlain rel cs hs)
  | inr p ↦ rw p (elim (Bool-cases (str_eq c dot_dot)) [
    | inl q ↦ rw q tt
    | inr q ↦ rw q (elim (Bool-cases (contains_char b':' c)) [
      | inl r ↦ rw r tt
      | inr r ↦
          rw r
            (OnOk-cons c (components rel cs) (IsPlain-of c p q r h) (components-IsPlain rel cs hs))
    ])
  ])
]

-- The components of a joined path are those that were joined.
joined-IsPlain :
    (rel : Str) (cs : List Str)
    → All IsPlain cs
    → OnOk (λ p. All IsPlain (split slash p)) (joined rel cs)
unfolding joined
joined-IsPlain rel [] h = tt
joined-IsPlain rel (c ∷ cs) h =
    subst (All IsPlain) (sym (split-join slash c cs (no_slashes (c ∷ cs) h))) h
  where
    no_slashes : (ls : List Str) → All IsPlain ls → All (Lacks slash) ls
    no_slashes [] k = tt
    no_slashes (l ∷ ls) (k, ks) = (k.no_slash, no_slashes ls ks)

OnOk-joined :
    (rel : Str) (r : Result PathError (List Str))
    → OnOk (All IsPlain) r
    → OnOk (λ p. All IsPlain (split slash p)) (r >>= joined rel)
OnOk-joined rel (ok cs) h = joined-IsPlain rel cs h
OnOk-joined rel (err e) h = tt

confined : (rel : Str) → OnOk (λ p. All IsPlain (split slash p)) (safe_relative_path rel)
unfolding safe_relative_path
confined rel =
    let trimmed = trim (forward_slashes rel) in
    elim (Bool-cases (is_empty trimmed)) [
      | inl e ↦ rw e tt
      | inr e ↦ rw e (elim (Bool-cases (starts_with (slash ∷ []) trimmed)) [
        | inl a ↦ rw a tt
        | inr a ↦ rw a (
            OnOk-joined rel (components rel (split slash trimmed))
              (components-IsPlain rel (split slash trimmed) (Lacks-split slash trimmed)))
      ])
    ]

-- Every component of an accepted path names an entry of its directory: it is not empty, not `.`
-- and not `..`, and it has no colon. So the path does not leave the directory it is joined to.
pub safe_relative_path-IsPlain :
    (rel : Str) {p : Str} → safe_relative_path rel ≡ ok p → All IsPlain (split slash p)
safe_relative_path-IsPlain rel h = subst (OnOk (λ p. All IsPlain (split slash p))) h (confined rel)
