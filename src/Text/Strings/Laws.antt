-- ===== src/Text/Strings/Laws.antt =====
-- Prefixes up to a separator, and suffixes of appended and of trimmed texts.
use mkb.Base.{
  Bool, ℕ, true, ◌≡◌, ◌≢◌, refl, [], ◌∷◌, ◌++◌, none, some, arith, if◌then◌else◌, append_assoc,
  List,
}
use mkb.Text.Chars.{Str, Lacks}
use mkb.Text.Strings.{str_eq, strip_prefix, strip_suffix, concat, split_once}
use mkb.Text.Trim.{keep_end, trim_end_matches}

-- Up to a separator that neither has, a prefix test is an equality test.
pub strip_prefix-key :
    (d : ℕ) (p k r : Str)
    → Lacks d p
    → Lacks d k
    → strip_prefix (p ++ d ∷ []) (k ++ d ∷ r) ≡ (if str_eq p k then some r else none)
unfolding strip_prefix str_eq
strip_prefix-key d [] [] r hp hk = ground arith
strip_prefix-key d [] (c ∷ k) r hp hk = ground arith
strip_prefix-key d (c ∷ p) [] r hp hk = ground arith
strip_prefix-key d (c ∷ p) (c' ∷ k) r hp hk = ground (arith, strip_prefix-key d p k r)

pub split_once-append : (d : ℕ) (k r : Str) → Lacks d k → split_once d (k ++ d ∷ r) ≡ some (k, r)
unfolding split_once
split_once-append d [] r h = ground arith
split_once-append d (c ∷ k) r h = ground (arith, split_once-append d k r)

pub strip_suffix-append-none :
    (d : ℕ) (s t : Str) → t ≢ [] → strip_suffix d t ≡ none → strip_suffix d (s ++ t) ≡ none
unfolding strip_suffix
strip_suffix-append-none d [] t h e = e
strip_suffix-append-none d (c ∷ []) [] h e = absurd (h refl)
strip_suffix-append-none d (c ∷ []) (c' ∷ t) h e = rw e
strip_suffix-append-none d (c ∷ c' ∷ s) t h e = rw (strip_suffix-append-none d (c' ∷ s) t h e)

-- A text whose end is trimmed has no suffix that trimming takes away.
pub strip_suffix_trimmed :
    (p : ℕ → Bool) (d : ℕ) (s : Str)
    → p d ≡ true
    → trim_end_matches p s ≡ s
    → strip_suffix d s ≡ none
unfolding strip_suffix trim_end_matches keep_end
strip_suffix_trimmed p d [] h e = refl
strip_suffix_trimmed p d (c ∷ []) h e = ground arith
strip_suffix_trimmed p d (c ∷ c' ∷ s) h e =
    rw (strip_suffix_trimmed p d (c' ∷ s) h (tail_fixed (trim_end_matches p (c' ∷ s)) e))
  where
    tail_fixed : (t : Str) → keep_end p c t ≡ c ∷ c' ∷ s → t ≡ c' ∷ s
    tail_fixed [] k = ground arith
    tail_fixed (a ∷ t) k = ground arith

pub concat-append : (ps qs : List Str) → concat (ps ++ qs) ≡ concat ps ++ concat qs
unfolding concat
concat-append [] qs = refl
concat-append (p ∷ ps) qs = rw (concat-append ps qs, append_assoc)
