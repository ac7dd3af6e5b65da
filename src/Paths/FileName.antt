-- ===== src/Paths/FileName.antt =====
-- A sanitized filename is one component of a safe alphabet.
use mkb.Base.{
  ℕ, Bool, true, false, ◌≡◌, ◌≢◌, refl, ap, [], ◌∷◌, ◌++◌, map, Option, none, some, Bool-cases, inl,
  inr, arith, if◌then◌else◌, All, All-append,
}
use mkb.Text.Chars.{Str, codes, is_ascii_alphanumeric}
use mkb.Text.Strings.{is_empty}
use mkb.Text.Trim.{trim, trim_matches, trim_start_matches, trim_end_matches, keep_end}
use mkb.Paths.{
  is_name_char, is_edge, clean_name, last_component, forward_slashes, stem_and_ext, with_ext,
  sanitize_asset_filename,
}

abbrev pub AllName : Str → Type 0
AllName = All (λ c. is_name_char c ≡ true)

-- The name begins with a character that is no dot and no dash.
abbrev pub HeadIsPlain : Str → Type 0
HeadIsPlain [] = ⊥
HeadIsPlain (c ∷ s) = is_edge c ≡ false

module _ (P : ℕ → Type 0) (p : ℕ → Bool) where
  All-trim_start_matches : (s : Str) → All P s → All P (trim_start_matches p s)
  unfolding trim_start_matches
  All-trim_start_matches [] h = tt
  All-trim_start_matches (c ∷ s) (h, hs) = elim (Bool-cases (p c)) [
    | inl e ↦ rw e (All-trim_start_matches s hs)
    | inr e ↦ rw e (h, hs)
  ]

  All-keep_end : (c : ℕ) (s : Str) → P c → All P s → All P (keep_end p c s)
  unfolding keep_end
  All-keep_end c [] h hs = elim (Bool-cases (p c)) [ inl e ↦ rw e tt | inr e ↦ rw e (h, tt) ]
  All-keep_end c (d ∷ s) h hs = (h, hs)

  All-trim_end_matches : (s : Str) → All P s → All P (trim_end_matches p s)
  unfolding trim_end_matches
  All-trim_end_matches [] h = tt
  All-trim_end_matches (c ∷ s) (h, hs) =
      All-keep_end c (trim_end_matches p s) h (All-trim_end_matches s hs)

-- What trimming at both ends leaves does not begin with a trimmed character.
trimmed_head :
    (c : ℕ) (s : Str) → is_edge c ≡ false → HeadIsPlain (trim_end_matches is_edge (c ∷ s))
unfolding trim_end_matches keep_end
trimmed_head c s h = kept (trim_end_matches is_edge s)
  where
    kept : (t : Str) → HeadIsPlain (keep_end is_edge c t)
    kept [] = rw h h
    kept (d ∷ t) = h

trim_matches-head : (s : Str) → trim_matches is_edge s ≢ [] → HeadIsPlain (trim_matches is_edge s)
unfolding trim_matches trim_start_matches
trim_matches-head [] n = absurd (n (unfold trim_end_matches in refl))
trim_matches-head (c ∷ s) n = elim (Bool-cases (is_edge c)) [
  | inl e ↦ rw e (trim_matches-head s (rw e at n))
  | inr e ↦ rw e (trimmed_head c s e)
]

name_chars : (s : Str) → AllName (map (λ c. if is_name_char c then c else b'-') s)
unfolding is_name_char
name_chars [] = tt
name_chars (c ∷ s) = (ground arith, name_chars s)

clean_name-AllName : (s : Str) → AllName (clean_name s)
unfolding clean_name trim_matches
clean_name-AllName s =
    All-trim_end_matches _ is_edge _ (All-trim_start_matches _ is_edge _ (name_chars s))

clean_name-head : (s : Str) → is_empty (clean_name s) ≡ false → HeadIsPlain (clean_name s)
unfolding clean_name
clean_name-head s h = trim_matches-head _ (λ e. ground (arith, ap is_empty e))

abbrev pub IsFileName : Str → Type 0
IsFileName s = AllName s × HeadIsPlain s

file_IsFileName : IsFileName (codes "file")
unfolding is_name_char is_ascii_alphanumeric
file_IsFileName = ((refl, (refl, (refl, (refl, tt)))), refl)

stem_IsFileName :
    (s : Str) → IsFileName (if is_empty (clean_name s) then codes "file" else clean_name s)
stem_IsFileName s = elim (Bool-cases (is_empty (clean_name s))) [
  | inl e ↦ rw e file_IsFileName
  | inr e ↦ rw e (clean_name-AllName s, clean_name-head s e)
]

IsFileName-append : (s t : Str) → IsFileName s → AllName t → IsFileName (s ++ t)
IsFileName-append [] t h k = absurd h.1
IsFileName-append (c ∷ s) t h k = (All-append _ (c ∷ s) t h.0 k, h.1)

dot_name : is_name_char b'.' ≡ true
unfolding is_name_char is_ascii_alphanumeric
dot_name = refl

with_ext-IsFileName : (s : Str) (ext : Option Str) → IsFileName s → IsFileName (with_ext s ext)
unfolding with_ext
with_ext-IsFileName s none h = h
with_ext-IsFileName s (some e) h = elim (Bool-cases (is_empty (clean_name e))) [
  | inl k ↦ rw k h
  | inr k ↦ rw k (IsFileName-append s (b'.' ∷ clean_name e) h (dot_name, clean_name-AllName e))
]

-- Whatever name a caller supplies, the filename has letters, digits, dots, underscores and dashes
-- alone, and begins with a letter, a digit or an underscore: it has no separator, and it is
-- neither empty, nor `.`, nor `..`, nor hidden.
pub sanitize_asset_filename-IsFileName : (name : Str) → IsFileName (sanitize_asset_filename name)
unfolding sanitize_asset_filename
sanitize_asset_filename-IsFileName name =
    let base = trim (last_component (forward_slashes name)) in
    with_ext-IsFileName _ (stem_and_ext base).1 (stem_IsFileName (stem_and_ext base).0)
