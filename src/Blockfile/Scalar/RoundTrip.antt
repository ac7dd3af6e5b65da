-- ===== src/Blockfile/Scalar/RoundTrip.antt =====
-- What the writer puts for a scalar is read back as the same text.
use mkb.Base.{
  any, All-append, ℕ, true, false, ◌≡◌, ◌≢◌, refl, [], ◌∷◌, ◌++◌, inl, inr, some, arith, Bool-cases,
}
use mkb.Text.Chars.{newline, is_control, Lacks, Str, is_whitespace}
use mkb.Text.Strings.{str_eq_sound, strip_suffix-append, contains_char}
use mkb.Text.Trim.{trim, trim_end}
use mkb.Text.Trim.Laws.{trim_end_matches-last, trim_fixed}
use mkb.Blockfile.Scalar.{
  quote, backslash, indicators, is_plain_yaml_safe, escape_char, escape, yaml_scalar, unescape,
  unquote, parse_trimmed, parse_scalar,
}

unescape_plain : (c : ℕ) (s : Str) → c ≢ backslash → unescape (c ∷ s) ≡ c ∷ unescape s
unfolding unescape
unescape_plain c [] h = ground arith
unescape_plain c (d ∷ s) h = ground arith

unescape-escape_char : (c : ℕ) (s : Str) → unescape (escape_char c ++ s) ≡ c ∷ unescape s
unfolding escape_char unescape
unescape-escape_char c s = ground (arith, unescape_plain c s)

pub unescape-escape : (s : Str) → unescape (escape s) ≡ s
unfolding escape
unescape-escape [] = unfold unescape in refl
unescape-escape (c ∷ s) = rw (unescape-escape_char c (escape s), unescape-escape s)

-- A plain scalar is its own trim.
pub trim_plain : (s : Str) → is_plain_yaml_safe s ≡ true → trim s ≡ s
unfolding is_plain_yaml_safe
trim_plain [] h = ground arith
trim_plain (c ∷ s) h = ground (arith, str_eq_sound (c ∷ s) (trim (c ∷ s)))

-- It does not begin with an indicator, so it is not taken for a quoted one.
plain_head :
    (c : ℕ) (s : Str) → is_plain_yaml_safe (c ∷ s) ≡ true → contains_char c indicators ≡ false
unfolding is_plain_yaml_safe
plain_head c s h = ground arith

parse_trimmed_plain : (s : Str) → is_plain_yaml_safe s ≡ true → parse_trimmed s ≡ s
unfolding parse_trimmed unquote contains_char
parse_trimmed_plain [] h = refl
parse_trimmed_plain (c ∷ s) h = ground (arith, plain_head c s)

unquote_quoted : (q : ℕ) (s : Str) → unquote q (q ∷ (s ++ q ∷ [])) ≡ some s
unfolding unquote
unquote_quoted q s = ground (arith, strip_suffix-append q s)

parse_trimmed_quoted : (s : Str) → parse_trimmed (quote ∷ (escape s ++ quote ∷ [])) ≡ s
unfolding parse_trimmed
parse_trimmed_quoted s = rw (unquote_quoted quote (escape s), parse_trimmed) (unescape-escape s)

pub trim_quoted : (s : Str) → trim (quote ∷ (s ++ quote ∷ [])) ≡ quote ∷ (s ++ quote ∷ [])
unfolding is_whitespace trim_end
trim_quoted s =
    trim_fixed quote (s ++ quote ∷ []) refl
      (trim_end_matches-last is_whitespace (quote ∷ s) quote refl)

pub trim-yaml_scalar : (s : Str) → trim (yaml_scalar s) ≡ yaml_scalar s
unfolding yaml_scalar
trim-yaml_scalar s = elim (Bool-cases (is_plain_yaml_safe s)) [
  | inl e ↦ rw e (trim_plain s e)
  | inr e ↦ rw e (trim_quoted (escape s))
]

-- Whatever a title or a property value holds, reading what was written for it gives it back.
pub parse_scalar-yaml_scalar : (s : Str) → parse_scalar (yaml_scalar s) ≡ s
unfolding parse_scalar yaml_scalar
parse_scalar-yaml_scalar s = rw trim-yaml_scalar (elim (Bool-cases (is_plain_yaml_safe s)) [
  | inl e ↦ rw e (parse_trimmed_plain s e)
  | inr e ↦ rw e (parse_trimmed_quoted s)
])

pub yaml_scalar-ne-nil : (s : Str) → yaml_scalar s ≢ []
unfolding yaml_scalar is_plain_yaml_safe
yaml_scalar-ne-nil [] h = cc
yaml_scalar-ne-nil (c ∷ s) h = ground arith

no_control-Lacks : (s : Str) → any is_control s ≡ false → Lacks newline s
unfolding is_control
no_control-Lacks [] h = tt
no_control-Lacks (c ∷ s) h = (ground arith, no_control-Lacks s (ground arith))

plain-Lacks : (s : Str) → is_plain_yaml_safe s ≡ true → Lacks newline s
unfolding is_plain_yaml_safe
plain-Lacks [] h = tt
plain-Lacks (c ∷ s) h = no_control-Lacks (c ∷ s) (ground arith)

escape_char-Lacks : (c : ℕ) → Lacks newline (escape_char c)
unfolding escape_char
escape_char-Lacks c = ground arith

escape-Lacks : (s : Str) → Lacks newline (escape s)
unfolding escape
escape-Lacks [] = tt
escape-Lacks (c ∷ s) =
    All-append (λ d. d ≢ newline) (escape_char c) (escape s) (escape_char-Lacks c) (escape-Lacks s)

quoted-Lacks : (s : Str) → Lacks newline (quote ∷ (escape s ++ quote ∷ []))
quoted-Lacks s = (
  omega arith,
  All-append (λ d. d ≢ newline) (escape s) (quote ∷ []) (escape-Lacks s) (omega arith),
)

-- A written scalar stays on its line.
pub yaml_scalar-Lacks : (s : Str) → Lacks newline (yaml_scalar s)
unfolding yaml_scalar
yaml_scalar-Lacks s = elim (Bool-cases (is_plain_yaml_safe s)) [
  | inl e ↦ rw e (plain-Lacks s e)
  | inr e ↦ rw e (quoted-Lacks s)
]
