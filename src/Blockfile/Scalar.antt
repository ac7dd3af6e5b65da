-- ===== src/Blockfile/Scalar.antt =====
-- YAML scalars as mkb writes and reads them (`yaml_scalar`, `is_plain_yaml_safe`, `parse_scalar`
-- of crates/mkb-core/src/blockfile.rs).
pub mod RoundTrip
use mkb.Base.{
  ℕ, Bool, true, false, not, ◌&&◌, ◌||◌, [], ◌∷◌, ◌++◌, Option, none, some, ◌==◌, if◌then◌else◌,
  any,
}
use mkb.Text.Chars.{Str, codes, newline, is_control}
use mkb.Text.Strings.{str_eq, strip_prefix, strip_suffix, ends_with, contains_char, contains}
use mkb.Text.Trim.{trim}
use mkb.Text.Replace.{replace}

abbrev pub quote : ℕ
quote = b'"'

abbrev pub apostrophe : ℕ
apostrophe = b'\''

abbrev pub backslash : ℕ
backslash = b'\\'

abbrev pub tab : ℕ
tab = 9

-- The characters that a plain scalar cannot begin with.
abbrev pub indicators : Str
indicators = codes "-?:,[]{}#&*!|>'\"%@`"

unfoldable pub is_plain_yaml_safe : Str → Bool
is_plain_yaml_safe [] = false
is_plain_yaml_safe (first ∷ rest) =
    let s = first ∷ rest in
    if not (str_eq s (trim s))
    then false
    else if contains_char first indicators
    then false
    else if contains (codes ": ") s || ends_with b':' s || contains (codes " #") s
    then false
    else not (any is_control s)

-- What the writer puts for one character inside quotes.
unfoldable pub escape_char : ℕ → Str
escape_char c =
    if c == backslash
    then backslash ∷ backslash ∷ []
    else if c == quote
    then backslash ∷ quote ∷ []
    else if c == newline
    then backslash ∷ b'n' ∷ []
    else if c == tab
    then backslash ∷ b't' ∷ []
    else c ∷ []

unfoldable pub escape : Str → Str
unfolding escape_char
escape [] = []
escape (c ∷ s) = escape_char c ++ escape s

unfoldable pub yaml_scalar : Str → Str
yaml_scalar s = if is_plain_yaml_safe s then s else quote ∷ (escape s ++ quote ∷ [])

-- The character that stands for a backslash and this one.
unfoldable pub unescape_char : ℕ → ℕ
unescape_char c = if c == b'n' then newline else if c == b't' then tab else c

-- The loop over `inner.chars()`; a backslash at the end is dropped.
unfoldable pub unescape : Str → Str
unfolding unescape_char
unescape [] = []
unescape (c ∷ []) = if c == backslash then [] else c ∷ []
unescape (c ∷ d ∷ s) =
    let escaped = unescape_char d ∷ unescape s in
    let plain = c ∷ unescape (d ∷ s) in if c == backslash then escaped else plain

-- `raw.strip_prefix(q).and_then(|r| r.strip_suffix(q))`
unfoldable pub unquote : ℕ → Str → Option Str
unfolding strip_prefix strip_suffix
unquote q raw = elim (strip_prefix (q ∷ []) raw) [ none ↦ none | some r ↦ strip_suffix q r ]

-- `parse_scalar` once its argument is trimmed.
unfoldable pub parse_trimmed : Str → Str
parse_trimmed raw = elim (unquote quote raw) [
  | some inner ↦ unescape inner
  | none ↦ elim (unquote apostrophe raw) [
    | some inner ↦ replace inner (apostrophe ∷ apostrophe ∷ []) (apostrophe ∷ [])
    | none ↦ raw
  ]
]

unfoldable pub parse_scalar : Str → Str
unfolding parse_trimmed
parse_scalar raw = parse_trimmed (trim raw)
