-- ===== src/Blockfile/RoundTrip/Fields.antt =====
-- The scalar fields: title, `updated:` and `locked:`.
use mkb.Base.{
  Bool-cases, true, false, ◌≡◌, ◌≢◌, refl, ap, List, [], ◌∷◌, ◌++◌, none, some, arith, inl, inr,
  All, ◌∙◌,
}
use mkb.Text.Chars.{Str, codes, space, is_whitespace}
use mkb.Text.Strings.{str_eq, str_eq_refl, str_eq_sound}
use mkb.Text.Trim.Laws.{trim_blank}
use mkb.Blockfile.Scalar.{unquote, yaml_scalar, parse_scalar, parse_trimmed}
use mkb.Blockfile.Scalar.RoundTrip.{parse_scalar-yaml_scalar}
use mkb.Text.Runs.{text_code}
use mkb.Blockfile.Keys.{locked_key, is_prop_key, is_managed_key}
use mkb.Blockfile.Read.{field_of, named_scalar, locked_in, is_truthy}
use mkb.Blockfile.RoundTrip.Entries.{Entry, line_of, IsEntry, field_of-line_of}
use mkb.Blockfile.RoundTrip.Shape.{entry_lines}

-- None of the entries has this key.
abbrev pub Other : Str → List Entry → Type 0
Other key = All (λ (e : Entry). str_eq key e.0 ≡ false)

pub managed_other :
    (key k : Str) → is_managed_key key ≡ true → is_managed_key k ≡ false → str_eq key k ≡ false
managed_other key k hm hk = elim (Bool-cases (str_eq key k)) [
  | inr e ↦ e
  | inl e ↦ absurd (ground (arith, ap is_managed_key (str_eq_sound key k e)))
]

-- A reader that passes over the lines that are not its field passes over entries with other keys.
module _ {A : Type 0} (key : Str) (hk : is_prop_key key ≡ true) (read : List Str → A)
    (skips : (line : Str) (rest : List Str)
      → field_of key line ≡ none
      → read (line ∷ rest) ≡ read rest) where
  pub read-skip :
      (es : List Entry) (rest : List Entry)
      → All IsEntry es
      → Other key es
      → read (entry_lines (es ++ rest)) ≡ read (entry_lines rest)
  read-skip [] rest h o = refl
  read-skip (e ∷ es) rest (he, hs) (o, os) =
      skips (line_of e) _ (rw (field_of-line_of key e hk he, o)) ∙ read-skip es rest hs os

pub named_scalar_skips :
    (key line : Str) (rest : List Str)
    → field_of key line ≡ none
    → named_scalar key (line ∷ rest) ≡ named_scalar key rest
unfolding named_scalar
named_scalar_skips key line rest h = rw (h, named_scalar)

pub locked_in_skips :
    (line : Str) (rest : List Str)
    → field_of locked_key line ≡ none
    → locked_in (line ∷ rest) ≡ locked_in rest
unfolding locked_in
locked_in_skips line rest h = rw (h, locked_in)

parse_scalar_blank : (r : Str) → parse_scalar (space ∷ r) ≡ parse_scalar r
unfolding parse_scalar is_whitespace
parse_scalar_blank r = ap parse_trimmed (trim_blank space r refl)

pub parse_scalar-space : (s : Str) → parse_scalar (space ∷ yaml_scalar s) ≡ s
parse_scalar-space s = parse_scalar_blank (yaml_scalar s) ∙ parse_scalar-yaml_scalar s

pub field_of_self :
    (key r : Str) → IsEntry (key, r) → field_of key (line_of (key, r)) ≡ some (space ∷ r)
field_of_self key r h = rw (field_of-line_of key (key, r) h.key h, str_eq_refl key)

pub named_scalar_hit :
    (key t : Str) (rest : List Str)
    → IsEntry (key, yaml_scalar t)
    → t ≢ []
    → named_scalar key (line_of (key, yaml_scalar t) ∷ rest) ≡ some t
unfolding named_scalar
named_scalar_hit key [] rest h n = absurd (n refl)
named_scalar_hit key (c ∷ t) rest h n =
    rw (field_of_self key (yaml_scalar (c ∷ t)) h, named_scalar)
      (rw (parse_scalar-space (c ∷ t), named_scalar))

pub locked_in_hit :
    (rest : List Str)
    → IsEntry (locked_key, codes "true")
    → locked_in (line_of (locked_key, codes "true") ∷ rest) ≡ true
unfolding locked_in
locked_in_hit rest h =
    rw (field_of_self locked_key (codes "true") h, locked_in)
      (unfold is_truthy text_code parse_scalar unquote in refl)
