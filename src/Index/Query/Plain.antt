-- ===== src/Index/Query/Plain.antt =====
-- A query of plain words.
use mkb.Base.{
  ℕ, zero, suc, Bool, true, false, not, ◌&&◌, ◌==◌, ◌≡◌, refl, ap, sym, ◌∙◌, List, [], ◌∷◌, ◌++◌,
  Option, none, some, all, take, length, arith, Bool-cases, inl, inr, if◌then◌else◌, append_assoc,
  append-nil,
}
use mkb.Text.Chars.{Str, codes, to_ascii_lowercase}
use mkb.Text.Strings.{str_eq, contains_char, starts_with, strip_prefix, eq_ignore_ascii_case, join}
use mkb.Block.Views.{words_from}
use mkb.Blockfile.Write.{is_nil}
use mkb.Index.Query.{SearchQuery}
use mkb.Index.Query.Parse.{
  Token, word, operators, strip_ci_prefix, hash_of, operator_of, token_of, add_token, add_tokens,
  default_query, parse_query,
}

-- A word that is no operator: it has no colon and does not begin with `#`.
abbrev pub is_plain : Str → Bool
is_plain w = not (contains_char b':' w) && not (starts_with (codes "#") w)

lower_colon : (c : ℕ) → (to_ascii_lowercase c == b':') ≡ (c == b':')
unfolding to_ascii_lowercase
lower_colon c = ground arith

-- A text without a colon is none that has one.
no_colon :
    (a p : Str)
    → contains_char b':' p ≡ true
    → contains_char b':' a ≡ false
    → eq_ignore_ascii_case a p ≡ false
unfolding eq_ignore_ascii_case str_eq contains_char
no_colon a [] h g = absurd (ground (arith, h))
no_colon [] (d ∷ p) h g = refl
no_colon (c ∷ a) (d ∷ p) h g = ground (arith, lower_colon c, lower_colon d, no_colon a p, h, g)

contains_char-take :
    (n : ℕ) (w : Str) → contains_char b':' w ≡ false → contains_char b':' (take n w) ≡ false
unfolding contains_char
contains_char-take zero w h = refl
contains_char-take (suc n) [] h = refl
contains_char-take (suc n) (c ∷ w) h = ground (arith, contains_char-take n w, h)

strip_ci_prefix-none :
    (w p : Str)
    → contains_char b':' p ≡ true
    → contains_char b':' w ≡ false
    → strip_ci_prefix w p ≡ none
unfolding strip_ci_prefix
strip_ci_prefix-none w p h g =
    rw (no_colon (take (length p) w) p h (contains_char-take (length p) w g)) refl

module _ (to_lowercase : Str → Str) (is_alphanumeric : ℕ → Bool) (date_of : Str → Option Str) where
  hash_of-word :
      (w : Str)
      → starts_with (codes "#") w ≡ false
      → hash_of to_lowercase is_alphanumeric date_of w ≡ word w
  unfolding strip_prefix starts_with
  hash_of-word [] h = refl
  hash_of-word (c ∷ w) h = elim (Bool-cases (b'#' == c)) [
    | inl e ↦ absurd (ground (arith, e, h))
    | inr n ↦ rw (n, hash_of) refl
  ]

  operator_of-word :
      (ops : List (Str × (Str → Token))) (w : Str)
      → all (λ (op : Str × (Str → Token)). contains_char b':' op.0) ops ≡ true
      → contains_char b':' w ≡ false
      → operator_of to_lowercase is_alphanumeric date_of ops w
        ≡ hash_of to_lowercase is_alphanumeric date_of w
  unfolding operator_of
  operator_of-word [] w h g = refl
  operator_of-word ((p, make) ∷ ops) w h g =
      rw (strip_ci_prefix-none w p (ground (arith, h)) g, operator_of)
        (operator_of-word ops w (ground (arith, h)) g)

  token_of-word :
      (w : Str) → is_plain w ≡ true → token_of to_lowercase is_alphanumeric date_of w ≡ word w
  unfolding token_of eq_ignore_ascii_case str_eq
  token_of-word w h =
      rw (strip_ci_prefix-none w (codes "tag:") (unfold contains_char in refl) (ground (arith, h)))
        (operator_of-word operators w (unfold contains_char in refl) (ground (arith, h))
          ∙ hash_of-word w (ground (arith, h)))

  module _ {V : Type 0} where
    abbrev added : SearchQuery V × List Str → List Str → SearchQuery V × List Str
    added = add_tokens to_lowercase is_alphanumeric date_of

    add_tokens-words :
        (q : SearchQuery V) (ws ts : List Str)
        → all is_plain ts ≡ true
        → added (q, ws) ts ≡ (q, ws ++ ts)
    unfolding add_tokens add_token
    add_tokens-words q ws [] h = ap (λ l. (q, l)) (sym (append-nil ws))
    add_tokens-words q ws (t ∷ ts) h =
        ap (λ k. added (add_token to_lowercase is_alphanumeric date_of (q, ws) k) ts)
          (token_of-word t (ground (arith, h)))
        ∙ add_tokens-words q (ws ++ t ∷ []) ts (ground (arith, h))
        ∙ ap (λ l. (q, l)) (append_assoc ws (t ∷ []) ts)

  -- A query without quotation marks, of words without a colon that do not begin with `#`, is a
  -- search for these words, and for no tag, language, time or property.
  pub parse_query-plain :
      (V : Type 0) (input : Str)
      → contains_char b'"' input ≡ false
      → all is_plain (words_from [] input) ≡ true
      → parse_query to_lowercase is_alphanumeric date_of {V = V} input ≡ record (default_query V) {
        text =
            if is_nil (words_from [] input)
            then none
            else some (join (codes " ") (words_from [] input));
      }
  unfolding parse_query
  parse_query-plain V input unquoted h =
      ap
        (λ (st : SearchQuery V × List Str). record (st.0) {
          text = if is_nil st.1 then none else some (join (codes " ") st.1);
        })
        (add_tokens-words (default_query V) [] (words_from [] input) h)
