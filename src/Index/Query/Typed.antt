-- ===== src/Index/Query/Typed.antt =====
-- What a query requires whose operators are written out as text.
use mkb.Base.{◌||◌, ◌==◌}
use mkb.Base.{
  ℕ, Bool, true, false, not, ◌&&◌, ◌≡◌, refl, sym, subst, List, [], ◌∷◌, ◌++◌, Option, any, all,
  arith, All, Bool-cases, Option-cases, inl, inr, is_none,
}
use mkb.Text.Chars.{Str, codes}
use mkb.Text.Strings.{
  str_eq, str_eq_sound, is_empty, contains_char, strip_suffix, strip_suffix-append,
}
use mkb.Text.Runs.{text_code}
use mkb.Block.Views.{words_from}
use mkb.Index.Query.{SearchQuery}
use mkb.Index.Query.Parse.{
  Token, tag, tag_exact, has, missing, strip_ci_prefix, operator_of, token_of, parse_query,
}
use mkb.Index.Query.Parsed.{listed, Tidy, required, token, parse_query-Tidy, parse_query-required}

-- The filters that operators set: a tag and what is below it, the same in short, only the tag, a
-- property that is there, and one that is not.
pub data Filter : Type 0 where
  below below_short exactly having lacking : Filter

abbrev pub typed : Filter → Str → Str
typed below s = codes "tag:" ++ s
typed below_short s = codes "#" ++ s
typed exactly s = codes "tag:" ++ (s ++ codes "$")
typed having s = codes "has:" ++ s
typed lacking s = codes "missing:" ++ s

abbrev pub field : {V : Type 0} → Filter → SearchQuery V → List Str
field below q = q.tags
field below_short q = q.tags
field exactly q = q.tags_exact
field having q = q.has_prop
field lacking q = q.lacks_prop

module _ (P : Str → Type 0) where
  any-All : (w : Str) (ws : List Str) → any (str_eq w) ws ≡ true → All P ws → P w
  any-All w [] e h = absurd (ground (arith, e))
  any-All w (v ∷ ws) e (hv, hs) = elim (Bool-cases (str_eq w v)) [
    | inl s ↦ subst P (sym (str_eq_sound w v s)) hv
    | inr n ↦ any-All w ws (rw (n) at e) hs
  ]

module _ (to_lowercase : Str → Str) (is_alphanumeric : ℕ → Bool) (date_of : Str → Option Str) where
  -- Is the text a value that the operator takes? Behind `tag:` a text that ends in `$` is another
  -- operator, and behind `#` only the characters of a tag stand.
  abbrev pub is_value : Filter → Str → Bool
  is_value below s = not (is_empty s) && is_none (strip_suffix 36 s)
  is_value below_short s =
      not (is_empty s) && all (λ c. is_alphanumeric c || (c == b'-' || (c == b'_' || c == b'/'))) s
  is_value exactly s = not (is_empty s)
  is_value having s = not (is_empty s)
  is_value lacking s = not (is_empty s)

  abbrev meant : Filter → Str → Token
  meant below s = tag s
  meant below_short s = tag s
  meant exactly s = tag_exact s
  meant having s = has s
  meant lacking s = missing s

  token-typed :
      (f : Filter) (s : Str)
      → is_value f s ≡ true
      → token to_lowercase is_alphanumeric date_of (typed f s) ≡ meant f s
  unfolding token_of operator_of strip_ci_prefix text_code
  token-typed below [] h = absurd (ground (arith, h))
  token-typed below (c ∷ s) h = elim (Option-cases (strip_suffix 36 (c ∷ s))) [
    | inl e ↦ rw (e) refl
    | inr (r, e) ↦ (let refused = rw (e) at h in absurd (ground (arith, refused)))
  ]
  token-typed below_short [] h = absurd (ground (arith, h))
  token-typed below_short (c ∷ s) h = rw (h) refl
  token-typed exactly [] h = absurd (ground (arith, h))
  token-typed exactly (c ∷ s) h = rw (strip_suffix-append 36 (c ∷ s)) refl
  token-typed having [] h = absurd (ground (arith, h))
  token-typed having (c ∷ s) h = refl
  token-typed lacking [] h = absurd (ground (arith, h))
  token-typed lacking (c ∷ s) h = refl

  module _ {V : Type 0} (q : SearchQuery V) where
    abbrev asks : Token → Bool
    asks = required to_lowercase is_alphanumeric date_of q

    asks-meant :
        (f : Filter) (s : Str)
        → asks (meant f s) ≡ true
        → listed (to_lowercase s) (field f q) ≡ true
    asks-meant below s h = h
    asks-meant below_short s h = h
    asks-meant exactly s h = h
    asks-meant having s h = h
    asks-meant lacking s h = h

  -- A query without quotation marks requires the value of each operator that is one of its words:
  -- `tag:` and `#` a tag or what is below it, `tag:` with `$` just the tag, `has:` a property and
  -- `missing:` its absence, in lower case, unless that is empty. It requires nothing twice, and
  -- nothing without a name.
  pub parse_query-typed :
      (V : Type 0) (f : Filter) (s input : Str)
      → contains_char b'"' input ≡ false
      → is_value f s ≡ true
      → any (str_eq (typed f s)) (words_from [] input) ≡ true
      → let q = parse_query to_lowercase is_alphanumeric date_of {V = V} input in
        Tidy to_lowercase is_alphanumeric date_of q × (listed (to_lowercase s) (field f q) ≡ true)
  parse_query-typed V f s input unquoted value typed_in =
      let q = parse_query to_lowercase is_alphanumeric date_of {V = V} input in
      (
        parse_query-Tidy to_lowercase is_alphanumeric date_of V input,
        asks-meant q f s (
            subst (λ t. asks q t ≡ true) (token-typed f s value)
              (any-All (λ w. asks q (token to_lowercase is_alphanumeric date_of w) ≡ true)
                (typed f s) (words_from [] input) typed_in
                (parse_query-required to_lowercase is_alphanumeric date_of V input))),
      )
