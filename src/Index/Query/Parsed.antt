-- ===== src/Index/Query/Parsed.antt =====
-- What a query holds that was typed.
use mkb.Base.{
  ℕ, Bool, true, not, ◌&&◌, ◌||◌, ◌≡◌, refl, List, [], ◌∷◌, ◌++◌, Option, any, arith, All,
}
use mkb.Text.Chars.{Str}
use mkb.Text.Strings.{str_eq, is_empty, str_eq_refl}
use mkb.Block.Views.{words_from}
use mkb.Index.Query.{SearchQuery}
use mkb.Index.Query.Parse.{
  Token, tag, tag_exact, lang, created_after, created_before, updated_after, updated_before, has,
  missing, word, push_unique, token_of, add_token, add_tokens, default_query, parse_query,
}

-- No entry is empty, and no two are the same.
unfoldable pub is_tidy : List Str → Bool
is_tidy [] = true
is_tidy (t ∷ ts) = not (is_empty t) && (not (any (λ x. str_eq x t) ts) && is_tidy ts)

-- Is the value empty or among the entries?
abbrev pub listed : Str → List Str → Bool
listed v l = is_empty v || any (str_eq v) l

any-snoc : (p : Str → Bool) (l : List Str) (x : Str) → any p (l ++ x ∷ []) ≡ (any p l || p x)
any-snoc p [] x = ground arith
any-snoc p (y ∷ l) x = ground (arith, any-snoc p l x)

is_tidy-snoc :
    (l : List Str) (x : Str)
    → is_tidy (l ++ x ∷ []) ≡ (is_tidy l && (not (is_empty x) && not (any (str_eq x) l)))
unfolding is_tidy
is_tidy-snoc [] x = ground arith
is_tidy-snoc (y ∷ l) x = ground (arith, is_tidy-snoc l x, any-snoc (λ z. str_eq z y) l x)

abbrev Kept : List Str → List Str → Type 0
Kept l l' = (v : Str) → listed v l ≡ true → listed v l' ≡ true

same : (l : List Str) → Kept l l
same l v h = h

module _ (to_lowercase : Str → Str) (is_alphanumeric : ℕ → Bool) (date_of : Str → Option Str) where
  push_unique-is_tidy :
      (l : List Str) (s : Str)
      → is_tidy l ≡ true
      → is_tidy (push_unique to_lowercase is_alphanumeric date_of l s) ≡ true
  unfolding push_unique
  push_unique-is_tidy l s h = ground (arith, is_tidy-snoc l (to_lowercase s))

  push_unique-keeps :
      (l : List Str) (s v : Str)
      → listed v l ≡ true
      → listed v (push_unique to_lowercase is_alphanumeric date_of l s) ≡ true
  unfolding push_unique
  push_unique-keeps l s v h = ground (arith, any-snoc (str_eq v) l (to_lowercase s))

  push_unique-listed :
      (l : List Str) (s : Str)
      → listed (to_lowercase s) (push_unique to_lowercase is_alphanumeric date_of l s) ≡ true
  unfolding push_unique
  push_unique-listed l s =
      ground
        (arith, any-snoc (str_eq (to_lowercase s)) l (to_lowercase s), str_eq_refl (to_lowercase s))

  abbrev pub token : Str → Token
  token = token_of to_lowercase is_alphanumeric date_of

  module _ {V : Type 0} where
    -- The lists that operators fill have no empty entry and no entry twice.
    abbrev pub Tidy : SearchQuery V → Type 0
    Tidy q =
        (is_tidy q.tags ≡ true)
        × (is_tidy q.tags_exact ≡ true)
        × (is_tidy q.has_prop ≡ true)
        × (is_tidy q.lacks_prop ≡ true)

    abbrev add : SearchQuery V × List Str → Token → SearchQuery V × List Str
    add = add_token to_lowercase is_alphanumeric date_of

    add_token-Tidy :
        (q : SearchQuery V) (ws : List Str) (t : Token) → Tidy q → Tidy (add (q, ws) t).0
    unfolding add_token
    add_token-Tidy q ws (tag s) (a, b, c, d) = (push_unique-is_tidy q.tags s a, b, c, d)
    add_token-Tidy q ws (tag_exact s) (a, b, c, d) = (a, push_unique-is_tidy q.tags_exact s b, c, d)
    add_token-Tidy q ws (has s) (a, b, c, d) = (a, b, push_unique-is_tidy q.has_prop s c, d)
    add_token-Tidy q ws (missing s) (a, b, c, d) = (a, b, c, push_unique-is_tidy q.lacks_prop s d)
    add_token-Tidy q ws (lang s) h = h
    add_token-Tidy q ws (created_after s) h = h
    add_token-Tidy q ws (created_before s) h = h
    add_token-Tidy q ws (updated_after s) h = h
    add_token-Tidy q ws (updated_before s) h = h
    add_token-Tidy q ws (word s) h = h

    -- No list loses an entry.
    abbrev Grown : SearchQuery V → SearchQuery V → Type 0
    Grown q q' =
        Kept q.tags q'.tags
        × Kept q.tags_exact q'.tags_exact
        × Kept q.has_prop q'.has_prop
        × Kept q.lacks_prop q'.lacks_prop

    add_token-Grown : (q : SearchQuery V) (ws : List Str) (t : Token) → Grown q (add (q, ws) t).0
    unfolding add_token
    add_token-Grown q ws (tag s) =
        (push_unique-keeps q.tags s, same q.tags_exact, same q.has_prop, same q.lacks_prop)
    add_token-Grown q ws (tag_exact s) =
        (same q.tags, push_unique-keeps q.tags_exact s, same q.has_prop, same q.lacks_prop)
    add_token-Grown q ws (has s) =
        (same q.tags, same q.tags_exact, push_unique-keeps q.has_prop s, same q.lacks_prop)
    add_token-Grown q ws (missing s) =
        (same q.tags, same q.tags_exact, same q.has_prop, push_unique-keeps q.lacks_prop s)
    add_token-Grown q ws (lang s) =
        (same q.tags, same q.tags_exact, same q.has_prop, same q.lacks_prop)
    add_token-Grown q ws (created_after s) =
        (same q.tags, same q.tags_exact, same q.has_prop, same q.lacks_prop)
    add_token-Grown q ws (created_before s) =
        (same q.tags, same q.tags_exact, same q.has_prop, same q.lacks_prop)
    add_token-Grown q ws (updated_after s) =
        (same q.tags, same q.tags_exact, same q.has_prop, same q.lacks_prop)
    add_token-Grown q ws (updated_before s) =
        (same q.tags, same q.tags_exact, same q.has_prop, same q.lacks_prop)
    add_token-Grown q ws (word s) =
        (same q.tags, same q.tags_exact, same q.has_prop, same q.lacks_prop)

    -- Is what an operator asks for required by the query?
    abbrev pub required : SearchQuery V → Token → Bool
    required q (tag s) = listed (to_lowercase s) q.tags
    required q (tag_exact s) = listed (to_lowercase s) q.tags_exact
    required q (has s) = listed (to_lowercase s) q.has_prop
    required q (missing s) = listed (to_lowercase s) q.lacks_prop
    required q (lang s) = true
    required q (created_after s) = true
    required q (created_before s) = true
    required q (updated_after s) = true
    required q (updated_before s) = true
    required q (word s) = true

    required-new :
        (q : SearchQuery V) (ws : List Str) (t : Token) → required (add (q, ws) t).0 t ≡ true
    unfolding add_token
    required-new q ws (tag s) = push_unique-listed q.tags s
    required-new q ws (tag_exact s) = push_unique-listed q.tags_exact s
    required-new q ws (has s) = push_unique-listed q.has_prop s
    required-new q ws (missing s) = push_unique-listed q.lacks_prop s
    required-new q ws (lang s) = refl
    required-new q ws (created_after s) = refl
    required-new q ws (created_before s) = refl
    required-new q ws (updated_after s) = refl
    required-new q ws (updated_before s) = refl
    required-new q ws (word s) = refl

    required-Grown :
        (q q' : SearchQuery V) (t : Token) → Grown q q' → required q t ≡ true → required q' t ≡ true
    required-Grown q q' (tag s) (a, b, c, d) h = a (to_lowercase s) h
    required-Grown q q' (tag_exact s) (a, b, c, d) h = b (to_lowercase s) h
    required-Grown q q' (has s) (a, b, c, d) h = c (to_lowercase s) h
    required-Grown q q' (missing s) (a, b, c, d) h = d (to_lowercase s) h
    required-Grown q q' (lang s) g h = refl
    required-Grown q q' (created_after s) g h = refl
    required-Grown q q' (created_before s) g h = refl
    required-Grown q q' (updated_after s) g h = refl
    required-Grown q q' (updated_before s) g h = refl
    required-Grown q q' (word s) g h = refl

    abbrev all_added : SearchQuery V × List Str → List Str → SearchQuery V × List Str
    all_added = add_tokens to_lowercase is_alphanumeric date_of

    add_tokens-Tidy :
        (q : SearchQuery V) (ws ts : List Str) → Tidy q → Tidy (all_added (q, ws) ts).0
    unfolding add_tokens
    add_tokens-Tidy q ws [] h = h
    add_tokens-Tidy q ws (t ∷ ts) h =
        add_tokens-Tidy (add (q, ws) (token t)).0 (add (q, ws) (token t)).1 ts
          (add_token-Tidy q ws (token t) h)

    add_tokens-keeps :
        (q : SearchQuery V) (ws ts : List Str) (t : Token)
        → required q t ≡ true
        → required (all_added (q, ws) ts).0 t ≡ true
    unfolding add_tokens
    add_tokens-keeps q ws [] t h = h
    add_tokens-keeps q ws (u ∷ ts) t h =
        add_tokens-keeps (add (q, ws) (token u)).0 (add (q, ws) (token u)).1 ts t
          (required-Grown q (add (q, ws) (token u)).0 t (add_token-Grown q ws (token u)) h)

    add_tokens-required :
        (q : SearchQuery V) (ws ts : List Str)
        → All (λ t. required (all_added (q, ws) ts).0 (token t) ≡ true) ts
    unfolding add_tokens
    add_tokens-required q ws [] = tt
    add_tokens-required q ws (t ∷ ts) =
        let q' = (add (q, ws) (token t)).0 in
        let ws' = (add (q, ws) (token t)).1 in
        (
          add_tokens-keeps q' ws' ts (token t) (required-new q ws (token t)),
          add_tokens-required q' ws' ts,
        )

  pub parse_query-Tidy :
      (V : Type 0) (input : Str)
      → Tidy (parse_query to_lowercase is_alphanumeric date_of {V = V} input)
  unfolding parse_query is_tidy
  parse_query-Tidy V input =
      add_tokens-Tidy (default_query V) [] (words_from [] input) (refl, refl, refl, refl)

  -- What each of the words asks for is required.
  pub parse_query-required :
      (V : Type 0) (input : Str)
      → All
          (λ t.
            required (parse_query to_lowercase is_alphanumeric date_of {V = V} input) (token t)
            ≡ true)
          (words_from [] input)
  unfolding parse_query
  parse_query-required V input = add_tokens-required (default_query V) [] (words_from [] input)
