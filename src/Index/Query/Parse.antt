-- ===== src/Index/Query/Parse.antt =====
-- `SearchQuery::parse` of crates/mkb-core/src/index.rs: the operators in a query that is typed.
use mkb.Base.{
  ℕ, Bool, not, ◌&&◌, ◌||◌, ◌==◌, List, [], ◌∷◌, ◌++◌, Option, none, some, all, any, if◌then◌else◌,
  length, take, drop,
}
use mkb.Text.Chars.{Str, codes}
use mkb.Text.Strings.{str_eq, eq_ignore_ascii_case, strip_prefix, strip_suffix, is_empty, join}
use mkb.Blockfile.Write.{is_nil}
use mkb.Block.Views.{words_from}
use mkb.Index.Query.{SearchQuery}

unfoldable pub strip_ci_prefix : Str → Str → Option Str
strip_ci_prefix token prefix =
    let rest = drop (length prefix) token in
    if eq_ignore_ascii_case (take (length prefix) token) prefix && not (is_empty rest)
    then some rest
    else none

-- An operator with what stands behind it, or a word.
pub data Token : Type 0 where
  tag tag_exact lang created_after created_before updated_after updated_before has missing word :
      Str → Token

-- The operators in the order in which they are tried.
abbrev pub operators : List (Str × (Str → Token))
operators =
    (codes "lang:", lang)
    ∷ (codes "code:", lang)
    ∷ (codes "created:after:", created_after)
    ∷ (codes "created:before:", created_before)
    ∷ (codes "updated:after:", updated_after)
    ∷ (codes "updated:before:", updated_before)
    ∷ (codes "has:", has)
    ∷ (codes "missing:", missing)
    ∷ []

abbrev pub default_query : (V : Type 0) → SearchQuery V
default_query V = record {
  text = none;
  vector = none;
  vector_model = none;
  tags = [];
  tags_exact = [];
  lang = none;
  created_after = none;
  created_before = none;
  updated_after = none;
  updated_before = none;
  has_prop = [];
  lacks_prop = [];
  limit = 0;
}

-- The tables of Unicode, and `parse_query_date` of clock.rs, which reads dates by the `time` crate.
module _ (to_lowercase : Str → Str) (is_alphanumeric : ℕ → Bool) (date_of : Str → Option Str) where
  unfoldable pub push_unique : List Str → Str → List Str
  push_unique tags value =
      let v = to_lowercase value in
      if not (is_empty v) && not (any (str_eq v) tags) then tags ++ v ∷ [] else tags

  unfoldable pub set_lang : Option Str → Str → Option Str
  set_lang old value = if is_empty value then old else some (to_lowercase value)

  abbrev pub is_tag_char : ℕ → Bool
  is_tag_char c = is_alphanumeric c || (c == 45 || (c == 95 || c == 47))

  abbrev pub tag_of : Str → Token
  tag_of rest = elim (strip_suffix 36 rest) [ none ↦ tag rest | some exact ↦ tag_exact exact ]

  abbrev pub hash_of : Str → Token
  hash_of token = elim (strip_prefix (codes "#") token) [
    | none ↦ word token
    | some rest ↦ if not (is_empty rest) && all is_tag_char rest then tag rest else word token
  ]

  unfoldable pub operator_of : List (Str × (Str → Token)) → Str → Token
  unfolding strip_ci_prefix
  operator_of [] token = hash_of token
  operator_of ((prefix, make) ∷ ops) token = elim (strip_ci_prefix token prefix) [
    | none ↦ operator_of ops token
    | some rest ↦ make rest
  ]

  unfoldable pub token_of : Str → Token
  unfolding operator_of
  token_of token = elim (strip_ci_prefix token (codes "tag:")) [
    | none ↦ operator_of operators token
    | some rest ↦ tag_of rest
  ]

  module _ {V : Type 0} where
    -- The query so far, and the words that are no operators.
    unfoldable pub add_token : SearchQuery V × List Str → Token → SearchQuery V × List Str
    unfolding push_unique set_lang
    add_token (q, ws) (tag s) = (record q { tags = push_unique q.tags s }, ws)
    add_token (q, ws) (tag_exact s) = (record q { tags_exact = push_unique q.tags_exact s }, ws)
    add_token (q, ws) (lang s) = (record q { lang = set_lang q.lang s }, ws)
    add_token (q, ws) (created_after s) = (record q { created_after = date_of s }, ws)
    add_token (q, ws) (created_before s) = (record q { created_before = date_of s }, ws)
    add_token (q, ws) (updated_after s) = (record q { updated_after = date_of s }, ws)
    add_token (q, ws) (updated_before s) = (record q { updated_before = date_of s }, ws)
    add_token (q, ws) (has s) = (record q { has_prop = push_unique q.has_prop s }, ws)
    add_token (q, ws) (missing s) = (record q { lacks_prop = push_unique q.lacks_prop s }, ws)
    add_token (q, ws) (word s) = (q, ws ++ s ∷ [])

    unfoldable pub add_tokens : SearchQuery V × List Str → List Str → SearchQuery V × List Str
    unfolding token_of add_token
    add_tokens st [] = st
    add_tokens st (t ∷ ts) = add_tokens (add_token st (token_of t)) ts

    unfoldable pub parse_query : Str → SearchQuery V
    unfolding add_tokens
    parse_query input =
        let (q, ws) = add_tokens (default_query V, []) (words_from [] input) in
        record q { text = if is_nil ws then none else some (join (codes " ") ws) }
