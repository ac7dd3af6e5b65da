-- ===== src/Tests/Searches.antt =====
-- A search for the blocks with a property, on the sample vault.
use mkb.Base.{true, ◌≡◌, refl, List, [], ◌∷◌, none, some, ok, ℕ}
use mkb.Base.{map}
use mkb.Text.Chars.{Str, codes, to_ascii_lowercase, is_ascii_alphanumeric}
use mkb.Block.Views.{words_from}
use mkb.Index.Query.{SearchQuery}
use mkb.Index.Query.Parse.{
  parse_query, add_tokens, add_token, token_of, operator_of, strip_ci_prefix, push_unique,
}
use mkb.Index.Query.Parsed.{Tidy, listed}
use mkb.Index.Query.Typed
use mkb.Index.Query.Plain.{is_plain, parse_query-plain}
use mkb.Index.Query.Parse.{default_query}
use mkb.Blockfile.Write.{is_nil}
use mkb.Text.Strings.{join}
use mkb.Base.{all, if◌then◌else◌}
use mkb.Index.Query.Typed.{having, is_value, parse_query-typed}
use mkb.Text.Strings.{str_eq, contains_char}
use mkb.Base.{any, false}
use mkb.Text.Runs.{text_code}
use mkb.Access.{authorize, can, local_context}
use mkb.Block.{Block}
use mkb.Index.{from_block}
use mkb.Index.Query.{
  SearchHit, effective_limit, has_date_filter, has_prop_filter, matches_dates, matches_props, lower,
  upper, prop,
}
use mkb.Vault
use mkb.Map
use mkb.Service.Search.{
  Reader, Hit, Query, search, post_filter, engine_query, engine_search, with_vector, narrowed,
  overlaid, with_lineage, overlay_metadata,
}
use mkb.Service.Search.Filtered.{Filtered, search-Filtered}
use mkb.Tests.Sample.{platform, host, engine, block_a, block_b}

abbrev hit_of : Block → SearchHit ℕ
hit_of b = record {
  block = from_block platform b 0;
  score = 1;
  semantic_similarity = none;
  keyword_match = true;
  lineage = none;
}

-- An index that finds both blocks.
abbrev reader : Reader host
reader = record {
  Vector = Unit;
  Score = ℕ;
  embedder = none;
  search_in = λ q s. ok (hit_of block_b ∷ hit_of block_a ∷ []);
  links_from = λ id s. ok [];
  backlinks = λ id s. ok [];
}

abbrev with_source : Query platform host reader
with_source = record {
  text = some (codes "keep");
  vector = none;
  vector_model = none;
  tags = [];
  tags_exact = [];
  lang = none;
  created_after = none;
  created_before = none;
  updated_after = none;
  updated_before = none;
  has_prop = codes "Source" ∷ [];
  lacks_prop = [];
  limit = 0;
}

-- Only the first block has it.
abbrev found : List (Hit platform host reader)
found =
    with_lineage platform host reader engine.vault
      (overlaid platform host reader engine.vault (hit_of block_a))
    ∷ []

filters : post_filter platform host reader with_source ≡ true
unfolding post_filter has_date_filter has_prop_filter
filters = refl

answered : search platform host reader local_context with_source engine ≡ ok found
unfolding text_code search authorize can engine_search with_vector engine_query post_filter
    has_date_filter has_prop_filter narrowed matches_dates matches_props lower upper prop
    overlay_metadata from_block Vault.block Map.get effective_limit
answered = refl

search-Filtered_example : Filtered platform host reader engine with_source found
search-Filtered_example =
    search-Filtered platform host reader engine with_source filters local_context found answered

-- A query with a tag and a property.
abbrev typed : Str
typed = codes "#Ops has:Source the plan"

abbrev typed_query : SearchQuery Unit
typed_query = parse_query (map to_ascii_lowercase) is_ascii_alphanumeric some typed

typed_tags : typed_query.tags ≡ codes "ops" ∷ []
unfolding text_code parse_query add_tokens add_token token_of operator_of strip_ci_prefix words_from
    push_unique
typed_tags = refl

-- An operator is one also between quotation marks.
quoted :
    (parse_query
      (map to_ascii_lowercase)
      is_ascii_alphanumeric
      some
      {V = Unit}
      (codes "\"see tag:foo now\"")).text
    ≡ some (codes "\"see now\"")
unfolding text_code parse_query add_tokens add_token token_of operator_of strip_ci_prefix words_from
    push_unique
quoted = refl

no_quotes : contains_char b'"' typed ≡ false
unfolding text_code
no_quotes = refl

a_value :
    is_value (map to_ascii_lowercase) is_ascii_alphanumeric some having (codes "Source") ≡ true
a_value = refl

typed_in : any (str_eq (Typed.typed having (codes "Source"))) (words_from [] typed) ≡ true
unfolding text_code words_from
typed_in = refl

parse_query-typed_example :
    Tidy (map to_ascii_lowercase) is_ascii_alphanumeric some typed_query
    × (listed (map to_ascii_lowercase (codes "Source")) typed_query.has_prop ≡ true)
parse_query-typed_example =
    parse_query-typed (map to_ascii_lowercase) is_ascii_alphanumeric some Unit having
      (codes "Source") typed no_quotes a_value typed_in

no_quotes_either : contains_char b'"' (codes "the  plan") ≡ false
unfolding text_code
no_quotes_either = refl

plain_words : all is_plain (words_from [] (codes "the  plan")) ≡ true
unfolding text_code words_from
plain_words = refl

parse_query-plain_example :
    parse_query (map to_ascii_lowercase) is_ascii_alphanumeric some {V = Unit} (codes "the  plan")
    ≡ record (default_query Unit) {
      text =
          if is_nil (words_from [] (codes "the  plan"))
          then none
          else some (join (codes " ") (words_from [] (codes "the  plan")));
    }
parse_query-plain_example =
    parse_query-plain (map to_ascii_lowercase) is_ascii_alphanumeric some Unit (codes "the  plan")
      no_quotes_either plain_words
