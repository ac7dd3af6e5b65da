-- ===== src/Index/Query.antt =====
-- `SearchQuery` of crates/mkb-core/src/index.rs: the limit and the filters that the
-- service applies itself.
pub mod Parse
pub mod Parsed
pub mod Typed
pub mod Plain
use mkb.Base.{
  ℕ, Bool, true, false, not, ◌&&◌, ◌||◌, ◌==◌, List, Option, none, some, all, is_none,
  if◌then◌else◌,
}
use mkb.Text.Chars.{Str}
use mkb.Block.Views.{find_prop}
use mkb.Blockfile.Write.{is_nil}
use mkb.Index.{BlockRecord}
use mkb.Vault.{str_leb}
use mkb.Vault.Lineage.{Lineage}

-- `Vector` stands for `Vec<f32>`.
pub record SearchQuery (Vector : Type 0) : Type 0 where
  pub text : Option Str
  pub vector : Option Vector
  pub vector_model : Option Str
  pub tags : List Str
  pub tags_exact : List Str
  pub lang : Option Str
  pub created_after : Option Str
  pub created_before : Option Str
  pub updated_after : Option Str
  pub updated_before : Option Str
  pub has_prop : List Str
  pub lacks_prop : List Str
  pub limit : ℕ

-- `Score` stands for `f64`.
pub record SearchHit (Score : Type 0) : Type 0 where
  pub block : BlockRecord
  pub score : Score
  pub semantic_similarity : Option Score
  pub keyword_match : Bool
  pub lineage : Option Lineage

unfoldable pub prop : BlockRecord → Str → Option Str
unfolding find_prop
prop rec key = find_prop key rec.props

abbrev pub is_some : Option Str → Bool
is_some o = not (is_none o)

unfoldable pub lower : Option Str → Option Str → Bool
lower none val = true
lower (some b) none = false
lower (some b) (some v) = str_leb b v

unfoldable pub upper : Option Str → Option Str → Bool
upper none val = true
upper (some b) none = false
upper (some b) (some v) = not (str_leb b v)

module _ {Vector : Type 0} where
  unfoldable pub effective_limit : SearchQuery Vector → ℕ
  effective_limit q = if q.limit == 0 then 50 else q.limit

  unfoldable pub has_date_filter : SearchQuery Vector → Bool
  has_date_filter q =
      is_some q.created_after
      || is_some q.created_before
      || is_some q.updated_after
      || is_some q.updated_before

  unfoldable pub matches_dates : SearchQuery Vector → BlockRecord → Bool
  unfolding lower upper
  matches_dates q rec =
      lower q.created_after rec.created
      && upper q.created_before rec.created
      && lower q.updated_after rec.updated
      && upper q.updated_before rec.updated

  unfoldable pub has_prop_filter : SearchQuery Vector → Bool
  has_prop_filter q = not (is_nil q.has_prop) || not (is_nil q.lacks_prop)

  unfoldable pub matches_props : SearchQuery Vector → BlockRecord → Bool
  unfolding prop
  matches_props q rec =
      all (λ k. is_some (prop rec k)) q.has_prop && all (λ k. is_none (prop rec k)) q.lacks_prop
