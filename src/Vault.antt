-- ===== src/Vault.antt =====
-- crates/mkb-core/src/vault.rs: the collection of blocks, and the resolution of targets.
pub mod Resolve
pub mod Built
pub mod Reach
pub mod Search
pub mod Fuel
pub mod Reached
pub mod Lineage
use mkb.Base.{
  ℕ, Bool, true, false, ◌&&◌, ◌||◌, List, [], ◌∷◌, ◌++◌, map, Option, none, some, ok, err, ◌==◌,
  ltb, if◌then◌else◌, any, filter, is_none,
}
use mkb.Text.Chars.{Str}
use mkb.Text.Strings.{is_empty}
use mkb.Text.Trim.{trim}
use mkb.Id
use mkb.Id.{BlockId, id_eq}
use mkb.Block.{Block}
use mkb.Block.Views.{child_targets, reference_targets}
use mkb.Blockfile.Parse.{parse_block}
use mkb.Blockfile.Write.{is_nil}
use mkb.Link.{filter_map}
use mkb.Map
use mkb.Map.{Map}
use mkb.Platform.{Platform}

pub record Vault : Type 0 where
  pub blocks : Map Block
  pub by_title : Map BlockId

abbrev pub empty : Vault
empty = record { blocks = []; by_title = [] }

-- `a.as_str().cmp(b.as_str())` is not `Greater`. The order of UTF-8 texts is that of their code
-- points.
unfoldable pub str_leb : Str → Str → Bool
str_leb [] t = true
str_leb (c ∷ s) [] = false
str_leb (c ∷ s) (d ∷ t) = ltb c d || (c == d && str_leb s t)

unfoldable pub insert_key : Str → List Str → List Str
insert_key k [] = k ∷ []
insert_key k (j ∷ js) = if str_leb k j then k ∷ j ∷ js else j ∷ insert_key k js

unfoldable pub sort_keys : List Str → List Str
unfolding insert_key
sort_keys [] = []
sort_keys (k ∷ ks) = insert_key k (sort_keys ks)

-- The keys of the blocks are the texts of their ids.
abbrev pub of_key : Str → BlockId
of_key k = record { as_str = k }

unfoldable pub block : Vault → BlockId → Option Block
block v id = Map.get id.as_str v.blocks

unfoldable pub ids : Vault → List BlockId
unfolding sort_keys
ids v = map of_key (sort_keys (Map.keys v.blocks))

unfoldable pub blocks : Vault → List Block
unfolding ids block
blocks v = filter_map (block v) (ids v)

-- `by_title.entry(key).or_insert(id)`, unless the key is empty
unfoldable pub add_key : Map BlockId → Str → BlockId → Map BlockId
add_key by_title key id =
    if is_empty key
    then by_title
    else (elim (Map.get key by_title) [ some other ↦ by_title | none ↦ Map.insert key id by_title ])

module _ (pf : Platform) where
  unfoldable pub key_of : Str → Str
  key_of t = pf.to_lowercase (trim t)

  unfoldable pub add_title : Map Block → Map BlockId → BlockId → Map BlockId
  unfolding add_key key_of
  add_title bs by_title id = elim (Map.get id.as_str bs) [
    | none ↦ by_title
    | some b ↦ elim b.title [ none ↦ by_title | some t ↦ add_key by_title (key_of t) id ]
  ]

  unfoldable pub add_titles : Map Block → Map BlockId → List BlockId → Map BlockId
  unfolding add_title
  add_titles bs by_title [] = by_title
  add_titles bs by_title (id ∷ rest) = add_titles bs (add_title bs by_title id) rest

  unfoldable pub reindex_titles : Map Block → Vault
  unfolding add_titles
  reindex_titles bs = record {
    blocks = bs;
    by_title = add_titles bs [] (map of_key (sort_keys (Map.keys bs)));
  }

  unfoldable pub insert : Vault → Block → Vault
  unfolding reindex_titles
  insert v b = reindex_titles (Map.insert b.id.as_str b v.blocks)

  unfoldable pub insert_source : Vault → BlockId → Str → Vault
  unfolding insert
  insert_source v id source = insert v (parse_block pf.tag_regexes id source)

  unfoldable pub remove : Vault → BlockId → Vault × Bool
  unfolding reindex_titles
  remove v id = elim (Map.get id.as_str v.blocks) [
    | none ↦ (v, false)
    | some b ↦ (reindex_titles (Map.remove id.as_str v.blocks), true)
  ]

  unfoldable pub resolve : Vault → Str → Option BlockId
  resolve v target =
      let t = trim target in
      let titled = Map.get (pf.to_lowercase t) v.by_title in
      elim (Id.parse t) [
        | ok id ↦ elim (Map.get id.as_str v.blocks) [ some b ↦ some id | none ↦ titled ]
        | err e ↦ titled
      ]

  unfoldable pub children : Vault → BlockId → List BlockId
  unfolding block
  children v id = elim (block v id) [
    | none ↦ []
    | some b ↦ filter_map (resolve v) (child_targets pf.ref_captures b)
  ]

  unfoldable pub references : Vault → BlockId → List BlockId
  unfolding block
  references v id = elim (block v id) [
    | none ↦ []
    | some b ↦ filter_map (resolve v) (reference_targets pf.ref_captures b)
  ]

  unfoldable pub transcluded_by : Vault → BlockId → List BlockId
  unfolding ids
  transcluded_by v id = filter (λ p. any (id_eq id) (children v p)) (ids v)

  unfoldable pub referenced_by : Vault → BlockId → List BlockId
  unfolding ids
  referenced_by v id = filter (λ p. any (id_eq id) (references v p)) (ids v)

  unfoldable pub roots : Vault → List BlockId
  unfolding ids
  roots v = filter (λ id. is_nil (transcluded_by v id)) (ids v)
