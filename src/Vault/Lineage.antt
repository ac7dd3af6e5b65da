-- ===== src/Vault/Lineage.antt =====
-- `embed_parent_map` and `lineage_with` of crates/mkb-core/src/vault.rs: the walk up along embeds.
pub mod Parents
pub mod Walk
pub mod Ends
pub mod Climbed
pub mod Roots
use mkb.Base.{
  ℕ, zero, suc, ◌+◌, Bool, true, false, List, [], ◌∷◌, ◌++◌, map, Option, none, some, if◌then◌else◌,
  length, min, unwrap_or,
}
use mkb.Text.Chars.{Str}
use mkb.Id.{BlockId}
use mkb.Block.Views.{display_title}
use mkb.Blockfile.Write.{is_nil}
use mkb.Map
use mkb.Map.{Map}
use mkb.Platform.{Platform}
use mkb.Vault.{Vault, block, ids, children, sort_keys, of_key}
use mkb.Vault.Search.{has}

pub record Crumb : Type 0 where
  pub id : BlockId
  pub title : Str

pub record Lineage : Type 0 where
  pub is_root : Bool
  pub depth : ℕ
  pub parents : List Crumb
  pub roots : List Crumb

-- `parents.get(node).unwrap_or(&[])`
abbrev pub parents_of : Map (List BlockId) → BlockId → List BlockId
parents_of parents id = unwrap_or (Map.get id.as_str parents) []

-- `map.entry(child).or_default().push(parent)`
unfoldable pub add_parents : Map (List BlockId) → BlockId → List BlockId → Map (List BlockId)
add_parents m parent [] = m
add_parents m parent (child ∷ cs) =
    add_parents (Map.insert child.as_str (parents_of m child ++ parent ∷ []) m) parent cs

unfoldable pub add_all_parents :
    (BlockId → List BlockId) → Map (List BlockId) → List BlockId → Map (List BlockId)
unfolding add_parents
add_all_parents next m [] = m
add_all_parents next m (p ∷ ps) = add_all_parents next (add_parents m p (next p)) ps

-- The state of the loop of `lineage_with`.
pub record Climb : Type 0 where
  pub queue : List (BlockId × ℕ)
  pub visited : List BlockId
  pub root_ids : List BlockId
  pub depth : Option ℕ

-- The parents that are not visited yet wait at the end of the queue.
unfoldable pub enqueue : ℕ → List BlockId → Climb → Climb
enqueue d [] w = w
enqueue d (p ∷ ps) w = enqueue d ps (
    if has p w.visited
    then w
    else record w { queue = w.queue ++ (p, d) ∷ []; visited = p ∷ w.visited })

unfoldable pub add_root : BlockId → ℕ → Climb → Climb
add_root node d w = record w {
  root_ids = if has node w.root_ids then w.root_ids else w.root_ids ++ node ∷ [];
  depth = some (elim w.depth [ none ↦ d | some m ↦ min m d ]);
}

module _ (up : BlockId → List BlockId) where
  -- One round, with the entry that was taken off the queue.
  unfoldable pub climb_step : BlockId → ℕ → Climb → Climb
  unfolding enqueue add_root
  climb_step node d w = if is_nil (up node) then add_root node d w else enqueue (d + 1) (up node) w

  unfoldable pub climb : ℕ → Climb → Option Climb
  unfolding climb_step
  climb zero w = elim w.queue [ [] ↦ some w | entry ∷ rest ↦ none ]
  climb (suc fuel) w = elim w.queue [
    | [] ↦ some w
    | entry ∷ rest ↦ climb fuel (climb_step entry.0 entry.1 (record w { queue = rest }))
  ]

abbrev pub climb_start : BlockId → Climb
climb_start id = record { queue = (id, 0) ∷ []; visited = id ∷ []; root_ids = []; depth = none }

-- All parents that the map has.
unfoldable pub all_parents : Map (List BlockId) → List BlockId
all_parents [] = []
all_parents ((k, ps) ∷ m) = ps ++ all_parents m

unfoldable pub climbed : Map (List BlockId) → BlockId → Climb
unfolding climb
climbed parents id =
    unwrap_or (climb (parents_of parents) (1 + length (all_parents parents)) (climb_start id))
      (climb_start id)

unfoldable pub crumb : Vault → BlockId → Crumb
crumb v id = record {
  id = id;
  title = elim (block v id) [ none ↦ id.as_str | some b ↦ display_title b ];
}

unfoldable pub lineage_with : Vault → Map (List BlockId) → BlockId → Lineage
unfolding climbed crumb
lineage_with v parents id =
    let immediate = parents_of parents id in
    let w = climbed parents id in
    record {
      is_root = is_nil immediate;
      depth = unwrap_or w.depth 0;
      parents = map (crumb v) immediate;
      roots =
          map (λ k. crumb v (of_key k)) (sort_keys (map (λ (i : BlockId). i.as_str) w.root_ids));
    }

module _ (pf : Platform) where
  unfoldable pub embed_parent_map : Vault → Map (List BlockId)
  unfolding add_all_parents
  embed_parent_map v = add_all_parents (children pf v) [] (ids v)

  unfoldable pub lineage : Vault → BlockId → Lineage
  unfolding embed_parent_map lineage_with
  lineage v id = lineage_with v (embed_parent_map v) id
