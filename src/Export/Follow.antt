-- ===== src/Export/Follow.antt =====
-- `expand_follow_links` of crates/mkb-core/src/export.rs.
use mkb.Base.{
  ℕ, zero, suc, ◌+◌, List, [], ◌∷◌, ◌++◌, Option, none, some, if◌then◌else◌, length, reverse,
  unwrap_or,
}
use mkb.Id.{BlockId}
use mkb.Platform.{Platform}
use mkb.Vault
use mkb.Vault.{Vault}
use mkb.Vault.Reach.{edges}
use mkb.Vault.Search.{has}
use mkb.Render.Targets.{flat_reference_targets}

-- The state of the loop. The last element of the source's queue, the one that `pop` takes, is the
-- head here.
pub record Expansion : Type 0 where
  pub ids : List BlockId
  pub in_set : List BlockId
  pub queue : List BlockId

unfoldable pub add_linked : List BlockId → Expansion → Expansion
add_linked [] w = w
add_linked (t ∷ ts) w = add_linked ts (
    if has t w.in_set
    then w
    else record { ids = w.ids ++ t ∷ []; in_set = t ∷ w.in_set; queue = t ∷ w.queue })

module _ (next : BlockId → List BlockId) where
  unfoldable pub expand : ℕ → Expansion → Option Expansion
  unfolding add_linked
  expand zero w = elim w.queue [ [] ↦ some w | id ∷ rest ↦ none ]
  expand (suc fuel) w = elim w.queue [
    | [] ↦ some w
    | id ∷ rest ↦ expand fuel (add_linked (next id) (record w { queue = rest }))
  ]

abbrev pub expand_start : List BlockId → Expansion
expand_start ids = record { ids = ids; in_set = ids; queue = reverse ids }

module _ (pf : Platform) (v : Vault) where
  unfoldable pub expand_follow_links : List BlockId → List BlockId
  unfolding expand
  expand_follow_links ids =
      let next = flat_reference_targets pf v in
      (unwrap_or (expand next (length ids + edges next (Vault.ids v)) (expand_start ids))
        (expand_start ids)).ids
