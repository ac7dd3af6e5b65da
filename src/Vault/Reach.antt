-- ===== src/Vault/Reach.antt =====
-- `transclusion_reaches` of crates/mkb-core/src/index.rs: the search along embeds, over any graph.
use mkb.Base.{reverse, ◌≡◌, if◌then◌else◌, suc, zero, any, length, ◌++◌, ◌∷◌, true}
use mkb.Base.{none, false, length, [], ◌∷◌, some, ◌+◌, ℕ, Bool, List, Option, unwrap_or}
use mkb.Id.{BlockId, id_eq}
use mkb.Platform.{Platform}
use mkb.Vault.{Vault, children, ids}

pub data Steps (next : BlockId → List BlockId) (start : BlockId) : BlockId → Type 0 where
  here : Steps next start start
  step :
      {b : BlockId}
      → Steps next start b
      → (c : BlockId) → any (id_eq c) (next b) ≡ true
      → Steps next start c

-- One round: the popped block is skipped if it was seen, else it is seen and its children follow.
unfoldable pub visit :
    (BlockId → List BlockId) → BlockId → List BlockId → List BlockId → List BlockId × List BlockId
visit next id stack seen =
    if any (id_eq id) seen then (stack, seen) else (reverse (next id) ++ stack, id ∷ seen)

-- The last element of the source's vector, the one that `pop` takes, is the head here.
unfoldable pub search_from :
    (BlockId → List BlockId) → BlockId → ℕ → List BlockId → List BlockId → Option Bool
unfolding visit
search_from next goal fuel [] seen = some false
search_from next goal zero (id ∷ stack) seen = none
search_from next goal (suc fuel) (id ∷ stack) seen = elim (id_eq id goal) [
  | true ↦ some true
  | false ↦
      let (stack', seen') = visit next id stack seen in search_from next goal fuel stack' seen'
]

-- The edges out of the blocks in `ids`.
unfoldable pub edges : (BlockId → List BlockId) → List BlockId → ℕ
edges next [] = 0
edges next (id ∷ ids) = length (next id) + edges next ids

module _ (pf : Platform) where
  unfoldable pub transclusion_reaches : Vault → BlockId → BlockId → Bool
  transclusion_reaches v start goal =
      unwrap_or
        (search_from (children pf v) goal (1 + edges (children pf v) (ids v)) (start ∷ []) []) false
