-- ===== src/Index/Hierarchy/Ends.antt =====
-- The hierarchy is finite, whatever cycles the links make.
use mkb.Base.{
  ℕ, zero, suc, ◌<◌, false, ◌≡◌, refl, ap, List, [], ◌∷◌, Option, none, some, is_none, arith,
  length, Bool-cases, Option-cases, inl, inr,
}
use mkb.Id.{BlockId}
use mkb.Platform.{Platform}
use mkb.Vault
use mkb.Vault.{Vault}
use mkb.Vault.Search.{has}
use mkb.Render.Unvisited.{map-is_some, unvisited, unvisited-length, unvisited-visit}
use mkb.Index.{block_links}
use mkb.Index.Hierarchy.{
  HierEdge, HierNode, cons, collect_kinds, nodes_of, hier_node, root_nodes, hierarchy_tree,
  sort_roots,
}

nodes_of-is_some :
    (make : BlockId → HierEdge → Option HierNode)
    → ((id : BlockId) (e : HierEdge) → is_none (make id e) ≡ false)
    → (kinds : List (BlockId × HierEdge)) → is_none (nodes_of make kinds) ≡ false
unfolding nodes_of
nodes_of-is_some make h [] = refl
nodes_of-is_some make h ((t, e) ∷ kinds) = elim (Option-cases (make t e)) [
  | inl n ↦ ground (arith, h t e, ap is_none n)
  | inr (n, m) ↦ rw (nodes_of, m) (map-is_some (cons n) _ (nodes_of-is_some make h kinds))
]

module _ (pf : Platform) (v : Vault) where
  hier_node-is_some :
      (fuel : ℕ) (id : BlockId) (edge : Option HierEdge) (ancestors : List BlockId)
      → unvisited (Vault.ids v) ancestors < fuel
      → is_none (hier_node pf v fuel id edge ancestors) ≡ false
  unfolding hier_node
  hier_node-is_some zero id edge ancestors h = ground arith
  hier_node-is_some (suc fuel) id edge ancestors h = elim (Bool-cases (has id ancestors)) [
    | inl m ↦ rw (hier_node, m) refl
    | inr n ↦ elim (Option-cases (Vault.block v id)) [
      | inl e ↦ rw (hier_node, n, e) refl
      | inr (b, e) ↦
          rw (hier_node, n, e)
            (map-is_some _ _ (
              nodes_of-is_some (λ t k. hier_node pf v fuel t (some k) (id ∷ ancestors))
                (λ t k.
                  hier_node-is_some fuel t (some k) (id ∷ ancestors)
                    (omega (arith, unvisited-visit pf v id b ancestors e n, h)))
                (collect_kinds id (block_links pf v b) [])))
    ]
  ]

  root_nodes-is_some : (ids : List BlockId) → is_none (root_nodes pf v ids) ≡ false
  unfolding root_nodes
  root_nodes-is_some [] = refl
  root_nodes-is_some (id ∷ ids) =
      elim (Option-cases (hier_node pf v (suc (length (Vault.ids v))) id none [])) [
        | inl n ↦ ground (
          arith,
          hier_node-is_some (suc (length (Vault.ids v))) id none []
              (omega (arith, unvisited-length (Vault.ids v) [])),
          ap is_none n,
        )
        | inr (n, m) ↦ rw (root_nodes, m) (map-is_some (cons n) _ (root_nodes-is_some ids))
      ]

  -- The hierarchy of a vault is finite: building it ends, whatever cycles the links make.
  pub hierarchy_tree-total : is_none (hierarchy_tree pf v) ≡ false
  unfolding hierarchy_tree
  hierarchy_tree-total = map-is_some (sort_roots pf v) _ (root_nodes-is_some (Vault.roots pf v))
