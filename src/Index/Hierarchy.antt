-- ===== src/Index/Hierarchy.antt =====
-- `hierarchy_tree` of crates/mkb-core/src/index.rs: roots, and what they embed and refer to.
pub mod Ends
use mathlib.Core.Option
use mkb.Base.{
  ℕ, zero, suc, Bool, true, false, List, [], ◌∷◌, ◌++◌, map, Option, none, some, if◌then◌else◌,
  length,
}
use mkb.Text.Chars.{Str}
use mkb.Id.{BlockId, id_eq}
use mkb.Block.{Block}
use mkb.Block.Views.{display_title}
use mkb.Platform.{Platform}
use mkb.Vault
use mkb.Vault.{Vault}
use mkb.Vault.Search.{has}
use mkb.Index.{LinkKind, LinkRow, references, transcludes, block_links}
use mkb.Index.Group.{before}

pub data HierEdge : Type 0 where
  embed reference : HierEdge

-- The fields are `id`, `title`, `root`, `edge`, `children` and `truncated`.
mutual
  pub data HierNode : Type 0 where
    node : BlockId → Str → Bool → Option HierEdge → HierNodes → Bool → HierNode

  pub data HierNodes : Type 0 where
    nil : HierNodes
    cons : HierNode → HierNodes → HierNodes

abbrev pub edge_of : LinkKind → HierEdge
edge_of references = reference
edge_of transcludes = embed

abbrev pub stronger : HierEdge → HierEdge → HierEdge
stronger old embed = embed
stronger old reference = old

-- A target that is there already becomes an embed if it is embedded too.
unfoldable pub add_kind : BlockId → HierEdge → List (BlockId × HierEdge) → List (BlockId × HierEdge)
add_kind target edge [] = (target, edge) ∷ []
add_kind target edge ((t, old) ∷ kinds) =
    if id_eq t target then (t, stronger old edge) ∷ kinds else (t, old) ∷ add_kind target edge kinds

-- The links of a block, but for those that lead nowhere or to itself.
unfoldable pub collect_kinds :
    BlockId → List LinkRow → List (BlockId × HierEdge) → List (BlockId × HierEdge)
unfolding add_kind
collect_kinds id [] kinds = kinds
collect_kinds id (row ∷ rows) kinds = elim row.target_id [
  | none ↦ collect_kinds id rows kinds
  | some target ↦
      collect_kinds id rows
        (if id_eq target id then kinds else add_kind target (edge_of row.kind) kinds)
]

-- The nodes of the children, if each has one.
unfoldable pub nodes_of :
    (BlockId → HierEdge → Option HierNode) → List (BlockId × HierEdge) → Option HierNodes
nodes_of make [] = some nil
nodes_of make ((target, edge) ∷ kinds) = elim (make target edge) [
  | none ↦ none
  | some n ↦ Option.map (cons n) (nodes_of make kinds)
]

module _ (pf : Platform) (v : Vault) where
  unfoldable pub title_of : BlockId → Str
  title_of id = elim (Vault.block v id) [ none ↦ id.as_str | some b ↦ display_title b ]

  -- The fuel bounds the length of a path. The last flag is `truncated`.
  unfoldable pub hier_node : ℕ → BlockId → Option HierEdge → List BlockId → Option HierNode
  unfolding nodes_of collect_kinds title_of
  hier_node zero id edge ancestors = none
  hier_node (suc fuel) id edge ancestors =
      let root = has id (Vault.roots pf v) in
      if has id ancestors
      then some (node id (title_of id) root edge nil true)
      else elim (Vault.block v id) [
        | none ↦ some (node id (title_of id) root edge nil false)
        | some b ↦
            Option.map (λ (cs : HierNodes). node id (title_of id) root edge cs false)
              (nodes_of (λ target e. hier_node fuel target (some e) (id ∷ ancestors))
                (collect_kinds id (block_links pf v b) []))
      ]

  unfoldable pub insert_root : HierNode → HierNodes → HierNodes
  insert_root n nil = cons n nil
  insert_root (node i s r e ns t) (cons (node j s' r' e' ns' t') rest) =
      if before pf s s' i.as_str j.as_str
      then cons (node i s r e ns t) (cons (node j s' r' e' ns' t') rest)
      else cons (node j s' r' e' ns' t') (insert_root (node i s r e ns t) rest)

  unfoldable pub sort_roots : HierNodes → HierNodes
  unfolding insert_root
  sort_roots nil = nil
  sort_roots (cons n ns) = insert_root n (sort_roots ns)

  unfoldable pub root_nodes : List BlockId → Option HierNodes
  unfolding hier_node
  root_nodes [] = some nil
  root_nodes (id ∷ ids) = elim (hier_node (suc (length (Vault.ids v))) id none []) [
    | none ↦ none
    | some n ↦ Option.map (cons n) (root_nodes ids)
  ]

  unfoldable pub hierarchy_tree : Option HierNodes
  unfolding root_nodes sort_roots
  hierarchy_tree = Option.map sort_roots (root_nodes (Vault.roots pf v))
