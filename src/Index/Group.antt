-- ===== src/Index/Group.antt =====
-- `group_blocks_by` of crates/mkb-core/src/index.rs: blocks filed in a tree by tags or by a property.
pub mod At
pub mod Blank
pub mod Filed
use mkb.Base.{
  Bool, true, false, ◌||◌, not, List, [], ◌∷◌, ◌++◌, map, Option, none, some, if◌then◌else◌, filter,
  any,
}
use mkb.Text.Chars.{Str}
use mkb.Text.Strings.{str_eq, is_empty}
use mkb.Text.Trim.{trim}
use mkb.Text.Lines.{split}
use mkb.Id.{BlockId}
use mkb.Block.{Block}
use mkb.Block.Views.{display_title}
use mkb.Blockfile.Write.{Prop, is_nil}
use mkb.Platform.{Platform}
use mkb.Vault
use mkb.Vault.{Vault, str_leb, blocks}
use mkb.Vault.Search.{has}

pub data GroupAxis : Type 0 where
  tags : GroupAxis
  property : Str → GroupAxis

pub record GroupBlockRef : Type 0 where
  pub id : BlockId
  pub title : Str
  pub root : Bool

-- The fields are `segment`, `full_value`, `blocks` and `children`.
mutual
  pub data GroupNode : Type 0 where
    node : Str → Str → List GroupBlockRef → GroupNodes → GroupNode

  pub data GroupNodes : Type 0 where
    nil : GroupNodes
    cons : GroupNode → GroupNodes → GroupNodes

pub record GroupTree : Type 0 where
  pub roots : GroupNodes
  pub unfiled : List GroupBlockRef

unfoldable pub group_segments : Str → List Str
group_segments value = filter (λ s. not (is_empty s)) (map trim (split b'/' value))

unfoldable pub extended : Str → Str → Str
extended prefix seg = if is_empty prefix then seg else prefix ++ b'/' ∷ seg

-- The first node for the segment is changed, or a new one at the end.
unfoldable pub at_segment : Str → Str → (GroupNode → GroupNode) → GroupNodes → GroupNodes
at_segment seg full change nil = cons (change (node seg full [] nil)) nil
at_segment seg full change (cons (node s f bs cs) ns) =
    if str_eq s seg
    then cons (change (node s f bs cs)) ns
    else cons (node s f bs cs) (at_segment seg full change ns)

unfoldable pub add_block : GroupBlockRef → GroupNode → GroupNode
add_block b (node s f bs cs) = node s f (bs ++ b ∷ []) cs

unfoldable pub in_children : (GroupNodes → GroupNodes) → GroupNode → GroupNode
in_children change (node s f bs cs) = node s f bs (change cs)

-- The first argument is the path so far.
unfoldable pub attach_or_create : Str → List Str → GroupBlockRef → GroupNodes → GroupNodes
unfolding at_segment add_block in_children extended
attach_or_create prefix [] b level = level
attach_or_create prefix (seg ∷ []) b level =
    at_segment seg (extended prefix seg) (add_block b) level
attach_or_create prefix (seg ∷ next ∷ segs) b level =
    at_segment seg (extended prefix seg)
      (in_children (attach_or_create (extended prefix seg) (next ∷ segs) b)) level

unfoldable pub attach_all : List (List Str) → GroupBlockRef → GroupNodes → GroupNodes
unfolding attach_or_create
attach_all [] b level = level
attach_all (segs ∷ rest) b level = attach_all rest b (attach_or_create [] segs b level)

module _ (pf : Platform) where
  -- `a` stands before `b`, or they are equal, by lower case and then by a second key.
  unfoldable pub before : Str → Str → Str → Str → Bool
  before a b a' b' =
      if str_eq (pf.to_lowercase a) (pf.to_lowercase b)
      then str_leb a' b'
      else str_leb (pf.to_lowercase a) (pf.to_lowercase b)

  unfoldable pub insert_ref : GroupBlockRef → List GroupBlockRef → List GroupBlockRef
  unfolding before
  insert_ref b [] = b ∷ []
  insert_ref b (c ∷ cs) =
      if before b.title c.title b.id.as_str c.id.as_str then b ∷ c ∷ cs else c ∷ insert_ref b cs

  unfoldable pub sort_refs : List GroupBlockRef → List GroupBlockRef
  unfolding insert_ref
  sort_refs [] = []
  sort_refs (b ∷ bs) = insert_ref b (sort_refs bs)

  unfoldable pub insert_node : GroupNode → GroupNodes → GroupNodes
  unfolding before
  insert_node n nil = cons n nil
  insert_node (node s f bs cs) (cons (node t g ds es) ns) =
      if before s t s t
      then cons (node s f bs cs) (cons (node t g ds es) ns)
      else cons (node t g ds es) (insert_node (node s f bs cs) ns)

  -- What is sorted below a node does not matter for its own place.
  unfoldable mutual
    unfolding sort_refs insert_node

    pub sort_node : GroupNode → GroupNode
    sort_node (node s f bs cs) = node s f (sort_refs bs) (group_sort cs)

    pub group_sort : GroupNodes → GroupNodes
    group_sort nil = nil
    group_sort (cons n ns) = insert_node (sort_node n) (group_sort ns)

  unfoldable pub values_of : GroupAxis → Block → List Str
  values_of tags b = b.tags
  values_of (property key) b = first_value b.props
    where
      first_value : List Prop → List Str
      first_value [] = []
      first_value ((k, v) ∷ ps) = if str_eq k key then v ∷ [] else first_value ps

  unfoldable pub placements : GroupAxis → Block → List (List Str)
  unfolding values_of group_segments
  placements axis b = filter (λ segs. not (is_nil segs)) (map group_segments (values_of axis b))

  unfoldable pub block_ref : Vault → Block → GroupBlockRef
  block_ref v b = record { id = b.id; title = display_title b; root = has b.id (Vault.roots pf v) }

  unfoldable pub file_block : Vault → GroupAxis → Block → GroupTree → GroupTree
  unfolding placements block_ref attach_all
  file_block v axis b tree =
      let ps = placements axis b in
      if is_nil ps
      then record tree { unfiled = tree.unfiled ++ block_ref v b ∷ [] }
      else record tree { roots = attach_all ps (block_ref v b) tree.roots }

  unfoldable pub file_blocks : Vault → GroupAxis → List Block → GroupTree → GroupTree
  unfolding file_block
  file_blocks v axis [] tree = tree
  file_blocks v axis (b ∷ bs) tree = file_blocks v axis bs (file_block v axis b tree)

  unfoldable pub group_blocks_by : Vault → GroupAxis → GroupTree
  unfolding file_blocks sort_refs group_sort
  group_blocks_by v axis =
      let tree = file_blocks v axis (blocks v) (record { roots = nil; unfiled = [] }) in
      record { roots = group_sort tree.roots; unfiled = sort_refs tree.unfiled }
