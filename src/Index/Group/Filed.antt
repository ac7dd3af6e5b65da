-- ===== src/Index/Group/Filed.antt =====
-- Each block is filed at each of its values, or is unfiled if it has none.
use mkb.Index.Group.Blank.{is_blank_path, said, is_nil-placements}
use mkb.Base.{all}
use mkb.Base.{
  Bool, false, ◌||◌, ◌&&◌, ◌≡◌, refl, ap, sym, ◌∙◌, List, [], ◌∷◌, ◌++◌, arith, if◌then◌else◌, any,
  Bool-cases, inl, inr,
}
use mkb.Text.Chars.{Str}
use mkb.Text.Strings.{str_eq}
use mkb.Block.{Block}
use mkb.Blockfile.Write.{is_nil}
use mkb.Platform.{Platform}
use mkb.Vault.{Vault, blocks}
use mkb.Index.Group.{
  GroupAxis, GroupBlockRef, GroupNode, node, GroupNodes, nil, cons, GroupTree, attach_or_create,
  attach_all, before, insert_ref, sort_refs, insert_node, sort_node, group_sort, placements,
  block_ref, file_block, file_blocks, group_blocks_by,
}
use mkb.Index.Group.At.{segs_eq, at_node, at, at-attach_or_create, or_assoc, any-snoc}

or_left : (a b c : Bool) → (a || (b || c)) ≡ (b || (a || c))
or_left a b c = ground arith

or_none : (a : Bool) → a ≡ (a || false)
or_none a = ground arith

or_and : (a s r b : Bool) → ((a || (s && b)) || (r && b)) ≡ (a || ((s || r) && b))
or_and a s r b = ground arith

module _ (pf : Platform) (q : GroupBlockRef → Bool) where
  any-insert_ref :
      (b : GroupBlockRef) (cs : List GroupBlockRef) → any q (insert_ref pf b cs) ≡ (q b || any q cs)
  unfolding insert_ref
  any-insert_ref b [] = refl
  any-insert_ref b (c ∷ cs) =
      elim (Bool-cases (before pf b.title c.title b.id.as_str c.id.as_str)) [
        | inl e ↦ rw (e) refl
        | inr n ↦ rw (n) (ap (λ x. q c || x) (any-insert_ref b cs) ∙ or_left (q c) (q b) (any q cs))
      ]

  any-sort_refs : (bs : List GroupBlockRef) → any q (sort_refs pf bs) ≡ any q bs
  unfolding sort_refs
  any-sort_refs [] = refl
  any-sort_refs (b ∷ bs) =
      any-insert_ref b (sort_refs pf bs) ∙ ap (λ x. q b || x) (any-sort_refs bs)

  at-insert_node :
      (p : List Str) (n : GroupNode) (ns : GroupNodes)
      → at q p (insert_node pf n ns) ≡ (at_node q p n || at q p ns)
  unfolding insert_node at
  at-insert_node p n nil = refl
  at-insert_node p (node s f bs cs) (cons (node t g ds es) ns) =
      elim (Bool-cases (before pf s t s t)) [
        | inl e ↦ rw (e) refl
        | inr m ↦ rw (m) (
            ap (λ x. at_node q p (node t g ds es) || x) (at-insert_node p (node s f bs cs) ns)
            ∙ or_left (at_node q p (node t g ds es)) (at_node q p (node s f bs cs)) (at q p ns))
      ]

  mutual
    unfolding sort_node at

    at-sort_node : (p : List Str) (n : GroupNode) → at_node q p (sort_node pf n) ≡ at_node q p n
    at-sort_node [] n = refl
    at-sort_node (seg ∷ []) (node s f bs cs) = ap (λ x. str_eq s seg && x) (any-sort_refs bs)
    at-sort_node (seg ∷ next ∷ p) (node s f bs cs) =
        ap (λ x. str_eq s seg && x) (at-group_sort (next ∷ p) cs)

    at-group_sort : (p : List Str) (ns : GroupNodes) → at q p (group_sort pf ns) ≡ at q p ns
    at-group_sort p nil = refl
    at-group_sort p (cons n ns) =
        at-insert_node p (sort_node pf n) (group_sort pf ns)
        ∙ ap (λ x. x || at q p (group_sort pf ns)) (at-sort_node p n)
        ∙ ap (λ x. at_node q p n || x) (at-group_sort p ns)

module _ (q : GroupBlockRef → Bool) (t : Str) (p : List Str) where
  abbrev among : List (List Str) → Bool
  among ps = any (λ segs. segs_eq segs (t ∷ p)) ps

  at-attach :
      (segs : List Str) (b : GroupBlockRef) (level : GroupNodes)
      → at q (t ∷ p) (attach_or_create [] segs b level)
        ≡ (at q (t ∷ p) level || (segs_eq segs (t ∷ p) && q b))
  unfolding attach_or_create
  at-attach [] b level = or_none (at q (t ∷ p) level)
  at-attach (seg ∷ segs) b level = at-attach_or_create q [] seg segs b (t ∷ p) level

  at-attach_all :
      (ps : List (List Str)) (b : GroupBlockRef) (level : GroupNodes)
      → at q (t ∷ p) (attach_all ps b level) ≡ (at q (t ∷ p) level || (among ps && q b))
  unfolding attach_all
  at-attach_all [] b level = or_none (at q (t ∷ p) level)
  at-attach_all (segs ∷ ps) b level =
      at-attach_all ps b (attach_or_create [] segs b level)
      ∙ ap (λ x. x || (among ps && q b)) (at-attach segs b level)
      ∙ or_and (at q (t ∷ p) level) (segs_eq segs (t ∷ p)) (among ps) (q b)

  module _ (pf : Platform) (v : Vault) (axis : GroupAxis) where
    -- Is the block one that belongs at the path?
    abbrev belongs : Block → Bool
    belongs b = among (placements pf axis b) && q (block_ref pf v b)

    at_placed :
        (ps : List (List Str)) (r : GroupBlockRef) (tree : GroupTree)
        → at q
            (t ∷ p)
            (if is_nil ps
              then record tree { unfiled = tree.unfiled ++ r ∷ [] }
              else record tree { roots = attach_all ps r tree.roots }).roots
          ≡ (at q (t ∷ p) tree.roots || (among ps && q r))
    at_placed [] r tree = or_none (at q (t ∷ p) tree.roots)
    at_placed (segs ∷ ps) r tree = at-attach_all (segs ∷ ps) r tree.roots

    at-file_block :
        (b : Block) (tree : GroupTree)
        → at q (t ∷ p) (file_block pf v axis b tree).roots ≡ (at q (t ∷ p) tree.roots || belongs b)
    unfolding file_block
    at-file_block b tree = at_placed (placements pf axis b) (block_ref pf v b) tree

    at-file_blocks :
        (bs : List Block) (tree : GroupTree)
        → at q (t ∷ p) (file_blocks pf v axis bs tree).roots
          ≡ (at q (t ∷ p) tree.roots || any belongs bs)
    unfolding file_blocks
    at-file_blocks [] tree = or_none (at q (t ∷ p) tree.roots)
    at-file_blocks (b ∷ bs) tree =
        at-file_blocks bs (file_block pf v axis b tree)
        ∙ ap (λ x. x || any belongs bs) (at-file_block b tree)
        ∙ sym (or_assoc (at q (t ∷ p) tree.roots) (belongs b) (any belongs bs))

    -- At each path of the tree stand exactly the blocks that have the path among the values of the
    -- axis, read as paths, for any property of their rows.
    pub group_blocks_by-at :
        at q (t ∷ p) (group_blocks_by pf v axis).roots
        ≡ any
            (λ b. any (λ segs. segs_eq segs (t ∷ p)) (placements pf axis b) && q (block_ref pf v b))
            (blocks v)
    unfolding group_blocks_by at
    group_blocks_by-at =
        at-group_sort pf q (t ∷ p)
          (file_blocks pf v axis (blocks v) (record { roots = nil; unfiled = [] })).roots
        ∙ at-file_blocks (blocks v) (record { roots = nil; unfiled = [] })

module _ (q : GroupBlockRef → Bool) (pf : Platform) (v : Vault) (axis : GroupAxis) where
  -- Is the block one without a value?
  abbrev stray : Block → Bool
  stray b = is_nil (placements pf axis b) && q (block_ref pf v b)

  any_placed :
      (ps : List (List Str)) (r : GroupBlockRef) (tree : GroupTree)
      → any q
          (if is_nil ps
            then record tree { unfiled = tree.unfiled ++ r ∷ [] }
            else record tree { roots = attach_all ps r tree.roots }).unfiled
        ≡ (any q tree.unfiled || (is_nil ps && q r))
  any_placed [] r tree = any-snoc q tree.unfiled r
  any_placed (segs ∷ ps) r tree = or_none (any q tree.unfiled)

  any-file_blocks :
      (bs : List Block) (tree : GroupTree)
      → any q (file_blocks pf v axis bs tree).unfiled ≡ (any q tree.unfiled || any stray bs)
  unfolding file_blocks file_block
  any-file_blocks [] tree = or_none (any q tree.unfiled)
  any-file_blocks (b ∷ bs) tree =
      any-file_blocks bs (file_block pf v axis b tree)
      ∙ ap (λ x. x || any stray bs) (any_placed (placements pf axis b) (block_ref pf v b) tree)
      ∙ sym (or_assoc (any q tree.unfiled) (stray b) (any stray bs))

  -- Read without the placements: what the axis says on the block has only white space and slashes.
  any-stray :
      (bs : List Block)
      → any stray bs ≡ any (λ b. all is_blank_path (said axis b) && q (block_ref pf v b)) bs
  any-stray [] = refl
  any-stray (b ∷ bs) =
      ap (λ x. (x && q (block_ref pf v b)) || any stray bs) (is_nil-placements pf axis b)
      ∙ ap (λ x. (all is_blank_path (said axis b) && q (block_ref pf v b)) || x) (any-stray bs)

  -- Exactly the blocks are unfiled on which the axis says nothing but white space and slashes: the
  -- tags, or else the first property with the key, for any property of their rows.
  pub group_blocks_by-unfiled :
      any q (group_blocks_by pf v axis).unfiled
      ≡ any (λ b. all is_blank_path (said axis b) && q (block_ref pf v b)) (blocks v)
  unfolding group_blocks_by
  group_blocks_by-unfiled =
      any-sort_refs pf q
        (file_blocks pf v axis (blocks v) (record { roots = nil; unfiled = [] })).unfiled
      ∙ any-file_blocks (blocks v) (record { roots = nil; unfiled = [] })
      ∙ any-stray (blocks v)
