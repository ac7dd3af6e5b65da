-- ===== src/Index/Group/At.antt =====
-- What stands at a path of the tree.
use mkb.Base.{
  Bool, true, false, ◌||◌, ◌&&◌, ◌≡◌, refl, ap, ◌∙◌, List, [], ◌∷◌, ◌++◌, arith, any, Bool-cases,
  inl, inr,
}
use mkb.Text.Chars.{Str}
use mkb.Text.Strings.{str_eq, str_eq_sound}
use mkb.Index.Group.{
  GroupBlockRef, GroupNode, node, GroupNodes, nil, cons, at_segment, add_block, in_children,
  attach_or_create, extended,
}

abbrev pub segs_eq : List Str → List Str → Bool
segs_eq [] [] = true
segs_eq [] (t ∷ ts) = false
segs_eq (s ∷ ss) [] = false
segs_eq (s ∷ ss) (t ∷ ts) = str_eq s t && segs_eq ss ts

-- Is there a block at the path that passes the test?
unfoldable mutual
  pub at_node : (GroupBlockRef → Bool) → List Str → GroupNode → Bool
  at_node q [] n = false
  at_node q (seg ∷ []) (node s f bs cs) = str_eq s seg && any q bs
  at_node q (seg ∷ next ∷ p) (node s f bs cs) = str_eq s seg && at q (next ∷ p) cs

  pub at : (GroupBlockRef → Bool) → List Str → GroupNodes → Bool
  at q p nil = false
  at q p (cons n ns) = at_node q p n || at q p ns

pub or_swap : (a b c : Bool) → ((a || c) || b) ≡ ((a || b) || c)
or_swap a b c = ground arith

or_false : (a : Bool) → (a || false) ≡ a
or_false a = ground arith

pub or_assoc : (a b c : Bool) → (a || (b || c)) ≡ ((a || b) || c)
or_assoc a b c = ground arith

or_nothing : (a c : Bool) → a ≡ (a || (c && false))
or_nothing a c = ground arith

and_or : (a b c : Bool) → (a && (b || c)) ≡ ((a && b) || (a && c))
and_or a b c = ground arith

module _ (q : GroupBlockRef → Bool) where
  pub any-snoc :
      (bs : List GroupBlockRef) (b : GroupBlockRef) → any q (bs ++ b ∷ []) ≡ (any q bs || q b)
  any-snoc [] b = ground arith
  any-snoc (c ∷ bs) b = ground (arith, any-snoc bs b)

  at_none : (ns : GroupNodes) → at q [] ns ≡ false
  unfolding at
  at_none nil = refl
  at_none (cons n ns) = at_none ns

  at_new : (seg full t : Str) (p : List Str) → at_node q (t ∷ p) (node seg full [] nil) ≡ false
  unfolding at
  at_new seg full t [] = ground arith
  at_new seg full t (u ∷ p) = ground arith

  -- A change of the nodes of one segment, that adds what `more` says at a path.
  module _ (seg full t : Str) (p : List Str) (more : Bool) (change : GroupNode → GroupNode)
      (changed : (s f : Str) (bs : List GroupBlockRef) (cs : GroupNodes)
        → at_node q (t ∷ p) (change (node s f bs cs))
          ≡ (at_node q (t ∷ p) (node s f bs cs) || (str_eq s t && more))) where
    at-at_segment :
        (ns : GroupNodes)
        → at q (t ∷ p) (at_segment seg full change ns) ≡ (at q (t ∷ p) ns || (str_eq seg t && more))
    unfolding at_segment at
    at-at_segment nil =
        or_false (at_node q (t ∷ p) (change (node seg full [] nil)))
        ∙ changed seg full [] nil
        ∙ ap (λ x. x || (str_eq seg t && more)) (at_new seg full t p)
    at-at_segment (cons (node s f bs cs) ns) = elim (Bool-cases (str_eq s seg)) [
      | inl e ↦ rw (e) (
          ap (λ x. x || at q (t ∷ p) ns) (changed s f bs cs)
          ∙ or_swap (at_node q (t ∷ p) (node s f bs cs)) (at q (t ∷ p) ns) (str_eq s t && more)
          ∙ ap
              (λ z. (at_node q (t ∷ p) (node s f bs cs) || at q (t ∷ p) ns) || (str_eq z t && more))
              (str_eq_sound s seg e))
      | inr n ↦ rw (n) (
          ap (λ x. at_node q (t ∷ p) (node s f bs cs) || x) (at-at_segment ns)
          ∙ or_assoc (at_node q (t ∷ p) (node s f bs cs)) (at q (t ∷ p) ns) (str_eq seg t && more))
    ]

  add_block_at :
      (b : GroupBlockRef) (t : Str) (p : List Str) (s f : Str) (bs : List GroupBlockRef)
      (cs : GroupNodes)
      → at_node q (t ∷ p) (add_block b (node s f bs cs))
        ≡ (at_node q (t ∷ p) (node s f bs cs) || (str_eq s t && (segs_eq [] p && q b)))
  unfolding at add_block
  add_block_at b t [] s f bs cs =
      ap (λ x. str_eq s t && x) (any-snoc bs b) ∙ and_or (str_eq s t) (any q bs) (q b)
  add_block_at b t (u ∷ p) s f bs cs = or_nothing (str_eq s t && at q (u ∷ p) cs) (str_eq s t)

  in_children_at :
      (change : GroupNodes → GroupNodes) (seg : Str) (segs : List Str) (b : GroupBlockRef)
      → ((p : List Str) (cs : GroupNodes)
          → at q p (change cs) ≡ (at q p cs || (segs_eq (seg ∷ segs) p && q b)))
      → (t : Str) (p : List Str) (s f : Str) (bs : List GroupBlockRef) (cs : GroupNodes)
      → at_node q (t ∷ p) (in_children change (node s f bs cs))
        ≡ (at_node q (t ∷ p) (node s f bs cs) || (str_eq s t && (segs_eq (seg ∷ segs) p && q b)))
  unfolding at in_children
  in_children_at change seg segs b h t [] s f bs cs = ground arith
  in_children_at change seg segs b h t (u ∷ p) s f bs cs = ground (arith, h (u ∷ p) cs)

  -- Attaching a block adds it at its path and nowhere else.
  pub at-attach_or_create :
      (prefix seg : Str) (segs : List Str) (b : GroupBlockRef) (p : List Str) (level : GroupNodes)
      → at q p (attach_or_create prefix (seg ∷ segs) b level)
        ≡ (at q p level || (segs_eq (seg ∷ segs) p && q b))
  unfolding attach_or_create
  at-attach_or_create prefix seg segs b [] level =
      ground (arith, at_none (attach_or_create prefix (seg ∷ segs) b level), at_none level)
  at-attach_or_create prefix seg [] b (t ∷ p) level = ground (
    arith,
    at-at_segment seg (extended prefix seg) t p (segs_eq [] p && q b) (add_block b)
        (add_block_at b t p) level,
  )
  at-attach_or_create prefix seg (next ∷ segs) b (t ∷ p) level = ground (
    arith,
    at-at_segment seg (extended prefix seg) t p (segs_eq (next ∷ segs) p && q b)
        (in_children (attach_or_create (extended prefix seg) (next ∷ segs) b))
        (in_children_at (attach_or_create (extended prefix seg) (next ∷ segs) b) next segs b
          (λ r cs. at-attach_or_create (extended prefix seg) next segs b r cs) t p)
        level,
  )
