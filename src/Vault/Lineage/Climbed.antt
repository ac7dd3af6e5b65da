-- ===== src/Vault/Lineage/Climbed.antt =====
-- What the walk up has found when it ends.
use mkb.Base.{
  unwrap_or, ℕ, zero, suc, ◌+◌, ◌||◌, true, false, ◌≡◌, ◌↔◌, refl, ap, sym, subst, ◌∙◌, List, [],
  ◌∷◌, some, arith, Bool-cases, inl, inr,
}
use mkb.Id.{BlockId, id_eq}
use mkb.Blockfile.Write.{is_nil}
use mkb.Vault.Reach.{Steps, here, step}
use mkb.Vault.Search.{has, same, any-append, id_eq_sound, has-head}
use mkb.Vault.Lineage.{Climb, add_root, climb_step, climb, climb_start}
use mkb.Vault.Lineage.Walk.{waiting, popped, Enqueued, enqueue-Enqueued}

has-is_nil : (x : BlockId) (l : List BlockId) → is_nil l ≡ true → has x l ≡ false
has-is_nil x [] h = refl
has-is_nil x (y ∷ l) h = ground arith

module _ (up : BlockId → List BlockId) (start : BlockId) where
  -- What is visited can be reached; what is visited and does not wait is a root that was found, or
  -- its parents are visited.
  pub record Climbing (w : Climb) : Type 0 where
    pub begun : has start w.visited ≡ true
    pub reached : (x : BlockId) → has x w.visited ≡ true → Steps up start x
    pub waits : (x : BlockId) → has x (waiting w) ≡ true → has x w.visited ≡ true
    pub roots :
        (x : BlockId) → has x w.root_ids ≡ true → (has x w.visited ≡ true) × (is_nil (up x) ≡ true)
    pub expanded :
        (x c : BlockId)
        → has x w.visited ≡ true
        → has c (up x) ≡ true
        → (has c w.visited || has x (waiting w)) ≡ true
    pub rooted :
        (x : BlockId)
        → has x w.visited ≡ true
        → is_nil (up x) ≡ true
        → (has x w.root_ids || has x (waiting w)) ≡ true

  pub climb_start-Climbing : Climbing (climb_start start)
  climb_start-Climbing = record {
    begun = ground (arith, has-head start []);
    reached = λ x h. subst (Steps up start) (sym (id_eq_sound x start (ground arith))) here;
    waits = λ x h. h;
    roots = λ x h. ground arith;
    expanded = λ x c h k. ground arith;
    rooted = λ x h k. ground arith;
  }

  module _ (node : BlockId) (d : ℕ) (rest : List (BlockId × ℕ)) (w : Climb)
      (first : w.queue ≡ (node, d) ∷ rest) (i : Climbing w) where
    waiting-first :
        (x : BlockId) → has x (waiting w) ≡ (id_eq x node || has x (waiting (popped w rest)))
    waiting-first x = rw (first) refl

    node_visited : has node w.visited ≡ true
    node_visited = i.waits node (ground (arith, waiting-first node, has-head node []))

    has-add_root :
        (x : BlockId)
        → has x (add_root node d (popped w rest)).root_ids ≡ (has x w.root_ids || id_eq x node)
    unfolding add_root
    has-add_root x = elim (Bool-cases (has node w.root_ids)) [
      | inl m ↦ rw (m) (ground (arith, same (λ z. has z w.root_ids) x node))
      | inr n ↦ rw (n) (ground (arith, any-append (id_eq x) w.root_ids (node ∷ [])))
    ]

    root-Climbing : is_nil (up node) ≡ true → Climbing (add_root node d (popped w rest))
    unfolding add_root
    root-Climbing e = record {
      begun = i.begun;
      reached = i.reached;
      waits = λ x h. i.waits x (ground (arith, waiting-first x));
      roots = λ x h. elim (Bool-cases (has x w.root_ids)) [
        | inl m ↦ i.roots x m
        | inr n ↦
            let at_node = has-add_root x in
            (
              ground (arith, at_node, h, node_visited, same (λ z. has z w.visited) x node),
              ground (arith, at_node, h, e, same (λ z. is_nil (up z)) x node),
            )
      ];
      expanded = λ x c h k. ground (
        arith,
        i.expanded x c h k,
        waiting-first x,
        same (λ z. has c (up z)) x node,
        has-is_nil c (up node) e,
      );
      rooted = λ x h k. ground (arith, has-add_root x, i.rooted x h k, waiting-first x);
    }

    enqueued-Climbing :
        (w' : Climb)
        → is_nil (up node) ≡ false
        → Enqueued (up node) (popped w rest) w'
        → Climbing w'
    enqueued-Climbing w' e q = record {
      begun = ground (arith, q.visited start, i.begun);
      reached = λ x h. elim (Bool-cases (has x w.visited)) [
        | inl m ↦ i.reached x m
        | inr n ↦ step (i.reached node node_visited) x (ground (arith, q.visited x))
      ];
      waits = λ x h. ground (arith, q.visited x, q.seen x h, i.waits x, waiting-first x);
      roots = λ x h.
          (let r = i.roots x (ap (has x) (sym q.root_ids) ∙ h) in
            (ground (arith, q.visited x, r.0), r.1));
      expanded = λ x c h k. ground (
        arith,
        q.visited c,
        q.fresh x h,
        q.kept x,
        i.expanded x c,
        waiting-first x,
        same (λ z. has c (up z)) x node,
      );
      rooted = λ x h k. ground (
        arith,
        q.fresh x h,
        q.kept x,
        i.rooted x,
        waiting-first x,
        same (λ z. is_nil (up z)) x node,
        ap (has x) q.root_ids,
      );
    }

    climb_step-Climbing : Climbing (climb_step up node d (popped w rest))
    unfolding climb_step
    climb_step-Climbing = elim (Bool-cases (is_nil (up node))) [
      | inl e ↦ rw (climb_step, e) (root-Climbing e)
      | inr n ↦
          rw (climb_step, n)
            (enqueued-Climbing _ n (enqueue-Enqueued (d + 1) (up node) (popped w rest)))
    ]

  ended :
      (w : Climb) {w' : Climb}
      → w.queue ≡ []
      → Climbing w
      → some w ≡ some w'
      → Climbing w' × (w'.queue ≡ [])
  ended w e i c =
      let same_state = ap (λ o. unwrap_or o w) c in
      (subst Climbing same_state i, sym (ap (λ (s : Climb). s.queue) same_state) ∙ e)

  -- What holds at the end of the walk, with an empty queue.
  pub climb-Climbing :
      (fuel : ℕ) (w : Climb) (q : List (BlockId × ℕ)) {w' : Climb}
      → w.queue ≡ q
      → Climbing w
      → climb up fuel w ≡ some w'
      → Climbing w' × (w'.queue ≡ [])
  unfolding climb
  climb-Climbing zero w [] e i c = ended w e i (rw (climb, e) at c)
  climb-Climbing zero w (x ∷ q) e i c =
      (let stopped = rw (climb, e) at c in ground (arith, stopped))
  climb-Climbing (suc fuel) w [] e i c = ended w e i (rw (climb, e) at c)
  climb-Climbing (suc fuel) w (x ∷ q) e i c =
      climb-Climbing fuel (climb_step up x.0 x.1 (popped w q)) _ refl
        (climb_step-Climbing x.0 x.1 q w e i) (rw (climb, e) at c)

  module _ (w : Climb) (i : Climbing w) (done : w.queue ≡ []) where
    none_waits : (x : BlockId) → has x (waiting w) ≡ false
    none_waits x = rw (done) refl

    all_visited : (x : BlockId) → Steps up start x → has x w.visited ≡ true
    all_visited x here = i.begun
    all_visited x (step {b = b} p c q) =
        ground (arith, i.expanded b c (all_visited b p) q, none_waits b)

    -- The roots that were found are those that can be reached.
    pub root_ids_iff :
        (x : BlockId) → (has x w.root_ids ≡ true) ↔ (Steps up start x × (is_nil (up x) ≡ true))
    root_ids_iff x = (
      λ h. (let r = i.roots x h in (i.reached x r.0, r.1)),
      λ (p, e). ground (arith, i.rooted x (all_visited x p) e, none_waits x),
    )
