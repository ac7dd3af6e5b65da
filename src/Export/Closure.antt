-- ===== src/Export/Closure.antt =====
-- The followed links are closed: nothing that a block of the set refers to is left out.
use mkb.Base.{
  ℕ, zero, suc, ◌||◌, true, ◌≡◌, ◌↔◌, refl, ap, sym, subst, ◌∙◌, List, [], ◌∷◌, ◌++◌, some, arith,
  unwrap_or, if◌then◌else◌, Bool-cases, inl, inr,
}
use mkb.Id.{BlockId, id_eq}
use mkb.Vault.Reach.{Steps, here, step}
use mkb.Vault.Search.{has, same, any-append, any-reverse, has-head}
use mkb.Export.Follow.{Expansion, add_linked, expand, expand_start}

abbrev pub linked : BlockId → Expansion → Expansion
linked t w =
    if has t w.in_set
    then w
    else record { ids = w.ids ++ t ∷ []; in_set = t ∷ w.in_set; queue = t ∷ w.queue }

-- What `add_linked` does: the targets are in the set, and what is new waits.
record Added (ts : List BlockId) (w w' : Expansion) : Type 0 where
  pub in_set : (x : BlockId) → has x w'.in_set ≡ (has x w.in_set || has x ts)
  pub kept : (x : BlockId) → has x w.queue ≡ true → has x w'.queue ≡ true
  pub fresh : (x : BlockId) → has x w'.in_set ≡ true → (has x w.in_set || has x w'.queue) ≡ true
  pub seen : (x : BlockId) → has x w'.queue ≡ true → (has x w.queue || has x ts) ≡ true
  pub ids : (x : BlockId) → has x w.ids ≡ has x w.in_set → has x w'.ids ≡ has x w'.in_set

linked-Added : (t : BlockId) (w : Expansion) → Added (t ∷ []) w (linked t w)
linked-Added t w = elim (Bool-cases (has t w.in_set)) [
  | inl m ↦ rw (m) (record {
    in_set = λ x. ground (arith, same (λ k. has k w.in_set) x t);
    kept = λ x h. h;
    fresh = λ x h. ground arith;
    seen = λ x h. ground arith;
    ids = λ x h. h;
  })
  | inr n ↦ rw (n) (record {
    in_set = λ x. ground arith;
    kept = λ x h. ground arith;
    fresh = λ x h. ground arith;
    seen = λ x h. ground arith;
    ids = λ x h. ground (arith, any-append (id_eq x) w.ids (t ∷ []));
  })
]

add_linked-Added : (ts : List BlockId) (w : Expansion) → Added ts w (add_linked ts w)
unfolding add_linked
add_linked-Added [] w = record {
  in_set = λ x. ground arith;
  kept = λ x h. h;
  fresh = λ x h. ground arith;
  seen = λ x h. ground arith;
  ids = λ x h. h;
}
add_linked-Added (t ∷ ts) w =
    let one = linked-Added t w in
    let others = add_linked-Added ts (linked t w) in
    record {
      in_set = λ x. others.in_set x ∙ ground (arith, one.in_set x);
      kept = λ x h. others.kept x (one.kept x h);
      fresh = λ x h. ground (arith, others.fresh x h, one.fresh x, others.kept x);
      seen = λ x h. ground (arith, others.seen x h, one.seen x);
      ids = λ x h. others.ids x (one.ids x h);
    }

module _ (next : BlockId → List BlockId) (ids : List BlockId) where
  -- Links lead to the block from one of the first ones.
  abbrev pub Linked : BlockId → Type 0
  Linked x = (s : BlockId) × (has s ids ≡ true) × Steps next s x

  -- What is in the set can be reached, and what is in the set and does not wait has its links in
  -- the set.
  pub record Expanding (w : Expansion) : Type 0 where
    pub begun : (x : BlockId) → has x ids ≡ true → has x w.in_set ≡ true
    pub reached : (x : BlockId) → has x w.in_set ≡ true → Linked x
    pub waits : (x : BlockId) → has x w.queue ≡ true → has x w.in_set ≡ true
    pub listed : (x : BlockId) → has x w.ids ≡ has x w.in_set
    pub expanded :
        (x c : BlockId)
        → has x w.in_set ≡ true
        → has c (next x) ≡ true
        → (has c w.in_set || has x w.queue) ≡ true

  pub expand_start-Expanding : Expanding (expand_start ids)
  expand_start-Expanding = record {
    begun = λ x h. h;
    reached = λ x h. (x, h, here);
    waits = λ x h. sym (any-reverse (id_eq x) ids) ∙ h;
    listed = λ x. refl;
    expanded = λ x c h k. ground (arith, any-reverse (id_eq x) ids, h);
  }

  add_linked-Expanding :
      (id : BlockId) (rest : List BlockId) (w w' : Expansion)
      → w.queue ≡ id ∷ rest
      → Expanding w
      → Added (next id) (record w { queue = rest }) w'
      → Expanding w'
  add_linked-Expanding id rest w w' e i a =
      let first = λ (x : BlockId). ap (has x) e in
      record {
        begun = λ x h. ground (arith, a.in_set x, i.begun x h);
        reached = λ x h. elim (Bool-cases (has x w.in_set)) [
          | inl m ↦ i.reached x m
          | inr n ↦
              let (s, k, p) = i.reached id (i.waits id (first id ∙ has-head id rest)) in
              (s, k, step p x (ground (arith, a.in_set x)))
        ];
        waits = λ x h. ground (arith, a.in_set x, a.seen x h, i.waits x, first x);
        listed = λ x. a.ids x (i.listed x);
        expanded = λ x c h k. ground (
          arith,
          a.in_set c,
          a.fresh x h,
          a.kept x,
          i.expanded x c,
          first x,
          same (λ z. has c (next z)) x id,
        );
      }

  done :
      (w : Expansion) {w' : Expansion}
      → w.queue ≡ []
      → Expanding w
      → some w ≡ some w'
      → Expanding w' × (w'.queue ≡ [])
  done w e i c =
      let one = ap (λ o. unwrap_or o w) c in
      (subst Expanding one i, sym (ap (λ (s : Expansion). s.queue) one) ∙ e)

  pub expand-Expanding :
      (fuel : ℕ) (w : Expansion) (q : List BlockId) {w' : Expansion}
      → w.queue ≡ q
      → Expanding w
      → expand next fuel w ≡ some w'
      → Expanding w' × (w'.queue ≡ [])
  unfolding expand
  expand-Expanding zero w [] e i c = done w e i (rw (expand, e) at c)
  expand-Expanding zero w (x ∷ q) e i c =
      (let stopped = rw (expand, e) at c in ground (arith, stopped))
  expand-Expanding (suc fuel) w [] e i c = done w e i (rw (expand, e) at c)
  expand-Expanding (suc fuel) w (x ∷ q) e i c =
      expand-Expanding fuel (add_linked (next x) (record w { queue = q })) _ refl
        (add_linked-Expanding x q w _ e i (add_linked-Added (next x) (record w { queue = q })))
        (rw (expand, e) at c)

  module _ (w : Expansion) (i : Expanding w) (empty : w.queue ≡ []) where
    all_in : (s x : BlockId) → has s ids ≡ true → Steps next s x → has x w.in_set ≡ true
    all_in s x h here = i.begun s h
    all_in s x h (step {b = b} p c q) =
        ground (arith, i.expanded b c (all_in s b h p) q, ap (has b) empty)

    pub ids_iff : (x : BlockId) → (has x w.ids ≡ true) ↔ Linked x
    ids_iff x = (λ h. i.reached x (sym (i.listed x) ∙ h), λ (s, h, p). i.listed x ∙ all_in s x h p)
