-- ===== src/Export/Closed.antt =====
-- Following links ends, and gives the closure.
use mkb.Base.{
  ℕ, zero, suc, ◌+◌, ◌≤◌, true, false, ◌≡◌, ◌↔◌, refl, ap, sym, subst, List, [], ◌∷◌, ◌++◌, Option,
  arith, is_none, length, length-append, unwrap_or, Bool-cases, Option-cases, inl, inr,
}
use mkb.Id.{BlockId, id_eq}
use mkb.Platform.{Platform}
use mkb.Vault
use mkb.Vault.{Vault}
use mkb.Vault.Reach.{edges}
use mkb.Vault.Search.{has, same, any-append, has-head, length-reverse_aux}
use mkb.Vault.Fuel.{itself, left, left-visit}
use mkb.Vault.Reached.{block-ids}
use mkb.Render.Unvisited.{unvisited-length}
use mkb.Render.Targets.{flat_reference_targets, collect_flat_ref_targets, see}
use mkb.Export.Follow.{Expansion, add_linked, expand, expand_start, expand_follow_links}
use mkb.Export.Closure.{linked, Linked, expand_start-Expanding, expand-Expanding, ids_iff}

module _ (next : BlockId → List BlockId) where
  -- The targets of the blocks in `ids`.
  targets : List BlockId → List BlockId
  targets [] = []
  targets (i ∷ is) = next i ++ targets is

  length-targets : (is : List BlockId) → length (targets is) ≡ edges next is
  unfolding targets edges
  length-targets [] = refl
  length-targets (i ∷ is) = omega (arith, length-append (next i) (targets is), length-targets is)

  has-targets :
      (x p : BlockId) (is : List BlockId)
      → has p (next x) ≡ true
      → has x is ≡ true
      → has p (targets is) ≡ true
  unfolding targets
  has-targets x p [] h m = ground arith
  has-targets x p (i ∷ is) h m = ground (
    arith,
    any-append (id_eq p) (next i) (targets is),
    same (λ z. has p (next z)) x i,
    has-targets x p is h,
  )

module _ (known : List BlockId) where
  -- What waits, and what may come to wait.
  measure : Expansion → ℕ
  measure w = length w.queue + left itself known w.in_set

  linked-measure :
      (t : BlockId) (w : Expansion) → has t known ≡ true → measure (linked t w) ≤ measure w
  unfolding measure
  linked-measure t w k = elim (Bool-cases (has t w.in_set)) [
    | inl m ↦ rw (m) (omega arith)
    | inr n ↦ rw (n) (omega (arith, left-visit itself t known w.in_set k n))
  ]

  add_linked-measure :
      (ts : List BlockId) (w : Expansion)
      → ((t : BlockId) → has t ts ≡ true → has t known ≡ true)
      → measure (add_linked ts w) ≤ measure w
  unfolding add_linked
  add_linked-measure [] w k = omega arith
  add_linked-measure (t ∷ ts) w k = omega (
    arith,
    linked-measure t w (k t (has-head t ts)),
    add_linked-measure ts (linked t w) (λ x m. k x (ground arith)),
  )

  expand-is_some :
      (next : BlockId → List BlockId)
      → ((x p : BlockId) → has p (next x) ≡ true → has p known ≡ true)
      → (fuel : ℕ) (w : Expansion) (q : List BlockId) → w.queue ≡ q
      → length q + left itself known w.in_set ≤ fuel
      → is_none (expand next fuel w) ≡ false
  unfolding expand measure
  expand-is_some next within zero w [] e h = rw (expand, e) refl
  expand-is_some next within zero w (x ∷ q) e h = ground arith
  expand-is_some next within (suc fuel) w [] e h = rw (expand, e) refl
  expand-is_some next within (suc fuel) w (x ∷ q) e h =
      rw (expand, e)
        (expand-is_some next within fuel (add_linked (next x) (record w { queue = q })) _ refl
          (omega (arith, add_linked-measure (next x) (record w { queue = q }) (within x), h)))

module _ (pf : Platform) (v : Vault) where
  unknown_targets : (x : BlockId) → has x (Vault.ids v) ≡ false → flat_reference_targets pf v x ≡ []
  unfolding flat_reference_targets collect_flat_ref_targets see
  unknown_targets x n =
      rw (flat_reference_targets, collect_flat_ref_targets, block-ids pf v x n) refl

  within :
      (x p : BlockId)
      → has p (flat_reference_targets pf v x) ≡ true
      → has p (targets (flat_reference_targets pf v) (Vault.ids v)) ≡ true
  within x p h = elim (Bool-cases (has x (Vault.ids v))) [
    | inl m ↦ has-targets (flat_reference_targets pf v) x p (Vault.ids v) h m
    | inr n ↦ absurd (ground (arith, h, ap (has p) (unknown_targets x n)))
  ]

  module _ (ids : List BlockId) where
    abbrev next : BlockId → List BlockId
    next = flat_reference_targets pf v

    abbrev run : Option Expansion
    run = expand next (length ids + edges next (Vault.ids v)) (expand_start ids)

    run-is_some : is_none run ≡ false
    run-is_some =
        expand-is_some (targets next (Vault.ids v)) next within _ (expand_start ids) _ refl (
          omega (
            arith,
            unvisited-length (targets next (Vault.ids v)) ids,
            length-targets next (Vault.ids v),
            length-reverse_aux ids [],
          ))

    -- Following links ends, and gives exactly the blocks that links of flat texts lead to from the
    -- selected ones, so that no link of a block of the set leaves the set.
    pub expand_follow_links_iff :
        (x : BlockId) → (has x (expand_follow_links pf v ids) ≡ true) ↔ Linked next ids x
    unfolding expand_follow_links
    expand_follow_links_iff x = elim (Option-cases run) [
      | inl n ↦ absurd (ground (arith, run-is_some, ap is_none n))
      | inr (w, e) ↦
          let (i, empty) =
            expand-Expanding next ids _ (expand_start ids) _ refl (expand_start-Expanding next ids)
              e in
          subst (λ (o : Expansion). (has x o.ids ≡ true) ↔ Linked next ids x)
            (sym (ap (λ o. unwrap_or o (expand_start ids)) e)) (ids_iff next ids w i empty x)
    ]
