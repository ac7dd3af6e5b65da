-- ===== src/Vault/Lineage/Ends.antt =====
-- The walk up ends: each parent waits once.
use mkb.Base.{
  ℕ, zero, suc, ◌+◌, ◌≤◌, true, false, ◌≡◌, refl, List, [], ◌∷◌, arith, is_none, length,
  length-append, Bool-cases, inl, inr,
}
use mkb.Id.{BlockId}
use mkb.Blockfile.Write.{is_nil}
use mkb.Vault.Search.{has, has-head}
use mkb.Vault.Fuel.{itself, left, left-visit}
use mkb.Vault.Lineage.{Climb, enqueue, add_root, climb_step, climb}
use mkb.Vault.Lineage.Walk.{queued, popped}

module _ (known : List BlockId) where
  -- What waits, and what may come to wait.
  measure : Climb → ℕ
  measure w = length w.queue + left itself known w.visited

  queued-measure :
      (d : ℕ) (p : BlockId) (w : Climb) → has p known ≡ true → measure (queued d p w) ≤ measure w
  unfolding measure
  queued-measure d p w k = elim (Bool-cases (has p w.visited)) [
    | inl m ↦ rw (m) (omega arith)
    | inr n ↦ rw (n) (
        omega (arith, length-append w.queue ((p, d) ∷ []), left-visit itself p known w.visited k n))
  ]

  enqueue-measure :
      (d : ℕ) (ps : List BlockId) (w : Climb)
      → ((p : BlockId) → has p ps ≡ true → has p known ≡ true)
      → measure (enqueue d ps w) ≤ measure w
  unfolding enqueue
  enqueue-measure d [] w k = omega arith
  enqueue-measure d (p ∷ ps) w k = omega (
    arith,
    queued-measure d p w (k p (has-head p ps)),
    enqueue-measure d ps (queued d p w) (λ q m. k q (ground arith)),
  )

  module _ (up : BlockId → List BlockId)
      (within : (x p : BlockId) → has p (up x) ≡ true → has p known ≡ true) where
    climb_step-measure :
        (node : BlockId) (d : ℕ) (w : Climb) → measure (climb_step up node d w) ≤ measure w
    unfolding climb_step measure add_root
    climb_step-measure node d w = elim (Bool-cases (is_nil (up node))) [
      | inl e ↦ rw (climb_step, e) (omega arith)
      | inr e ↦
          rw (climb_step, e) (unfold measure in enqueue-measure (d + 1) (up node) w (within node))
    ]

    -- With fuel for what waits and what may come to wait, the walk ends.
    pub climb-is_some :
        (fuel : ℕ) (w : Climb) (q : List (BlockId × ℕ))
        → w.queue ≡ q
        → length q + left itself known w.visited ≤ fuel
        → is_none (climb up fuel w) ≡ false
    unfolding climb measure
    climb-is_some zero w [] e h = rw (climb, e) refl
    climb-is_some zero w (x ∷ q) e h = ground arith
    climb-is_some (suc fuel) w [] e h = rw (climb, e) refl
    climb-is_some (suc fuel) w (x ∷ q) e h =
        rw (climb, e)
          (climb-is_some fuel (climb_step up x.0 x.1 (popped w q)) _ refl
            (omega (arith, climb_step-measure x.0 x.1 (popped w q), h)))
