-- ===== src/Vault/Lineage/Walk.antt =====
-- The walk up along embeds ends, and finds the roots.
use mkb.Base.{
  ℕ, ◌||◌, true, ◌≡◌, refl, ◌∙◌, List, [], ◌∷◌, ◌++◌, map, arith, if◌then◌else◌, Bool-cases, inl,
  inr,
}
use mkb.Id.{BlockId, id_eq}
use mkb.Vault.Search.{has, same}
use mkb.Vault.Lineage.{Climb, enqueue}

abbrev pub waiting : Climb → List BlockId
waiting w = map (λ (e : BlockId × ℕ). e.0) w.queue

-- What is on the queue without its first entry.
abbrev pub popped : Climb → List (BlockId × ℕ) → Climb
popped w rest = record w { queue = rest }

abbrev pub queued : ℕ → BlockId → Climb → Climb
queued d p w =
    if has p w.visited
    then w
    else record w { queue = w.queue ++ (p, d) ∷ []; visited = p ∷ w.visited }

has-map-append :
    (x p : BlockId) (d : ℕ) (q : List (BlockId × ℕ))
    → has x (map (λ (e : BlockId × ℕ). e.0) (q ++ (p, d) ∷ []))
      ≡ (has x (map (λ (e : BlockId × ℕ). e.0) q) || id_eq x p)
has-map-append x p d [] = ground arith
has-map-append x p d (e ∷ q) = ground (arith, has-map-append x p d q)

-- What `enqueue` does: it visits the parents, and what is new waits.
pub record Enqueued (ps : List BlockId) (w w' : Climb) : Type 0 where
  pub visited : (x : BlockId) → has x w'.visited ≡ (has x w.visited || has x ps)
  pub kept : (x : BlockId) → has x (waiting w) ≡ true → has x (waiting w') ≡ true
  pub fresh :
      (x : BlockId) → has x w'.visited ≡ true → (has x w.visited || has x (waiting w')) ≡ true
  pub seen : (x : BlockId) → has x (waiting w') ≡ true → (has x (waiting w) || has x ps) ≡ true
  pub root_ids : w'.root_ids ≡ w.root_ids

queued-Enqueued : (d : ℕ) (p : BlockId) (w : Climb) → Enqueued (p ∷ []) w (queued d p w)
queued-Enqueued d p w = elim (Bool-cases (has p w.visited)) [
  | inl m ↦ rw (m) (record {
    visited = λ x. ground (arith, same (λ k. has k w.visited) x p);
    kept = λ x h. h;
    fresh = λ x h. ground arith;
    seen = λ x h. ground arith;
    root_ids = refl;
  })
  | inr n ↦ rw (n) (record {
    visited = λ x. ground arith;
    kept = λ x h. ground (arith, has-map-append x p d w.queue);
    fresh = λ x h. ground (arith, has-map-append x p d w.queue);
    seen = λ x h. ground (arith, has-map-append x p d w.queue);
    root_ids = refl;
  })
]

pub enqueue-Enqueued : (d : ℕ) (ps : List BlockId) (w : Climb) → Enqueued ps w (enqueue d ps w)
unfolding enqueue
enqueue-Enqueued d [] w = record {
  visited = λ x. ground arith;
  kept = λ x h. h;
  fresh = λ x h. ground arith;
  seen = λ x h. ground arith;
  root_ids = refl;
}
enqueue-Enqueued d (p ∷ ps) w =
    let one = queued-Enqueued d p w in
    let others = enqueue-Enqueued d ps (queued d p w) in
    record {
      visited = λ x. others.visited x ∙ ground (arith, one.visited x);
      kept = λ x h. others.kept x (one.kept x h);
      fresh = λ x h. ground (arith, others.fresh x h, one.fresh x, others.kept x);
      seen = λ x h. ground (arith, others.seen x h, one.seen x);
      root_ids = others.root_ids ∙ one.root_ids;
    }
