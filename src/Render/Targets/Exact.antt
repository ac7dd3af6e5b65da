-- ===== src/Render/Targets/Exact.antt =====
-- The collected targets are those of all blocks that are dissolved into the flat text.
use mkb.Base.{
  ℕ, zero, suc, ◌<◌, true, false, ◌≡◌, ◌↔◌, refl, ap, sym, subst, ◌∙◌, [], none, some, unwrap_or,
  arith, Bool-cases, Option-cases, inl, inr, length,
}
use mkb.Id.{BlockId, id_eq}
use mkb.Block.{Block}
use mkb.Link.{extract_references}
use mkb.Platform.{Platform}
use mkb.Vault
use mkb.Vault.{Vault}
use mkb.Vault.Reach.{here, step}
use mkb.Vault.Search.{has, same, id_eq_sound, has-head}
use mkb.Render.Unvisited.{unvisited, unvisited-length, unvisited-visit}
use mkb.Render.Targets.{
  Collector, collect_from, see, collect_flat_ref_targets, flat_reference_targets, nothing,
}
use mkb.Render.Targets.Collected.{Below, Referred, Collected, Collected-refl}
use mkb.Render.Targets.Loop.{children-embeds, references-links, Walked, loop}

module _ (pf : Platform) (v : Vault) where
  no_children : (x : BlockId) → Vault.block v x ≡ none → Vault.children pf v x ≡ []
  unfolding Vault.children
  no_children x e = rw (Vault.children, e) refl

  no_references : (x : BlockId) → Vault.block v x ≡ none → Vault.references pf v x ≡ []
  unfolding Vault.references
  no_references x e = rw (Vault.references, e) refl

  module _ (top : BlockId) where
    -- A block without children and references that are left out is seen.
    seen-Collected :
        (id : BlockId) (s s' : Collector)
        → has id s.seen ≡ false
        → Below pf v top id
        → Collected pf v top (see pf v id s) s'
        → ((c : BlockId) → has c (Vault.children pf v id) ≡ true → has c s'.seen ≡ true)
        → ((t : BlockId) → has t (Vault.references pf v id) ≡ true → has t s'.out ≡ true)
        → Collected pf v top s s'
    unfolding see
    seen-Collected id s s' new p c es ls = record {
      kept = λ x h. c.kept x (ground (arith, h));
      kept_out = c.kept_out;
      closed = λ x y h n k.
          ground (arith, c.closed x y h, es y, same (λ z. has y (Vault.children pf v z)) x id);
      refs = λ x t h n k.
          ground (arith, c.refs x t h, ls t, same (λ z. has t (Vault.references pf v z)) x id);
      below = λ x h n. elim (Bool-cases (id_eq x id)) [
        | inl e ↦ subst (Below pf v top) (sym (id_eq_sound x id e)) p
        | inr k ↦ c.below x h (ground arith)
      ];
      referred = c.referred;
    }

    unknown :
        (id : BlockId) (s : Collector)
        → has id s.seen ≡ false
        → Below pf v top id
        → Vault.block v id ≡ none
        → Walked pf v top (some (see pf v id s)) id s
    unfolding see
    unknown id s n p e = (
      see pf v id s,
      refl,
      seen-Collected id s (see pf v id s) n p (Collected-refl pf v top (see pf v id s))
          (λ c m. ground (arith, ap (has c) (no_children id e)))
          (λ t m. ground (arith, ap (has t) (no_references id e))),
      has-head id s.seen,
    )

    known :
        (fuel : ℕ) (id : BlockId) (b : Block) (s : Collector)
        → unvisited (Vault.ids v) s.seen < suc fuel
        → has id s.seen ≡ false
        → Below pf v top id
        → Vault.block v id ≡ some b
        → ((t : BlockId) (s : Collector)
            → unvisited (Vault.ids v) s.seen < fuel
            → Below pf v top t
            → Walked pf v top (collect_flat_ref_targets pf v fuel t s) t s)
        → Walked pf v top
            (collect_from pf v
              (collect_flat_ref_targets pf v fuel)
              (extract_references pf.ref_captures b.body)
              (see pf v id s))
            id
            s
    unfolding see
    known fuel id b s h n p e walked =
        let rs = extract_references pf.ref_captures b.body in
        let cs = children-embeds pf v id b e in
        let ls = references-links pf v id b e in
        let done =
          loop pf v top (collect_flat_ref_targets pf v fuel) fuel walked rs (see pf v id s)
            (omega (arith, unvisited-visit pf v id b s.seen e n, h))
            (λ c m. step p c (ap (has c) cs ∙ m)) (λ t m. (id, p, ap (has t) ls ∙ m)) in
        (
          done.result,
          done.returned,
          seen-Collected id s done.result n p done.collected
              (λ c m. done.embedded c (ap (has c) (sym cs) ∙ m))
              (λ t m. done.linked t (ap (has t) (sym ls) ∙ m)),
          done.collected.kept id (has-head id s.seen),
        )

    collect-Walked :
        (fuel : ℕ) (id : BlockId) (s : Collector)
        → unvisited (Vault.ids v) s.seen < fuel
        → Below pf v top id
        → Walked pf v top (collect_flat_ref_targets pf v fuel id s) id s
    unfolding collect_flat_ref_targets
    collect-Walked zero id s h p = absurd (omega (arith, h))
    collect-Walked (suc fuel) id s h p = elim (Bool-cases (has id s.seen)) [
      | inl m ↦ rw (collect_flat_ref_targets, m) (s, refl, Collected-refl pf v top s, m)
      | inr n ↦ elim (Option-cases (Vault.block v id)) [
        | inl e ↦ rw (collect_flat_ref_targets, n, e) (unknown id s n p e)
        | inr (b, e) ↦
            rw (collect_flat_ref_targets, n, e) (known fuel id b s h n p e (collect-Walked fuel))
      ]
    ]

    all_seen :
        (s' : Collector)
        → Collected pf v top nothing s'
        → has top s'.seen ≡ true
        → (x : BlockId) → Below pf v top x
        → has x s'.seen ≡ true
    all_seen s' c t x here = t
    all_seen s' c t x (step {b = b} p y q) = c.closed b y (all_seen s' c t b p) refl q

    -- The collection ends, and the targets are exactly those of the references of the block itself
    -- and of each block that embeds lead to from it, whatever cycles there are.
    pub flat_reference_targets_iff :
        (t : BlockId) → (has t (flat_reference_targets pf v top) ≡ true) ↔ Referred pf v top t
    unfolding flat_reference_targets
    flat_reference_targets_iff t =
        let (s', ran, c, seen) =
          collect-Walked (suc (length (Vault.ids v))) top nothing
            (omega (arith, unvisited-length (Vault.ids v) [])) here in
        let whole : flat_reference_targets pf v top ≡ s'.out =
          ap (λ o. (unwrap_or o nothing).out) ran in
        (
          λ h. c.referred t (ap (has t) (sym whole) ∙ h) refl,
          λ (x, p, q). ap (has t) whole ∙ c.refs x t (all_seen s' c seen x p) refl q,
        )
