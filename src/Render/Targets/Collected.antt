-- ===== src/Render/Targets/Collected.antt =====
-- What one run of the collection adds.
use mkb.Base.{
  ◌||◌, ◌≤◌, true, false, ◌≡◌, refl, ap, sym, subst, ◌∙◌, List, [], ◌∷◌, arith, Bool-cases, inl,
  inr,
}
use mkb.Id.{BlockId, id_eq}
use mkb.Platform.{Platform}
use mkb.Vault
use mkb.Vault.{Vault}
use mkb.Vault.Reach.{Steps}
use mkb.Vault.Search.{has, same, any-append, id_eq_sound}
use mkb.Vault.Fuel.{left}
use mkb.Render.Unvisited.{unvisited}
use mkb.Render.Targets.{Collector, add_target}

pub unvisited_mono :
    (ids seen seen' : List BlockId)
    → ((x : BlockId) → has x seen ≡ true → has x seen' ≡ true)
    → unvisited ids seen' ≤ unvisited ids seen
unfolding left
unvisited_mono [] seen seen' h = omega arith
unvisited_mono (i ∷ is) seen seen' h = ground (arith, h i, unvisited_mono is seen seen' h)

module _ (pf : Platform) (v : Vault) (top : BlockId) where
  -- A block that embeds lead to from the first one.
  abbrev pub Below : BlockId → Type 0
  Below x = Steps (Vault.children pf v) top x

  -- A block that one of those refers to.
  abbrev pub Referred : BlockId → Type 0
  Referred t = (x : BlockId) × Below x × (has t (Vault.references pf v x) ≡ true)

  -- Nothing is lost, and for each block that is new, its children are seen and its references are
  -- collected.
  pub record Collected (s s' : Collector) : Type 0 where
    pub kept : (x : BlockId) → has x s.seen ≡ true → has x s'.seen ≡ true
    pub kept_out : (t : BlockId) → has t s.out ≡ true → has t s'.out ≡ true
    pub closed :
        (x c : BlockId)
        → has x s'.seen ≡ true
        → has x s.seen ≡ false
        → has c (Vault.children pf v x) ≡ true
        → has c s'.seen ≡ true
    pub refs :
        (x t : BlockId)
        → has x s'.seen ≡ true
        → has x s.seen ≡ false
        → has t (Vault.references pf v x) ≡ true
        → has t s'.out ≡ true
    pub below : (x : BlockId) → has x s'.seen ≡ true → has x s.seen ≡ false → Below x
    pub referred : (t : BlockId) → has t s'.out ≡ true → has t s.out ≡ false → Referred t

  pub Collected-refl : (s : Collector) → Collected s s
  Collected-refl s = record {
    kept = λ x h. h;
    kept_out = λ t h. h;
    closed = λ x c h n k. ground arith;
    refs = λ x t h n k. ground arith;
    below = λ x h n. absurd (ground arith);
    referred = λ t h n. absurd (ground arith);
  }

  pub Collected-trans : (s s' s'' : Collector) → Collected s s' → Collected s' s'' → Collected s s''
  Collected-trans s s' s'' f g = record {
    kept = λ x h. g.kept x (f.kept x h);
    kept_out = λ t h. g.kept_out t (f.kept_out t h);
    closed = λ x c h n k. ground (arith, f.closed x c, g.kept c, g.closed x c);
    refs = λ x t h n k. ground (arith, f.refs x t, g.kept_out t, g.refs x t);
    below = λ x h n. elim (Bool-cases (has x s'.seen)) [
      | inl m ↦ f.below x m n
      | inr k ↦ g.below x h k
    ];
    referred = λ t h n. elim (Bool-cases (has t s'.out)) [
      | inl m ↦ f.referred t m n
      | inr k ↦ g.referred t h k
    ];
  }

  pub has-add_target :
      (x t : BlockId) (s : Collector) → has x (add_target t s).out ≡ (has x s.out || id_eq x t)
  unfolding add_target
  has-add_target x t s = elim (Bool-cases (has t s.out)) [
    | inl m ↦ rw (m) (ground (arith, same (λ z. has z s.out) x t))
    | inr n ↦ rw (n) (ground (arith, any-append (id_eq x) s.out (t ∷ [])))
  ]

  add_target-seen : (t : BlockId) (s : Collector) → (add_target t s).seen ≡ s.seen
  unfolding add_target
  add_target-seen t s = elim (Bool-cases (has t s.out)) [
    | inl m ↦ rw (m) refl
    | inr n ↦ rw (n) refl
  ]

  pub add_target-Collected :
      (t : BlockId) (s : Collector) → Referred t → Collected s (add_target t s)
  add_target-Collected t s r = record {
    kept = λ x h. ap (has x) (add_target-seen t s) ∙ h;
    kept_out = λ x h. ground (arith, has-add_target x t s);
    closed = λ x c h n k. ground (arith, ap (has x) (add_target-seen t s));
    refs = λ x c h n k. ground (arith, ap (has x) (add_target-seen t s));
    below = λ x h n. absurd (ground (arith, ap (has x) (add_target-seen t s)));
    referred =
        λ x h n. subst Referred (sym (id_eq_sound x t (ground (arith, has-add_target x t s)))) r;
  }
