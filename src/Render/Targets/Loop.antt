-- ===== src/Render/Targets/Loop.antt =====
-- What the references of one block add to the collection.
use mkb.Text.Chars.{Str}
use mkb.Base.{
  ℕ, ◌<◌, not, true, false, ◌≡◌, refl, ap, sym, subst, ◌∙◌, List, [], ◌∷◌, ◌++◌, map, Option, none,
  some, arith, Bool-cases, Option-cases, inl, inr, filter,
}
use mkb.Id.{BlockId, id_eq}
use mkb.Block.{Block}
use mkb.Block.Views.{references, child_targets, reference_targets}
use mkb.Link.{Reference, extract_references, filter_map}
use mkb.Platform.{Platform}
use mkb.Vault
use mkb.Vault.{Vault}
use mkb.Vault.Search.{has, any-append, id_eq_sound, has-head}
use mkb.Render.Unvisited.{unvisited}
use mkb.Render.Targets.{Collector, add_target, collect_from}
use mkb.Render.Targets.Collected.{
  unvisited_mono, Below, Referred, Collected, Collected-refl, Collected-trans, has-add_target,
  add_target-Collected,
}

module _ {A B : Type 0} (f : A → Option B) (x : A) (xs : List A) where
  filter_map-none : f x ≡ none → filter_map f (x ∷ xs) ≡ filter_map f xs
  filter_map-none e = ap (λ o. elim o [ none ↦ filter_map f xs | some y ↦ y ∷ filter_map f xs ]) e

  filter_map-some : {y : B} → f x ≡ some y → filter_map f (x ∷ xs) ≡ y ∷ filter_map f xs
  filter_map-some e = ap (λ o. elim o [ none ↦ filter_map f xs | some y ↦ y ∷ filter_map f xs ]) e

module _ (pf : Platform) (v : Vault) where
  -- The blocks that some references embed, and those that they refer to.
  abbrev embed_targets : List Reference → List Str
  embed_targets rs = map (λ (r : Reference). r.target) (filter (λ r. r.embed) rs)

  abbrev link_targets : List Reference → List Str
  link_targets rs = map (λ (r : Reference). r.target) (filter (λ r. not r.embed) rs)

  abbrev pub embeds : List Reference → List BlockId
  embeds rs = filter_map (Vault.resolve pf v) (embed_targets rs)

  abbrev pub links : List Reference → List BlockId
  links rs = filter_map (Vault.resolve pf v) (link_targets rs)

  pub children-embeds :
      (x : BlockId) (b : Block)
      → Vault.block v x ≡ some b
      → Vault.children pf v x ≡ embeds (extract_references pf.ref_captures b.body)
  unfolding Vault.children child_targets references
  children-embeds x b k = rw (Vault.children, k) refl

  pub references-links :
      (x : BlockId) (b : Block)
      → Vault.block v x ≡ some b
      → Vault.references pf v x ≡ links (extract_references pf.ref_captures b.body)
  unfolding Vault.references reference_targets references
  references-links x b k = rw (Vault.references, k) refl

  module _ (r : Reference) (rs : List Reference) where
    -- What one more reference adds to them.
    record Adds (t s : List BlockId) : Type 0 where
      pub to_embeds : embeds (r ∷ rs) ≡ t ++ embeds rs
      pub to_links : links (r ∷ rs) ≡ s ++ links rs

    dangling_Adds : Vault.resolve pf v r.target ≡ none → Adds [] []
    dangling_Adds e = elim (Bool-cases r.embed) [
      | inl m ↦ record {
        to_embeds = rw (m) (filter_map-none (Vault.resolve pf v) r.target (embed_targets rs) e);
        to_links = rw (m) refl;
      }
      | inr n ↦ record {
        to_embeds = rw (n) refl;
        to_links = rw (n) (filter_map-none (Vault.resolve pf v) r.target (link_targets rs) e);
      }
    ]

    embed_Adds :
        (t : BlockId) → Vault.resolve pf v r.target ≡ some t → r.embed ≡ true → Adds (t ∷ []) []
    embed_Adds t e m = record {
      to_embeds = rw (m) (filter_map-some (Vault.resolve pf v) r.target (embed_targets rs) e);
      to_links = rw (m) refl;
    }

    link_Adds :
        (t : BlockId) → Vault.resolve pf v r.target ≡ some t → r.embed ≡ false → Adds [] (t ∷ [])
    link_Adds t e n = record {
      to_embeds = rw (n) refl;
      to_links = rw (n) (filter_map-some (Vault.resolve pf v) r.target (link_targets rs) e);
    }

  module _ (top : BlockId) where
    -- What a walk into a block gives.
    abbrev pub Walked : Option Collector → BlockId → Collector → Type 0
    Walked o id s =
        (s' : Collector) × (o ≡ some s') × Collected pf v top s s' × (has id s'.seen ≡ true)

    -- What the references of a block give.
    pub record Looped (rs : List Reference) (s : Collector) (o : Option Collector) : Type 0 where
      pub result : Collector
      pub returned : o ≡ some result
      pub collected : Collected pf v top s result
      pub embedded : (c : BlockId) → has c (embeds rs) ≡ true → has c result.seen ≡ true
      pub linked : (t : BlockId) → has t (links rs) ≡ true → has t result.out ≡ true

    module _ (walk : BlockId → Collector → Option Collector) (fuel : ℕ)
        (walked : (t : BlockId) (s : Collector)
          → unvisited (Vault.ids v) s.seen < fuel
          → Below pf v top t
          → Walked (walk t s) t s) where
      -- The rest of the references, after one of them.
      after :
          (r : Reference) (rs : List Reference) {es ls : List BlockId} (s s' : Collector)
          (o : Option Collector)
          → Adds r rs es ls
          → Collected pf v top s s'
          → ((c : BlockId) → has c es ≡ true → has c s'.seen ≡ true)
          → ((t : BlockId) → has t ls ≡ true → has t s'.out ≡ true)
          → Looped rs s' o
          → Looped (r ∷ rs) s o
      after r rs {es} {ls} s s' o a first e l rest = record {
        result = rest.result;
        returned = rest.returned;
        collected = Collected-trans pf v top s s' rest.result first rest.collected;
        embedded = λ c m. ground (
          arith,
          ap (has c) a.to_embeds,
          any-append (id_eq c) es (embeds rs),
          e c,
          rest.collected.kept c,
          rest.embedded c,
        );
        linked = λ t m. ground (
          arith,
          ap (has t) a.to_links,
          any-append (id_eq t) ls (links rs),
          l t,
          rest.collected.kept_out t,
          rest.linked t,
        );
      }

      fewer :
          (s s' : Collector)
          → Collected pf v top s s'
          → unvisited (Vault.ids v) s.seen < fuel
          → unvisited (Vault.ids v) s'.seen < fuel
      fewer s s' c h = omega (arith, unvisited_mono (Vault.ids v) s.seen s'.seen c.kept, h)

      collect_embed :
          (r : Reference) (rs : List Reference) (s s' : Collector) (t : BlockId)
          → Vault.resolve pf v r.target ≡ some t
          → r.embed ≡ true
          → walk t s ≡ some s'
          → collect_from pf v walk (r ∷ rs) s ≡ collect_from pf v walk rs s'
      unfolding collect_from
      collect_embed r rs s s' t e m ran = rw (collect_from, e, m, ran) refl

      collect_link :
          (r : Reference) (rs : List Reference) (s : Collector) (t : BlockId)
          → Vault.resolve pf v r.target ≡ some t
          → r.embed ≡ false
          → collect_from pf v walk (r ∷ rs) s ≡ collect_from pf v walk rs (add_target t s)
      unfolding collect_from
      collect_link r rs s t e n = rw (collect_from, e, n) refl

      pub loop :
          (rs : List Reference) (s : Collector)
          → unvisited (Vault.ids v) s.seen < fuel
          → ((c : BlockId) → has c (embeds rs) ≡ true → Below pf v top c)
          → ((t : BlockId) → has t (links rs) ≡ true → Referred pf v top t)
          → Looped rs s (collect_from pf v walk rs s)
      unfolding collect_from
      loop [] s h es ls = record {
        result = s;
        returned = refl;
        collected = Collected-refl pf v top s;
        embedded = λ c m. ground arith;
        linked = λ t m. ground arith;
      }
      loop (r ∷ rs) s h es ls = elim (Option-cases (Vault.resolve pf v r.target)) [
        | inl e ↦
            (let a = dangling_Adds r rs e in
              rw (collect_from, e)
                (after r rs s s _ a (Collected-refl pf v top s) (λ c m. ground arith)
                  (λ t m. ground arith)
                  (loop rs s h (λ c m. es c (ap (has c) a.to_embeds ∙ m))
                    (λ t m. ls t (ap (has t) a.to_links ∙ m)))))
        | inr (t, e) ↦ elim (Bool-cases r.embed) [
          | inl m ↦
              let a = embed_Adds r rs t e m in
              let (s', ran, c, seen) =
                walked t s h (es t (ap (has t) a.to_embeds ∙ has-head t (embeds rs))) in
              subst (Looped (r ∷ rs) s) (sym (collect_embed r rs s s' t e m ran)) (
                after r rs s s' _ a c (λ x k. rw (id_eq_sound x t (ground (arith, k))) seen)
                  (λ x k. ground arith)
                  (loop rs s' (fewer s s' c h)
                    (λ x k. es x (ground (arith, ap (has x) a.to_embeds)))
                    (λ x k. ls x (ap (has x) a.to_links ∙ k))))
          | inr n ↦
              let a = link_Adds r rs t e n in
              let c =
                add_target-Collected pf v top t s
                  (ls t (ap (has t) a.to_links ∙ has-head t (links rs))) in
              subst (Looped (r ∷ rs) s) (sym (collect_link r rs s t e n)) (
                after r rs s (add_target t s) _ a c (λ x k. ground arith)
                  (λ x k. ground (arith, has-add_target pf v top x t s))
                  (loop rs (add_target t s) (fewer s (add_target t s) c h)
                    (λ x k. es x (ap (has x) a.to_embeds ∙ k))
                    (λ x k. ls x (ground (arith, ap (has x) a.to_links)))))
        ]
      ]
