-- ===== src/Vault/Lineage/Roots.antt =====
-- The roots of a lineage are the roots of the vault that lead down to the block.
use mkb.Base.{
  ◌+◌, ◌≤◌, ◌||◌, true, false, ◌≡◌, ◌↔◌, refl, ap, sym, subst, ◌∙◌, List, [], ◌∷◌, map, Option,
  arith, is_none, length, unwrap_or, any, Bool-cases, inl, inr, Option-cases,
}
use mkb.Text.Chars.{Str}
use mkb.Text.Strings.{str_eq}
use mkb.Id.{BlockId, id_eq}
use mkb.Blockfile.Write.{is_nil}
use mkb.Map
use mkb.Map.{Map}
use mkb.Platform.{Platform}
use mkb.Vault.{Vault, transcluded_by, sort_keys, of_key}
use mkb.Vault.Reach.{Steps, here, step}
use mkb.Vault.Search.{has, any-append, has-head}
use mkb.Vault.Fuel.{itself, left}
use mkb.Vault.Reached.{any-sort_keys}
use mkb.Vault.Lineage.{
  Crumb, Climb, climb, climb_start, climbed, all_parents, parents_of, embed_parent_map, crumb,
  lineage_with, lineage,
}
use mkb.Vault.Lineage.Parents.{embed_parent_map-transcluded_by}
use mkb.Vault.Lineage.Ends.{climb-is_some}
use mkb.Vault.Lineage.Climbed.{climb_start-Climbing, climb-Climbing, root_ids_iff}

left-length : (known seen : List BlockId) → left itself known seen ≤ length known
unfolding left
left-length [] seen = omega arith
left-length (i ∷ is) seen = ground (arith, left-length is seen)

within :
    (m : Map (List BlockId)) (x p : BlockId)
    → has p (parents_of m x) ≡ true
    → has p (all_parents m) ≡ true
unfolding Map.get all_parents
within [] x p h = ground arith
within ((k, ps) ∷ m) x p h = elim (Bool-cases (str_eq k x.as_str)) [
  | inl e ↦
      (let found = rw (e) at h in ground (arith, any-append (id_eq p) ps (all_parents m), found))
  | inr n ↦
      (let found = rw (n) at h in
        ground (arith, any-append (id_eq p) ps (all_parents m), within m x p found))
]

module _ (m : Map (List BlockId)) where
  module _ (id : BlockId) where
    run : Option Climb
    run = climb (parents_of m) (1 + length (all_parents m)) (climb_start id)

    run-is_some : is_none run ≡ false
    unfolding run
    run-is_some =
        climb-is_some (all_parents m) (parents_of m) (within m) _ (climb_start id) _ refl
          (omega (arith, left-length (all_parents m) (id ∷ [])))

    climbed-root_ids :
        (x : BlockId)
        → (has x (climbed m id).root_ids ≡ true)
          ↔ (Steps (parents_of m) id x × (is_nil (parents_of m x) ≡ true))
    unfolding climbed run
    climbed-root_ids x = elim (Option-cases run) [
      | inl n ↦ (let lost = run-is_some in ground (arith, lost, ap is_none n))
      | inr (w, e) ↦
          let (i, done) =
            climb-Climbing (parents_of m) id _ (climb_start id) _ refl
              (climb_start-Climbing (parents_of m) id) e in
          subst
            (λ (c : Climb).
              (has x c.root_ids ≡ true)
              ↔ (Steps (parents_of m) id x × (is_nil (parents_of m x) ≡ true)))
            (sym (ap (λ o. unwrap_or o (climb_start id)) e))
            (root_ids_iff (parents_of m) id w i done x)
    ]

Steps-same :
    {f g : BlockId → List BlockId} {a b : BlockId}
    → ((x c : BlockId) → has c (f x) ≡ has c (g x))
    → Steps f a b
    → Steps g a b
Steps-same h here = here
Steps-same h (step {b = b} p c q) = step (Steps-same h p) c (sym (h b c) ∙ q)

is_nil-same : (k l : List BlockId) → ((c : BlockId) → has c k ≡ has c l) → is_nil k ≡ is_nil l
is_nil-same [] [] h = refl
is_nil-same [] (y ∷ l) h = ground (arith, h y, has-head y l)
is_nil-same (x ∷ k) [] h = ground (arith, h x, has-head x k)
is_nil-same (x ∷ k) (y ∷ l) h = refl

any-crumbs :
    (v : Vault) (x : BlockId) (ks : List Str)
    → any (λ (c : Crumb). id_eq x c.id) (map (λ k. crumb v (of_key k)) ks) ≡ has x (map of_key ks)
unfolding crumb
any-crumbs v x [] = refl
any-crumbs v x (k ∷ ks) = ap (λ t. id_eq x (of_key k) || t) (any-crumbs v x ks)

has-keys :
    (x : BlockId) (is : List BlockId)
    → has x (map of_key (map (λ (i : BlockId). i.as_str) is)) ≡ has x is
has-keys x [] = refl
has-keys x (i ∷ is) = ap (λ t. id_eq x i || t) (has-keys x is)

module _ (pf : Platform) (v : Vault) (id : BlockId) where
  abbrev up : BlockId → List BlockId
  up = parents_of (embed_parent_map pf v)

  same_up : (x c : BlockId) → has c (up x) ≡ has c (transcluded_by pf v x)
  same_up x c = embed_parent_map-transcluded_by pf v x c

  -- The roots of a lineage are exactly the blocks that no block embeds and from which embeds lead
  -- to the block, whatever cycles there are; the walk up always ends.
  pub lineage-roots_iff :
      (x : BlockId)
      → (any (λ (c : Crumb). id_eq x c.id) (lineage pf v id).roots ≡ true)
        ↔ (Steps (transcluded_by pf v) id x × (is_nil (transcluded_by pf v x) ≡ true))
  unfolding lineage lineage_with
  lineage-roots_iff x =
      let w = climbed (embed_parent_map pf v) id in
      let keys = map (λ (i : BlockId). i.as_str) w.root_ids in
      let found : any (λ (c : Crumb). id_eq x c.id) (lineage pf v id).roots ≡ has x w.root_ids =
        any-crumbs v x (sort_keys keys) ∙ any-sort_keys (id_eq x) keys ∙ has-keys x w.root_ids in
      let both = climbed-root_ids (embed_parent_map pf v) id x in
      let ends = is_nil-same (up x) (transcluded_by pf v x) (same_up x) in
      (
        λ h. let (p, e) = both.0 (sym found ∙ h) in (Steps-same same_up p, sym ends ∙ e),
        λ (p, e). found ∙ both.1 (Steps-same (λ b c. sym (same_up b c)) p, ends ∙ e),
      )

  -- A block is a root of its own lineage if no block embeds it.
  pub lineage-is_root : (lineage pf v id).is_root ≡ is_nil (transcluded_by pf v id)
  unfolding lineage lineage_with
  lineage-is_root = is_nil-same (up id) (transcluded_by pf v id) (same_up id)
