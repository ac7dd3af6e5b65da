-- ===== src/Vault/Reached.antt =====
-- `transclusion_reaches` holds exactly of the blocks that a path of embeds joins.
use mkb.Base.{
  ◌+◌, Bool, true, false, ◌≡◌, ◌↔◌, refl, ap, sym, subst, ◌∙◌, List, [], ◌∷◌, map, Option, none,
  some, is_none, unwrap_or, arith, any, ◌||◌, Bool-cases, inl, inr,
}
use mkb.Text.Chars.{Str}
use mkb.Id.{BlockId, id_eq}
use mkb.Map
use mkb.Map.{Map, str_eq_iff}
use mkb.Platform.{Platform}
use mkb.Vault.{Vault, insert_key, sort_keys, of_key, ids, children, block}
use mkb.Vault.Reach.{Steps, here, search_from, edges, transclusion_reaches}
use mkb.Vault.Search.{has, id_eq_sound, has-head, sound, complete, Invariant}
use mkb.Vault.Fuel.{left-none, enough}

any-insert_key :
    (p : BlockId → Bool) (k : Str) (js : List Str)
    → any p (map of_key (insert_key k js)) ≡ (p (of_key k) || any p (map of_key js))
unfolding insert_key
any-insert_key p k [] = refl
any-insert_key p k (j ∷ js) = ground (arith, any-insert_key p k js)

pub any-sort_keys :
    (p : BlockId → Bool) (ks : List Str) → any p (map of_key (sort_keys ks)) ≡ any p (map of_key ks)
unfolding sort_keys
any-sort_keys p [] = refl
any-sort_keys p (k ∷ ks) =
    any-insert_key p k (sort_keys ks) ∙ ap (λ t. p (of_key k) || t) (any-sort_keys p ks)

get-keys :
    {V : Type 0} (x : BlockId) (m : Map V)
    → any (id_eq x) (map of_key (Map.keys m)) ≡ false
    → Map.get x.as_str m ≡ none
unfolding Map.keys Map.get id_eq
get-keys x [] h = refl
get-keys x ((j, v) ∷ m) h =
    ground (arith, get-keys x m, str_eq_iff j x.as_str, str_eq_iff x.as_str j)

answer-true : (o : Option Bool) → unwrap_or o false ≡ true → o ≡ some true
answer-true none h = ground arith
answer-true (some b) h = ap some h

answer-false : (o : Option Bool) → is_none o ≡ false → unwrap_or o false ≡ false → o ≡ some false
answer-false none n h = ground arith
answer-false (some b) n h = ap some h

module _ (pf : Platform) (v : Vault) where
  pub block-ids : (x : BlockId) → has x (ids v) ≡ false → block v x ≡ none
  unfolding ids block
  block-ids x h = get-keys x v.blocks (sym (any-sort_keys (id_eq x) (Map.keys v.blocks)) ∙ h)

  children-ids : (x : BlockId) → has x (ids v) ≡ false → children pf v x ≡ []
  unfolding children
  children-ids x h = rw (children, block-ids x h) refl

  found : BlockId → BlockId → Option Bool
  found start goal =
      search_from (children pf v) goal (1 + edges (children pf v) (ids v)) (start ∷ []) []

  found-is_some : (start goal : BlockId) → is_none (found start goal) ≡ false
  unfolding found
  found-is_some start goal =
      enough (children pf v) (ids v) children-ids goal _ _ []
        (ground (arith, left-none (children pf v) (ids v)))

  start_Steps : (start x : BlockId) → has x (start ∷ []) ≡ true → Steps (children pf v) start x
  start_Steps start x h =
      subst (Steps (children pf v) start) (sym (id_eq_sound x start (ground arith))) here

  start_Invariant : (start goal : BlockId) → Invariant (children pf v) goal (start ∷ []) []
  start_Invariant start goal = record {
    not_goal = λ x m. ground arith;
    closed = λ x c m q. ground arith;
  }

  -- The search answers yes exactly if the embeds lead from the one block to the other, so that it
  -- ends and its fuel is never used up.
  pub transclusion_reaches_iff :
      (start goal : BlockId)
      → (transclusion_reaches pf v start goal ≡ true) ↔ Steps (children pf v) start goal
  unfolding transclusion_reaches found
  transclusion_reaches_iff start goal = (
    λ t.
        sound (children pf v) goal start _ (start ∷ []) [] (start_Steps start)
          (answer-true (found start goal) t),
    λ p. elim (Bool-cases (transclusion_reaches pf v start goal)) [
      | inl t ↦ t
      | inr f ↦
          let missed =
            complete (children pf v) goal _ (start ∷ []) [] (start_Invariant start goal)
              (answer-false (found start goal) (found-is_some start goal) f) start
              (ground (arith, has-head start [])) goal p in
          ground (arith, missed, has-head goal [])
    ],
  )
