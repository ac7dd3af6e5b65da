-- ===== src/Vault/Fuel.antt =====
-- The search along embeds ends: each round takes a block off the stack, and each edge puts one on
-- it once.
use mkb.Vault.Search.{same, has-head}
use mkb.Base.{
  ℕ, zero, suc, ◌+◌, ◌≤◌, true, false, ◌≡◌, refl, ap, ◌∙◌, List, [], ◌∷◌, ◌++◌, reverse, is_none,
  arith, length, length-append, Bool-cases, inl, inr, if◌then◌else◌,
}
use mkb.Id.{BlockId, id_eq}
use mkb.Vault.Reach.{visit, search_from, edges}
use mkb.Vault.Search.{has, id_eq_sound, length-reverse_aux, search-goal, search-step}

abbrev pub itself : BlockId → List BlockId
itself id = id ∷ []

module _ (next : BlockId → List BlockId) where
  -- The edges out of the blocks in `ids` that are not seen.
  unfoldable pub left : List BlockId → List BlockId → ℕ
  left [] seen = 0
  left (id ∷ ids) seen = (if has id seen then 0 else length (next id)) + left ids seen

  pub left-none : (ids : List BlockId) → left ids [] ≡ edges next ids
  unfolding left edges
  left-none [] = refl
  left-none (id ∷ ids) = ap (λ n. length (next id) + n) (left-none ids)

  same_count : (a b : BlockId) → id_eq a b ≡ true → length (next a) ≡ length (next b)
  same_count a b h = ap (λ x. length (next x)) (id_eq_sound a b h)

  pub left_mono : (id : BlockId) (ids seen : List BlockId) → left ids (id ∷ seen) ≤ left ids seen
  unfolding left
  left_mono id [] seen = omega arith
  left_mono id (u ∷ us) seen = ground (arith, left_mono id us seen)

  pub left-visit :
      (id : BlockId) (ids seen : List BlockId)
      → has id ids ≡ true
      → has id seen ≡ false
      → left ids (id ∷ seen) + length (next id) ≤ left ids seen
  unfolding left
  left-visit id [] seen m n = ground arith
  left-visit id (u ∷ us) seen m n = elim (Bool-cases (id_eq id u)) [
    | inl k ↦ ground (
      arith,
      left_mono id us seen,
      same_count id u k,
      same (λ z. has z seen) id u k,
      same (λ z. id_eq z id) id u k,
      has-head id [],
    )
    | inr k ↦ ground (arith, left-visit id us seen)
  ]

  length-visited :
      (id : BlockId) (stack : List BlockId)
      → length (reverse (next id) ++ stack) ≡ length (next id) + length stack
  length-visited id stack =
      ground (arith, length-append (reverse (next id)) stack, length-reverse_aux (next id) [])

  module _ (ids : List BlockId) (within : (x : BlockId) → has x ids ≡ false → next x ≡ []) where
    no_edges : (x : BlockId) → has x ids ≡ false → length (next x) ≡ 0
    no_edges x h = ap length (within x h)

    visit-left :
        (id : BlockId) (stack seen : List BlockId)
        → length (visit next id stack seen).0 + left ids (visit next id stack seen).1
          ≤ length stack + left ids seen
    unfolding visit
    visit-left id stack seen =
        ground (
          arith,
          length-visited id stack,
          left-visit id ids seen,
          left_mono id ids seen,
          no_edges id,
        )

    -- Enough fuel for the stack and for what is left of the edges.
    pub enough :
        (goal : BlockId) (fuel : ℕ) (stack seen : List BlockId)
        → length stack + left ids seen ≤ fuel
        → is_none (search_from next goal fuel stack seen) ≡ false
    unfolding search_from
    enough goal fuel [] seen h = refl
    enough goal zero (id ∷ stack) seen h = ground arith
    enough goal (suc fuel) (id ∷ stack) seen h = elim (Bool-cases (id_eq id goal)) [
      | inl g ↦ ap is_none (search-goal next goal fuel id stack seen g)
      | inr g ↦
          ap is_none (search-step next goal fuel id stack seen g)
          ∙ enough goal fuel _ _ (ground (arith, visit-left id stack seen))
    ]
