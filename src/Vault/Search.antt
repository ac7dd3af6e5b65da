-- ===== src/Vault/Search.antt =====
-- The search along embeds finds the goal exactly if a path leads to it, and ends within its fuel.

use mkb.Map.{str_eq_iff}
use mkb.Base.{filter}
use mkb.Base.{
  ◌&&◌, if◌then◌else◌, ℕ, zero, suc, ◌+◌, Bool, true, false, ◌≡◌, refl, ap, sym, subst, ◌∙◌, List,
  [], ◌∷◌, ◌++◌, reverse, some, arith, any, length, ◌||◌, Bool-cases, inl, inr,
}
use mkb.Text.Strings.{str_eq, str_eq_sound, str_eq_refl}
use mkb.Id.{BlockId, id_eq}
use mkb.Vault.Reach.{Steps, here, step, visit, search_from}
use mathlib.Core.List

pub id_eq_sound : (a b : BlockId) → id_eq a b ≡ true → a ≡ b
unfolding id_eq
id_eq_sound a b h = ap (λ s. record { as_str = s }) (str_eq_sound a.as_str b.as_str h)

pub same : (f : BlockId → Bool) (a b : BlockId) → id_eq a b ≡ true → f a ≡ f b
same f a b h = ap f (id_eq_sound a b h)

pub id_eq_str : (a b : BlockId) → id_eq a b ≡ str_eq b.as_str a.as_str
unfolding id_eq
id_eq_str a b = ground (arith, str_eq_iff a.as_str b.as_str, str_eq_iff b.as_str a.as_str)

abbrev pub has : BlockId → List BlockId → Bool
has x l = any (id_eq x) l

pub any-append : (p : BlockId → Bool) (l m : List BlockId) → any p (l ++ m) ≡ (any p l || any p m)
any-append p [] m = refl
any-append p (x ∷ l) m = ground (arith, any-append p l m)

any-reverse_aux :
    (p : BlockId → Bool) (l m : List BlockId) → any p (List.reverse_aux l m) ≡ (any p l || any p m)
any-reverse_aux p [] m = refl
any-reverse_aux p (x ∷ l) m = ground (arith, any-reverse_aux p l (x ∷ m))

pub any-reverse : (p : BlockId → Bool) (l : List BlockId) → any p (reverse l) ≡ any p l
any-reverse p l = ground (arith, any-reverse_aux p l [])

pub length-reverse_aux : (l m : List BlockId) → length (List.reverse_aux l m) ≡ length l + length m
length-reverse_aux [] m = omega arith
length-reverse_aux (x ∷ l) m = ground (arith, length-reverse_aux l (x ∷ m))

pub has-head : (id : BlockId) (l : List BlockId) → has id (id ∷ l) ≡ true
unfolding id_eq
has-head id l = ground (arith, str_eq_refl id.as_str)

pub has-filter :
    (p : BlockId → Bool) (x : BlockId) (l : List BlockId) → has x (filter p l) ≡ (has x l && p x)
has-filter p x [] = refl
has-filter p x (y ∷ l) = ground (arith, has-filter p x l, same p x y)

module _ (next : BlockId → List BlockId) where
  -- What `visit` does to the blocks that are seen or wait on the stack.
  has-visit :
      (x id : BlockId) (stack seen : List BlockId)
      → has x (visit next id stack seen).0
        ≡ (if has id seen then has x stack else has x (next id) || has x stack)
  unfolding visit
  has-visit x id stack seen = elim (Bool-cases (has id seen)) [
    | inl h ↦ rw (h) refl
    | inr h ↦
        rw (h) (
          any-append (id_eq x) (reverse (next id)) stack
          ∙ rw (any-reverse (id_eq x) (next id)) refl)
  ]

  -- A visit that is new adds the block to what is seen.
  has-visit_seen :
      (x id : BlockId) (stack seen : List BlockId)
      → has x (visit next id stack seen).1
        ≡ (if has id seen then has x seen else id_eq x id || has x seen)
  unfolding visit
  has-visit_seen x id stack seen = elim (Bool-cases (has id seen)) [
    | inl h ↦ rw (h) refl
    | inr h ↦ rw (h) refl
  ]

  module _ (goal : BlockId) where
    pub search-goal :
        (fuel : ℕ) (id : BlockId) (stack seen : List BlockId)
        → id_eq id goal ≡ true
        → search_from next goal (suc fuel) (id ∷ stack) seen ≡ some true
    unfolding search_from
    search-goal fuel id stack seen h = rw (search_from, h) refl

    pub search-step :
        (fuel : ℕ) (id : BlockId) (stack seen : List BlockId)
        → id_eq id goal ≡ false
        → search_from next goal (suc fuel) (id ∷ stack) seen
          ≡ search_from next goal fuel (visit next id stack seen).0 (visit next id stack seen).1
    unfolding search_from
    search-step fuel id stack seen h = rw (search_from, h) refl

    -- If all that waits on the stack can be reached, a search that succeeds has a path to the goal.
    pub sound :
        (start : BlockId) (fuel : ℕ) (stack seen : List BlockId)
        → ((x : BlockId) → has x stack ≡ true → Steps next start x)
        → search_from next goal fuel stack seen ≡ some true
        → Steps next start goal
    unfolding search_from
    sound start fuel [] seen r e = ground arith
    sound start zero (id ∷ stack) seen r e = ground arith
    sound start (suc fuel) (id ∷ stack) seen r e = elim (Bool-cases (id_eq id goal)) [
      | inl h ↦ subst (Steps next start) (id_eq_sound id goal h) (r id (has-head id stack))
      | inr h ↦
          sound start fuel (visit next id stack seen).0 (visit next id stack seen).1
            (λ x m. elim (Bool-cases (has x stack)) [
              | inl k ↦ r x (ground (arith, k))
              | inr k ↦
                  step (r id (has-head id stack)) x (ground (arith, has-visit x id stack seen))
            ])
            (sym (search-step fuel id stack seen h) ∙ e)
    ]

    -- What is seen is not the goal, and its children are seen or wait.
    pub record Invariant (stack seen : List BlockId) : Type 0 where
      pub not_goal : (x : BlockId) → has x seen ≡ true → id_eq x goal ≡ false
      pub closed :
          (x c : BlockId)
          → has x seen ≡ true
          → has c (next x) ≡ true
          → (has c seen || has c stack) ≡ true

    closed-Steps :
        (seen : List BlockId)
        → Invariant [] seen
        → (x : BlockId) → has x seen ≡ true
        → (y : BlockId) → Steps next x y
        → has y seen ≡ true
    closed-Steps seen i x m y here = m
    closed-Steps seen i x m y (step {b = b} p c q) =
        ground (arith, i.closed b c (closed-Steps seen i x m b p) q)

    visit-Invariant :
        (id : BlockId) (stack seen : List BlockId)
        → id_eq id goal ≡ false
        → Invariant (id ∷ stack) seen
        → Invariant (visit next id stack seen).0 (visit next id stack seen).1
    visit-Invariant id stack seen h i = record {
      not_goal = λ x m.
          ground
            (arith, i.not_goal x, has-visit_seen x id stack seen, same (λ z. id_eq z goal) x id);
      closed = λ x c m q. ground (
        arith,
        i.closed x c,
        has-visit c id stack seen,
        has-visit_seen c id stack seen,
        has-visit_seen x id stack seen,
        same (λ z. has z seen) c id,
        same (λ z. has z seen) x id,
        same (λ z. has c (next z)) x id,
      );
    }

    -- A search that fails has seen all that can be reached, and the goal is not among it.
    pub complete :
        (fuel : ℕ) (stack seen : List BlockId)
        → Invariant stack seen
        → search_from next goal fuel stack seen ≡ some false
        → (x : BlockId) → (has x seen || has x stack) ≡ true
        → (y : BlockId) → Steps next x y
        → id_eq y goal ≡ false
    unfolding search_from
    complete fuel [] seen i e x m y p = i.not_goal y (closed-Steps seen i x (ground arith) y p)
    complete zero (id ∷ stack) seen i e x m y p = ground arith
    complete (suc fuel) (id ∷ stack) seen i e x m y p = elim (Bool-cases (id_eq id goal)) [
      | inl h ↦ (let wrong = sym (search-goal fuel id stack seen h) ∙ e in ground (arith, wrong))
      | inr h ↦
          complete fuel (visit next id stack seen).0 (visit next id stack seen).1
            (visit-Invariant id stack seen h i) (sym (search-step fuel id stack seen h) ∙ e) x
            (ground (
              arith,
              has-visit x id stack seen,
              has-visit_seen x id stack seen,
              same (λ z. has z seen) x id,
            ))
            y p
    ]
