-- ===== src/Render/Unvisited.antt =====
-- How many blocks a rendering can still go down to.
use mathlib.Core.Option
use mkb.Base.{
  ℕ, ◌≤◌, ◌<◌, true, false, ◌≡◌, List, [], ◌∷◌, none, some, is_none, arith, length, Bool-cases, inl,
  inr, refl, sym, ◌∙◌, Option,
}
use mkb.Id.{BlockId}
use mkb.Block.{Block}
use mkb.Platform.{Platform}
use mkb.Vault
use mkb.Vault.{Vault}
use mkb.Vault.Search.{has}
use mkb.Vault.Fuel.{itself, left, left-visit}
use mkb.Vault.Reached.{block-ids}

pub map-is_some :
    {A B : Type 0} (f : A → B) (o : Option A) → is_none o ≡ false → is_none (Option.map f o) ≡ false
map-is_some f none h = ground (arith, h)
map-is_some f (some a) h = refl

-- The blocks that are not visited.
abbrev pub unvisited : List BlockId → List BlockId → ℕ
unvisited ids visited = left itself ids visited

pub unvisited-length : (ids visited : List BlockId) → unvisited ids visited ≤ length ids
unfolding left
unvisited-length [] visited = omega arith
unvisited-length (i ∷ is) visited = ground (arith, unvisited-length is visited)

module _ (pf : Platform) (v : Vault) where
  known_ids : (id : BlockId) (b : Block) → Vault.block v id ≡ some b → has id (Vault.ids v) ≡ true
  known_ids id b k = elim (Bool-cases (has id (Vault.ids v))) [
    | inl m ↦ m
    | inr n ↦ (let lost = sym (block-ids pf v id n) ∙ k in ground (arith, lost))
  ]

  -- To visit a block of the vault that was not visited leaves fewer of them.
  pub unvisited-visit :
      (id : BlockId) (b : Block) (visited : List BlockId)
      → Vault.block v id ≡ some b
      → has id visited ≡ false
      → unvisited (Vault.ids v) (id ∷ visited) < unvisited (Vault.ids v) visited
  unvisited-visit id b visited k n =
      omega (arith, left-visit itself id (Vault.ids v) visited (known_ids id b k) n)
