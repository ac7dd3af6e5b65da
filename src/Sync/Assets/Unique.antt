-- ===== src/Sync/Assets/Unique.antt =====
-- A name for an asset is found, and no file has it.
use mkb.Base.{unwrap_or, Result, ok, err}
use mkb.Paths.{sanitize_asset_filename}
use mkb.Sync.Assets.{AssetDir, entry_names, AssetError, io, wrote, write_new, add_asset}
use mkb.Base.{
  ◌||◌, ℕ, zero, suc, ◌+◌, ◌≤◌, true, false, ◌≡◌, refl, ap, sym, ◌∙◌, List, [], ◌∷◌, map, Option,
  some, arith, Bool-cases, Option-cases, inl, inr, length, is_none,
}
use mkb.Text.Chars.{Str}
use mkb.Text.Strings.{str_eq}
use mkb.Id.{BlockId, id_eq}
use mkb.Vault.{of_key}
use mkb.Vault.Search.{has, id_eq_sound}
use mkb.Vault.Fuel.{itself, left, left-visit}
use mkb.Render.Unvisited.{unvisited-length}
use mkb.Sync.Assets.{numbered, exists, unique_from, stem_of, unique_name}
use mkb.Sync.Assets.Decimal.{numbered-injective}

has-of_key : (s : Str) (names : List Str) → has (of_key s) (map of_key names) ≡ exists names s
unfolding id_eq
has-of_key s [] = refl
has-of_key s (t ∷ names) = ap (λ b. str_eq s t || b) (has-of_key s names)

length-map : (names : List Str) → length (map of_key names) ≡ length names
length-map [] = refl
length-map (t ∷ names) = ap suc (length-map names)

some_same : (s r : Str) → some s ≡ some r → s ≡ r
some_same s r e = ap (λ o. unwrap_or o s) e

module _ (names : List Str) (stem : Str) (ext : Option Str) where
  abbrev make : ℕ → Str
  make = numbered stem ext

  abbrev known : List BlockId
  known = map of_key names

  -- No name from `n` on was tried.
  abbrev Untried : ℕ → List BlockId → Type 0
  Untried n used = (k : ℕ) → n ≤ k → has (of_key (make k)) used ≡ false

  Untried-next :
      (n : ℕ) (used : List BlockId) → Untried n used → Untried (n + 1) (of_key (make n) ∷ used)
  Untried-next n used u k le = elim (Bool-cases (id_eq (of_key (make k)) (of_key (make n)))) [
    | inl e ↦ absurd (
        omega (
          arith,
          numbered-injective stem ext k n (ap (λ (i : BlockId). i.as_str) (id_eq_sound _ _ e)),
          le,
        ))
    | inr d ↦ ground (arith, d, u k (omega (arith, le)))
  ]

  fewer :
      (n : ℕ) (used : List BlockId)
      → Untried n used
      → exists names (make n) ≡ true
      → left itself known (of_key (make n) ∷ used) + 1 ≤ left itself known used
  fewer n used u e =
      left-visit itself (of_key (make n)) known used (has-of_key (make n) names ∙ e)
        (u n (omega arith))

  -- As long as there are names that were not tried, the loop goes on.
  unique_from-is_some :
      (fuel n : ℕ) (used : List BlockId)
      → Untried n used
      → left itself known used ≤ fuel
      → is_none (unique_from names make fuel n (make n)) ≡ false
  unfolding unique_from
  unique_from-is_some zero n used u h = elim (Bool-cases (exists names (make n))) [
    | inl e ↦ absurd (omega (arith, fewer n used u e, h))
    | inr e ↦ rw (unique_from, e) refl
  ]
  unique_from-is_some (suc fuel) n used u h = elim (Bool-cases (exists names (make n))) [
    | inl e ↦ rw (e) (
        unique_from-is_some fuel (n + 1) (of_key (make n) ∷ used) (Untried-next n used u)
          (omega (arith, fewer n used u e, h)))
    | inr e ↦ rw (e) refl
  ]

  -- The loop gives a name that no file has.
  unique_from-new :
      (fuel n : ℕ) (name r : Str)
      → unique_from names make fuel n name ≡ some r
      → exists names r ≡ false
  unfolding unique_from
  unique_from-new zero n name r q = elim (Bool-cases (exists names name)) [
    | inl e ↦ (let stopped = rw (e) at q in ground (arith, stopped))
    | inr e ↦ ap (exists names) (sym (some_same name r (rw (e) at q))) ∙ e
  ]
  unique_from-new (suc fuel) n name r q = elim (Bool-cases (exists names name)) [
    | inl e ↦ unique_from-new fuel (n + 1) (make (n + 1)) r (rw (e) at q)
    | inr e ↦ ap (exists names) (sym (some_same name r (rw (e) at q))) ∙ e
  ]

-- A name that no file has is always found.
pub record New (names : List Str) (o : Option Str) : Type 0 where
  pub name : Str
  pub given : o ≡ some name
  pub new : exists names name ≡ false

module _ (names : List Str) (safe : Str) where
  unique_name-is_some : is_none (unique_name names safe) ≡ false
  unfolding unique_name unique_from
  unique_name-is_some = elim (Bool-cases (exists names safe)) [
    | inl e ↦ rw (e) (
        unique_from-is_some names (stem_of safe).0 (stem_of safe).1 (length names) 1 []
          (λ k le. refl) (omega (arith, unvisited-length (map of_key names) [], length-map names)))
    | inr e ↦ rw (e) refl
  ]

  pub unique_name-New : New names (unique_name names safe)
  unfolding unique_name
  unique_name-New = elim (Option-cases (unique_name names safe)) [
    | inl e ↦ absurd (ground (arith, unique_name-is_some, ap is_none e))
    | inr (r, e) ↦ record {
      name = r;
      given = e;
      new = unique_from-new names (stem_of safe).0 (stem_of safe).1 (suc (length names)) 0 safe r e;
    }
  ]

module _ (d : AssetDir) (suggested_name bytes : Str) (fs : d.Files) where
  -- What importing an asset under a name does.
  abbrev pub imported : Str → Result AssetError Str × d.Files
  imported name = elim (d.create_dir_all fs).0 [
    | err x ↦ (err (io x), (d.create_dir_all fs).1)
    | ok u ↦ wrote d name (d.write name bytes (d.create_dir_all fs).1)
  ]

  -- Importing an asset ends and never overwrites a file: there is a name that no file has, and the
  -- asset is written under this name, once the directory is there.
  pub add_asset-new :
      (name : Str) × (exists (entry_names (d.entries (d.create_dir_all fs).1)) name ≡ false)
      × (add_asset d suggested_name bytes fs ≡ imported name)
  unfolding add_asset
  add_asset-new =
      let fs' = (d.create_dir_all fs).1 in
      let found =
        unique_name-New (entry_names (d.entries fs')) (sanitize_asset_filename suggested_name) in
      (
        found.name,
        found.new,
        ap
            (λ (o : Option Str). elim (d.create_dir_all fs).0 [
              | err x ↦ (err (io x), fs')
              | ok u ↦ write_new d o bytes fs'
            ])
            found.given,
      )
