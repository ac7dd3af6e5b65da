-- ===== src/Vault/Resolve.antt =====
-- What `resolve` finds is in the vault: the title index names no block that is not there.
use mkb.Base.{
  false, ◌≡◌, ap, List, [], ◌∷◌, map, none, some, arith, if◌then◌else◌, Option-cases, inl, inr,
  is_none,
}
use mkb.Text.Chars.{Str}
use mkb.Text.Strings.{str_eq, str_eq_sound}
use mkb.Id.{BlockId}
use mkb.Block.{Block}
use mkb.Map
use mkb.Map.{Map, get-insert, get-remove}
use mkb.Platform.{Platform}
use mkb.Vault.{
  trim, Vault, empty, of_key, sort_keys, block, add_key, key_of, add_title, add_titles,
  reindex_titles, insert, remove, resolve,
}

abbrev pub Known : Map Block → BlockId → Type 0
Known bs id = is_none (Map.get id.as_str bs) ≡ false

-- Every title leads to a block of the vault.
abbrev pub AllKnown : Map Block → Map BlockId → Type 0
AllKnown bs m = (k : Str) (id : BlockId) → Map.get k m ≡ some id → Known bs id

pub record IsIndexed (v : Vault) : Type 0 where
  pub titles : AllKnown v.blocks v.by_title

add_key-AllKnown :
    (bs : Map Block) (m : Map BlockId) (key : Str) (id : BlockId)
    → Known bs id
    → AllKnown bs m
    → AllKnown bs (add_key m key id)
unfolding add_key
add_key-AllKnown bs m key id known h k j e = ground (arith, get-insert key k id m, h k j)

module _ (pf : Platform) (bs : Map Block) where
  add_title-AllKnown :
      (m : Map BlockId) (id : BlockId) → AllKnown bs m → AllKnown bs (add_title pf bs m id)
  unfolding add_title
  add_title-AllKnown m id h = elim (Option-cases (Map.get id.as_str bs)) [
    | inl e ↦ rw (e, add_title) h
    | inr (b, e) ↦ elim (Option-cases b.title) [
      | inl t ↦ rw (e, add_title) (rw (t, add_title) h)
      | inr (s, t) ↦
          rw (e, add_title)
            (rw (t, add_title) (add_key-AllKnown bs m (key_of pf s) id (ap is_none e) h))
    ]
  ]

  add_titles-AllKnown :
      (m : Map BlockId) (is : List BlockId) → AllKnown bs m → AllKnown bs (add_titles pf bs m is)
  unfolding add_titles
  add_titles-AllKnown m [] h = h
  add_titles-AllKnown m (id ∷ is) h =
      add_titles-AllKnown (add_title pf bs m id) is (add_title-AllKnown m id h)

  reindex_titles-IsIndexed : IsIndexed (reindex_titles pf bs)
  unfolding reindex_titles
  reindex_titles-IsIndexed = record {
    titles =
        add_titles-AllKnown [] (map of_key (sort_keys (Map.keys bs)))
          (λ k id e. unfold Map.get in ground (arith, e));
  }

pub empty-IsIndexed : IsIndexed empty
empty-IsIndexed = record { titles = λ k id e. unfold Map.get in ground (arith, e) }

module _ (pf : Platform) where
  -- After any insertion, every title in the index leads to a block of the vault.
  pub insert-IsIndexed : (v : Vault) (b : Block) → IsIndexed (insert pf v b)
  unfolding insert
  insert-IsIndexed v b = reindex_titles-IsIndexed pf (Map.insert b.id.as_str b v.blocks)

  -- A removal keeps it so that every title in the index leads to a block of the vault.
  pub remove-IsIndexed : (v : Vault) (id : BlockId) → IsIndexed v → IsIndexed (remove pf v id).0
  unfolding remove
  remove-IsIndexed v id h = elim (Option-cases (Map.get id.as_str v.blocks)) [
    | inl e ↦ rw (e, remove) h
    | inr (b, e) ↦ rw (e, remove) (reindex_titles-IsIndexed pf (Map.remove id.as_str v.blocks))
  ]

  titled_known :
      (v : Vault) (k : Str) {id : BlockId}
      → IsIndexed v
      → Map.get k v.by_title ≡ some id
      → is_none (block v id) ≡ false
  unfolding block
  titled_known v k {id} h e = h.titles k id e

  -- A target that resolves, by its id or by its title, leads to a block of the vault, if every
  -- title in the index does.
  pub resolve-known :
      (v : Vault) (target : Str) {id : BlockId}
      → IsIndexed v
      → resolve pf v target ≡ some id
      → is_none (block v id) ≡ false
  unfolding resolve block
  resolve-known v target {id} h e = ground (arith, h.titles (pf.to_lowercase (trim target)) id)

  -- Inserting a block changes what is found under its own id, and nothing else.
  pub block-insert :
      (v : Vault) (b : Block) (id : BlockId)
      → block (insert pf v b) id ≡ (if str_eq b.id.as_str id.as_str then some b else block v id)
  unfolding block insert reindex_titles
  block-insert v b id = get-insert b.id.as_str id.as_str b v.blocks

  -- So does removing one.
  pub block-remove :
      (v : Vault) (i id : BlockId)
      → block (remove pf v i).0 id ≡ (if str_eq i.as_str id.as_str then none else block v id)
  unfolding block remove reindex_titles
  block-remove v i id =
      ground (arith, get-remove i.as_str id.as_str v.blocks, str_eq_sound i.as_str id.as_str)
