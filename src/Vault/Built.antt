-- ===== src/Vault/Built.antt =====
-- The vaults that insertions and removals build from the empty one.
use mkb.Base.{false, ◌≡◌, some, is_none}
use mkb.Text.Chars.{Str}
use mkb.Id.{BlockId}
use mkb.Block.{Block}
use mkb.Platform.{Platform}
use mkb.Vault.{Vault, empty, block, insert, remove, resolve}
use mkb.Vault.Resolve.{
  IsIndexed, empty-IsIndexed, insert-IsIndexed, remove-IsIndexed, resolve-known,
}

module _ (pf : Platform) where
  pub data Built : Vault → Type 0 where
    start : Built empty
    inserted : {v : Vault} (b : Block) → Built v → Built (insert pf v b)
    removed : {v : Vault} (id : BlockId) → Built v → Built (remove pf v id).0

  Built-IsIndexed : {v : Vault} → Built v → IsIndexed v
  Built-IsIndexed start = empty-IsIndexed
  Built-IsIndexed (inserted {v} b r) = insert-IsIndexed pf v b
  Built-IsIndexed (removed {v} id r) = remove-IsIndexed pf v id (Built-IsIndexed r)

  -- In every vault that insertions and removals lead to from the empty one, a target that resolves,
  -- by its id or by its title, leads to a block of the vault: no title is left of a block that was
  -- removed.
  pub Built-resolve :
      (v : Vault) (target : Str) {id : BlockId}
      → Built v
      → resolve pf v target ≡ some id
      → is_none (block v id) ≡ false
  Built-resolve v target r e = resolve-known pf v target (Built-IsIndexed r) e
