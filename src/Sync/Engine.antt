-- ===== src/Sync/Engine.antt =====
-- `SyncEngine`: its state, the steps that every write shares, and the writes.
pub mod Props
pub mod Writes
pub mod Unlink
pub mod Quiet
pub mod Framed
pub mod Isolated
pub mod Stored
pub mod Preserved
pub mod Runs
pub mod Reconcile
use mkb.Base.{
  ℕ, Bool, true, false, List, [], ◌∷◌, Option, none, some, Result, ok, err, if◌then◌else◌, length,
}
use mkb.Text.Chars.{Str}
use mkb.Id.{BlockId}
use mkb.Block.{Block}
use mkb.Platform.{Platform}
use mkb.Map
use mkb.Map.{Map}
use mkb.Vault
use mkb.Vault.{Vault, blocks}
use mkb.Index.{from_block, block_links}
use mkb.Sync.Host.{Host, IndexError, vanished, unknown_block}
use mkb.Sync.Exec.{Exec, pure, fail, gets, modify, ◌>>=◌, ◌>>◌}

pub record Engine (h : Host) : Type 0 where
  pub vault : Vault
  pub index : h.Store
  pub hashes : Map ℕ
  pub files : h.Files
  pub conflicts : List Str
  -- whether `hashes` has been filled from the index
  pub seeded : Bool

module _ (pf : Platform) (h : Host) where
  abbrev pub Action : Type 0 → Type 0
  Action = Exec (Engine h)

  unfoldable pub on_index : (h.Store → Result IndexError Unit × h.Store) → Action Unit
  on_index f e = let (r, s) = f e.index in (r, record e { index = s })

  unfoldable pub on_files : (h.Files → Result IndexError Unit × h.Files) → Action Unit
  on_files f e = let (r, s) = f e.files in (r, record e { files = s })

  unfoldable pub put_block : BlockId → Str → Action Unit
  put_block id source = modify λ e. record e { vault = Vault.insert_source pf e.vault id source }

  unfoldable pub put_hash : BlockId → ℕ → Action Unit
  put_hash id hash = modify λ e. record e { hashes = Map.insert id.as_str hash e.hashes }

  unfoldable pub drop_block : BlockId → Action Unit
  drop_block id = modify λ e. record e { vault = (Vault.remove pf e.vault id).0 }

  unfoldable pub drop_hash : BlockId → Action Unit
  drop_hash id = modify λ e. record e { hashes = Map.remove id.as_str e.hashes }

  abbrev pub found_or : IndexError → Option Block → Action Block
  found_or x none = fail x
  found_or x (some b) = pure b

  -- `self.vault.block(id).ok_or_else(..)`
  unfoldable pub require : IndexError → BlockId → Action Block
  require x id = do b ← gets (λ e. Vault.block e.vault id); found_or x b

  -- The record and the links of a block go to the index.
  unfoldable pub reindex : Vault → Block → Action Unit
  reindex v b =
      on_index
        (h.reindex_block (from_block pf b (length (Vault.children pf v b.id))) (block_links pf v b))

  unfoldable pub ingest : BlockId → Str → Action Unit
  ingest id source = do
    put_block id source
    b ← require vanished id
    v ← gets (λ e. e.vault)
    reindex v b
    on_index (h.embed (from_block pf b (length (Vault.children pf v id))))

  unfoldable pub record_hash : BlockId → ℕ → Action Unit
  record_hash id hash = do on_index (h.set_content_hash id h.version hash); put_hash id hash

  unfoldable pub reindex_all : Vault → List Block → Action Unit
  reindex_all v [] = pure tt
  reindex_all v (b ∷ bs) = reindex v b >> reindex_all v bs

  unfoldable pub refresh_links : Action Unit
  refresh_links = do v ← gets (λ e. e.vault); reindex_all v (blocks v)

  -- The end of every write: the file, the vault and the index, the hash, the links.
  unfoldable pub persist : BlockId → Str → Action Unit
  persist id source = do
    on_files (h.write_file id source)
    ingest id source
    record_hash id (h.hash_bytes source)
    refresh_links

  unfoldable pub block_version : Engine h → BlockId → Option ℕ
  block_version e id = Map.get id.as_str e.hashes
