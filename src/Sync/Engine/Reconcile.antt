-- ===== src/Sync/Engine/Reconcile.antt =====
-- `reconcile` and `rebuild` of crates/mkb-core/src/sync.rs.
pub mod Spec
pub mod Take
pub mod Forget
pub mod Mirror
pub mod Whole
pub mod Reached
pub mod Runs
use mkb.Base.{
  ◌&&◌, ℕ, Bool, true, false, not, List, [], ◌∷◌, ◌++◌, map, Option, none, some, Result, ok, err,
  ◌==◌, if◌then◌else◌, any, filter, is_none,
}
use mkb.Text.Chars.{Str}
use mkb.Text.Strings.{str_eq}
use mkb.Id.{BlockId, id_eq}
use mkb.Blockfile.Write.{is_nil}
use mkb.Platform.{Platform}
use mkb.Map
use mkb.Map.{Map}
use mkb.Vault
use mkb.Sync.Host.{Host}
use mkb.Sync.Files.{read_block_files, conflict_file_names}
use mkb.Sync.Exec.{pure, lift, gets, modify, ◌>>=◌, ◌>>◌}
use mkb.Sync.Engine.{
  Engine, Action, on_index, put_block, drop_block, drop_hash, ingest, record_hash, refresh_links,
}

pub record SyncReport : Type 0 where
  pub changed : List Str
  pub removed : List Str
  pub conflicts : List Str

-- `self.hashes.entry(id).or_insert(h)` for each pair.
unfoldable pub fill_hashes : Map ℕ → List (BlockId × ℕ) → Map ℕ
fill_hashes hashes [] = hashes
fill_hashes hashes ((id, x) ∷ rest) =
    fill_hashes
      (elim (Map.get id.as_str hashes) [ some y ↦ hashes | none ↦ Map.insert id.as_str x hashes ])
      rest

-- `self.hashes.get(&id) == Some(&h)`
unfoldable pub is_recorded : Option ℕ → ℕ → Bool
is_recorded none x = false
is_recorded (some y) x = y == x

module _ (pf : Platform) (h : Host) where
  unfoldable pub seed : Action pf h Unit
  seed = do
    seeded ← gets (λ (e : Engine h). e.seeded)
    (if seeded then pure tt else (do
      found ← gets (λ (e : Engine h). h.content_hashes h.version e.index)
      hashes ← lift found
      modify λ (e : Engine h). record e { hashes = fill_hashes e.hashes hashes; seeded = true }))

  -- A file whose hash is recorded is not indexed again, but its block must be in the vault.
  unfoldable pub skip_file : BlockId → Str → Action pf h Unit
  skip_file id source = do
    b ← gets (λ (e : Engine h). Vault.block e.vault id)
    if is_none b then put_block pf h id source else pure tt

  unfoldable pub take_file : BlockId → Str → Action pf h (List Str)
  unfolding skip_file
  take_file id source = do
    recorded ←
        gets (λ (e : Engine h). is_recorded (Map.get id.as_str e.hashes) (h.hash_bytes source))
    (if recorded then skip_file id source >> pure [] else (do
      ingest pf h id source
      record_hash pf h id (h.hash_bytes source)
      pure (id.as_str ∷ [])))

  unfoldable pub take_files : List (BlockId × Str) → Action pf h (List Str)
  take_files [] = pure []
  take_files ((id, source) ∷ fs) = do
    changed ← take_file id source
    rest ← take_files fs
    pure (changed ++ rest)

  unfoldable pub forget : BlockId → Action pf h Unit
  forget id = do drop_block pf h id; on_index pf h (h.remove_block id); drop_hash pf h id

  unfoldable pub forget_all : List BlockId → Action pf h (List Str)
  forget_all [] = pure []
  forget_all (id ∷ ids) = do forget id; rest ← forget_all ids; pure (id.as_str ∷ rest)

  -- The blocks of the vault that no file is for.
  unfoldable pub missing : List (BlockId × Str) → Engine h → List BlockId
  missing fs e =
      filter (λ id. not (any (λ (f : BlockId × Str). id_eq f.0 id) fs)) (Vault.ids e.vault)

  unfoldable pub set_conflicts : List Str → Action pf h Unit
  set_conflicts names = modify λ (e : Engine h). record e { conflicts = names }

  unfoldable pub reconcile : Action pf h SyncReport
  reconcile = do
    seed
    listed ← gets (λ (e : Engine h). read_block_files pf h e.files)
    files ← lift listed
    conflicts ← gets (λ (e : Engine h). conflict_file_names pf h e.files)
    changed ← take_files files
    gone ← gets (missing files)
    removed ← forget_all gone
    (if is_nil changed && is_nil removed then pure tt else refresh_links pf h)
    set_conflicts conflicts
    pure (record { changed = changed; removed = removed; conflicts = conflicts })

  unfoldable pub clear_memory : Action pf h Unit
  clear_memory =
      modify λ (e : Engine h). record e { vault = Vault.empty; hashes = []; conflicts = [] }

  unfoldable pub rebuild : Action pf h SyncReport
  rebuild = do on_index pf h h.clear; clear_memory; reconcile
