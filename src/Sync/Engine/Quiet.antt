-- ===== src/Sync/Engine/Quiet.antt =====
-- The steps of the engine that change only the index or the files.
use mkb.Base.{ℕ, refl, List, [], ◌∷◌, Option, none, some, Result}
use mkb.Id.{BlockId}
use mkb.Block.{Block}
use mkb.Platform.{Platform}
use mkb.Map.{Map}
use mkb.Vault.{Vault}
use mkb.Sync.Host.{Host, IndexError}
use mkb.Sync.Exec.Frame.{Frame, Frame-pure, Frame-fail, Frame-gets, Frame-bind}
use mkb.Sync.Engine.{
  Engine, on_index, on_files, found_or, require, reindex, reindex_all, refresh_links,
}

-- What is read off the vault and the hashes.
abbrev pub part : (h : Host) {V : Type 0} → (Vault → Map ℕ → V) → Engine h → V
part h p e = p e.vault e.hashes

module _ (pf : Platform) (h : Host) {V : Type 0} (p : Vault → Map ℕ → V) where
  pub on_index-Frame :
      (f : h.Store → Result IndexError Unit × h.Store) → Frame (part h p) (on_index pf h f)
  unfolding on_index
  on_index-Frame f = record { at = λ e. refl }

  pub on_files-Frame :
      (f : h.Files → Result IndexError Unit × h.Files) → Frame (part h p) (on_files pf h f)
  unfolding on_files
  on_files-Frame f = record { at = λ e. refl }

  pub found_or-Frame : (x : IndexError) (o : Option Block) → Frame (part h p) (found_or pf h x o)
  found_or-Frame x none = Frame-fail x
  found_or-Frame x (some b) = Frame-pure b

  pub require-Frame : (x : IndexError) (i : BlockId) → Frame (part h p) (require pf h x i)
  unfolding require
  require-Frame x i = Frame-bind _ _ (Frame-gets _) (found_or-Frame x)

  pub reindex-Frame : (v : Vault) (b : Block) → Frame (part h p) (reindex pf h v b)
  unfolding reindex
  reindex-Frame v b = on_index-Frame _

  pub reindex_all-Frame : (v : Vault) (bs : List Block) → Frame (part h p) (reindex_all pf h v bs)
  unfolding reindex_all
  reindex_all-Frame v [] = Frame-pure tt
  reindex_all-Frame v (b ∷ bs) = Frame-bind _ _ (reindex-Frame v b) (λ _. reindex_all-Frame v bs)

  pub refresh_links-Frame : Frame (part h p) (refresh_links pf h)
  unfolding refresh_links
  refresh_links-Frame = Frame-bind _ _ (Frame-gets _) (λ v. reindex_all-Frame v _)
