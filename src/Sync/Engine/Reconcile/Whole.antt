-- ===== src/Sync/Engine/Reconcile/Whole.antt =====
-- `reconcile` and `rebuild` as a whole.
use mkb.Base.{
  ℕ, Bool, true, false, ◌≡◌, refl, sym, ap, subst, ◌∙◌, List, [], ◌∷◌, Option, none, some, Result,
  ok, err, is_ok, arith, Option-cases, inl, inr,
}
use mkb.Text.Chars.{Str}
use mkb.Id.{BlockId}
use mkb.Block.{Block}
use mkb.Platform.{Platform}
use mkb.Map
use mkb.Map.{Map, get-insert, str_eq_iff}
use mkb.Vault
use mkb.Sync.Host.{Host, IndexError}
use mkb.Sync.Files.{read_block_files, conflict_file_names}
use mkb.Sync.Exec.{Exec, pure, lift, gets, modify, ◌>>=◌}
use mkb.Sync.Exec.Success.{chain}
use mkb.Sync.Engine.{Engine, on_index}
use mkb.Sync.Engine.Framed.{view}
use mkb.Sync.Engine.Reconcile.{
  SyncReport, fill_hashes, seed, take_files, missing, reconcile, clear_memory, rebuild,
}
use mkb.Sync.Engine.Reconcile.Spec.{source_of, Agrees, Mirrors}
use mkb.Sync.Engine.Reconcile.Take.{take_files-Taken}
use mkb.Sync.Engine.Reconcile.Mirror.{drop_gone, drop_gone-Mirrors}

get-fill_hashes :
    (k : Str) (x : ℕ) (m : Map ℕ) (ps : List (BlockId × ℕ))
    → Map.get k m ≡ some x
    → Map.get k (fill_hashes m ps) ≡ some x
unfolding fill_hashes
get-fill_hashes k x m [] e = e
get-fill_hashes k x m ((i, y) ∷ ps) e = elim (Option-cases (Map.get i.as_str m)) [
  | inl new ↦ rw (new) (
      get-fill_hashes k x (Map.insert i.as_str y m) ps
        (ground (arith, get-insert i.as_str k y m, str_eq_iff i.as_str k)))
  | inr (z, old) ↦ rw (old) (get-fill_hashes k x m ps e)
]

module _ (pf : Platform) (h : Host) (id : BlockId) where
  Agrees-filled :
      (b : Option Block) (x y : Option ℕ)
      → ((k : ℕ) → x ≡ some k → y ≡ some k)
      → Agrees pf h id (b, x)
      → Agrees pf h id (b, y)
  Agrees-filled none x y f a = tt
  Agrees-filled (some b) x y f (t, (e, k)) = (t, (e, f _ k))

  -- What seeding leaves: the vault and the files as they were, and every hash that was there.
  record Seeded (e e' : Engine h) : Type 0 where
    pub vault : e'.vault ≡ e.vault
    pub files : read_block_files pf h e'.files ≡ read_block_files pf h e.files
    pub hashes :
        (k : ℕ) → Map.get id.as_str e.hashes ≡ some k → Map.get id.as_str e'.hashes ≡ some k

  filled :
      (e : Engine h) (b : Bool) (r : Result IndexError (List (BlockId × ℕ)))
      → e.seeded ≡ b
      → h.content_hashes h.version e.index ≡ r
      → Seeded e (seed pf h e).1
  unfolding seed gets pure modify lift ◌>>=◌
  filled e true r s c = rw (s) (record { vault = refl; files = refl; hashes = λ k q. q })
  filled e false (ok ps) s c = rw (s) (
      rw (c) (record {
        vault = refl;
        files = refl;
        hashes = λ k q. get-fill_hashes id.as_str k e.hashes ps q;
      }))
  filled e false (err x) s c =
      rw (s) (rw (c) (record { vault = refl; files = refl; hashes = λ k q. q }))

  read_step :
      {A : Type 0} (e : Engine h) {fs : List (BlockId × Str)}
      (k : List (BlockId × Str) → Exec (Engine h) A)
      → read_block_files pf h e.files ≡ ok fs
      → (gets (λ (e : Engine h). read_block_files pf h e.files) >>= λ listed. lift listed >>= k) e
        ≡ k fs e
  unfolding gets lift ◌>>=◌
  read_step e k r = rw (r) refl

  -- What `reconcile` does with the files it has read.
  abbrev mirror : List (BlockId × Str) → Exec (Engine h) SyncReport
  mirror fs = gets (λ (e : Engine h). conflict_file_names pf h e.files) >>= λ conflicts.
      take_files pf h fs >>= λ changed.
      gets (missing pf h fs) >>= drop_gone pf h id conflicts changed

  abbrev MirroredBy : List (BlockId × Str) → Result IndexError SyncReport × Engine h → Type 0
  MirroredBy fs r = is_ok r.0 ≡ true → Mirrors pf h id (source_of id fs) (view pf h id r.1)

  -- One block after the files were taken: `changed` are the files that were indexed.
  mirror-lem :
      (fs : List (BlockId × Str)) (e : Engine h)
      → Agrees pf h id (view pf h id e)
      → is_ok (mirror fs e).0 ≡ true
      → Mirrors pf h id (source_of id fs) (view pf h id (mirror fs e).1)
  unfolding gets ◌>>=◌
  mirror-lem fs e a o =
      let names = conflict_file_names pf h e.files in
      let second =
        chain (take_files pf h fs)
          (λ changed. gets (missing pf h fs) >>= drop_gone pf h id names changed) e o in
      let e' = (take_files pf h fs e).1 in
      let taken = take_files-Taken pf h id fs e a (ap is_ok second.first) in
      subst
        (λ (r : Result IndexError SyncReport × Engine h).
          Mirrors pf h id (source_of id fs) (view pf h id r.1))
        (sym second.whole)
        (drop_gone-Mirrors pf h id fs names second.value e' (source_of id fs) _ refl taken
          second.rest)

  -- A reconcile that succeeds leaves the vault as a mirror of the block files: each block is that
  -- of the last file for its id, or of a text that has the same hash, with this hash as its
  -- version, and a block without a file is gone; if every block had the hash of its text before.
  pub reconcile-Mirrors :
      (e : Engine h) (fs : List (BlockId × Str))
      → read_block_files pf h e.files ≡ ok fs
      → Agrees pf h id (view pf h id e)
      → is_ok (reconcile pf h e).0 ≡ true
      → Mirrors pf h id (source_of id fs) (view pf h id (reconcile pf h e).1)
  unfolding reconcile
  reconcile-Mirrors e fs r a o =
      let first = chain (seed pf h) _ e o in
      let s = filled e e.seeded _ refl refl in
      let step = read_step (seed pf h e).1 mirror (s.files ∙ r) in
      subst (MirroredBy fs) (sym (first.whole ∙ step))
        (mirror-lem fs (seed pf h e).1 (
          subst (λ b. Agrees pf h id (b, Map.get id.as_str (seed pf h e).1.hashes))
            (ap (λ v. Vault.block v id) (sym s.vault)) (Agrees-filled _ _ _ s.hashes a)))
        o

  cleared_Agrees : (e : Engine h) → Agrees pf h id (view pf h id (clear_memory pf h e).1)
  unfolding clear_memory modify Vault.block Map.get
  cleared_Agrees e = tt

  -- A rebuild that succeeds leaves the vault as a mirror of the block files, whatever was in it
  -- before.
  pub rebuild-Mirrors :
      (e : Engine h) (fs : List (BlockId × Str))
      → read_block_files pf h e.files ≡ ok fs
      → is_ok (rebuild pf h e).0 ≡ true
      → Mirrors pf h id (source_of id fs) (view pf h id (rebuild pf h e).1)
  unfolding rebuild clear_memory on_index modify ◌>>=◌
  rebuild-Mirrors e fs r o =
      let first = chain (on_index pf h h.clear) _ e o in
      let e' = (on_index pf h h.clear e).1 in
      subst (MirroredBy fs) (sym first.whole)
        (reconcile-Mirrors (clear_memory pf h e').1 fs r (cleared_Agrees e')) o

  listed :
      (e : Engine h) (r : Result IndexError (List (BlockId × Str)))
      → read_block_files pf h e.files ≡ r
      → is_ok
          ((gets (λ (e : Engine h). read_block_files pf h e.files) >>= λ files.
              lift files >>= mirror)
            e).0
        ≡ true
      → (fs : List (BlockId × Str)) × (r ≡ ok fs)
  unfolding gets lift ◌>>=◌
  listed e (ok fs) r o = (fs, refl)
  listed e (err x) r o = ground (arith, rw r at o)

  -- A reconcile that succeeds has read the files.
  pub read_files :
      (e : Engine h)
      → is_ok (reconcile pf h e).0 ≡ true
      → (fs : List (BlockId × Str)) × (read_block_files pf h e.files ≡ ok fs)
  unfolding reconcile
  read_files e o =
      let first = chain (seed pf h) _ e o in
      listed (seed pf h e).1 _ (filled e e.seeded _ refl refl).files first.rest

  -- So has a rebuild.
  pub rebuild_files :
      (e : Engine h)
      → is_ok (rebuild pf h e).0 ≡ true
      → (fs : List (BlockId × Str)) × (read_block_files pf h e.files ≡ ok fs)
  unfolding rebuild clear_memory on_index modify ◌>>=◌
  rebuild_files e o =
      let first = chain (on_index pf h h.clear) _ e o in
      read_files (clear_memory pf h (on_index pf h h.clear e).1).1 first.rest
