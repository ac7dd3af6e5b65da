-- ===== src/Sync/Engine/Reconcile/Mirror.antt =====
-- What `reconcile` and `rebuild` leave: a vault that mirrors the files.
use mkb.Base.{
  ◌&&◌, ℕ, true, false, not, ◌≡◌, refl, sym, ap, subst, ◌∙◌, List, [], ◌∷◌, Option, none, some,
  Result, is_ok, arith, if◌then◌else◌, any, is_none, Bool-cases, inl, inr,
}
use mkb.Text.Chars.{Str}
use mkb.Id.{BlockId, id_eq}
use mkb.Block.{Block}
use mkb.Blockfile.Write.{is_nil}
use mkb.Platform.{Platform}
use mkb.Map.{Map}
use mkb.Vault
use mkb.Vault.Search.{has-filter, has}
use mkb.Vault.Reached.{block-ids}
use mkb.Sync.Host.{Host, IndexError}
use mkb.Sync.Exec.{pure, modify, ◌>>=◌, ◌>>◌}
use mkb.Sync.Exec.Frame.{Frame, Frame-pure, Frame-if, Frame-bind}
use mkb.Sync.Exec.Ensures.{Ensures-first}
use mkb.Sync.Engine.{Engine, Action, refresh_links}
use mkb.Sync.Engine.Quiet.{part, refresh_links-Frame}
use mkb.Sync.Engine.Framed.{seen, view}
use mkb.Sync.Engine.Stored.{in_vault}
use mkb.Sync.Engine.Reconcile.{SyncReport, forget_all, missing, set_conflicts}
use mkb.Sync.Engine.Reconcile.Spec.{source_of, Taken, Mirrors}
use mkb.Sync.Engine.Reconcile.Forget.{forget_all-Frame, forget_all-Ensures}

is_none-source_of :
    (id : BlockId) (fs : List (BlockId × Str))
    → is_none (source_of id fs) ≡ not (any (λ (f : BlockId × Str). id_eq f.0 id) fs)
unfolding source_of id_eq
is_none-source_of id [] = refl
is_none-source_of id ((i, s) ∷ fs) = ground (arith, is_none-source_of id fs)

module _ (pf : Platform) (h : Host) (id : BlockId) where
  has-missing :
      (fs : List (BlockId × Str)) (e : Engine h)
      → has id (missing pf h fs e) ≡ (has id (Vault.ids e.vault) && is_none (source_of id fs))
  unfolding missing
  has-missing fs e =
      has-filter (λ x. not (any (λ (f : BlockId × Str). id_eq f.0 x) fs)) id (Vault.ids e.vault)
      ∙ ap (λ t. has id (Vault.ids e.vault) && t) (sym (is_none-source_of id fs))

  set_conflicts-Frame :
      {V : Type 0} (p : Vault.Vault → Map ℕ → V) (names : List Str)
      → Frame (part h p) (set_conflicts pf h names)
  unfolding set_conflicts modify
  set_conflicts-Frame p names = record { at = λ e. refl }

  -- What follows the removals.
  abbrev pub finish : List Str → List Str → List Str → Action pf h SyncReport
  finish conflicts changed removed = do
    (if is_nil changed && is_nil removed then pure tt else refresh_links pf h)
    set_conflicts pf h conflicts
    pure (record { changed = changed; removed = removed; conflicts = conflicts })

  finish-Frame :
      {V : Type 0} (p : Vault.Vault → Map ℕ → V) (conflicts changed removed : List Str)
      → Frame (part h p) (finish conflicts changed removed)
  finish-Frame p conflicts changed removed =
      Frame-bind _ _ (Frame-if _ _ _ (Frame-pure tt) (refresh_links-Frame pf h p))
        λ _. Frame-bind _ _ (set_conflicts-Frame p conflicts) λ _. Frame-pure _

  abbrev pub drop_gone : List Str → List Str → List BlockId → Action pf h SyncReport
  drop_gone conflicts changed gone = do
    removed ← forget_all pf h gone
    finish conflicts changed removed

  module _ (fs : List (BlockId × Str)) (conflicts changed : List Str) (e : Engine h) where
    abbrev pub gone : List BlockId
    gone = missing pf h fs e

    abbrev pub ended : Result IndexError SyncReport × Engine h
    ended = drop_gone conflicts changed gone e

    left : has id gone ≡ false → view pf h id ended.1 ≡ view pf h id e
    left n =
        (Frame-bind _ _ (forget_all-Frame pf h id gone n)
            λ removed. finish-Frame (seen pf h id) conflicts changed removed).at
          e

    dropped : has id gone ≡ true → is_ok ended.0 ≡ true → Vault.block ended.1.vault id ≡ none
    dropped g o =
        (Ensures-first _ _ (forget_all-Ensures pf h id gone g)
            λ removed. finish-Frame (in_vault pf h id) conflicts changed removed).at
          e o

    no_file : source_of id fs ≡ none → is_ok ended.0 ≡ true → Vault.block ended.1.vault id ≡ none
    no_file n o = elim (Bool-cases (has id gone)) [
      | inl g ↦ dropped g o
      | inr k ↦
          ap (λ w. w.0) (left k)
          ∙ block-ids pf e.vault id (ground (arith, has-missing fs e, ap is_none n))
    ]

    pub drop_gone-Mirrors :
        (o : Option Str) (w : Option Block × Option ℕ)
        → source_of id fs ≡ o
        → Taken pf h id o w (view pf h id e)
        → is_ok ended.0 ≡ true
        → Mirrors pf h id o (view pf h id ended.1)
    drop_gone-Mirrors none w n t d = no_file n d
    drop_gone-Mirrors (some s) w n t d =
        subst (Mirrors pf h id (some s))
          (sym (left (ground (arith, has-missing fs e, ap is_none n)))) t
