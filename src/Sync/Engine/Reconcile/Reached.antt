-- ===== src/Sync/Engine/Reconcile/Reached.antt =====
-- The states of the engine that operations lead to, from one that has read nothing.
use mkb.Sync.Exec.Frame.{Frame-bind}
use mkb.Sync.Exec.Ensures.{Ensures, Ensures-first, Ensures-last}
use mkb.Sync.Engine.Quiet.{part, on_index-Frame, refresh_links-Frame}
use mkb.Sync.Engine.Stored.{in_vault}
use mkb.Sync.Engine.Reconcile.Forget.{drop_block-Ensures, drop_hash_quiet}
use mkb.Sync.Engine.Reconcile.Whole.{rebuild_files}
use mkb.Base.{ℕ, true, ◌≡◌, sym, ap, subst, Option, none, some, is_ok, arith, Bool-cases, inl, inr}
use mkb.Text.Chars.{Str}
use mkb.Text.Strings.{str_eq, str_eq_sound}
use mkb.Id.{BlockId}
use mkb.Block.{Block}
use mkb.Platform.{Platform}
use mkb.Map
use mkb.Vault
use mkb.Sync.Host.{Host}
use mkb.Sync.Engine.{Engine, persist}
use mkb.Sync.Engine.Writes.{delete_block}
use mkb.Sync.Engine.Framed.{view, persist-Frame}
use mkb.Sync.Engine.Isolated.{delete_block-Frame}
use mkb.Sync.Engine.Stored.{persist-in_vault, persist-in_hashes}
use mkb.Sync.Engine.Reconcile.{reconcile, rebuild}
use mkb.Sync.Engine.Reconcile.Spec.{source_of, Holds, Agrees, Mirrors}
use mkb.Sync.Engine.Reconcile.Whole.{reconcile-Mirrors, rebuild-Mirrors, read_files}

module _ (pf : Platform) (h : Host) where
  -- Every write of a block ends in `persist`, so a write that succeeds is such a step.
  pub data Reached : Engine h → Type 0 where
    started : (e : Engine h) → e.vault ≡ Vault.empty → Reached e
    wrote :
        {e : Engine h}
        → Reached e
        → (i : BlockId) (source : Str) → is_ok (persist pf h i source e).0 ≡ true
        → Reached (persist pf h i source e).1
    deleted :
        {e : Engine h}
        → Reached e
        → (i : BlockId) → is_ok (delete_block pf h i e).0 ≡ true
        → Reached (delete_block pf h i e).1
    reconciled :
        {e : Engine h}
        → Reached e
        → is_ok (reconcile pf h e).0 ≡ true
        → Reached (reconcile pf h e).1
    rebuilt :
        {e : Engine h} → Reached e → is_ok (rebuild pf h e).0 ≡ true → Reached (rebuild pf h e).1

  module _ (id : BlockId) where
    Agrees-none : (w : Option Block × Option ℕ) → w.0 ≡ none → Agrees pf h id w
    Agrees-none (none, x) e = tt
    Agrees-none (some b, x) e = ground (arith, e)

    Agrees-Holds : (w : Option Block × Option ℕ) (t : Str) → Holds pf h id t w → Agrees pf h id w
    Agrees-Holds (none, x) t s = tt
    Agrees-Holds (some b, x) t s = (t, s)

    Mirrors-Agrees :
        (o : Option Str) (w : Option Block × Option ℕ) → Mirrors pf h id o w → Agrees pf h id w
    Mirrors-Agrees none w m = Agrees-none w m
    Mirrors-Agrees (some s) w (t, held, same) = Agrees-Holds w t held

    reconcile-Agrees :
        (e : Engine h)
        → Agrees pf h id (view pf h id e)
        → is_ok (reconcile pf h e).0 ≡ true
        → Agrees pf h id (view pf h id (reconcile pf h e).1)
    reconcile-Agrees e a o =
        let (fs, r) = read_files pf h id e o in
        Mirrors-Agrees (source_of id fs) _ (reconcile-Mirrors pf h id e fs r a o)

    written :
        (i : BlockId) (source : Str) (e : Engine h)
        → i ≡ id
        → is_ok (persist pf h i source e).0 ≡ true
        → Agrees pf h id (view pf h id (persist pf h i source e).1)
    written i source e same =
        subst
          (λ j.
            is_ok (persist pf h j source e).0 ≡ true
            → Agrees pf h id (view pf h id (persist pf h j source e).1))
          (sym same)
          λ o.
            Agrees-Holds _ source
              ((persist-in_vault pf h id source).at e o, (persist-in_hashes pf h id source).at e o)

    persist-Agrees :
        (i : BlockId) (source : Str) (e : Engine h)
        → Agrees pf h id (view pf h id e)
        → is_ok (persist pf h i source e).0 ≡ true
        → Agrees pf h id (view pf h id (persist pf h i source e).1)
    persist-Agrees i source e a o = elim (Bool-cases (str_eq i.as_str id.as_str)) [
      | inl same ↦
          written i source e
            (ap (λ k. record { as_str = k }) (str_eq_sound i.as_str id.as_str same)) o
      | inr other ↦ subst (Agrees pf h id) (sym ((persist-Frame pf h id i other source).at e)) a
    ]

    delete_block-Ensures : Ensures (part h (in_vault pf h id)) none (delete_block pf h id)
    unfolding delete_block
    delete_block-Ensures = Ensures-last _ _ λ _. Ensures-first _ _ (drop_block-Ensures pf h id) λ _.
        Frame-bind _ _ (on_index-Frame pf h (in_vault pf h id) _) λ _.
          Frame-bind _ _ (drop_hash_quiet pf h id id)
            λ _. refresh_links-Frame pf h (in_vault pf h id)

    deleted_at :
        (i : BlockId) (e : Engine h)
        → i ≡ id
        → is_ok (delete_block pf h i e).0 ≡ true
        → Vault.block (delete_block pf h i e).1.vault id ≡ none
    deleted_at i e same =
        subst
          (λ j.
            is_ok (delete_block pf h j e).0 ≡ true
            → Vault.block (delete_block pf h j e).1.vault id ≡ none)
          (sym same) (delete_block-Ensures.at e)

    delete_block-Agrees :
        (i : BlockId) (e : Engine h)
        → Agrees pf h id (view pf h id e)
        → is_ok (delete_block pf h i e).0 ≡ true
        → Agrees pf h id (view pf h id (delete_block pf h i e).1)
    delete_block-Agrees i e a o = elim (Bool-cases (str_eq i.as_str id.as_str)) [
      | inl same ↦ Agrees-none _ (
          deleted_at i e (ap (λ k. record { as_str = k }) (str_eq_sound i.as_str id.as_str same)) o)
      | inr other ↦ subst (Agrees pf h id) (sym ((delete_block-Frame pf h id i other).at e)) a
    ]

    started-Agrees : (e : Engine h) → e.vault ≡ Vault.empty → Agrees pf h id (view pf h id e)
    unfolding Vault.block Map.get
    started-Agrees e v = Agrees-none _ (ap (λ w. Vault.block w id) v)

    rebuild-Agrees :
        (e : Engine h)
        → is_ok (rebuild pf h e).0 ≡ true
        → Agrees pf h id (view pf h id (rebuild pf h e).1)
    rebuild-Agrees e o =
        let (fs, r) = rebuild_files pf h id e o in
        Mirrors-Agrees (source_of id fs) _ (rebuild-Mirrors pf h id e fs r o)

    -- In every state that writes, deletions, reconciles and rebuilds lead to, each of them
    -- successful, from a state whose vault is empty, the version of each block in the vault is the hash of a text that
    -- holds this block.
    pub Reached-Agrees : {e : Engine h} → Reached e → Agrees pf h id (view pf h id e)
    Reached-Agrees (started e v) = started-Agrees e v
    Reached-Agrees (wrote r i source o) = persist-Agrees i source _ (Reached-Agrees r) o
    Reached-Agrees (deleted r i o) = delete_block-Agrees i _ (Reached-Agrees r) o
    Reached-Agrees (reconciled r o) = reconcile-Agrees _ (Reached-Agrees r) o
    Reached-Agrees (rebuilt r o) = rebuild-Agrees _ o
