-- ===== src/Service/Refusals.antt =====
-- When an edit is refused, and that a refused edit changes nothing.
use mkb.Base.{inl, inr, unwrap_or, []}
use mkb.Index.{BlockRecord}
use mkb.Service.{title_of, conflict, update_block, apply_update, conflict_at}
use mkb.Base.{
  Bool-cases, ◌≡◌, Bool, true, false, ℕ, Option, none, some, Result, ok, err, refl, if◌then◌else◌,
}
use mkb.Text.Chars.{Str}
use mkb.Id.{BlockId}
use mkb.Block.{Block}
use mkb.Vault
use mkb.Platform.{Platform}
use mkb.Sync.Host.{Host, IndexError, locked_block, denied}
use mkb.Sync.Exec.{pure, fail, gets, lift, ◌>>=◌}
use mkb.Sync.Engine.{Engine, Action, require}
use mkb.Access.{RequestContext, Denial, authorize, write}
use mkb.Edit.{EditError, Destructive, destructive_update_reason, exact_replace}
use mkb.Service.{UpdateOutcome, authorized, ensure_writable, is_stale, version_of, guard_edit}
use mkb.Service.Checks.{conflict_at-Frame}
use mkb.Service

-- Does the answer report that the edit was made?
unfoldable pub reports : {A : Type 0} → (A → Bool) → Result IndexError A → Bool
reports done (ok a) = done a
reports done (err x) = false

-- A call that changed nothing and did not report a change.
pub record Untouched {S A : Type 0} (done : A → Bool) (e : S) (answer : Result IndexError A × S)
    : Type 0 where
  pub same : answer.1 ≡ e
  pub not_done : reports done answer.0 ≡ false

unfoldable pub is_applied : UpdateOutcome → Bool
is_applied (UpdateOutcome.applied v) = true
is_applied (UpdateOutcome.conflict t b v) = false

module _ (pf : Platform) (h : Host) where
  module _ {A : Type 0} (done : A → Bool) (e : Engine h) where
    after_writable :
        (o : Option Block) (i : BlockId) (k : Unit → Action pf h A)
        → Untouched done e (k tt e)
        → Untouched done e (
            ((elim o [
              | none ↦ pure tt
              | some b ↦ if b.locked then fail (locked_block i) else pure tt
            ])
                >>= k)
              e)
    unfolding ◌>>=◌ fail pure reports
    after_writable none i k u = u
    after_writable (some b) i k u = elim (Bool-cases b.locked) [
      | inl l ↦ rw (l) (record { same = refl; not_done = refl })
      | inr l ↦ rw (l) u
    ]

    after_authorized :
        (r : Result Denial Unit) (m : Action pf h A)
        → Untouched done e (m e)
        → Untouched done e (((elim r [ ok u ↦ pure tt | err d ↦ fail (denied d) ]) >>= λ _. m) e)
    unfolding ◌>>=◌ fail pure reports
    after_authorized (ok t) m u = u
    after_authorized (err d) m u = record { same = refl; not_done = refl }

    -- If what follows the checks leaves things alone, the whole call does.
    after_checks :
        (ctx : RequestContext) (i : BlockId) (k : Unit → Action pf h A)
        → Untouched done e (k tt e)
        → Untouched done e ((authorized pf h ctx write >>= λ _. ensure_writable pf h i >>= k) e)
    unfolding ensure_writable gets ◌>>=◌
    after_checks ctx i k u =
        after_authorized (authorize ctx write) _ (after_writable (Vault.block e.vault i) i k u)

  answered :
      (r : Result IndexError (Option BlockRecord)) (i : BlockId) (e : Engine h)
      → reports is_applied
          ((lift r >>= λ rec. gets (λ s. title_of (Vault.block s.vault i)) >>= λ title.
              gets (version_of pf h i) >>= λ current. (elim rec [
                | some x ↦ pure (conflict title x.content (unwrap_or current []))
                | none ↦ pure (conflict none [] [])
              ]))
            e).0
        ≡ false
  unfolding reports is_applied lift gets pure ◌>>=◌
  answered (err x) i e = refl
  answered (ok none) i e = refl
  answered (ok (some r)) i e = refl

  conflict_at-Untouched :
      (i : BlockId) (e : Engine h) → Untouched is_applied e (conflict_at pf h i e)
  unfolding conflict_at ◌>>=◌ gets lift pure reports
  conflict_at-Untouched i e = record {
    same = (conflict_at-Frame pf h (λ s. s) i).at e;
    not_done = answered (h.record_of i e.index) i e;
  }

  apply_update-destructive :
      (now : Str) (i : BlockId) (title : Option Str) (body : Str) (e : Engine h) (b : Block)
      (reason : Destructive)
      → Vault.block e.vault i ≡ some b
      → destructive_update_reason b.body body ≡ some reason
      → Untouched is_applied e (apply_update pf h now i title body false e)
  unfolding apply_update guard_edit gets fail reports ◌>>=◌
  apply_update-destructive now i title body e b reason known lost =
      rw (known, lost) (record { same = refl; not_done = refl })

  -- An update whose base version is not the current version of the block changes nothing, and is
  -- not reported as applied.
  pub update_block-stale :
      (now : Str) (ctx : RequestContext) (i : BlockId) (title : Option Str) (body : Str)
      (force : Bool) (base : Option Str) (e : Engine h)
      → is_stale base (version_of pf h i e) ≡ true
      → Untouched is_applied e (Service.update_block pf h now ctx i title body force base e)
  unfolding Service.update_block gets ◌>>=◌
  update_block-stale now ctx i title body force base e stale =
      after_checks is_applied e ctx i _ (rw (stale) (conflict_at-Untouched i e))

  -- An update without `force` that would destroy the content of the block (empty it, or strip a
  -- long one of more than three quarters) changes nothing, and is not reported as applied.
  pub update_block-destructive :
      (now : Str) (ctx : RequestContext) (i : BlockId) (title : Option Str) (body : Str)
      (base : Option Str) (e : Engine h) (b : Block) (reason : Destructive)
      → Vault.block e.vault i ≡ some b
      → destructive_update_reason b.body body ≡ some reason
      → Untouched is_applied e (Service.update_block pf h now ctx i title body false base e)
  unfolding Service.update_block gets ◌>>=◌
  update_block-destructive now ctx i title body base e b reason known lost =
      after_checks is_applied e ctx i _ (elim (Bool-cases (is_stale base (version_of pf h i e))) [
        | inl stale ↦ rw (stale) (conflict_at-Untouched i e)
        | inr fresh ↦ rw (fresh) (apply_update-destructive now i title body e b reason known lost)
      ])

  -- A replacement whose text does not occur exactly the expected number of times changes nothing,
  -- and is not reported as done.
  pub replace_in_block-refused :
      (now : Str) (ctx : RequestContext) (i : BlockId) (old new : Str) (count : ℕ) (force : Bool)
      (e : Engine h) (b : Block) (x : EditError)
      → Vault.block e.vault i ≡ some b
      → exact_replace b.body old new count ≡ err x
      → Untouched (λ t. true) e (Service.replace_in_block pf h now ctx i old new count force e)
  unfolding Service.replace_in_block require gets lift fail pure reports ◌>>=◌
  replace_in_block-refused now ctx i old new count force e b x known wrong =
      after_checks (λ t. true) e ctx i _
        (rw (known, wrong) (record { same = refl; not_done = refl }))
