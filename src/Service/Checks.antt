-- ===== src/Service/Checks.antt =====
-- The checks of the service only read the state, whatever part of it is looked at.
use mkb.Index.{BlockRecord}
use mkb.Base.{[], unwrap_or, ok, err, Result}
use mkb.Access.{Denial}
use mkb.Sync.Host.{denied, destructive}
use mkb.Base.{Bool, Option, none, some, if◌then◌else◌}
use mkb.Text.Chars.{Str}
use mkb.Id.{BlockId}
use mkb.Block.{Block}
use mkb.Platform.{Platform}
use mkb.Sync.Host.{Host, locked_block}
use mkb.Sync.Exec.{pure, fail}
use mkb.Sync.Exec.Frame.{
  Frame, Frame-pure, Frame-fail, Frame-lift, Frame-gets, Frame-if, Frame-bind,
}
use mkb.Sync.Engine.{Engine}
use mkb.Access.{RequestContext, Capability, authorize}
use mkb.Edit.{destructive_update_reason, Destructive}
use mkb.Service.{conflict, authorized, ensure_writable, guard_edit, conflict_at}

module _ (pf : Platform) (h : Host) {V : Type 0} (part : Engine h → V) where
  admitted-Frame :
      (r : Result Denial Unit) → Frame part (elim r [ ok u ↦ pure tt | err d ↦ fail (denied d) ])
  admitted-Frame (ok u) = Frame-pure tt
  admitted-Frame (err d) = Frame-fail _

  pub authorized-Frame :
      (ctx : RequestContext) (cap : Capability) → Frame part (authorized pf h ctx cap)
  authorized-Frame ctx cap = admitted-Frame (authorize ctx cap)

  writable-Frame :
      (i : BlockId) (o : Option Block)
      → Frame
          (part)
          (elim o [ none ↦ pure tt | some b ↦ if b.locked then fail (locked_block i) else pure tt ])
  writable-Frame i none = Frame-pure tt
  writable-Frame i (some b) = Frame-if b.locked _ _ (Frame-fail _) (Frame-pure tt)

  pub ensure_writable-Frame : (i : BlockId) → Frame part (ensure_writable pf h i)
  unfolding ensure_writable
  ensure_writable-Frame i = Frame-bind _ _ (Frame-gets _) (writable-Frame i)

  kept-Frame :
      (i : BlockId) (o : Option Destructive)
      → Frame part (elim o [ none ↦ pure tt | some r ↦ fail (destructive i r) ])
  kept-Frame i none = Frame-pure tt
  kept-Frame i (some r) = Frame-fail _

  pub guard_edit-Frame :
      (i : BlockId) (force : Bool) (old new : Str) → Frame part (guard_edit pf h i force old new)
  unfolding guard_edit
  guard_edit-Frame i force old new =
      Frame-if force _ _ (Frame-pure tt) (kept-Frame i (destructive_update_reason old new))

  answer-Frame :
      (rec : Option BlockRecord) (title current : Option Str)
      → Frame part (elim rec [
        | some r ↦ pure (conflict title r.content (unwrap_or current []))
        | none ↦ pure (conflict none [] [])
      ])
  answer-Frame none title current = Frame-pure _
  answer-Frame (some r) title current = Frame-pure _

  pub conflict_at-Frame : (i : BlockId) → Frame part (conflict_at pf h i)
  unfolding conflict_at
  conflict_at-Frame i = Frame-bind _ _ (Frame-gets _) λ r. Frame-bind _ _ (Frame-lift r) λ rec.
      Frame-bind _ _ (Frame-gets _)
        λ title. Frame-bind _ _ (Frame-gets _) λ current. answer-Frame rec title current

  pub guarded-Frame :
      (i : BlockId) (force : Bool) (body : Str) (o : Option Block)
      → Frame (part) (elim o [ none ↦ pure tt | some b ↦ guard_edit pf h i force b.body body ])
  guarded-Frame i force body none = Frame-pure tt
  guarded-Frame i force body (some b) = guard_edit-Frame i force b.body body
