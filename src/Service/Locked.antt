-- ===== src/Service/Locked.antt =====
-- The writes as requests, and what they do to a locked block.
use mkb.Service.Place.{LinkPlacement}
use mkb.Service.Place
use mkb.Service.Unlink
use mkb.Service.Flatten
use mkb.Service.Kept.{unlink_blocks-keeps, flatten_block-keeps}
use mkb.Base.{all, refl, subst, sym, ◌∙◌}
use mkb.Service.Kept.{
  update_block-keeps, replace_in_block-keeps, append_to_block-keeps, carve_block-keeps,
  carve_selection-keeps, place_link-keeps, set_lock-keeps, create_block-keeps,
}
use mkb.Sync.Engine.Isolated.{
  set_tags-Frame, set_props-Frame, unset_props-Frame, delete_block-Frame,
}
use mkb.Base.{arith, ap, ◌&&◌, [], ◌∷◌}
use mkb.Vault
use mkb.Base.{not}
use mkb.Access.{can, manage_locks}
use mkb.Sync.Engine.{Engine}
use mkb.Sync.Engine.Framed.{view}
use mkb.Service.Framed.{is_locked, checked}
use mkb.Base.{◌≡◌, Bool, true, false, ℕ, List, Option, none, some}
use mkb.Text.Chars.{Str}
use mkb.Text.Strings.{str_eq}
use mkb.Id.{BlockId}
use mkb.Blockfile.Write.{Prop}
use mkb.Platform.{Platform}
use mkb.Sync.Host.{Host}
use mkb.Access.{RequestContext}
use mkb.Service

-- A call of the service. Where it makes a block, the id that `BlockId::generate` gives comes first.
pub data Request : Type 0 where
  set_lock : BlockId → Bool → Request
  create_block : BlockId → Option Str → Str → Request
  update_block : BlockId → Option Str → Str → Bool → Option Str → Request
  replace_in_block : BlockId → Str → Str → ℕ → Bool → Request
  append_to_block : BlockId → Str → Request
  set_tags : BlockId → List Str → Request
  set_props : BlockId → List Prop → Request
  unset_props : BlockId → List Str → Request
  delete_block : BlockId → Request
  carve_block : BlockId → BlockId → Option Str → Str → Request
  carve_selection : BlockId → BlockId → ℕ → ℕ → Request
  place_link : BlockId → BlockId → Bool → LinkPlacement → Request
  unlink_blocks flatten_block : BlockId → BlockId → Request

-- The block that a request makes, if it makes one.
unfoldable pub made : Request → Option BlockId
made (create_block new title body) = some new
made (carve_block new parent title body) = some new
made (carve_selection new parent start end) = some new
made _ = none

-- Is the id that the request mints, if it mints one, other than `id`?
unfoldable pub mints_other : BlockId → Request → Bool
unfolding made
mints_other id r = elim (made r) [ none ↦ true | some new ↦ not (str_eq new.as_str id.as_str) ]

-- A call: its time, its caller, and what it asks for.
pub record Call : Type 0 where
  pub now : Str
  pub ctx : RequestContext
  pub request : Request

-- A call of a caller that may not manage locks, which mints no id that is `id`.
unfoldable pub is_outside : BlockId → Call → Bool
is_outside id c = not (can c.ctx.scope manage_locks) && mints_other id c.request

module _ (pf : Platform) (h : Host) where
  -- The state that a call leaves, at the time `now`, whether it succeeds or fails.
  unfoldable pub run : Str → RequestContext → Request → Engine h → Engine h
  run now ctx (set_lock i locked) e = (Service.set_lock pf h now ctx i locked e).1
  run now ctx (create_block new title body) e =
      (Service.create_block pf h new now ctx title body e).1
  run now ctx (update_block i title body force base) e =
      (Service.update_block pf h now ctx i title body force base e).1
  run now ctx (replace_in_block i old new count force) e =
      (Service.replace_in_block pf h now ctx i old new count force e).1
  run now ctx (append_to_block i text) e = (Service.append_to_block pf h now ctx i text e).1
  run now ctx (set_tags i tags) e = (Service.set_tags pf h now ctx i tags e).1
  run now ctx (set_props i props) e = (Service.set_props pf h now ctx i props e).1
  run now ctx (unset_props i keys) e = (Service.unset_props pf h now ctx i keys e).1
  run now ctx (delete_block i) e = (Service.delete_block pf h ctx i e).1
  run now ctx (carve_block new parent title body) e =
      (Service.carve_block pf h new now ctx parent title body e).1
  run now ctx (carve_selection new parent start end) e =
      (Service.carve_selection pf h new now ctx parent start end e).1
  run now ctx (place_link source target embed placement) e =
      (Place.place_link pf h now ctx source target embed placement e).1
  run now ctx (unlink_blocks source target) e =
      (Unlink.unlink_blocks pf h now ctx source target e).1
  run now ctx (flatten_block parent child) e = (Flatten.flatten_block pf h now ctx parent child e).1

  -- A session: calls one after the other.
  unfoldable pub run_all : List Call → Engine h → Engine h
  unfolding run
  run_all [] e = e
  run_all (c ∷ cs) e = run_all cs (run c.now c.ctx c.request e)

  module _ (id : BlockId) where
    -- A call from outside leaves a locked block as it was: its content and its version, whatever
    -- the call asks for and whether it succeeds or fails.
    run-keeps_locked :
        (now : Str) (ctx : RequestContext) (r : Request) (e : Engine h)
        → can ctx.scope manage_locks ≡ false
        → mints_other id r ≡ true
        → is_locked (Vault.block e.vault id) ≡ true
        → view pf h id (run now ctx r e) ≡ view pf h id e
    unfolding run mints_other Service.set_lock Service.create_block Service.set_tags
        Service.set_props Service.unset_props Service.delete_block
    run-keeps_locked now ctx (set_lock i locked) e c m l =
        ap (view pf h id) (set_lock-keeps pf h id now ctx i locked e c)
    run-keeps_locked now ctx (create_block new title body) e c m l =
        create_block-keeps pf h id new now ctx title body e (ground arith)
    run-keeps_locked now ctx (update_block i title body force base) e c m l =
        update_block-keeps pf h id now ctx i title body force base e l
    run-keeps_locked now ctx (replace_in_block i old new count force) e c m l =
        replace_in_block-keeps pf h id now ctx i old new count force e l
    run-keeps_locked now ctx (append_to_block i text) e c m l =
        append_to_block-keeps pf h id now ctx i text e l
    run-keeps_locked now ctx (set_tags i tags) e c m l =
        checked pf h id ctx i _ (λ other _. set_tags-Frame pf h id i other now tags) e l
    run-keeps_locked now ctx (set_props i props) e c m l =
        checked pf h id ctx i _ (λ other _. set_props-Frame pf h id i other now props) e l
    run-keeps_locked now ctx (unset_props i keys) e c m l =
        checked pf h id ctx i _ (λ other _. unset_props-Frame pf h id i other now keys) e l
    run-keeps_locked now ctx (delete_block i) e c m l =
        checked pf h id ctx i _ (λ other _. delete_block-Frame pf h id i other) e l
    run-keeps_locked now ctx (carve_block new parent title body) e c m l =
        carve_block-keeps pf h id new now ctx parent title body e (ground arith) l
    run-keeps_locked now ctx (carve_selection new parent start end) e c m l =
        carve_selection-keeps pf h id new now ctx parent start end e (ground arith) l
    run-keeps_locked now ctx (place_link source target embed placement) e c m l =
        place_link-keeps pf h id now ctx source target embed placement e l
    run-keeps_locked now ctx (unlink_blocks source target) e c m l =
        unlink_blocks-keeps pf h id now ctx source target e l
    run-keeps_locked now ctx (flatten_block parent child) e c m l =
        flatten_block-keeps pf h id now ctx parent child e l

    -- In a session of calls by callers that may not manage locks, none of which makes a new block
    -- under the id of this one, a locked block stays as it was, its content and its version, whatever
    -- the calls ask for and whether they succeed or fail.
    pub run_all-keeps_locked :
        (calls : List Call) (e : Engine h)
        → all (is_outside id) calls ≡ true
        → is_locked (Vault.block e.vault id) ≡ true
        → view pf h id (run_all calls e) ≡ view pf h id e
    unfolding run_all is_outside
    run_all-keeps_locked [] e o l = refl
    run_all-keeps_locked (c ∷ cs) e o l =
        let kept = run-keeps_locked c.now c.ctx c.request e (ground arith) (ground arith) l in
        run_all-keeps_locked cs (run c.now c.ctx c.request e) (ground arith)
          (subst (λ o. is_locked o ≡ true) (sym (ap (λ w. w.0) kept)) l)
        ∙ kept
