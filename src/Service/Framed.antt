-- ===== src/Service/Framed.antt =====
-- What the service does behind its checks on one block leaves every other block as it was.
use mkb.Service.Place.{place, LinkPlacement, append, anchor, offset}
use mkb.Sync.Exec.{continue}
use mkb.Sync.Host.{IndexError}
use mkb.Base.{◌∙◌, ap}
use mkb.Base.{inl, inr}
use mkb.Base.{Bool-cases, ok, err, Result}
use mkb.Base.{◌≡◌, Bool, true, false, Option, none, some, refl, sym, subst, if◌then◌else◌, arith}
use mkb.Text.Chars.{Str}
use mkb.Text.Strings.{str_eq, str_eq_sound}
use mkb.Id.{BlockId}
use mkb.Block.{Block}
use mkb.Vault
use mkb.Platform.{Platform}
use mkb.Sync.Host.{Host, locked_block}
use mkb.Sync.Exec.{pure, fail, gets, ◌>>=◌}
use mkb.Sync.Exec.Frame.{Frame, Frame-pure, Frame-gets, Frame-bind}
use mkb.Sync.Engine.{Engine, Action}
use mkb.Sync.Engine.Framed.{view}
use mkb.Sync.Engine.Isolated.{
  update_block-Frame, append_to_body-Frame, insert_directive_by_anchor-Frame,
  insert_directive_at_offset-Frame,
}
use mkb.Access.{RequestContext, write}
use mkb.Service.Checks.{authorized-Frame, ensure_writable-Frame, guarded-Frame}
use mkb.Service.{authorized, ensure_writable, apply_update}

-- The block exists and its `locked` flag is set.
unfoldable pub is_locked : Option Block → Bool
is_locked none = false
is_locked (some b) = b.locked

module _ (pf : Platform) (h : Host) (id : BlockId) where
  module _ (i : BlockId) (other : str_eq i.as_str id.as_str ≡ false) where
    pub apply_update-Frame :
        (now : Str) (title : Option Str) (body : Str) (force : Bool)
        → Frame (view pf h id) (apply_update pf h now i title body force)
    unfolding apply_update
    apply_update-Frame now title body force = Frame-bind _ _ (Frame-gets _) λ o.
        Frame-bind _ _ (guarded-Frame pf h (view pf h id) i force body o) λ _.
          Frame-bind _ _ (update_block-Frame pf h id i other now title body)
            λ _. Frame-bind _ _ (Frame-gets _) λ version. Frame-pure _

    pub place-Frame :
        (now directive : Str) (p : LinkPlacement)
        → Frame (view pf h id) (place pf h now i directive p)
    unfolding place
    place-Frame now directive append = append_to_body-Frame pf h id i other now directive
    place-Frame now directive (anchor a after) =
        insert_directive_by_anchor-Frame pf h id i other now directive a after
    place-Frame now directive (offset n) =
        insert_directive_at_offset-Frame pf h id i other now directive n

  refused :
      {A : Type 0} (o : Option Block) (i : BlockId) (k : Unit → Action pf h A) (e : Engine h)
      → is_locked o ≡ true
      → view pf h id
          (((elim o [
            | none ↦ pure tt
            | some b ↦ if b.locked then fail (locked_block i) else pure tt
          ])
              >>= k)
            e).1
        ≡ view pf h id e
  unfolding is_locked ◌>>=◌ fail
  refused none i k e l = ground arith
  refused (some b) i k e l = rw (l) refl

  -- On the block itself, if it is locked, the checks refuse.
  refused-ensure_writable :
      {A : Type 0} (i : BlockId) (k : Unit → Action pf h A) (e : Engine h)
      → is_locked (Vault.block e.vault i) ≡ true
      → view pf h id ((ensure_writable pf h i >>= k) e).1 ≡ view pf h id e
  unfolding ensure_writable gets ◌>>=◌
  refused-ensure_writable i k e l = refused (Vault.block e.vault i) i k e l

  -- The check of one block and what follows it leave a locked block as it was, if what follows it
  -- does so for every other block.
  pub ensured :
      {A : Type 0} (i : BlockId) (k : Unit → Action pf h A)
      → (str_eq i.as_str id.as_str ≡ false
          → (e : Engine h) → is_locked (Vault.block e.vault id) ≡ true
          → view pf h id ((ensure_writable pf h i >>= k) e).1 ≡ view pf h id e)
      → (e : Engine h) → is_locked (Vault.block e.vault id) ≡ true
      → view pf h id ((ensure_writable pf h i >>= k) e).1 ≡ view pf h id e
  ensured i k f e l = elim (Bool-cases (str_eq i.as_str id.as_str)) [
    | inl same ↦ refused-ensure_writable i k e (
        subst (λ (s : Str). is_locked (Vault.block e.vault (record { as_str = s })) ≡ true)
          (sym (str_eq_sound i.as_str id.as_str same)) l)
    | inr other ↦ f other e l
  ]

  continue-kept :
      {A B : Type 0} (r : Result IndexError A) (f : A → Action pf h B) (s e : Engine h)
      → view pf h id s ≡ view pf h id e
      → ((a : A) (t : Engine h)
          → is_locked (Vault.block t.vault id) ≡ true
          → view pf h id (f a t).1 ≡ view pf h id t)
      → is_locked (Vault.block e.vault id) ≡ true
      → view pf h id (continue r f s).1 ≡ view pf h id e
  continue-kept (ok a) f s e same k l =
      k a s (subst (λ o. is_locked o ≡ true) (sym (ap (λ w. w.0) same)) l) ∙ same
  continue-kept (err x) f s e same k l = same

  -- A step that leaves the block alone, and then one that does so while the block is locked.
  pub bind-kept :
      {A B : Type 0} (m : Action pf h A) (f : A → Action pf h B)
      → Frame (view pf h id) m
      → ((a : A) (t : Engine h)
          → is_locked (Vault.block t.vault id) ≡ true
          → view pf h id (f a t).1 ≡ view pf h id t)
      → (e : Engine h) → is_locked (Vault.block e.vault id) ≡ true
      → view pf h id ((m >>= f) e).1 ≡ view pf h id e
  unfolding ◌>>=◌
  bind-kept m f k g e l = continue-kept (m e).0 f (m e).1 e (k.at e) g l

  -- The checks and what follows them leave a locked block as it was, if what follows them does so
  -- for every other block.
  pub checked :
      {A : Type 0} (ctx : RequestContext) (i : BlockId) (k : Unit → Action pf h A)
      → (str_eq i.as_str id.as_str ≡ false → (u : Unit) → Frame (view pf h id) (k u))
      → (e : Engine h) → is_locked (Vault.block e.vault id) ≡ true
      → view pf h id ((authorized pf h ctx write >>= λ _. ensure_writable pf h i >>= k) e).1
        ≡ view pf h id e
  checked ctx i k f = bind-kept _ _ (authorized-Frame pf h (view pf h id) ctx write) λ _.
      ensured i k λ other.
        bind-kept _ k (ensure_writable-Frame pf h (view pf h id) i) λ u t l. (f other u).at t
