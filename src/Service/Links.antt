-- ===== src/Service/Links.antt =====
-- Embeds that the service places close no cycle.
use mkb.Base.{subst, sym}
use mkb.Service.Place.{LinkPlacement}
use mkb.Service.Place.{place_link}
use mkb.Base.{◌||◌, not}
use mkb.Base.{◌≡◌, Bool, true, false, Option, none, some, Result, ok, err, refl, arith}
use mkb.Text.Chars.{Str}
use mkb.Id.{BlockId, id_eq}
use mkb.Block.{Block}
use mkb.Vault.{children}
use mkb.Vault.Reach.{Steps}
use mkb.Vault.Reached.{transclusion_reaches_iff}
use mkb.Platform.{Platform}
use mkb.Index.{LinkOutcome, reference, transclusion, downgraded_to_reference}
use mkb.Sync.Host.{Host, IndexError}
use mkb.Sync.Exec.{Exec, pure, gets, continue, ◌>>=◌}
use mkb.Sync.Exec.Frame.{Frame, Frame-pure, Frame-fail, Frame-gets, Frame-bind}
use mkb.Sync.Engine.{Engine, require, found_or}
use mkb.Access.{RequestContext, write}
use mkb.Service.Checks.{authorized-Frame, ensure_writable-Frame}
use mkb.Service.Refusals.{reports}

unfoldable pub is_transclusion : LinkOutcome → Bool
is_transclusion reference = false
is_transclusion transclusion = true
is_transclusion downgraded_to_reference = false

reached : {b : Bool} (same : Bool) → b ≡ true → not (same || b) ≡ false
reached same h = ground arith

-- One call leaves the state that another one leaves, and does not report what `done` asks for.
pub record Instead {S B : Type 0} (done : B → Bool) (x y : Result IndexError B × S) : Type 0 where
  pub same : x.1 ≡ y.1
  pub not_done : reports done x.0 ≡ false

module _ {S A B : Type 0} (done : B → Bool) where
  continue-Instead :
      (r : Result IndexError A) (f g : A → Exec S B) (s t : S)
      → t ≡ s
      → ((a : A) → Instead done (f a s) (g a s))
      → Instead done (continue r f t) (continue r g t)
  unfolding reports
  continue-Instead (ok a) f g s t e h = subst (λ u. Instead done (f a u) (g a u)) (sym e) (h a)
  continue-Instead (err x) f g s t e h = record { same = refl; not_done = refl }

  -- A step that leaves the state alone, and then the one call or the other.
  bind-Instead :
      (m : Exec S A) (f g : A → Exec S B) (s : S)
      → Frame (λ t. t) m
      → ((a : A) → Instead done (f a s) (g a s))
      → Instead done ((m >>= f) s) ((m >>= g) s)
  unfolding ◌>>=◌
  bind-Instead m f g s k h = continue-Instead (m s).0 f g s (m s).1 (k.at s) h

  pure-Instead :
      (r : Result IndexError A) (b c : B) (s : S)
      → done b ≡ false
      → Instead done (continue r (λ _. pure b) s) (continue r (λ _. pure c) s)
  unfolding reports pure
  pure-Instead (ok a) b c s h = record { same = refl; not_done = h }
  pure-Instead (err x) b c s h = record { same = refl; not_done = refl }

module _ (pf : Platform) (h : Host) where
  found_or-Frame :
      (x : IndexError) (o : Option Block) → Frame (λ (e : Engine h). e) (found_or pf h x o)
  found_or-Frame x none = Frame-fail x
  found_or-Frame x (some b) = Frame-pure b

  require-Frame : (x : IndexError) (i : BlockId) → Frame (λ (e : Engine h). e) (require pf h x i)
  unfolding require
  require-Frame x i = Frame-bind _ _ (Frame-gets _) (found_or-Frame x)

  -- An embed that would close a cycle is not made: if the embeds already lead from the target back
  -- to the source, the call leaves the state that linking by a reference leaves, and does not
  -- report an embed.
  pub place_link-acyclic :
      (now : Str) (ctx : RequestContext) (source target : BlockId) (placement : LinkPlacement)
      (e : Engine h)
      → Steps (children pf e.vault) target source
      → Instead is_transclusion
          (place_link pf h now ctx source target true placement e)
          (place_link pf h now ctx source target false placement e)
  unfolding place_link is_transclusion gets ◌>>=◌
  place_link-acyclic now ctx source target placement e p =
      bind-Instead is_transclusion _ _ _ e (authorized-Frame pf h (λ t. t) ctx write) λ _.
        bind-Instead is_transclusion _ _ _ e (ensure_writable-Frame pf h (λ t. t) source) λ _.
          bind-Instead is_transclusion _ _ _ e (require-Frame _ source) λ s.
            bind-Instead is_transclusion _ _ _ e (require-Frame _ target) λ t.
              rw
                (reached (id_eq source target)
                  ((transclusion_reaches_iff pf e.vault target source).1 p))
                (pure-Instead is_transclusion _ _ _ _ refl)
