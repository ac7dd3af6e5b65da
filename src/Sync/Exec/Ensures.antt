-- ===== src/Sync/Exec/Ensures.antt =====
-- What an action brings about when it succeeds: the value of a part of the state.
use mkb.Base.{true, ◌≡◌, refl, ◌∙◌, Result, ok, err, is_ok, arith}
use mkb.Sync.Host.{IndexError}
use mkb.Sync.Exec.{Exec, continue, ◌>>=◌}
use mkb.Sync.Exec.Frame.{Frame}

-- If the action `m` succeeds, the part that `part` reads is `v`.
pub record Ensures {ℓ} {S : Type ℓ} {V A : Type 0} (part : S → V) (v : V) (m : Exec S A)
    : Type ℓ where
  pub at : (s : S) → is_ok (m s).0 ≡ true → part (m s).1 ≡ v

module _ {ℓ} {S : Type ℓ} {V A B : Type 0} {part : S → V} {v : V} where
  continue-last :
      (r : Result IndexError A) (f : A → Exec S B) (s : S)
      → ((a : A) → Ensures part v (f a))
      → is_ok (continue r f s).0 ≡ true
      → part (continue r f s).1 ≡ v
  continue-last (ok a) f s h o = (h a).at s o
  continue-last (err x) f s h o = ground arith

  continue-first :
      (r : Result IndexError A) (f : A → Exec S B) (s : S)
      → (is_ok r ≡ true → part s ≡ v)
      → ((a : A) → Frame part (f a))
      → is_ok (continue r f s).0 ≡ true
      → part (continue r f s).1 ≡ v
  continue-first (ok a) f s e h o = (h a).at s ∙ e refl
  continue-first (err x) f s e h o = ground arith

  -- The last step brings it about,
  pub Ensures-last :
      (m : Exec S A) (f : A → Exec S B)
      → ((a : A) → Ensures part v (f a))
      → Ensures part v (m >>= f)
  unfolding ◌>>=◌
  Ensures-last m f h = record { at = λ s o. continue-last (m s).0 f (m s).1 h o }

  -- or the first one does, and the last one leaves it.
  pub Ensures-first :
      (m : Exec S A) (f : A → Exec S B)
      → Ensures part v m
      → ((a : A) → Frame part (f a))
      → Ensures part v (m >>= f)
  unfolding ◌>>=◌
  Ensures-first m f e h = record { at = λ s o. continue-first (m s).0 f (m s).1 (e.at s) h o }
