-- ===== src/Sync/Exec/Frame.antt =====
-- What an action leaves alone, whether it succeeds or fails: a part of the state.
use mkb.Base.{Bool, true, false, ◌≡◌, refl, ◌∙◌, Result, ok, err, if◌then◌else◌}
use mkb.Sync.Host.{IndexError}
use mkb.Sync.Exec.{Exec, pure, fail, lift, gets, continue, ◌>>=◌}

-- The action `m` leaves the part that `part` reads as it was.
pub record Frame {ℓ} {S : Type ℓ} {V A : Type 0} (part : S → V) (m : Exec S A) : Type ℓ where
  pub at : (s : S) → part (m s).1 ≡ part s

module _ {ℓ} {S : Type ℓ} {V A : Type 0} {part : S → V} where
  pub Frame-pure : (a : A) → Frame part (pure {S = S} a)
  unfolding pure
  Frame-pure a = record { at = λ s. refl }

  pub Frame-fail : (x : IndexError) → Frame part (fail {S = S} {A = A} x)
  unfolding fail
  Frame-fail x = record { at = λ s. refl }

  pub Frame-lift : (r : Result IndexError A) → Frame part (lift {S = S} r)
  unfolding lift
  Frame-lift r = record { at = λ s. refl }

  pub Frame-gets : (f : S → A) → Frame part (gets f)
  unfolding gets
  Frame-gets f = record { at = λ s. refl }

  pub Frame-if :
      (b : Bool) (m n : Exec S A) → Frame part m → Frame part n → Frame part (if b then m else n)
  Frame-if true m n hm hn = hm
  Frame-if false m n hm hn = hn

module _ {ℓ} {S : Type ℓ} {V A B : Type 0} {part : S → V} where
  continue-Frame :
      (r : Result IndexError A) (f : A → Exec S B)
      → ((a : A) → Frame part (f a))
      → Frame part (continue r f)
  continue-Frame (ok a) f h = record { at = (h a).at }
  continue-Frame (err x) f h = record { at = λ s. refl }

  pub Frame-bind :
      (m : Exec S A) (f : A → Exec S B)
      → Frame part m
      → ((a : A) → Frame part (f a))
      → Frame part (m >>= f)
  unfolding ◌>>=◌
  Frame-bind m f hm hf = record {
    at = λ s. let (r, s') = m s in (continue-Frame r f hf).at s' ∙ hm.at s;
  }

pub ruleset frame_rules = (Frame-pure, Frame-fail, Frame-lift, Frame-gets, Frame-if, Frame-bind)
