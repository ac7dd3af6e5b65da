-- ===== src/Sync/Exec.antt =====
-- Methods that change an object and may fail: what was changed before an error stays changed.
pub mod Frame
pub mod Ensures
pub mod Success
use mkb.Base.{Result, ok, err}
use mkb.Sync.Host.{IndexError}

abbrev pub Exec {ℓ} : Type ℓ → Type 0 → Type ℓ
Exec S A = S → Result IndexError A × S

module _ {ℓ} {S : Type ℓ} {A : Type 0} where
  unfoldable pub pure : A → Exec S A
  pure a s = (ok a, s)

  unfoldable pub fail : IndexError → Exec S A
  fail x s = (err x, s)

  unfoldable pub lift : Result IndexError A → Exec S A
  lift r s = (r, s)

  unfoldable pub gets : (S → A) → Exec S A
  gets f s = (ok (f s), s)

module _ {ℓ} {S : Type ℓ} where
  unfoldable pub modify : (S → S) → Exec S Unit
  modify f s = (ok tt, f s)

module _ {ℓ} {S : Type ℓ} {A B : Type 0} where
  abbrev pub continue : Result IndexError A → (A → Exec S B) → Exec S B
  continue (ok a) f s = f a s
  continue (err x) f s = (err x, s)

  infixl 5 ◌>>=◌ ◌>>◌
  unfoldable pub ◌>>=◌ : Exec S A → (A → Exec S B) → Exec S B
  ◌>>=◌ m f s = let (r, s') = m s in continue r f s'

  abbrev pub ◌>>◌ : Exec S A → Exec S B → Exec S B
  m >> k = m >>= λ _. k
