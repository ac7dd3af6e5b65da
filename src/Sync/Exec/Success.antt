-- ===== src/Sync/Exec/Success.antt =====
-- A chain of steps that succeeds, taken apart.
use mkb.Base.{true, ◌≡◌, refl, Result, ok, err, is_ok, arith}
use mkb.Sync.Host.{IndexError}
use mkb.Sync.Exec.{Exec, continue, ◌>>=◌}

module _ {ℓ} {S : Type ℓ} {A B : Type 0} where
  -- The first step succeeded with a value, and the rest succeeded from there.
  pub record Chain (m : Exec S A) (f : A → Exec S B) (s : S) : Type ℓ where
    pub value : A
    pub first : (m s).0 ≡ ok value
    pub rest : is_ok (f value (m s).1).0 ≡ true
    pub whole : (m >>= f) s ≡ f value (m s).1

  taken_apart :
      (m : Exec S A) (f : A → Exec S B) (s : S) (r : Result IndexError A)
      → (m s).0 ≡ r
      → (m >>= f) s ≡ continue r f (m s).1
      → is_ok (continue r f (m s).1).0 ≡ true
      → Chain m f s
  taken_apart m f s (ok a) e w o = record { value = a; first = e; rest = o; whole = w }
  taken_apart m f s (err x) e w o = ground arith

  pub chain : (m : Exec S A) (f : A → Exec S B) (s : S) → is_ok ((m >>= f) s).0 ≡ true → Chain m f s
  unfolding ◌>>=◌
  chain m f s o = taken_apart m f s (m s).0 refl refl o
