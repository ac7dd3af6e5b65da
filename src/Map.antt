-- ===== src/Map.antt =====
-- `HashMap` with texts as keys, as an association list. The program never depends on the order of
-- a map: it sorts what it iterates over.
use mkb.Base.{subst, true, ◌≡◌, List, [], ◌∷◌, Option, none, some, arith, if◌then◌else◌}
use mkb.Text.Chars.{Str}
use mkb.Text.Strings.{str_eq, str_eq_sound, str_eq_refl}

abbrev pub Map : Type 0 → Type 0
Map V = List (Str × V)

module _ {V : Type 0} where
  unfoldable pub get : Str → Map V → Option V
  get k [] = none
  get k ((j, v) ∷ m) = if str_eq j k then some v else get k m

  unfoldable pub remove : Str → Map V → Map V
  remove k [] = []
  remove k ((j, v) ∷ m) = let rest = remove k m in if str_eq j k then rest else (j, v) ∷ rest

  unfoldable pub insert : Str → V → Map V → Map V
  unfolding remove
  insert k v m = (k, v) ∷ remove k m

  unfoldable pub keys : Map V → List Str
  keys [] = []
  keys ((j, v) ∷ m) = j ∷ keys m

pub str_eq_iff : (s t : Str) → (str_eq s t ≡ true → s ≡ t) × (s ≡ t → str_eq s t ≡ true)
str_eq_iff s t = (str_eq_sound s t, λ e. subst (λ u. str_eq s u ≡ true) e (str_eq_refl s))

module _ {V : Type 0} where
  pub get-remove :
      (k j : Str) (m : Map V) → get j (remove k m) ≡ (if str_eq k j then none else get j m)
  unfolding get remove
  get-remove k j [] = ground arith
  get-remove k j ((i, v) ∷ m) =
      ground (arith, get-remove k j m, str_eq_iff i k, str_eq_iff i j, str_eq_iff k j)

  pub get-insert :
      (k j : Str) (v : V) (m : Map V)
      → get j (insert k v m) ≡ (if str_eq k j then some v else get j m)
  unfolding get insert
  get-insert k j v m = ground (arith, get-remove k j m)
