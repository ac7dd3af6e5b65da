-- ===== src/Sync/Assets/Decimal.antt =====
-- Different numbers give different names.
use mkb.Base.{
  ℕ, zero, suc, ◌+◌, ◌-◌, ◌*◌, ◌/◌, ◌%◌, ◌≤◌, ltb, ◌≡◌, ap, sym, ◌∙◌, [], ◌∷◌, ◌++◌, Option, none,
  some, arith, Bool-cases, inl, inr, append_assoc, unwrap_or,
}
use mkb.Text.Chars.{Str, Lacks}
use mkb.Text.Strings.{strip_prefix, strip_prefix-append, split_once}
use mkb.Text.Strings.Laws.{split_once-append}
use mkb.Sync.Assets.{decimal_from, decimal, numbered}

-- The number that digits stand for, behind one that was read before.
value : ℕ → Str → ℕ
value n [] = n
value n (c ∷ s) = value (n * 10 + (c - 48)) s

value-decimal_from :
    (fuel n : ℕ) (rest : Str) → n ≤ fuel → value 0 (decimal_from fuel n rest) ≡ value n rest
unfolding value decimal_from
value-decimal_from zero n rest h = ap (λ k. value k rest) (omega (arith, h))
value-decimal_from (suc fuel) n rest h = elim (Bool-cases (ltb n 10)) [
  | inl e ↦ rw (e) (ap (λ k. value k rest) (omega arith))
  | inr e ↦ rw (e) (
      value-decimal_from fuel (n / 10) ((48 + n % 10) ∷ rest) (ground (arith, e, h))
      ∙ ap (λ k. value k rest) (omega arith))
]

value-decimal : (n : ℕ) → value 0 (decimal n) ≡ n
unfolding decimal value
value-decimal n = value-decimal_from n n [] (omega arith)

Lacks-decimal_from :
    (fuel n : ℕ) (rest : Str) → Lacks b'.' rest → Lacks b'.' (decimal_from fuel n rest)
unfolding decimal_from
Lacks-decimal_from zero n rest h = (omega arith, h)
Lacks-decimal_from (suc fuel) n rest h = elim (Bool-cases (ltb n 10)) [
  | inl e ↦ rw (e) (omega arith, h)
  | inr e ↦ rw (e) (Lacks-decimal_from fuel (n / 10) ((48 + n % 10) ∷ rest) (omega arith, h))
]

-- The number of a name that is tried.
number_of : Str → Option Str → Str → ℕ
number_of stem none name = value 0 (unwrap_or (strip_prefix (stem ++ b'-' ∷ []) name) [])
number_of stem (some ext) name =
    value 0
      (unwrap_or (split_once b'.' (unwrap_or (strip_prefix (stem ++ b'-' ∷ []) name) []))
        ([], [])).0

stripped : (stem s : Str) → strip_prefix (stem ++ b'-' ∷ []) (stem ++ b'-' ∷ s) ≡ some s
stripped stem s =
    ap (strip_prefix (stem ++ b'-' ∷ [])) (sym (append_assoc stem (b'-' ∷ []) s))
    ∙ strip_prefix-append (stem ++ b'-' ∷ []) s

number_of-numbered :
    (stem : Str) (ext : Option Str) (n : ℕ) → number_of stem ext (numbered stem ext n) ≡ n
unfolding number_of numbered
number_of-numbered stem none n =
    ap (λ o. value 0 (unwrap_or o [])) (stripped stem (decimal n)) ∙ value-decimal n
number_of-numbered stem (some ext) n =
    ap (λ o. value 0 (unwrap_or (split_once b'.' (unwrap_or o [])) ([], [])).0)
      (stripped stem (decimal n ++ b'.' ∷ ext))
    ∙ ap (λ (o : Option (Str × Str)). value 0 (unwrap_or o ([], [])).0)
        (split_once-append b'.' (decimal n) ext (unfold decimal in Lacks-decimal_from n n [] tt))
    ∙ value-decimal n

pub numbered-injective :
    (stem : Str) (ext : Option Str) (m n : ℕ) → numbered stem ext m ≡ numbered stem ext n → m ≡ n
numbered-injective stem ext m n e =
    sym (number_of-numbered stem ext m) ∙ ap (number_of stem ext) e ∙ number_of-numbered stem ext n
