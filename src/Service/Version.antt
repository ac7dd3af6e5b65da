-- ===== src/Service/Version.antt =====
-- Versions: the hexadecimal text of a hash stands for that hash alone.
use mkb.Base.{refl, ◌-◌}
use mkb.Base.{
  ◌∙◌, sym, ℕ, zero, suc, ◌≡◌, ◌<◌, ◌*◌, ◌+◌, ◌/◌, ◌%◌, arith, [], ◌∷◌, ◌++◌, ap, ltb,
  if◌then◌else◌,
}
use mkb.Text.Chars.{Str}
use mkb.Service.{hex, format_version, hex_digit}

-- The number that hexadecimal digits write.
digit_value : ℕ → ℕ
digit_value c = if ltb c 58 then c - 48 else c - 87

value : ℕ → Str → ℕ
value acc [] = acc
value acc (c ∷ s) = value (acc * 16 + digit_value c) s

value-append :
    (acc : ℕ) (s : Str) (c : ℕ) → value acc (s ++ c ∷ []) ≡ value acc s * 16 + digit_value c
unfolding value
value-append acc [] c = refl
value-append acc (d ∷ s) c = value-append (acc * 16 + digit_value d) s c

digit_value-hex_digit : (d : ℕ) → d < 16 → digit_value (hex_digit d) ≡ d
unfolding digit_value
digit_value-hex_digit d h = ground arith

power : ℕ → ℕ
power zero = 1
power (suc w) = 16 * power w

value-hex : (w n : ℕ) → n < power w → value 0 (hex w n) ≡ n
unfolding hex value power
value-hex zero n h = omega arith
value-hex (suc w) n h =
    value-append 0 (hex w (n / 16)) (hex_digit (n % 16))
    ∙ (rw (value-hex w (n / 16) (omega arith), digit_value-hex_digit (n % 16) (omega arith))
        (omega arith))

-- Two hashes of 64 bits with the same version are the same hash, so that a client's version is
-- stale exactly when the hash has changed.
pub format_version-injective :
    (a b : ℕ)
    → a < 18446744073709551616
    → b < 18446744073709551616
    → format_version a ≡ format_version b
    → a ≡ b
unfolding format_version power
format_version-injective a b ha hb e = sym (value-hex 16 a ha) ∙ ap (value 0) e ∙ value-hex 16 b hb
