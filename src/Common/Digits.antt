-- ===== src/Common/Digits.antt =====
-- `fmt` verbs for numbers: `%d` of a number that is not negative, `%x` of a byte slice.
use quantumbilling.Common.{
  ℕ, zero, suc, ◌+◌, ◌/◌, ◌%◌, ◌<◌, ◌≡◌, refl, List, [], ◌∷◌, Text, arith, ltb, length, is_ascii,
  true, if◌then◌else◌, ◌*◌, All,
}

-- The digits of `n` in front of `out`. The fuel `n + 1` is more than the number of digits.
decimal_onto : ℕ → ℕ → Text → Text
decimal_onto zero n out = out
decimal_onto (suc f) n out =
    let rest = decimal_onto f (n / 10) ((48 + n % 10) ∷ out) in
    if ltb n 10 then (48 + n) ∷ out else rest

unfoldable pub decimal : ℕ → Text
unfolding decimal_onto
decimal n = decimal_onto (suc n) n []

unfoldable pub hex_digit : ℕ → ℕ
hex_digit n = if ltb n 10 then 48 + n else 87 + n

unfoldable pub hex : List ℕ → Text
unfolding hex_digit
hex [] = []
hex (b ∷ bs) = hex_digit (b / 16) ∷ hex_digit (b % 16) ∷ hex bs

pub length-hex : (bs : List ℕ) → length (hex bs) ≡ 2 * length bs
unfolding hex
length-hex [] = refl
length-hex (b ∷ bs) = omega (arith, length-hex bs)

abbrev pub IsByte : ℕ → Type 0
IsByte b = b < 256

pub hex-is_ascii : (bs : List ℕ) → All IsByte bs → is_ascii (hex bs) ≡ true
unfolding hex
hex-is_ascii [] h = refl
hex-is_ascii (b ∷ bs) h = ground (arith, hex-is_ascii bs h.1)
