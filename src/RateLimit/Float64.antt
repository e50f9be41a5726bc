-- ===== src/RateLimit/Float64.antt =====
-- The float64 arithmetic of Go that internal/ratelimit uses. A number is counted in units of
-- 2^-1074, the smallest of float64, so that every finite float64 is a whole number of units. Each
-- operation rounds its exact result to 53 binary digits, to the nearest, and from the middle to the
-- even one. The infinities are left out: the greatest number that the limiter computes is far
-- below 2^1024. Multiplications and additions are rounded each, as on amd64.
pub mod Order
use shadow_dns.Prelude.{
  ℕ, ◌+◌, ◌*◌, ◌/◌, ◌%◌, ◌^◌, Bool, true, false, ◌&&◌, ◌||◌, List, [], ◌∷◌, ltb, leb, ◌==◌,
  if◌then◌else◌,
}
use shadow_dns.Prelude.Int.{ℤ, pos, negsuc, ◌+ℤ◌, ◌-ℤ◌}

-- The number one, in units.
abbrev pub float_one : ℕ
float_one = 2 ^ 1074

-- The binary search for the number of digits to give up, through steps that halve.
unfoldable pub shift_from : List ℕ → ℕ → ℕ → ℕ
shift_from [] acc n = acc
shift_from (k ∷ ks) acc n = shift_from ks (if leb (2 ^ (52 + (acc + k))) n then acc + k else acc) n

abbrev pub steps : List ℕ
steps = 1024 ∷ 512 ∷ 256 ∷ 128 ∷ 64 ∷ 32 ∷ 16 ∷ 8 ∷ 4 ∷ 2 ∷ 1 ∷ []

-- How many of the lowest binary digits a number has too many: none for one of 53 digits or fewer.
unfoldable pub shift_of : ℕ → ℕ
shift_of n = shift_from steps 0 n

-- The quotient, rounded to the nearest whole number, from the middle to the even one.
unfoldable pub round_div : ℕ → ℕ → ℕ
round_div p d =
    if ltb d (2 * (p % d)) || ((2 * (p % d) == d) && (p / d) % 2 == 1) then p / d + 1 else p / d

-- The float64 of a ratio.
unfoldable pub round_ratio : ℕ → ℕ → ℕ
unfolding round_div shift_of shift_from
round_ratio p q = let s = shift_of (p / q) in round_div p (q * 2 ^ s) * 2 ^ s

-- The float64 of a whole number of units.
unfoldable pub nearest : ℕ → ℕ
unfolding round_div shift_of shift_from
nearest n = round_div n (2 ^ shift_of n) * 2 ^ shift_of n

-- `float64(n)`
unfoldable pub of_nat : ℕ → ℕ
unfolding nearest
of_nat n = nearest (n * float_one)

-- The product and the quotient of numbers that are not negative.
unfoldable pub mul : ℕ → ℕ → ℕ
unfolding round_ratio
mul x y = round_ratio (x * y) float_one

unfoldable pub div : ℕ → ℕ → ℕ
unfolding round_ratio
div x y = round_ratio (x * float_one) y

unfoldable pub round_ℤ : ℤ → ℤ
unfolding nearest
round_ℤ (pos n) = pos (nearest n)
round_ℤ (negsuc n) = pos 0 -ℤ pos (nearest (n + 1))

-- The sum and the difference.
unfoldable pub add : ℤ → ℤ → ℤ
unfolding round_ℤ
add x y = round_ℤ (x +ℤ y)

unfoldable pub sub : ℤ → ℤ → ℤ
unfolding round_ℤ
sub x y = round_ℤ (x -ℤ y)

-- `Duration.Seconds` of a duration that is not negative: the whole seconds and the rest.
unfoldable pub seconds : ℕ → ℕ
unfolding of_nat div nearest
seconds d = nearest (of_nat (d / 10 ^ 9) + div (of_nat (d % 10 ^ 9)) (of_nat (10 ^ 9)))
