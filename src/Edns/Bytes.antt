-- ===== src/Edns/Bytes.antt =====
-- Numbers as bytes, the highest or the lowest first, and back.
use shadow_dns.Prelude.{
  ℕ, zero, suc, ◌+◌, ◌*◌, ◌/◌, ◌%◌, ◌^◌, ◌<◌, ◌≡◌, refl, ◌∙◌, List, [], ◌∷◌, ◌++◌, arith, length,
}
use native.Mathlib.Nat.{pow-succ'}
use shadow_dns.RateLimit.Writer.{from_bytes}

-- The bytes of a number, the lowest first.
unfoldable pub to_bytes_le : ℕ → ℕ → List ℕ
to_bytes_le zero n = []
to_bytes_le (suc w) n = n % 256 ∷ to_bytes_le w (n / 256)

-- The bytes of a number, the highest first.
unfoldable pub to_bytes : ℕ → ℕ → List ℕ
to_bytes zero n = []
to_bytes (suc w) n = to_bytes w (n / 256) ++ n % 256 ∷ []

pub length-to_bytes_le : (w n : ℕ) → length (to_bytes_le w n) ≡ w
unfolding to_bytes_le
length-to_bytes_le zero n = refl
length-to_bytes_le (suc w) n = omega (arith, length-to_bytes_le w (n / 256))

length-snoc : (xs : List ℕ) (x : ℕ) → length (xs ++ x ∷ []) ≡ suc (length xs)
length-snoc [] x = refl
length-snoc (y ∷ xs) x = omega (arith, length-snoc xs x)

pub length-to_bytes : (w n : ℕ) → length (to_bytes w n) ≡ w
unfolding to_bytes
length-to_bytes zero n = refl
length-to_bytes (suc w) n =
    omega (arith, length-to_bytes w (n / 256), length-snoc (to_bytes w (n / 256)) (n % 256))

from_bytes-snoc :
    (acc : ℕ) (xs : List ℕ) (x : ℕ) → from_bytes acc (xs ++ x ∷ []) ≡ from_bytes acc xs * 256 + x
unfolding from_bytes
from_bytes-snoc acc [] x = refl
from_bytes-snoc acc (y ∷ xs) x = from_bytes-snoc (acc * 256 + y) xs x

-- The bytes of a number that fits spell the number.
pub from_bytes-to_bytes : (w n : ℕ) → n < 256 ^ w → from_bytes 0 (to_bytes w n) ≡ n
unfolding to_bytes from_bytes
from_bytes-to_bytes zero n h = omega arith
from_bytes-to_bytes (suc w) n h =
    from_bytes-snoc 0 (to_bytes w (n / 256)) (n % 256)
    ∙ omega (arith, from_bytes-to_bytes w (n / 256) (omega (arith, h, pow-succ' 256 w)))
