-- ===== src/Net/Blocks.antt =====
-- Masking an address: what it forgets.
use native.Mathlib.Nat.{pow-suc, mul-div_cancel}
use shadow_dns.Prelude.{ℕ, zero, suc, ◌-◌, ◌*◌, ◌/◌, ◌^◌, ◌<◌, ◌≡◌, ◌↔◌, ap, ◌∙◌, sym, arith}
use shadow_dns.Net.{mask}

pub pow-pos : (k : ℕ) → 0 < 2 ^ k
pow-pos zero = omega arith
pow-pos (suc k) = rw pow-suc (omega (arith, pow-pos k))

-- Masked addresses agree exactly when the bits that are kept do.
pub mask_eq_iff : (w b x y : ℕ) → (mask w b x ≡ mask w b y) ↔ (x / 2 ^ (w - b) ≡ y / 2 ^ (w - b))
unfolding mask
mask_eq_iff w b x y =
    let d = 2 ^ (w - b) in
    (
      λ e.
          sym (mul-div_cancel (x / d) (pow-pos (w - b)))
          ∙ ap (λ (n : ℕ). n / d) e
          ∙ mul-div_cancel (y / d) (pow-pos (w - b)),
      λ e. ap (λ (n : ℕ). n * d) e,
    )
