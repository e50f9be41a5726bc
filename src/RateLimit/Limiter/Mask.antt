-- ===== src/RateLimit/Limiter/Mask.antt =====
-- The accounting block of a client: `maskAddr`.
use shadow_dns.Prelude.{ℕ, ◌-◌, ◌/◌, ◌^◌, ◌≤◌, ◌≡◌, ◌↔◌, refl, sym, ◌∙◌, ap, arith, ltb, false}
use shadow_dns.Prelude.Int.{pos}
use shadow_dns.Net.{Addr, v4, mask, is_valid, addr_prefix, is4}
use shadow_dns.Net.Blocks.{mask_eq_iff}
use shadow_dns.RateLimit.Limiter.{Limiter, mask_addr}

number : Addr → ℕ
number (v4 a) = a
number _ = 0

mask_addr-v4 :
    (l : Limiter) (b x : ℕ) → l.v4_prefix ≡ pos b → b ≤ 32 → mask_addr l (v4 x) ≡ v4 (mask 32 b x)
unfolding mask_addr is_valid mask addr_prefix is4
mask_addr-v4 l b x e h = let small : ltb 32 b ≡ false = ground (arith, h) in rw (e, small) refl

-- With an IPv4 prefix length of at most 32, two IPv4 clients are charged on one block exactly
-- when that many of their first bits agree.
pub mask_addr_eq_iff :
    (l : Limiter) (b x y : ℕ)
    → l.v4_prefix ≡ pos b
    → b ≤ 32
    → (mask_addr l (v4 x) ≡ mask_addr l (v4 y)) ↔ (x / 2 ^ (32 - b) ≡ y / 2 ^ (32 - b))
unfolding number
mask_addr_eq_iff l b x y e h =
    let here = mask_addr-v4 l b x e h in
    let there = mask_addr-v4 l b y e h in
    let (to, from) = mask_eq_iff 32 b x y in
    (λ p. to (ap number (sym here ∙ p ∙ there)), λ p. here ∙ ap v4 (from p) ∙ sym there)
