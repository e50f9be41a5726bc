-- ===== src/RateLimit/Account/Recovery.antt =====
-- How an account recovers.
use shadow_dns.Prelude.{
  ℕ, ◌+◌, ◌-◌, ◌^◌, ◌≤◌, ◌<◌, ◌≡◌, refl, ◌∙◌, ap, some, false, arith, lt→ltb, if◌then◌else◌,
}
use shadow_dns.Prelude.Int.{ℤ, pos, negsuc, ◌+ℤ◌, ◌-ℤ◌, ltb_ℤ, pos_part, neg_part}
use shadow_dns.RateLimit.Float64.{float_one, nearest, round_ℤ, mul, add, sub, seconds}
use shadow_dns.RateLimit.Float64.Order.{IsFloat, nearest-ge}
use shadow_dns.RateLimit.Account.{CreditAccount, elapsed_since, cap_credit, refill, debit, charge}

-- A number that a float64 does not exceed is rounded to one that it does not exceed.
round-ge :
    (z : ℤ) (y : ℕ)
    → IsFloat y
    → pos_part z < 2 ^ 2100
    → y + neg_part z ≤ pos_part z
    → (m : ℕ) × (round_ℤ z ≡ pos m) × (y ≤ m)
unfolding round_ℤ
round-ge (pos n) y f small h = (nearest n, refl, nearest-ge n y f small (omega (arith, h)))
round-ge (negsuc n) y f small h = absurd (omega (arith, h))

cap-full : (ceiling m : ℕ) → ceiling ≤ m → cap_credit ceiling (pos m) ≡ pos ceiling
unfolding cap_credit
cap-full ceiling m h = ground (arith, h)

sum-parts :
    (c : ℤ) (r ceiling : ℕ)
    → ceiling + neg_part c ≤ r
    → (pos_part (c +ℤ pos r) ≤ pos_part c + r)
      × (ceiling + neg_part (c +ℤ pos r) ≤ pos_part (c +ℤ pos r))
unfolding ◌+ℤ◌
sum-parts (pos n) r ceiling h = (ground (arith, h), ground (arith, h))
sum-parts (negsuc n) r ceiling h = (ground (arith, h), ground (arith, h))

-- A refill that reaches the ceiling fills the account.
filled :
    (c : ℤ) (r ceiling : ℕ)
    → IsFloat ceiling
    → pos_part c + r < 2 ^ 2100
    → ceiling + neg_part c ≤ r
    → cap_credit ceiling (add c (pos r)) ≡ pos ceiling
unfolding add
filled c r ceiling f small h =
    let (lesser, reaches) = sum-parts c r ceiling h in
    let (m, e, le) = round-ge (c +ℤ pos r) ceiling f (omega (arith, lesser, small)) reaches in
    ap (cap_credit ceiling) e ∙ cap-full ceiling m le

not_below :
    (k c : ℕ)
    → ltb_ℤ (if ltb_ℤ (pos k) (pos 0 -ℤ pos c) then pos 0 -ℤ pos c else pos k) (pos 0) ≡ false
unfolding ◌-ℤ◌
not_below k c = ground arith

-- A full account has a credit to give.
full_admits :
    (ceiling : ℕ) → float_one ≤ ceiling → ltb_ℤ (debit ceiling (pos ceiling)) (pos 0) ≡ false
unfolding debit sub
full_admits ceiling h =
    let left : (pos ceiling -ℤ pos float_one) ≡ pos (ceiling - float_one) =
      unfold ◌-ℤ◌ in ground (arith, h) in
    let rounded : round_ℤ (pos (ceiling - float_one)) ≡ pos (nearest (ceiling - float_one)) =
      unfold round_ℤ in refl in
    rw (debit, sub, left, rounded) (not_below (nearest (ceiling - float_one)) ceiling)

-- An account of a ceiling of at least one credit admits the next response, however deep it is in
-- debt, if the clock has moved forward and the refill of the time that has passed, as float64
-- computes it, makes up for the debt and the ceiling. (The ceiling is a finite float64, and the
-- balance and the refill are in its range.)
pub charge-recovers :
    (last now rate ceiling : ℕ) (a : CreditAccount)
    → IsFloat ceiling
    → float_one ≤ ceiling
    → a.last_refill ≡ some last
    → 0 < seconds (elapsed_since last now)
    → pos_part a.credit + mul (seconds (elapsed_since last now)) rate < 2 ^ 2100
    → ceiling + neg_part a.credit ≤ mul (seconds (elapsed_since last now)) rate
    → (charge now rate ceiling a).1 ≡ false
unfolding charge
charge-recovers last now rate ceiling a f room e forward small rested =
    let r = mul (seconds (elapsed_since last now)) rate in
    let full = filled a.credit r ceiling f small rested in
    let refilled : (refill now rate ceiling a).credit ≡ pos ceiling =
      rw (refill, e, lt→ltb _ _ forward) full in
    ap (λ (c : ℤ). ltb_ℤ (debit ceiling c) (pos 0)) refilled ∙ full_admits ceiling room
