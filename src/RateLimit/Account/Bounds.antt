-- ===== src/RateLimit/Account/Bounds.antt =====
-- The balance of an account stays within its ceiling, above and below.
use shadow_dns.Prelude.{ℕ, ◌≤◌, ◌≡◌, arith, Option-cases, inl, inr, none, some, if◌then◌else◌}
use shadow_dns.Prelude.Int.{ℤ, pos, ◌+ℤ◌, ◌-ℤ◌, ltb_ℤ, pos_part, neg_part}
use shadow_dns.RateLimit.Float64.{float_one, mul, add, sub, seconds}
use shadow_dns.RateLimit.Float64.Order.{IsFloat, round_ℤ-le}
use shadow_dns.RateLimit.Account.{CreditAccount, elapsed_since, cap_credit, refill, debit, charge}

-- The balance lies between the ceiling and its negative.
pub record IsBounded (ceiling : ℕ) (c : ℤ) : Type 0 where
  pub below : pos_part c ≤ ceiling
  pub above : neg_part c ≤ ceiling

add-above :
    (ceiling n : ℕ) (c : ℤ)
    → IsFloat ceiling
    → neg_part c ≤ ceiling
    → neg_part (add c (pos n)) ≤ ceiling
unfolding add ◌+ℤ◌
add-above ceiling n c f h = (round_ℤ-le (c +ℤ pos n) ceiling f).1 (ground (arith, h))

sub-below :
    (ceiling n : ℕ) (c : ℤ)
    → IsFloat ceiling
    → pos_part c ≤ ceiling
    → pos_part (sub c (pos n)) ≤ ceiling
unfolding sub ◌-ℤ◌
sub-below ceiling n c f h = (round_ℤ-le (c -ℤ pos n) ceiling f).0 (ground (arith, h))

cap_credit-IsBounded :
    (ceiling n : ℕ) (c : ℤ)
    → IsFloat ceiling
    → IsBounded ceiling c
    → IsBounded ceiling (cap_credit ceiling (add c (pos n)))
unfolding cap_credit
cap_credit-IsBounded ceiling n c f h =
    let above = add-above ceiling n c f h.above in ground (arith, above)

refill-of :
    (last now rate ceiling : ℕ) (a : CreditAccount)
    → a.last_refill ≡ some last
    → IsBounded ceiling a.credit
    → IsBounded ceiling
        (cap_credit ceiling (add a.credit (pos (mul (seconds (elapsed_since last now)) rate))))
    → IsBounded ceiling (refill now rate ceiling a).credit
refill-of last now rate ceiling a e h c = unfold refill in ground (arith, e, h, c)

refill-fresh :
    (now rate ceiling : ℕ) (a : CreditAccount)
    → a.last_refill ≡ none
    → IsBounded ceiling (refill now rate ceiling a).credit
refill-fresh now rate ceiling a e = unfold refill in ground (arith, e)

refill-IsBounded :
    (now rate ceiling : ℕ) (a : CreditAccount)
    → IsFloat ceiling
    → IsBounded ceiling a.credit
    → IsBounded ceiling (refill now rate ceiling a).credit
refill-IsBounded now rate ceiling a f h = elim (Option-cases a.last_refill) [
  | inl e ↦ refill-fresh now rate ceiling a e
  | inr (last, e) ↦
      refill-of last now rate ceiling a e h
        (cap_credit-IsBounded ceiling (mul (seconds (elapsed_since last now)) rate) a.credit f h)
]

floor-IsBounded :
    (ceiling : ℕ) (d : ℤ)
    → pos_part d ≤ ceiling
    → IsBounded ceiling (if ltb_ℤ d (pos 0 -ℤ pos ceiling) then pos 0 -ℤ pos ceiling else d)
unfolding ◌-ℤ◌
floor-IsBounded ceiling d h = ground (arith, h)

debit-IsBounded :
    (ceiling : ℕ) (c : ℤ)
    → IsFloat ceiling
    → IsBounded ceiling c
    → IsBounded ceiling (debit ceiling c)
unfolding debit
debit-IsBounded ceiling c f h =
    floor-IsBounded ceiling (sub c (pos float_one)) (sub-below ceiling float_one c f h.below)

-- A charge keeps the balance of the account between the ceiling and its negative. (The ceiling is a
-- finite float64.)
pub charge-IsBounded :
    (now rate ceiling : ℕ) (a : CreditAccount)
    → IsFloat ceiling
    → IsBounded ceiling a.credit
    → IsBounded ceiling (charge now rate ceiling a).0.credit
unfolding charge
charge-IsBounded now rate ceiling a f h =
    debit-IsBounded ceiling _ f (refill-IsBounded now rate ceiling a f h)
