-- ===== src/RateLimit/Account.antt =====
-- `creditAccount` and its method `charge` of internal/ratelimit/limiter.go. Credits, rates and
-- ceilings are numbers of float64 (Float64), times are whole nanoseconds.
pub mod Bounds
pub mod Recovery
use shadow_dns.Prelude.{
  ℕ, zero, suc, ◌+◌, ◌-◌, ◌*◌, ◌^◌, ◌≤◌, Bool, true, false, Option, none, some, ltb, min,
  if◌then◌else◌,
}
use shadow_dns.Prelude.Int.{ℤ, pos, negsuc, ◌-ℤ◌, ltb_ℤ}
use shadow_dns.RateLimit.Float64.{float_one, mul, add, sub, seconds}

-- `time.Time.Sub` saturates at the longest `time.Duration`.
abbrev pub max_duration : ℕ
max_duration = 2 ^ 63 - 1

pub record CreditAccount : Type 0 where
  pub credit : ℤ
  pub last_refill : Option ℕ
  pub slip : ℕ

-- The entry that `touch` makes: `&tableEntry{key: k}`.
abbrev pub fresh : CreditAccount
fresh = record { credit = pos 0; last_refill = none; slip = 0 }

-- `now.Sub(last)`, where it is positive; 0 stands for every duration that is not, since its seconds
-- are no more than 0 either.
unfoldable pub elapsed_since : ℕ → ℕ → ℕ
elapsed_since last now = min (now - last) max_duration

-- The cap `if a.credit > ceiling`.
unfoldable pub cap_credit : ℕ → ℤ → ℤ
cap_credit ceiling c = if ltb_ℤ (pos ceiling) c then pos ceiling else c

unfoldable pub refill : ℕ → ℕ → ℕ → CreditAccount → CreditAccount
unfolding cap_credit elapsed_since add mul seconds
refill now rate ceiling a = elim a.last_refill [
  | none ↦ record a { credit = pos ceiling; last_refill = some now }
  | some last ↦
      let elapsed = seconds (elapsed_since last now) in
      if ltb 0 elapsed
      then record a {
        credit = cap_credit ceiling (add a.credit (pos (mul elapsed rate)));
        last_refill = some now;
      }
      else a
]

-- `a.credit--`, and the floor `if a.credit < -ceiling`.
unfoldable pub debit : ℕ → ℤ → ℤ
unfolding sub
debit ceiling c =
    let d = sub c (pos float_one) in
    let floor = pos 0 -ℤ pos ceiling in if ltb_ℤ d floor then floor else d

-- The account after the charge, and whether the response is over the limit.
unfoldable pub charge : ℕ → ℕ → ℕ → CreditAccount → CreditAccount × Bool
unfolding refill debit
charge now rate ceiling a =
    let b = refill now rate ceiling a in
    let c = debit ceiling b.credit in (record b { credit = c }, ltb_ℤ c (pos 0))
