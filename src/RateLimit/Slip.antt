-- ===== src/RateLimit/Slip.antt =====
-- internal/ratelimit/slip.go: the cadence of truncated answers, and the truncation.
use shadow_dns.Prelude.{
  ℕ, ◌+◌, ◌-◌, ◌%◌, ◌^◌, Bool, true, false, List, [], ◌∷◌, Option, none, some, ◌==◌, if◌then◌else◌,
}
use shadow_dns.Prelude.Int.{ℤ, pos, negsuc}
use shadow_dns.Dns.{Rr, Msg, opt}

-- `Action` of internal/ratelimit/limiter.go
pub data Action : Type 0 where
  allow drop slip : Action

abbrev pub uint32_mod : ℕ
uint32_mod = 2 ^ 32

-- `slipAction`; `none` is the panic of `%` by zero, at a `slip` that `uint32` takes to 0.
unfoldable pub slip_action : ℤ → ℕ → Option Action
slip_action (negsuc n) count = some drop
slip_action (pos n) count =
    if n == 0
    then some drop
    else (let divisor = n % uint32_mod in
        if divisor == 0
        then none
        else if (count + uint32_mod - 1) % uint32_mod % divisor == 0
        then some slip
        else some drop)

unfoldable pub is_opt : Rr → Bool
is_opt rr = elim rr.rdata [ opt o ↦ true | _ ↦ false ]

-- The loop that looks for the first OPT record.
unfoldable pub find_opt : List Rr → Option Rr
find_opt [] = none
find_opt (rr ∷ extra) = if is_opt rr then some rr else find_opt extra

unfoldable pub truncate_response : Msg → Msg
unfolding find_opt
truncate_response m = record m {
  answer = [];
  ns = [];
  extra = elim (find_opt m.extra) [ some o ↦ o ∷ [] | none ↦ [] ];
  truncated = true;
}
