-- ===== src/RateLimit/Limiter.antt =====
-- `Limiter` of internal/ratelimit/limiter.go, with the labels of exempt.go. The reading of the
-- clock is an argument. The recorder is the list of what was reported to it, or `none` where no
-- recorder is wired. The configuration's rates and window are whole numbers, and the limiter's are
-- numbers of float64.
pub mod Decide
pub mod Mask
use shadow_dns.Prelude.{
  ℕ, ◌+◌, ◌*◌, Bool, true, false, ◌&&◌, not, List, [], ◌∷◌, ◌++◌, Option, none, some, ltb,
  if◌then◌else◌,
}
use shadow_dns.Prelude.Int.{ℤ}
use shadow_dns.Prelude.Result.{Result, ok, err}
use shadow_dns.Names.{Name}
use shadow_dns.Net.{Addr, Prefix, is_valid, is4, addr_prefix}
use shadow_dns.RateLimit.Float64.{of_nat, mul}
use shadow_dns.RateLimit.Slip.{Action, allow, drop, slip, slip_action}
use shadow_dns.RateLimit.Classify.{Category, responses, nodata, nxdomains, errors, all_responses}
use shadow_dns.RateLimit.Exempt.{ExemptList, is_exempt, new_exempt_list}
use shadow_dns.RateLimit.Table.{AccountKey, Table, new_table, charge_table}

-- `RateLimitConfig` of internal/config/ratelimit.go, the fields that the limiter reads.
pub record Config : Type 0 where
  pub responses_per_second : ℕ
  pub nodata_per_second : ℕ
  pub nxdomains_per_second : ℕ
  pub errors_per_second : ℕ
  pub all_per_second : ℕ
  pub window : ℕ
  pub slip : ℤ
  pub ipv4_prefix_length : ℤ
  pub ipv6_prefix_length : ℤ
  pub exempt_clients : List Name
  pub log_only : Bool
  pub max_table_size : ℕ

pub data Label : Type 0 where
  dropped slipped exempted logonly_would_drop : Label

pub record Limiter : Type 0 where
  pub rates : Category → ℕ
  pub all_rate : ℕ
  pub window : ℕ
  pub slip : ℤ
  pub v4_prefix : ℤ
  pub v6_prefix : ℤ
  pub log_only : Bool
  pub exempt : Option ExemptList
  pub table : Table
  pub recorder : Option (List (Category × Label))

-- The array `rates`, and `rateFor`: 0 out of its range.
unfoldable pub rates_of : Config → Category → ℕ
unfolding of_nat
rates_of cfg responses = of_nat cfg.responses_per_second
rates_of cfg nodata = of_nat cfg.nodata_per_second
rates_of cfg nxdomains = of_nat cfg.nxdomains_per_second
rates_of cfg errors = of_nat cfg.errors_per_second
rates_of cfg all_responses = 0

-- `NewLimiter`; no configuration gives the nil limiter.
module _ (parse_prefix : Name → Option Prefix) (parse_addr : Name → Option Addr) where
  unfoldable pub new_limiter : Option Config → Result Name (Option Limiter)
  unfolding rates_of of_nat
  new_limiter none = ok none
  new_limiter (some cfg) = elim (new_exempt_list parse_prefix parse_addr cfg.exempt_clients) [
    | err entry ↦ err entry
    | ok exempt ↦ ok (
        some (record {
          rates = rates_of cfg;
          all_rate = of_nat cfg.all_per_second;
          window = of_nat cfg.window;
          slip = cfg.slip;
          v4_prefix = cfg.ipv4_prefix_length;
          v6_prefix = cfg.ipv6_prefix_length;
          log_only = cfg.log_only;
          exempt = exempt;
          table = new_table cfg.max_table_size;
          recorder = none;
        }))
  ]

-- The method `record`.
unfoldable pub note : Category → Label → Limiter → Limiter
note category label l = elim l.recorder [
  | none ↦ l
  | some events ↦ record l { recorder = some (events ++ (category, label) ∷ []) }
]

unfoldable pub mask_addr : Limiter → Addr → Addr
mask_addr l ip =
    if not (is_valid ip)
    then ip
    else elim (addr_prefix ip (if is4 ip then l.v4_prefix else l.v6_prefix)) [
      | none ↦ ip
      | some p ↦ p.addr
    ]

-- `if rate > 0 { over, slip = l.table.charge(key, now, rate, l.window) }`
unfoldable pub charge_if : AccountKey → ℕ → ℕ → ℕ → Table → Table × Bool × ℕ
unfolding mul
charge_if key now rate window t =
    if ltb 0 rate then charge_table key now rate (mul rate window) t else (t, false, 0)

-- The two charges of `Decide`: the table, and for the category account and for the aggregate
-- account whether it is over the limit and its slip counter.
unfoldable pub charge_both : Limiter → ℕ → Addr → Category → Name → Table × (Bool × ℕ) × (Bool × ℕ)
unfolding charge_if mask_addr
charge_both l now ip category name =
    let block = mask_addr l ip in
    let (t, cat_over, cat_slip) =
      charge_if (record { block = block; category = category; name = name }) now (l.rates category)
        l.window l.table in
    let (u, all_over, all_slip) =
      charge_if (record { block = block; category = all_responses; name = [] }) now l.all_rate
        l.window t in
    (u, (cat_over, cat_slip), (all_over, all_slip))

abbrev pub label_of : Action → Label
label_of slip = slipped
label_of drop = dropped
label_of allow = dropped

-- The end of `Decide`, with the slip counter of the account that triggered the limit; `none` is
-- the panic of `slipAction`.
unfoldable pub enforce : Limiter → Category → ℕ → Option (Limiter × Action)
enforce l category count = elim (slip_action l.slip count) [
  | none ↦ none
  | some action ↦ some (note category (label_of action) l, action)
]

-- `Decide` from the test `!catOver && !allOver` on, by the verdicts and slip counters of the
-- category account and of the aggregate account.
unfoldable pub conclude : Category → Bool × ℕ → Bool × ℕ → Limiter → Option (Limiter × Action)
conclude category (cat_over, cat_slip) (all_over, all_slip) l =
    if not cat_over && not all_over
    then some (l, allow)
    else if l.log_only
    then some (note category logonly_would_drop l, allow)
    else enforce l category (if cat_over then cat_slip else all_slip)

-- `Decide` of a limiter that is not nil.
unfoldable pub decide : ℕ → Addr → Category → Name → Limiter → Option (Limiter × Action)
decide now ip category name l =
    if is_exempt l.exempt ip
    then some (note category exempted l, allow)
    else (let (t, by_category, by_all) = charge_both l now ip category name in
        conclude category by_category by_all (record l { table = t }))
