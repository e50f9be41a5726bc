-- ===== src/RateLimit/Tests.antt =====
-- Rate limiting on concrete input.
use shadow_dns.Prelude.{
  ℕ, ltb, ◌-◌, ◌*◌, ◌/◌, ◌^◌, ◌≤◌, ◌≡◌, ◌↔◌, refl, sym, ap, true, false, [], ◌∷◌, Option, none,
  some, arith, max, any, ◌=?◌, list_eq, nat_eq, if◌then◌else◌,
}
use shadow_dns.Prelude.Int.{ℤ, pos, ◌-ℤ◌}
use shadow_dns.Names.{Name, codes}
use shadow_dns.Net.{Addr, v4, Prefix, unmap, prefix_from, is4}
use shadow_dns.Dns.{Msg, Question}
use shadow_dns.RateLimit.Float64.{float_one, nearest, mul, seconds}
use shadow_dns.RateLimit.Float64.Order.{IsFloat}
use shadow_dns.RateLimit.Account.{CreditAccount, charge, elapsed_since}
use shadow_dns.RateLimit.Account.Recovery.{charge-recovers}
use shadow_dns.RateLimit.Account.Bounds.{IsBounded, charge-IsBounded}
use shadow_dns.RateLimit.Slip.{allow}
use shadow_dns.RateLimit.Classify.{responses}
use shadow_dns.RateLimit.Exempt.{ExemptList, is_exempt, new_exempt_list}
use shadow_dns.RateLimit.Exempt.Entries.{exempts, is_exempt-eq-any}
use shadow_dns.RateLimit.Table.{
  AccountKey, TableShard, new_table, charge_shard, charge_all, live, num_shards,
}
use shadow_dns.RateLimit.Table.View.{view, touched, charge_first}
use shadow_dns.RateLimit.Table.Charge.{Charged, IsSound, charge_shard-Charged, charge_shard-IsSound}
use shadow_dns.RateLimit.Table.Index.{new_table-IsTable, live-charge_all}
use shadow_dns.RateLimit.Limiter.{Limiter, decide, mask_addr}
use shadow_dns.RateLimit.Limiter.Decide.{
  decide-table, decide-answers, decide-log_only, charged_twice, expected,
}
use shadow_dns.RateLimit.Limiter.Mask.{mask_addr_eq_iff}
use shadow_dns.RateLimit.Writer.{ResponseWriter, udp_addr, other_addr, write_msg}
use shadow_dns.RateLimit.Writer.Deliver.{Outcome, IsSane, write_msg-Outcome}

-- The case mapping of a text that is not ASCII, where nothing has a case.
abbrev ascii_only : Name → Name
ascii_only s = s

abbrev client : Addr
client = v4 0xc0000201

abbrev key_of : Name → AccountKey
key_of name = record { block = client; category = responses; name = name }

-- Five credits, and the ceiling of fifteen seconds at five credits per second.
abbrev five : ℕ
five = 5 * float_one

abbrev ceiling : ℕ
ceiling = 75 * float_one

-- A shard, and the same with one account in it.
abbrev empty_shard : TableShard
empty_shard = new_table 128 0

abbrev one_account : TableShard
one_account = (charge_shard (key_of (codes "a.")) 0 five ceiling empty_shard).0

one_account-IsSound : IsSound one_account
one_account-IsSound =
    charge_shard-IsSound (key_of (codes "a.")) 0 five ceiling empty_shard
      ((new_table-IsTable 128).sound 0)

charge_shard-IsSound_example :
    IsSound (charge_shard (key_of (codes "b.")) 7 five ceiling one_account).0
charge_shard-IsSound_example =
    charge_shard-IsSound (key_of (codes "b.")) 7 five ceiling one_account one_account-IsSound

charge_shard-Charged_example :
    Charged one_account.cap
      (charge_first 7 five ceiling (
        touched one_account.cap
          (key_of (codes "b."))
          (view one_account.heap one_account-IsSound.pointers)))
      (charge_shard (key_of (codes "b.")) 7 five ceiling one_account)
charge_shard-Charged_example =
    charge_shard-Charged (key_of (codes "b.")) 7 five ceiling one_account
      one_account-IsSound.pointers one_account-IsSound.represents one_account-IsSound.room

live-charge_all_example :
    live num_shards (
      charge_all
        (record { key = key_of (codes "a."); now = 0; rate = five; ceiling = ceiling } ∷ [])
        (new_table 1000))
    ≤ max 1000 num_shards
live-charge_all_example =
    live-charge_all 1000
      (record { key = key_of (codes "a."); now = 0; rate = five; ceiling = ceiling } ∷ [])

-- An account in debt of five credits.
abbrev indebted : CreditAccount
indebted = record { credit = pos 0 -ℤ pos five; last_refill = some 0; slip = 3 }

five_whole : nearest (5 * float_one) ≡ 5 * float_one
unfolding nearest
five_whole = refl

ceiling_whole : nearest (75 * float_one) ≡ 75 * float_one
unfolding nearest
ceiling_whole = refl

ceiling-IsFloat : IsFloat ceiling
ceiling-IsFloat = record { finite = omega arith; float = ceiling_whole }

indebted-IsBounded : IsBounded ceiling indebted.credit
unfolding ◌-ℤ◌
indebted-IsBounded = record { below = omega arith; above = omega arith }

charge-IsBounded_example : IsBounded ceiling (charge 7 five ceiling indebted).0.credit
charge-IsBounded_example =
    charge-IsBounded 7 five ceiling indebted ceiling-IsFloat indebted-IsBounded

-- A second at the rate of 1000 credits refills 1000 credits; and 1.001 seconds refill the number of
-- float64 below 1001.
abbrev thousand : ℕ
thousand = 1000 * float_one

whole_second : mul (seconds (10 ^ 9)) thousand ≡ thousand
unfolding mul seconds
whole_second = refl

rounded_down : ltb (mul (seconds 1001000000) thousand) (1001 * float_one) ≡ true
unfolding mul seconds
rounded_down = refl

sixty_seconds : mul (seconds (elapsed_since 0 (60 * 10 ^ 9))) five ≡ 300 * float_one
unfolding mul seconds elapsed_since
sixty_seconds = refl

some_seconds : ltb 0 (seconds (elapsed_since 0 (60 * 10 ^ 9))) ≡ true
unfolding seconds elapsed_since
some_seconds = refl

charge-recovers_example : (charge (60 * 10 ^ 9) five ceiling indebted).1 ≡ false
unfolding elapsed_since ◌-ℤ◌
charge-recovers_example =
    charge-recovers 0 (60 * 10 ^ 9) five ceiling indebted ceiling-IsFloat (omega arith) refl
      (ground (arith, some_seconds)) (omega (arith, sixty_seconds)) (omega (arith, sixty_seconds))

abbrev asks : Name → Msg
asks name = record {
  id = 1;
  opcode = 0;
  response = true;
  recursion_desired = false;
  recursion_available = false;
  checking_disabled = false;
  compress = true;
  rcode = 0;
  truncated = false;
  authoritative = true;
  question = record { name = name; qtype = 1; qclass = 1 } ∷ [];
  answer = [];
  ns = [];
  extra = [];
}

abbrev question_of : Name → Question
question_of name = record { name = name; qtype = 1; qclass = 1 }

-- Parsers of two texts.
abbrev a_prefix : Name → Option Prefix
a_prefix s =
    if s =? codes "10.0.0.0/8" then some (record { addr = v4 0x0a000000; len = some 8 }) else none

abbrev an_addr : Name → Option Addr
an_addr s = if s =? codes "192.0.2.1" then some client else none

abbrev exempt_list : Option ExemptList
exempt_list =
    some (record {
      addrs = client ∷ [];
      prefixes = record { addr = v4 0x0a000000; len = some 8 } ∷ [];
    })

is_exempt-eq-any_example :
    is_exempt exempt_list client
    ≡ any
        (λ entry. exempts a_prefix an_addr entry client)
        (codes "192.0.2.1" ∷ codes "10.0.0.0/8" ∷ [])
unfolding new_exempt_list unmap prefix_from is4
is_exempt-eq-any_example =
    is_exempt-eq-any a_prefix an_addr (codes "192.0.2.1" ∷ codes "10.0.0.0/8" ∷ []) client refl

abbrev limiter : Limiter
limiter = record {
  rates = λ c. five;
  all_rate = 20 * float_one;
  window = 15 * float_one;
  slip = pos 2;
  v4_prefix = pos 24;
  v6_prefix = pos 56;
  log_only = false;
  exempt = none;
  table = new_table 1000;
  recorder = some [];
}

abbrev logging : Limiter
logging = record limiter { log_only = true }

-- The decision on a response, and on the same where the limiter only logs.
abbrev decided :
    (l' : Limiter) × (decide 0 client responses (codes "a.") limiter
      ≡ some (l', expected 2 0 client responses (codes "a.") limiter))
decided = decide-answers 0 2 client responses (codes "a.") limiter refl (omega arith)

abbrev logged :
    (l' : Limiter) × (decide 0 client responses (codes "a.") logging
      ≡ some (l', expected 2 0 client responses (codes "a.") logging))
logged = decide-answers 0 2 client responses (codes "a.") logging refl (omega arith)

decide-table_example : decided.0.table ≡ (
    if is_exempt limiter.exempt client
    then limiter.table
    else charged_twice 0 client responses (codes "a.") limiter)
decide-table_example =
    decide-table 0 client responses (codes "a.") limiter {l' = decided.0}
      {a = expected 2 0 client responses (codes "a.") limiter} decided.1

decide-log_only_example : expected 2 0 client responses (codes "a.") logging ≡ allow
decide-log_only_example =
    decide-log_only 0 client responses (codes "a.") logging {l' = logged.0}
      {a = expected 2 0 client responses (codes "a.") logging} refl logged.1

mask_addr_eq_iff_example :
    (mask_addr limiter (v4 0xc0000201) ≡ mask_addr limiter (v4 0xc00002fe))
    ↔ (0xc0000201 / 2 ^ (32 - 24) ≡ 0xc00002fe / 2 ^ (32 - 24))
mask_addr_eq_iff_example = mask_addr_eq_iff limiter 24 0xc0000201 0xc00002fe refl (omega arith)

abbrev writer : ResponseWriter
writer = record {
  local_addr = udp_addr (127 ∷ 0 ∷ 0 ∷ 1 ∷ []);
  remote_addr = udp_addr (192 ∷ 0 ∷ 2 ∷ 1 ∷ []);
  limiter = some limiter;
  responses_name_override = [];
}

abbrev tcp_writer : ResponseWriter
tcp_writer = record writer { local_addr = other_addr }

writer-IsSane : IsSane writer
writer-IsSane l e = (2, sym (ap slip_of e), omega arith)
  where
    slip_of : Option Limiter → ℤ
    slip_of none = pos 2
    slip_of (some m) = m.slip

write_msg-Outcome_example :
    (w' : ResponseWriter) × (r : Option Msg) × (write_msg ascii_only 0 writer (asks (codes "a."))
      ≡ some (w', r))
    × Outcome ascii_only 0 writer (asks (codes "a.")) r
write_msg-Outcome_example = write_msg-Outcome ascii_only 0 writer (asks (codes "a.")) writer-IsSane
