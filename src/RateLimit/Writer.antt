-- ===== src/RateLimit/Writer.antt =====
-- internal/ratelimit/writer.go: the response writer that applies the limiter, with `IsUDP` of
-- internal/dnsutil/dnsutil.go. The writer inside it takes the message; its error is not modelled.
pub mod Deliver
use shadow_dns.Prelude.{
  ℕ, ◌+◌, ◌*◌, ◌^◌, Bool, true, false, ◌&&◌, not, List, [], ◌∷◌, Option, none, some, ◌==◌, Equality,
  ◌=?◌, nat_eq, list_eq, if◌then◌else◌, length,
}
use shadow_dns.Names.{Name}
use shadow_dns.Net.{Addr, v4, v6, unmap}
use shadow_dns.Dns.{Msg}
use shadow_dns.RateLimit.Slip.{Action, allow, drop, slip, truncate_response}
use shadow_dns.RateLimit.Classify.{
  Category, responses, category_eqb, classify_response, imputed_name,
}
use shadow_dns.RateLimit.Limiter.{Limiter, decide}

-- `net.Addr`: a UDP address with the bytes of its `IP`, or an address of another kind.
pub data NetAddr : Type 0 where
  udp_addr : List ℕ → NetAddr
  other_addr : NetAddr

-- The number that the bytes spell, the first the highest, behind `acc`.
unfoldable pub from_bytes : ℕ → List ℕ → ℕ
from_bytes acc [] = acc
from_bytes acc (b ∷ bs) = from_bytes (acc * 256 + b) bs

-- `netip.AddrFromSlice`
unfoldable pub addr_from_slice : List ℕ → Option Addr
unfolding from_bytes
addr_from_slice bs =
    if length bs == 4
    then some (v4 (from_bytes 0 bs))
    else if length bs == 16
    then some (v6 (from_bytes 0 bs) [])
    else none

unfoldable pub client_addr : NetAddr → Option Addr
unfolding addr_from_slice
client_addr (udp_addr ip) = elim (addr_from_slice ip) [ none ↦ none | some a ↦ some (unmap a) ]
client_addr other_addr = none

unfoldable pub is_udp : NetAddr → Bool
is_udp (udp_addr ip) = true
is_udp other_addr = false

-- `ResponseWriter`: the addresses of the writer inside it, and its two fields.
pub record ResponseWriter : Type 0 where
  pub local_addr : NetAddr
  pub remote_addr : NetAddr
  pub limiter : Option Limiter
  pub responses_name_override : Name

-- `SetResponsesAccountName` of a writer that is not nil.
unfoldable pub set_responses_account_name : Name → ResponseWriter → ResponseWriter
set_responses_account_name name w = record w { responses_name_override = name }

-- What is written for an action.
unfoldable pub deliver : Action → Msg → Option Msg
deliver drop m = none
deliver slip m = some (truncate_response m)
deliver allow m = some m

module _ (unicode_lower : Name → Name) where
  -- The account name that `WriteMsg` charges.
  unfoldable pub account_name : ResponseWriter → Msg → Name
  account_name w m =
      let category = classify_response m in
      if category_eqb category responses && not (w.responses_name_override =? [])
      then w.responses_name_override
      else imputed_name unicode_lower m category

  -- `WriteMsg` at a time: the writer afterwards, and the message that is written, if one is. A nil
  -- limiter allows every message; the outer `none` is a panic of the limiter.
  unfoldable pub write_msg : ℕ → ResponseWriter → Msg → Option (ResponseWriter × Option Msg)
  unfolding is_udp client_addr account_name deliver
  write_msg now w m =
      if not (is_udp w.local_addr) then some (w, some m) else elim (client_addr w.remote_addr) [
        | none ↦ some (w, some m)
        | some ip ↦ elim w.limiter [
          | none ↦ some (w, some m)
          | some l ↦ elim (decide now ip (classify_response m) (account_name w m) l) [
            | none ↦ none
            | some (l', action) ↦ some (record w { limiter = some l' }, deliver action m)
          ]
        ]
      ]
