-- ===== src/Server/Reply.antt =====
-- internal/server/handler.go: the OPT record of a query and of its reply, and the assembly of
-- replies, with their truncation for UDP.
pub mod Truncate
use shadow_dns.Prelude.{
  ℕ, zero, suc, ◌+◌, ◌/◌, Bool, true, false, ◌&&◌, not, List, [], ◌∷◌, ◌++◌, map, Option, none,
  some, ltb, leb, ◌==◌, Equality, ◌=?◌, nat_eq, list_eq, if◌then◌else◌, length, take,
}
use shadow_dns.Names.{Name, root_name}
use shadow_dns.Dns.Rcode
use shadow_dns.Dns.TypeCode
use shadow_dns.Dns.{
  Msg, Rr, Rdata, opt, EdnsOption, cookie_option, subnet_option, other_option, Subnet,
}
use shadow_dns.RateLimit.Writer.{is_udp}
use shadow_dns.Net.{Addr, unmap}
use shadow_dns.RateLimit.Writer.{addr_from_slice}
use shadow_dns.Server.{
  Calls, OptRecord, QueryOpt, Client, Outcome, reply, RemoteAddr, no_addr, udp_remote, tcp_remote,
  other_remote,
}

-- The loop of `parseQueryOpt` over the options: the first of each kind.
unfoldable pub first_cookie : List EdnsOption → Option Name
first_cookie [] = none
first_cookie (cookie_option c ∷ os) = some c
first_cookie (subnet_option s ∷ os) = first_cookie os
first_cookie (other_option code body ∷ os) = first_cookie os

unfoldable pub first_subnet : List EdnsOption → Option Subnet
first_subnet [] = none
first_subnet (cookie_option c ∷ os) = first_subnet os
first_subnet (subnet_option s ∷ os) = some s
first_subnet (other_option code body ∷ os) = first_subnet os

-- `queryOpt{}`
abbrev pub no_opt : QueryOpt
no_opt = record {
  present = false;
  version = 0;
  udp_size = 0;
  do_bit = false;
  cookie = none;
  resp_cookie = [];
  ecs = none;
  resp_ecs = none;
  rrl_wildcard_owner = [];
}

abbrev pub edns_udp_size : ℕ
edns_udp_size = 1232

-- `dns.MinMsgSize`
abbrev pub min_msg_size : ℕ
min_msg_size = 512

-- The options of the OPT record of a reply.
unfoldable pub response_options : QueryOpt → List EdnsOption
response_options qo =
    (if qo.resp_cookie =? [] then [] else cookie_option qo.resp_cookie ∷ [])
    ++ elim qo.resp_ecs [ none ↦ [] | some s ↦ subnet_option s ∷ [] ]

-- The OPT record of a reply: its class is the payload size, its TTL holds version, flags and the
-- extended code, all zero.
unfoldable pub response_opt : QueryOpt → Rr
unfolding response_options
response_opt qo = record {
  name = root_name;
  rrtype = TypeCode.opt;
  class = edns_udp_size;
  ttl = 0;
  rdata = opt (response_options qo);
}

-- `attachOPT`
unfoldable pub attach_opt : Msg → QueryOpt → Msg
unfolding response_opt
attach_opt m qo = if qo.present then record m { extra = m.extra ++ response_opt qo ∷ [] } else m

-- `udpMaxSize`
unfoldable pub udp_max_size : QueryOpt → ℕ
udp_max_size qo = if qo.present && ltb min_msg_size qo.udp_size then qo.udp_size else min_msg_size

-- The message with the first records of its answer only.
abbrev pub with_prefix : Msg → ℕ → Msg
with_prefix m n = record m { answer = take n m.answer }

module _ (calls : Calls) where
  -- `parseQueryOpt`
  unfoldable pub parse_query_opt : Msg → QueryOpt
  unfolding first_cookie first_subnet
  parse_query_opt req = elim (calls.is_edns0 req) [
    | none ↦ no_opt
    | some o ↦ record {
      present = true;
      version = o.version;
      udp_size = o.udp_size;
      do_bit = o.do_bit;
      cookie = first_cookie o.options;
      resp_cookie = [];
      ecs = first_subnet o.options;
      resp_ecs = none;
      rrl_wildcard_owner = [];
    }
  ]

  -- `addrFromRemote`; `none` is its error.
  unfoldable pub addr_from_remote : RemoteAddr → Option Addr
  unfolding addr_from_slice unmap
  addr_from_remote no_addr = none
  addr_from_remote (udp_remote ip) = elim (addr_from_slice ip) [
    | none ↦ none
    | some a ↦ some (unmap a)
  ]
  addr_from_remote (tcp_remote ip) = elim (addr_from_slice ip) [
    | none ↦ none
    | some a ↦ some (unmap a)
  ]
  addr_from_remote (other_remote text) = elim (calls.parse_host text) [
    | none ↦ none
    | some a ↦ some (unmap a)
  ]

  -- The loop of `truncateForUDP`: the longest prefix known to fit when it ends; the outer `none` is
  -- fuel that ends, and the inner one an error of `Pack`.
  unfoldable pub search_prefix : ℕ → Msg → ℕ → ℕ → ℕ → Option (Option ℕ)
  search_prefix zero m budget lo hi = none
  search_prefix (suc fuel) m budget lo hi =
      let mid = (lo + hi) / 2 in
      let low = search_prefix fuel m budget lo mid in
      let high = search_prefix fuel m budget mid hi in
      if not (ltb (lo + 1) hi) then some (some lo) else elim (calls.pack_size (with_prefix m mid)) [
        | none ↦ some none
        | some size ↦ if leb size budget then high else low
      ]

  -- `truncateForUDP`; the interval of the loop shrinks in every round, so that its length is fuel
  -- enough.
  unfoldable pub truncate_for_udp : Msg → ℕ → Option Msg
  truncate_for_udp m budget = elim (calls.pack_size m) [
    | none ↦ some m
    | some size ↦
        if leb size budget
        then some m
        else elim (search_prefix (suc (length m.answer)) m budget 0 (length m.answer)) [
          | none ↦ none
          | some none ↦ some m
          | some (some lo) ↦ some (record (with_prefix m lo) { truncated = true })
        ]
  ]

  -- `replyRcode`
  unfoldable pub reply_rcode : Msg → QueryOpt → ℕ → Outcome
  unfolding attach_opt
  reply_rcode req qo rcode =
      let m = record (calls.set_reply req) {
        recursion_available = false;
        authoritative = false;
        rcode = rcode;
      } in
      reply (attach_opt m qo) []

  -- The message of `replyWithAnswer` before it is truncated.
  unfoldable pub answer_msg : Msg → QueryOpt → List Rr → Msg
  unfolding attach_opt
  answer_msg req qo answer =
      let m = record (calls.set_reply req) {
        recursion_available = false;
        authoritative = true;
        rcode = Rcode.success;
        answer = answer;
        compress = true;
      } in
      attach_opt m qo

  -- `replyWithAnswer`
  unfoldable pub reply_with_answer : Client → Msg → QueryOpt → List Rr → Option Outcome
  reply_with_answer w req qo answer =
      let m = answer_msg req qo answer in
      let sent = if is_udp w.local_addr then truncate_for_udp m (udp_max_size qo) else some m in
      elim sent [ none ↦ none | some s ↦ some (reply s qo.rrl_wildcard_owner) ]
