-- ===== src/Server.antt =====
-- internal/server/handler.go and the state of internal/server/server.go: how a query is answered.
-- The reply is the message that the handler hands to its writer, with the account name that it sets
-- on the rate limiter's writer (empty where it sets none). `none` is a panic. Logging, metrics and
-- the record of the queries are left out: nothing that is answered depends on them.
pub mod Reply
pub mod Negative
pub mod Root
pub mod Backup
pub mod Serve
pub mod Replies
mod Tests
use shadow_dns.Prelude.{ℕ, Bool, true, false, List, Option, none, some, Equality, nat_eq, list_eq}
use shadow_dns.Prelude.Map.{Map, lookup}
use shadow_dns.Names.{Name}
use shadow_dns.Dns.{Msg, Rr, EdnsOption, Subnet}
use shadow_dns.Dns.Library.{Library}
use shadow_dns.Net.{Addr}
use shadow_dns.RateLimit.Writer.{NetAddr}
use shadow_dns.Ephemeral.{Store}
use shadow_dns.Zone.{Zone}
use shadow_dns.View.{Matcher}
use shadow_dns.Transfer.{Acl}
use shadow_dns.Transfer.Axfr.{Stream}
use shadow_dns.Edns.Cookie.{Generator}

-- What `*dns.OPT` shows: `Version()`, `UDPSize()`, `Do()`, and the options.
pub record OptRecord : Type 0 where
  pub version : ℕ
  pub udp_size : ℕ
  pub do_bit : Bool
  pub options : List EdnsOption

-- The library's functions that the handler calls besides those that the zones are read with.
pub record Calls : Type 0 where
  pub lib : Library
  -- `new(dns.Msg).SetReply(req)`
  pub set_reply : Msg → Msg
  -- `req.IsEdns0()`
  pub is_edns0 : Msg → Option OptRecord
  -- the length of what `Pack` gives; `none` is its error
  pub pack_size : Msg → Option ℕ
  -- `strings.EqualFold`
  pub equal_fold : Name → Name → Bool
  -- `hex.Decode` and `hex.EncodeToString`
  pub hex_decode : Name → Option (List ℕ)
  pub hex_encode : List ℕ → Name
  -- `siphash.Hash`
  pub siphash : ℕ → ℕ → List ℕ → ℕ
  -- `netip.ParseAddr` on the host of `net.SplitHostPort`
  pub parse_host : Name → Option Addr

-- `ServerState`; `root_zones` and `backup_zones` are by view, then by origin.
pub record ServerState : Type 0 where
  pub matcher : Matcher
  pub aliases : Map Name Name
  pub alias_flags : Map Name Bool
  pub collapse_flags : Map Name Bool
  pub backup_original_case : Map Name Name
  pub root_zones : Map Name (Map Name Zone)
  pub backup_zones : Map Name (Map Name Zone)
  pub zone_origins : Map Name (List Name)
  pub allow_transfer_acl : Option Acl

-- The fields of `Server` that an answer depends on, with the state that the query has loaded.
pub record Server : Type 0 where
  pub state : ServerState
  pub ephemeral_store : Option Store
  pub ecs_enabled : Bool
  pub cookie_gen : Generator

-- The reads of Go maps, with the zero value for a missing key.
unfoldable pub flag_at : Name → Map Name Bool → Bool
flag_at key m = elim (lookup key m) [ none ↦ false | some b ↦ b ]

unfoldable pub zone_at : Name → Name → Map Name (Map Name Zone) → Option Zone
zone_at view_name origin m = elim (lookup view_name m) [
  | none ↦ none
  | some zones ↦ lookup origin zones
]

-- `net.Addr` of the client: no address, that of a UDP or TCP socket with the bytes of its `IP`, or
-- another kind, by its text.
pub data RemoteAddr : Type 0 where
  no_addr : RemoteAddr
  udp_remote tcp_remote : List ℕ → RemoteAddr
  other_remote : Name → RemoteAddr

-- What the handler reads of `dns.ResponseWriter`.
pub record Client : Type 0 where
  pub local_addr : NetAddr
  pub remote_addr : RemoteAddr

-- `queryOpt`; the pointers to the request's OPT record and to the writer are left out.
pub record QueryOpt : Type 0 where
  pub present : Bool
  pub version : ℕ
  pub udp_size : ℕ
  pub do_bit : Bool
  pub cookie : Option Name
  pub resp_cookie : Name
  pub ecs : Option Subnet
  pub resp_ecs : Option Subnet
  pub rrl_wildcard_owner : Name

-- What the handler does with a query: a message written, with the account name it is charged under,
-- or what the handler of zone transfers does.
pub data Outcome : Type 0 where
  reply : Msg → Name → Outcome
  transferred : Stream → Outcome
