-- ===== src/Edns/Ecs.antt =====
-- internal/dnsutil/ecs.go: the client subnet option. `netip.ParsePrefix` and `netip.ParseAddr` are
-- parameters, and `none` is their error; the methods of `net.IP` are written out.
pub mod Classes
use shadow_dns.Prelude.{
  ℕ, zero, suc, Bool, true, false, ◌&&◌, ◌||◌, not, List, [], ◌∷◌, ◌++◌, Option, none, some, ltb,
  leb, ◌==◌, Equality, ◌=?◌, nat_eq, list_eq, if◌then◌else◌, length, take, drop, any,
}
use shadow_dns.Prelude.Int.{ℤ, pos}
use shadow_dns.Prelude.Partial.{◌>>=◌}
use shadow_dns.Names.{Name}
use shadow_dns.Net.{Addr, Prefix, invalid, v4, v6, addr_eqb, is4, unmap, prefix_from, addr_prefix}
use shadow_dns.Dns.{Subnet}
use shadow_dns.RateLimit.Writer.{addr_from_slice}
use shadow_dns.Edns.Bytes.{to_bytes}

pub data EcsClass : Type 0 where
  ecs_malformed ecs_valid ecs_opt_out : EcsClass

abbrev pub ecs_default_v4_prefix : ℕ
ecs_default_v4_prefix = 24

abbrev pub ecs_default_v6_prefix : ℕ
ecs_default_v6_prefix = 56

unfoldable pub zeros : ℕ → List ℕ
zeros zero = []
zeros (suc n) = 0 ∷ zeros n

-- The first bytes of an IPv4-mapped address.
abbrev pub mapped_head : List ℕ
mapped_head = zeros 10 ++ 0xff ∷ 0xff ∷ []

-- `net.IPv4zero` and `net.IPv6zero`
abbrev pub ipv4_zero : List ℕ
ipv4_zero = mapped_head ++ zeros 4

abbrev pub ipv6_zero : List ℕ
ipv6_zero = zeros 16

-- `IP.To4`
unfoldable pub to4 : List ℕ → Option (List ℕ)
unfolding zeros
to4 ip =
    if length ip == 4
    then some ip
    else if (length ip == 16) && take 12 ip =? mapped_head
    then some (drop 12 ip)
    else none

-- `IP.IsUnspecified`
unfoldable pub is_unspecified : List ℕ → Bool
unfolding zeros
is_unspecified ip = (ip =? zeros 4) || (ip =? ipv4_zero) || ip =? ipv6_zero

unfoldable pub family_bits : ℕ → ℕ
family_bits family = if family == 1 then 32 else if family == 2 then 128 else 0

unfoldable pub family_addr : ℕ → List ℕ → Option Addr
unfolding to4 addr_from_slice
family_addr family ip =
    if family == 1
    then (do ip4 ← to4 ip; addr_from_slice ip4)
    else if family == 2
    then (if length ip == 16 then addr_from_slice ip else none)
    else none

-- `netip.PrefixFrom(addr, n).Masked().Addr()`; the prefix is valid where it is called.
unfoldable pub masked_addr : Addr → ℕ → Addr
unfolding addr_prefix
masked_addr addr n = elim (addr_prefix addr (pos n)) [ none ↦ invalid | some p ↦ p.addr ]

-- The tests on an option with an address, in a family that has one.
unfoldable pub classify_address : Subnet → EcsClass × Addr
classify_address e = elim (family_addr e.family e.address) [
  | none ↦ (ecs_malformed, invalid)
  | some addr ↦
      if not (addr_eqb (masked_addr addr e.source_netmask) addr)
      then (ecs_malformed, invalid)
      else if e.source_netmask == 0
      then (ecs_opt_out, invalid)
      else (ecs_valid, unmap addr)
]

-- `ClassifyECS`; the nil option is `none`.
unfoldable pub classify_ecs : Option Subnet → EcsClass × Addr
unfolding is_unspecified family_bits classify_address
classify_ecs none = (ecs_malformed, invalid)
classify_ecs (some e) =
    if not (e.source_scope == 0)
    then (ecs_malformed, invalid)
    else if e.family == 0
    then (if (e.source_netmask == 0) && ((length e.address == 0) || is_unspecified e.address)
        then (ecs_opt_out, invalid)
        else (ecs_malformed, invalid))
    else if (family_bits e.family == 0) || ltb (family_bits e.family) e.source_netmask
    then (ecs_malformed, invalid)
    else if length e.address == 0
    then (if e.source_netmask == 0 then (ecs_opt_out, invalid) else (ecs_malformed, invalid))
    else classify_address e

-- `EchoECS`
unfoldable pub echo_ecs : Subnet → ℕ → Subnet
unfolding zeros
echo_ecs q scope = record q {
  source_scope = scope;
  address =
      if length q.address == 0
      then (if q.family == 1 then ipv4_zero else if q.family == 2 then ipv6_zero else q.address)
      else q.address;
}

-- `Addr.AsSlice`
unfoldable pub as_slice : Addr → List ℕ
unfolding to_bytes
as_slice invalid = []
as_slice (v4 a) = to_bytes 4 a
as_slice (v6 a zone) = to_bytes 16 a

-- The option of a prefix of this address and length, whose other bits are zero.
unfoldable pub subnet_of : Addr → ℕ → Option Subnet
unfolding as_slice family_bits is4
subnet_of addr b =
    let family : ℕ = if is4 addr then 1 else 2 in
    if ltb (family_bits family) b
    then none
    else some
        (record { family = family; source_netmask = b; source_scope = 0; address = as_slice addr })

-- `BuildQueryECS`
unfoldable pub build_query_ecs : Prefix → Option Subnet
build_query_ecs p = elim p.len [ none ↦ none | some b ↦ subnet_of (unmap (masked_addr p.addr b)) b ]

module _ (parse_prefix : Name → Option Prefix) (parse_addr : Name → Option Addr) where
  -- `ParseECSParam`
  unfoldable pub parse_ecs_param : Name → Option Subnet
  unfolding build_query_ecs prefix_from unmap is4
  parse_ecs_param s =
      if any (λ c. c == b'/') s then (do p ← parse_prefix s; build_query_ecs p) else do
        addr ← parse_addr s
        build_query_ecs (
            prefix_from (unmap addr)
              (pos (if is4 (unmap addr) then ecs_default_v4_prefix else ecs_default_v6_prefix)))
