-- ===== src/Net.antt =====
-- Go's net/netip, as far as the program uses it: addresses with their zone, prefixes, masking.
-- An address is its family and its number; a prefix length that is out of range makes the prefix
-- invalid (`Bits` is -1), which `len = none` says.
pub mod Blocks
use shadow_dns.Prelude.{
  ℕ, zero, suc, ◌+◌, ◌-◌, ◌*◌, ◌/◌, ◌%◌, ◌^◌, ◌≡◌, ◌↔◌, refl, ap, Bool, true, false, ◌&&◌, ◌||◌,
  not, List, [], ◌∷◌, Option, none, some, arith, leb, ltb, ◌==◌, ==_iff, &&-true, Equality, ◌=?◌,
  =?-true, =?-refl, nat_eq, list_eq, if◌then◌else◌, any,
}
use shadow_dns.Prelude.Int.{ℤ, pos, negsuc}
use shadow_dns.Names.{Name}

-- `invalid` is the zero `netip.Addr`.
pub data Addr : Type 0 where
  invalid : Addr
  v4 : ℕ → Addr
  v6 : ℕ → Name → Addr

-- `==` on addresses compares the zone too.
abbrev pub addr_eqb : Addr → Addr → Bool
addr_eqb invalid invalid = true
addr_eqb (v4 a) (v4 b) = a == b
addr_eqb (v6 a z) (v6 b w) = (a == b) && z =? w
addr_eqb _ _ = false

addr_eqb_lem : (a b : Addr) → addr_eqb a b ≡ true → a ≡ b
addr_eqb_lem invalid invalid h = refl
addr_eqb_lem (v4 a) (v4 b) h = ap v4 ((==_iff a b).0 h)
addr_eqb_lem (v6 a z) (v6 b w) h =
    let t = &&-true (a == b) (z =? w) h in cc ((==_iff a b).0 t.0, =?-true z w t.1)
addr_eqb_lem invalid (v4 b) h = cc
addr_eqb_lem invalid (v6 b w) h = cc
addr_eqb_lem (v4 a) invalid h = cc
addr_eqb_lem (v4 a) (v6 b w) h = cc
addr_eqb_lem (v6 a z) invalid h = cc
addr_eqb_lem (v6 a z) (v4 b) h = cc

addr_eqb_refl : (a : Addr) → addr_eqb a a ≡ true
addr_eqb_refl invalid = refl
addr_eqb_refl (v4 a) = =?-refl a
addr_eqb_refl (v6 a z) = rw (=?-refl a, =?-refl z)

pub addr_eqb_iff : (a b : Addr) → (addr_eqb a b ≡ true) ↔ (a ≡ b)
addr_eqb_iff a b = (addr_eqb_lem a b, λ e. rw e (addr_eqb_refl b))

instance abbrev pub addr_eq : Equality Addr
addr_eq = record { eqb = addr_eqb; eqb_iff = addr_eqb_iff }

unfoldable pub is_valid : Addr → Bool
is_valid invalid = false
is_valid (v4 a) = true
is_valid (v6 a z) = true

unfoldable pub is4 : Addr → Bool
is4 (v4 a) = true
is4 (v6 a z) = false
is4 invalid = false

unfoldable pub bit_len : Addr → ℕ
bit_len invalid = 0
bit_len (v4 a) = 32
bit_len (v6 a z) = 128

-- An IPv4-mapped IPv6 address becomes the IPv4 address; any other stays.
unfoldable pub unmap : Addr → Addr
unmap (v6 a z) = if a / 2 ^ 32 == 0xffff then v4 (a % 2 ^ 32) else v6 a z
unmap (v4 a) = v4 a
unmap invalid = invalid

unfoldable pub without_zone : Addr → Addr
without_zone (v6 a z) = v6 a []
without_zone (v4 a) = v4 a
without_zone invalid = invalid

pub record Prefix : Type 0 where
  pub addr : Addr
  pub len : Option ℕ

-- `Prefix.Bits`
unfoldable pub bits : Prefix → ℤ
bits p = elim p.len [ none ↦ negsuc 0 | some b ↦ pos b ]

-- `netip.PrefixFrom`
unfoldable pub prefix_from : Addr → ℤ → Prefix
unfolding is_valid bit_len without_zone
prefix_from ip (pos b) = record {
  addr = without_zone ip;
  len = if is_valid ip && leb b (bit_len ip) then some b else none;
}
prefix_from ip (negsuc b) = record { addr = without_zone ip; len = none }

-- The addresses agree on their first `b` bits; they are of one family, and the second has no zone.
unfoldable pub same_block : ℕ → Addr → Addr → Bool
same_block b (v4 m) (v4 n) = m / 2 ^ (32 - b) == n / 2 ^ (32 - b)
same_block b (v6 m z) (v6 n []) = m / 2 ^ (128 - b) == n / 2 ^ (128 - b)
same_block b _ _ = false

-- `Prefix.Contains`
unfoldable pub contains : Prefix → Addr → Bool
unfolding same_block
contains p ip = elim p.len [ none ↦ false | some b ↦ same_block b p.addr ip ]

-- The address with the bits behind the first `b` of `w` set to zero.
unfoldable pub mask : ℕ → ℕ → ℕ → ℕ
mask w b a = a / 2 ^ (w - b) * 2 ^ (w - b)

-- `Addr.Prefix`; `none` is its error. The zero address gives the zero prefix.
unfoldable pub addr_prefix : Addr → ℤ → Option Prefix
unfolding mask
addr_prefix ip (negsuc b) = none
addr_prefix invalid (pos b) = some (record { addr = invalid; len = none })
addr_prefix (v4 a) (pos b) =
    if ltb 32 b then none else some (record { addr = v4 (mask 32 b a); len = some b })
addr_prefix (v6 a z) (pos b) =
    if ltb 128 b then none else some (record { addr = v6 (mask 128 b a) []; len = some b })

-- The loops `for _, p := range prefixes { if p.Contains(ip) … }` and
-- `for _, a := range addrs { if a == ip … }`.
unfoldable pub any_addr : List Addr → Addr → Bool
any_addr addrs ip = any (λ a. addr_eqb a ip) addrs

unfoldable pub any_prefix_contains : List Prefix → Addr → Bool
unfolding contains
any_prefix_contains prefixes ip = any (λ p. contains p ip) prefixes
