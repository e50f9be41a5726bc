-- ===== src/Edns/Ecs/Classes.antt =====
-- The option that the program sends, as the program classifies it when it arrives.
use native.Mathlib.Nat.{mul-div_cancel}
use shadow_dns.Prelude.{
  ℕ, ◌-◌, ◌*◌, ◌/◌, ◌^◌, ◌<◌, ◌≡◌, refl, sym, ◌∙◌, ap, subst, true, false, List, [], some, arith,
  ltb, ◌==◌, nat_eq, list_eq, if◌then◌else◌, length, Bool-cases, inl, inr,
}
use shadow_dns.Prelude.Partial.{some-inj}
use shadow_dns.Net.{Addr, invalid, v4, v6, addr_eqb_iff, is4, unmap, mask}
use shadow_dns.Net.Blocks.{pow-pos}
use shadow_dns.Dns.{Subnet}
use shadow_dns.RateLimit.Writer.{addr_from_slice, from_bytes}
use shadow_dns.Edns.Bytes.{to_bytes, length-to_bytes, from_bytes-to_bytes}
use shadow_dns.Edns.Ecs.{
  EcsClass, ecs_valid, ecs_opt_out, to4, family_bits, family_addr, masked_addr, classify_address,
  classify_ecs, as_slice, subnet_of, build_query_ecs,
}

-- An address of its family, without a zone.
abbrev pub InRange : Addr → Type 0
InRange invalid = ⊥
InRange (v4 a) = a < 256 ^ 4
InRange (v6 a zone) = (a < 256 ^ 16) × (zone ≡ [])

abbrev family_of : Addr → ℕ
family_of addr = if is4 addr then 1 else 2

addr_four : (ip : List ℕ) → length ip ≡ 4 → addr_from_slice ip ≡ some (v4 (from_bytes 0 ip))
unfolding addr_from_slice
addr_four ip h = ground (arith, h)

family_addr-four : (ip : List ℕ) → length ip ≡ 4 → family_addr 1 ip ≡ some (v4 (from_bytes 0 ip))
unfolding family_addr
family_addr-four ip h =
    let e : (length ip == 4) ≡ true = ground (arith, h) in rw (e, to4) (addr_four ip h)

family_addr-sixteen :
    (ip : List ℕ) → length ip ≡ 16 → family_addr 2 ip ≡ some (v6 (from_bytes 0 ip) [])
unfolding family_addr
family_addr-sixteen ip h = ground (arith, h)

-- The bytes of an address are read as the address.
family_addr-as_slice :
    (addr : Addr) → InRange addr → family_addr (family_of addr) (as_slice addr) ≡ some addr
unfolding as_slice is4
family_addr-as_slice invalid h = absurd h
family_addr-as_slice (v4 a) h =
    family_addr-four (to_bytes 4 a) (length-to_bytes 4 a)
    ∙ ap (λ (n : ℕ). some (v4 n)) (from_bytes-to_bytes 4 a h)
family_addr-as_slice (v6 a zone) (h, e) =
    family_addr-sixteen (to_bytes 16 a) (length-to_bytes 16 a)
    ∙ ap (λ (n : ℕ). some (v6 n [])) (from_bytes-to_bytes 16 a h)
    ∙ ap (λ z. some (v6 a z)) (sym e)

mask_idem : (w b a : ℕ) → mask w b (mask w b a) ≡ mask w b a
unfolding mask
mask_idem w b a =
    ap (λ (q : ℕ). q * 2 ^ (w - b)) (mul-div_cancel (a / 2 ^ (w - b)) (pow-pos (w - b)))

masked_addr_idem : (addr : Addr) (b : ℕ) → masked_addr (masked_addr addr b) b ≡ masked_addr addr b
unfolding masked_addr
masked_addr_idem invalid b = refl
masked_addr_idem (v4 a) b = ground (arith, mask_idem 32 b a)
masked_addr_idem (v6 a zone) b = ground (arith, mask_idem 128 b a)

-- What the classes say of an option with this address and length.
abbrev pub class_of : Addr → ℕ → EcsClass × Addr
class_of addr b = if b == 0 then (ecs_opt_out, invalid) else (ecs_valid, unmap addr)

abbrev sent : Addr → ℕ → Subnet
sent addr b = record {
  family = family_of addr;
  source_netmask = b;
  source_scope = 0;
  address = as_slice addr;
}

classify_address-sent :
    (addr : Addr) (b : ℕ)
    → InRange addr
    → masked_addr addr b ≡ addr
    → classify_address (sent addr b) ≡ class_of addr b
unfolding classify_address
classify_address-sent addr b h e =
    rw (classify_address, family_addr-as_slice addr h, e, (addr_eqb_iff addr addr).1 refl) refl

length-as_slice : (addr : Addr) → InRange addr → (length (as_slice addr) == 0) ≡ false
unfolding as_slice
length-as_slice invalid h = absurd h
length-as_slice (v4 a) h = ground (arith, length-to_bytes 4 a)
length-as_slice (v6 a zone) h = ground (arith, length-to_bytes 16 a)

classify_ecs-sent :
    (addr : Addr) (b : ℕ)
    → InRange addr
    → masked_addr addr b ≡ addr
    → ltb (family_bits (family_of addr)) b ≡ false
    → classify_ecs (some (sent addr b)) ≡ class_of addr b
unfolding classify_ecs family_bits is4
classify_ecs-sent invalid b h e fits = absurd h
classify_ecs-sent (v4 a) b h e fits =
    rw (fits, length-as_slice (v4 a) h) (classify_address-sent (v4 a) b h e)
classify_ecs-sent (v6 a zone) b h e fits =
    rw (fits, length-as_slice (v6 a zone) h) (classify_address-sent (v6 a zone) b h e)

subnet_of-some :
    (addr : Addr) (b : ℕ) {e : Subnet}
    → subnet_of addr b ≡ some e
    → (ltb (family_bits (family_of addr)) b ≡ false) × (sent addr b ≡ e)
unfolding subnet_of
subnet_of-some addr b made = elim (Bool-cases (ltb (family_bits (family_of addr)) b)) [
  | inl long ↦ cc (rw long at made)
  | inr fits ↦ (fits, some-inj (rw fits at made))
]

-- The option that `BuildQueryECS` makes of a prefix is never malformed to `ClassifyECS`: of length
-- zero it opts out, and else it is valid and gives the masked address of the prefix. (The masked
-- address is in the range of its family and not an IPv4-mapped one.)
pub classify_ecs-build_query_ecs :
    (addr : Addr) (b : ℕ) {e : Subnet}
    → InRange (masked_addr addr b)
    → unmap (masked_addr addr b) ≡ masked_addr addr b
    → build_query_ecs (record { addr = addr; len = some b }) ≡ some e
    → classify_ecs (some e) ≡ class_of (masked_addr addr b) b
unfolding build_query_ecs
classify_ecs-build_query_ecs addr b {e} h plain made =
    let (fits, same) =
      subnet_of-some (masked_addr addr b) b
        (subst (λ (x : Addr). subnet_of x b ≡ some e) plain made) in
    subst (λ (x : Subnet). classify_ecs (some x) ≡ class_of (masked_addr addr b) b) same
      (classify_ecs-sent (masked_addr addr b) b h (masked_addr_idem addr b) fits)
