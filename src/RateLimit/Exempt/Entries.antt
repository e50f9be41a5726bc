-- ===== src/RateLimit/Exempt/Entries.antt =====
-- What an exempt-clients list exempts, entry by entry.
use shadow_dns.Prelude.{
  ℕ, ◌+◌, ◌*◌, ◌/◌, ◌%◌, ◌^◌, ◌≤◌, ◌<◌, ◌≡◌, Bool, false, ◌||◌, List, [], ◌∷◌, ◌++◌, Option, none,
  some, arith, any, any-append, if◌then◌else◌, Option-cases, inl, inr,
}
use shadow_dns.Prelude.Int.{pos, ◌-ℤ◌, ltb_ℤ}
use shadow_dns.Prelude.Result.{ok, Result-cases}
use shadow_dns.Names.{Name}
use shadow_dns.Net.{Addr, v4, v6, Prefix, unmap, is4, prefix_from, contains, same_block, addr_eqb}
use shadow_dns.RateLimit.Exempt.{
  ExemptList, unmap_prefix, parse_entries, new_exempt_list, is_exempt,
}

module _ (parse_prefix : Name → Option Prefix) (parse_addr : Name → Option Addr) where
  -- Whether one entry exempts an address: its prefix, else its address.
  abbrev pub exempts : Name → Addr → Bool
  exempts entry ip = elim (parse_prefix entry) [
    | some p ↦ contains (unmap_prefix p) ip
    | none ↦ elim (parse_addr entry) [ some a ↦ addr_eqb (unmap a) ip | none ↦ false ]
  ]

  parse_entries-exempts :
      (entries : List Name) (e : ExemptList) {e' : ExemptList} (ip : Addr)
      → parse_entries parse_prefix parse_addr e entries ≡ ok e'
      → is_exempt (some e') ip ≡ (is_exempt (some e) ip || any (λ entry. exempts entry ip) entries)
  unfolding parse_entries is_exempt
  parse_entries-exempts [] e ip h = ground arith
  parse_entries-exempts (entry ∷ rest) e {e'} ip h = elim (Option-cases (parse_prefix entry)) [
    | inr (p, read) ↦
        let added = record e { prefixes = e.prefixes ++ unmap_prefix p ∷ [] } in
        ground (
          arith,
          read,
          any-append (λ q. contains q ip) e.prefixes (unmap_prefix p ∷ []),
          parse_entries-exempts rest added {e' = e'} ip,
        )
    | inl none_read ↦ elim (Option-cases (parse_addr entry)) [
      | inl bad ↦ ground (arith, none_read, bad)
      | inr (a, read) ↦
          let added = record e { addrs = e.addrs ++ unmap a ∷ [] } in
          ground (
            arith,
            none_read,
            read,
            any-append (λ q. addr_eqb q ip) e.addrs (unmap a ∷ []),
            parse_entries-exempts rest added {e' = e'} ip,
          )
    ]
  ]

  -- A list that is built exempts an address exactly when one of its entries does.
  pub is_exempt-eq-any :
      (entries : List Name) {e : Option ExemptList} (ip : Addr)
      → new_exempt_list parse_prefix parse_addr entries ≡ ok e
      → is_exempt e ip ≡ any (λ entry. exempts entry ip) entries
  unfolding new_exempt_list is_exempt
  is_exempt-eq-any [] ip h = ground arith
  is_exempt-eq-any (entry ∷ rest) {e} ip h =
      let start : ExemptList = record { addrs = []; prefixes = [] } in
      elim (Result-cases (parse_entries parse_prefix parse_addr start (entry ∷ rest))) [
        | inl (built, done) ↦
            ground (arith, done, parse_entries-exempts (entry ∷ rest) start {e' = built} ip done)
        | inr (n, failed) ↦ ground (arith, failed)
      ]

shorter :
    (b : ℕ)
    → (if ltb_ℤ (pos 32) (pos (96 + b)) then pos (96 + b) -ℤ pos 96 else pos (96 + b)) ≡ pos b
unfolding ◌-ℤ◌
shorter b = ground arith

-- The prefix `::ffff:a/(96 + b)`, of an IPv4 address `a` and a length `b` of at most 32, exempts
-- the IPv4 addresses of `a/b`, and no others of IPv4.
pub contains-unmap_prefix :
    (a b x : ℕ) (z : Name)
    → a < 2 ^ 32
    → b ≤ 32
    → contains
        (unmap_prefix (record { addr = v6 (0xffff * 2 ^ 32 + a) z; len = some (96 + b) }))
        (v4 x)
      ≡ same_block b (v4 a) (v4 x)
unfolding contains unmap_prefix unmap is4 prefix_from same_block
contains-unmap_prefix a b x z h k =
    let mapped : (0xffff * 2 ^ 32 + a) / 2 ^ 32 ≡ 0xffff = omega arith in
    let low : (0xffff * 2 ^ 32 + a) % 2 ^ 32 ≡ a = omega arith in
    rw (mapped, low, shorter b) (ground arith)
