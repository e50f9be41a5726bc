-- ===== src/Transfer/Allow.antt =====
-- Whom a transfer list allows, entry by entry.
use shadow_dns.Prelude.{
  ◌≡◌, Bool, false, ◌||◌, List, [], ◌∷◌, ◌++◌, Option, none, some, arith, any, any-append,
  Option-cases, inl, inr,
}
use shadow_dns.Prelude.Result.{ok}
use shadow_dns.Names.{Name}
use shadow_dns.Net.{Addr, Prefix, contains, any_addr, any_prefix_contains, addr_eqb}
use shadow_dns.Transfer.{Acl, empty_acl, add_entries, new_acl, allows}

module _ (parse_prefix : Name → Option Prefix) (parse_addr : Name → Option Addr) where
  -- Whether one entry allows an address: its prefix, else its address.
  abbrev pub permits : Name → Addr → Bool
  permits entry src = elim (parse_prefix entry) [
    | some p ↦ contains p src
    | none ↦ elim (parse_addr entry) [ some a ↦ addr_eqb a src | none ↦ false ]
  ]

  add_entries-permits :
      (entries : List Name) (a : Acl) {a' : Acl} (src : Addr)
      → add_entries parse_prefix parse_addr a entries ≡ ok a'
      → allows (some a') src ≡ (allows (some a) src || any (λ entry. permits entry src) entries)
  unfolding add_entries allows any_addr any_prefix_contains
  add_entries-permits [] a src h = ground arith
  add_entries-permits (entry ∷ rest) a {a'} src h = elim (Option-cases (parse_prefix entry)) [
    | inr (p, read) ↦
        let added = record a { prefixes = a.prefixes ++ p ∷ [] } in
        ground (
          arith,
          read,
          any-append (λ q. contains q src) a.prefixes (p ∷ []),
          add_entries-permits rest added {a' = a'} src,
        )
    | inl none_read ↦ elim (Option-cases (parse_addr entry)) [
      | inl bad ↦ ground (arith, none_read, bad)
      | inr (x, read) ↦
          let added = record a { addrs = a.addrs ++ x ∷ [] } in
          ground (
            arith,
            none_read,
            read,
            any-append (λ q. addr_eqb q src) a.addrs (x ∷ []),
            add_entries-permits rest added {a' = a'} src,
          )
    ]
  ]

  -- A list that is built allows an address exactly when one of its entries does; so the list of no
  -- entries allows none.
  pub allows-eq-any :
      (entries : List Name) {a : Acl} (src : Addr)
      → new_acl parse_prefix parse_addr entries ≡ ok a
      → allows (some a) src ≡ any (λ entry. permits entry src) entries
  unfolding new_acl allows any_addr any_prefix_contains
  allows-eq-any entries {a} src h =
      ground (arith, h, add_entries-permits entries empty_acl {a' = a} src)
