-- ===== src/RateLimit/Exempt.antt =====
-- internal/ratelimit/exempt.go: the exempt-clients list. `netip.ParsePrefix` and `netip.ParseAddr`,
-- which read the text of an entry, are parameters; `none` is their error.
pub mod Entries
use shadow_dns.Prelude.{
  ℕ, ◌-◌, Bool, true, false, ◌&&◌, ◌||◌, List, [], ◌∷◌, ◌++◌, Option, none, some, ltb, leb,
  if◌then◌else◌,
}
use shadow_dns.Prelude.Int.{ℤ, pos, negsuc, ◌-ℤ◌, ltb_ℤ}
use shadow_dns.Prelude.Result.{Result, ok, err}
use shadow_dns.Names.{Name}
use shadow_dns.Net.{Addr, Prefix, bits, unmap, is4, prefix_from, any_addr, any_prefix_contains}

pub record ExemptList : Type 0 where
  pub addrs : List Addr
  pub prefixes : List Prefix

-- What the loop does to a parsed prefix: IPv4-mapped prefixes become IPv4 prefixes.
unfoldable pub unmap_prefix : Prefix → Prefix
unfolding bits ◌-ℤ◌
unmap_prefix p =
    let addr = unmap p.addr in
    let b = bits p in prefix_from addr (if is4 addr && ltb_ℤ (pos 32) b then b -ℤ pos 96 else b)

module _ (parse_prefix : Name → Option Prefix) (parse_addr : Name → Option Addr) where
  -- The loop of `newExemptList`; the error names the entry.
  unfoldable pub parse_entries : ExemptList → List Name → Result Name ExemptList
  unfolding unmap_prefix
  parse_entries e [] = ok e
  parse_entries e (entry ∷ rest) = elim (parse_prefix entry) [
    | some p ↦ parse_entries (record e { prefixes = e.prefixes ++ unmap_prefix p ∷ [] }) rest
    | none ↦ elim (parse_addr entry) [
      | some a ↦ parse_entries (record e { addrs = e.addrs ++ unmap a ∷ [] }) rest
      | none ↦ err entry
    ]
  ]

  -- `newExemptList`; the inner `none` is the nil list.
  unfoldable pub new_exempt_list : List Name → Result Name (Option ExemptList)
  unfolding parse_entries
  new_exempt_list [] = ok none
  new_exempt_list (entry ∷ rest) =
      elim (parse_entries (record { addrs = []; prefixes = [] }) (entry ∷ rest)) [
        | ok e ↦ ok (some e)
        | err n ↦ err n
      ]

-- The method `contains`; a nil list exempts nothing.
unfoldable pub is_exempt : Option ExemptList → Addr → Bool
unfolding any_addr any_prefix_contains
is_exempt none ip = false
is_exempt (some e) ip = if any_addr e.addrs ip then true else any_prefix_contains e.prefixes ip
