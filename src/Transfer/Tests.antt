-- ===== src/Transfer/Tests.antt =====
-- Transfer lists on concrete input.
use shadow_dns.Prelude.{
  ℕ, ◌≢◌, sym, subst, true, false, arith, =?-true, =?-ne, ◌≡◌, refl, List, [], ◌∷◌, none, some,
  Option, any, ◌=?◌, list_eq, nat_eq, if◌then◌else◌,
}
use shadow_dns.Names.{
  Name, codes, to_lower, is_ascii, lower_byte, is_in_zone, has_escape, is_in_zone_byte_suffix,
}
use shadow_dns.Prelude.Map.{lookup}
use shadow_dns.Dns.TypeCode
use shadow_dns.Dns.{Rr}
use shadow_dns.Dns.Samples.{plain_library, cname_rr, address_rr}
use shadow_dns.Zone.{Zone, single, role_root}
use shadow_dns.Alias.{rewrite_name}
use shadow_dns.Transfer.Axfr.{collect_non_soa, override_at, build_alias_records}
use shadow_dns.Transfer.Axfr.Complete.{in_zone, collect_non_soa-any}
use shadow_dns.Transfer.Axfr.Unseen.{is_owner, build_alias_records-unseen}
use shadow_dns.Net.{Addr, v4, Prefix}
use shadow_dns.Transfer.{new_acl, allows}
use shadow_dns.Transfer.Allow.{permits, allows-eq-any}

-- Parsers of two texts.
abbrev one_prefix : Name → Option Prefix
one_prefix s =
    if s =? codes "10.0.0.0/8" then some (record { addr = v4 0x0a000000; len = some 8 }) else none

abbrev one_addr : Name → Option Addr
one_addr s = if s =? codes "192.0.2.1" then some (v4 0xc0000201) else none

abbrev permitted : List Name
permitted = codes "192.0.2.1" ∷ codes "10.0.0.0/8" ∷ []

allows-eq-any_example :
    allows
      (some (record {
        addrs = v4 0xc0000201 ∷ [];
        prefixes = record { addr = v4 0x0a000000; len = some 8 } ∷ [];
      }))
      (v4 0x0a000001)
    ≡ any (λ entry. permits one_prefix one_addr entry (v4 0x0a000001)) permitted
unfolding new_acl
allows-eq-any_example = allows-eq-any one_prefix one_addr permitted (v4 0x0a000001) refl

abbrev host_zone : Zone
host_zone = record {
  origin = codes "b.";
  path = [];
  soa = none;
  records =
      (codes "w.b.", single TypeCode.cname (cname_rr (codes "w.b.") (codes "x.b.") ∷ [])) ∷ [];
  role = role_root;
}

collect_non_soa-any_example :
    any (λ (rr : Rr). rr.name =? codes "w.b.") (collect_non_soa host_zone)
    ≡ in_zone (λ (rr : Rr). rr.name =? codes "w.b.") host_zone.records
collect_non_soa-any_example = collect_non_soa-any (λ (rr : Rr). rr.name =? codes "w.b.") host_zone

-- A text at the apex of the backup zone, which the root zone has no record at.
abbrev own_zone : Zone
own_zone = record {
  origin = codes "c.";
  path = [];
  soa = none;
  records = (codes "c.", single TypeCode.txt (address_rr (codes "c.") (1 ∷ []) ∷ [])) ∷ [];
  role = role_root;
}

own_apex :
    (b : Name) (t : ℕ) → b ≢ codes "c." → override_at (some own_zone) b t ≡ override_at none b t
unfolding override_at lookup
own_apex b t h =
    let e : (codes "c." =? b) ≡ false = =?-ne (codes "c.") b (λ p. h (sym p)) in
    rw (override_at, lookup, e) refl

-- The only owner is rewritten to another name.
misses :
    (n b : Name)
    → is_owner n host_zone.records ≡ true
    → rewrite_name (λ s. s) (λ zone s. false) n (codes "b.") (codes "c.") ≡ some b
    → b ≢ codes "c."
unfolding rewrite_name to_lower is_ascii lower_byte is_in_zone has_escape is_in_zone_byte_suffix
misses n b here e same =
    let only : codes "w.b." ≡ n = =?-true (codes "w.b.") n (ground (arith, here)) in
    let there : rewrite_name (λ s. s) (λ zone s. false) (codes "w.b.") (codes "b.") (codes "c.")
        ≡ some b =
      subst
        (λ (x : Name). rewrite_name (λ s. s) (λ zone s. false) x (codes "b.") (codes "c.") ≡ some b)
        (sym only) e in
    cc (there, same)

build_alias_records-unseen_example :
    build_alias_records plain_library host_zone
      (some own_zone)
      (codes "b.")
      (codes "c.")
      (codes "c.")
      false
    ≡ build_alias_records plain_library host_zone none (codes "b.") (codes "c.") (codes "c.") false
build_alias_records-unseen_example =
    build_alias_records-unseen plain_library host_zone (some own_zone) none (codes "b.")
      (codes "c.") (codes "c.") false (codes "c.") own_apex misses
