-- ===== src/Zone/Tests.antt =====
-- A small zone.
use shadow_dns.Prelude.{
  ℕ, suc, ◌≡◌, refl, Bool, false, ◌&&◌, not, List, [], ◌∷◌, ◌++◌, map, none, some, Option, keep,
  ◌==◌, ◌=?◌, list_eq, nat_eq, if◌then◌else◌, length, ◌≤◌, ◌<◌, arith, Option-cases, inl, inr,
}
use shadow_dns.Prelude.Map.{lookup}
use shadow_dns.Names.{
  Name, codes, has_escape, is_in_zone, is_in_zone_byte_suffix, to_lower, is_ascii, lower_byte,
}
use shadow_dns.Dns.TypeCode
use shadow_dns.Dns.{Rr, Rdata, cname, other}
use shadow_dns.Zone.{Zone, lookup_rrs, load_records, add_rr}
use shadow_dns.Zone.Stored.{first_of_each, empty_zone, is_loaded_at, lookup_rrs-load_records}
use shadow_dns.Zone.Wildcard.{lookup_wildcard, has_wildcard}
use shadow_dns.Zone.Wildcard.Climb.{has_wildcard-found}
use shadow_dns.Zone.Wildcard.Full.{load_records-NoEmptyStore}
use shadow_dns.Zone.Cname.{
  CollapseResult, last_target, follow_hop, chase_hop, collapse_cname, is_empty,
}
use shadow_dns.Zone.Cname.Hops.{hops-agree}
use shadow_dns.Zone.Cname.Chase.{result_ttl, result_rrs, LivesAt, collapse_cname-LivesAt}
use shadow_dns.Zone.Classify.{classify, is_overridable}
use shadow_dns.Zone.Classify.Kept.{if_overridable, lookup_rrs-classify}

abbrev plain_case : Name → Name
plain_case s = s

-- `dns.IsDuplicate` of records whose data are names or bytes.
abbrev same_data : Rdata → Rdata → Bool
same_data (cname a) (cname b) = a =? b
same_data (other a) (other b) = a =? b
same_data _ _ = false

abbrev same_rr : Rr → Rr → Bool
same_rr a b = (a.name =? b.name) && (a.rrtype == b.rrtype) && same_data a.rdata b.rdata

abbrev no_sub : Name → Name → Bool
no_sub zone name = false

-- The offset behind the first dot, where there is something behind it.
abbrev after_dot : Name → Option ℕ
after_dot [] = none
after_dot (c ∷ []) = none
after_dot (c ∷ d ∷ s) =
    if c == b'.' then some 1 else elim (after_dot (d ∷ s)) [ none ↦ none | some n ↦ some (suc n) ]

abbrev txt_at : Name → ℕ → List ℕ → Rr
txt_at name ttl text = record {
  name = name;
  rrtype = TypeCode.txt;
  class = 1;
  ttl = ttl;
  rdata = other text;
}

abbrev cname_at : Name → ℕ → Name → Rr
cname_at name ttl target = record {
  name = name;
  rrtype = TypeCode.cname;
  class = 1;
  ttl = ttl;
  rdata = cname target;
}

abbrev apex : Name
apex = codes "ex."

-- An alias, a wildcard with a text, and a duplicate of it.
abbrev rrs : List Rr
rrs =
    cname_at (codes "a.ex.") 30 (codes "b.w.ex.")
    ∷ txt_at (codes "*.w.ex.") 20 (codes "x")
    ∷ txt_at (codes "*.w.ex.") 60 (codes "x")
    ∷ []

abbrev z : Zone
z = load_records plain_case same_rr no_sub apex rrs (empty_zone apex [])

lookup_rrs-load_records_example :
    lookup_rrs (codes "*.w.ex.") TypeCode.txt z
    ≡ first_of_each same_rr []
        (keep (is_loaded_at plain_case same_rr no_sub apex (codes "*.w.ex.") TypeCode.txt) rrs)
lookup_rrs-load_records_example =
    lookup_rrs-load_records plain_case same_rr no_sub apex rrs [] (codes "*.w.ex.") TypeCode.txt

lookup_rrs-classify_example :
    lookup_rrs (codes "*.w.ex.") TypeCode.txt (classify ((apex, codes "root.") ∷ []) z)
    ≡ if_overridable TypeCode.txt (lookup_rrs (codes "*.w.ex.") TypeCode.txt z)
unfolding lookup is_overridable load_records lookup_rrs add_rr is_in_zone has_escape to_lower
    is_ascii lower_byte is_in_zone_byte_suffix
lookup_rrs-classify_example =
    lookup_rrs-classify ((apex, codes "root.") ∷ []) z (codes "*.w.ex.") TypeCode.txt

collapse_cname-LivesAt_example :
    (r : CollapseResult) × (collapse_cname plain_case after_dot no_sub z
        (cname_at (codes "a.ex.") 30 (codes "b.w.ex.") ∷ [])
        TypeCode.txt
      ≡ some r)
    × LivesAt (result_ttl r) (cname_at (codes "a.ex.") 30 (codes "b.w.ex.") ∷ [])
    × LivesAt (result_ttl r) (result_rrs r)
unfolding last_target
collapse_cname-LivesAt_example =
    collapse_cname-LivesAt plain_case after_dot no_sub z
      (cname_at (codes "a.ex.") 30 (codes "b.w.ex.")) [] TypeCode.txt (codes "b.w.ex.") refl

hops-agree_example :
    (map
        (λ (rr : Rr). rr.rdata)
        ((follow_hop plain_case after_dot no_sub z (codes "b.w.ex.") TypeCode.txt).0)
      ≡ map
          (λ (rr : Rr). rr.rdata)
          ((chase_hop plain_case after_dot no_sub z (codes "b.w.ex.") TypeCode.txt).0
            ++ (chase_hop plain_case after_dot no_sub z (codes "b.w.ex.") TypeCode.txt).1))
    × ((follow_hop plain_case after_dot no_sub z (codes "b.w.ex.") TypeCode.txt).1
        ≡ not
            (is_empty ((chase_hop plain_case after_dot no_sub z (codes "b.w.ex.") TypeCode.txt).1)))
hops-agree_example =
    hops-agree plain_case after_dot no_sub z (codes "b.w.ex.") TypeCode.txt
      (λ e. absurd (omega (arith, e)))

has_wildcard-found_example :
    has_wildcard after_dot no_sub z (codes "b.w.ex.")
    ≡ (lookup_wildcard after_dot no_sub z (codes "b.w.ex.") TypeCode.txt).1
has_wildcard-found_example =
    has_wildcard-found after_dot no_sub z (codes "b.w.ex.") TypeCode.txt
      (load_records-NoEmptyStore plain_case same_rr no_sub apex rrs [])

after_dot-within : (s : Name) (off : ℕ) → after_dot s ≡ some off → (0 < off) × (off ≤ length s)
after_dot-within [] off h = cc
after_dot-within (c ∷ []) off h = cc
after_dot-within (c ∷ d ∷ s) off h = elim (Option-cases (after_dot (d ∷ s))) [
  | inl last ↦ (ground (arith, h, last), ground (arith, h, last))
  | inr (n, found) ↦
      let (positive, inside) = after_dot-within (d ∷ s) n found in
      (ground (arith, h, found, positive), ground (arith, h, found, inside))
]
