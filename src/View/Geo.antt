-- ===== src/View/Geo.antt =====
-- Where the scan finds no geo rule, the GeoIP databases and the address looked up in them do not
-- matter.
use shadow_dns.Prelude.{
  ℕ, suc, ◌≡◌, refl, sym, ◌∙◌, ap, Bool, false, List, [], ◌∷◌, map, Option, none, arith,
  if◌then◌else◌, Bool-cases, inl, inr,
}
use shadow_dns.Names.{Name}
use shadow_dns.Net.{Addr, is_valid}
use shadow_dns.View.{
  MatchRule, country_rule, asn_rule, ip_rule, cidr_rule, leaf, any_acl, none_acl, localhost,
  localnets, ref, group, Element, element, Elements, nil, cons, is_geo, element_has_geo_leaf,
  list_has_geo_leaf, View, first_geo_rule_view, Matcher, NamedRuleSet, rule_set, leaf_matches,
  element_fires, list_accepts, first_accepting, resolve,
}

-- The matcher with other databases.
abbrev pub with_databases :
    Option (Addr → Option Name) → Option (Addr → Option ℕ) → Matcher → Matcher
with_databases country asn m = record m { country = country; asn = asn }

module _ (equal_fold : Name → Name → Bool) (m : Matcher) (country : Option (Addr → Option Name))
    (asn : Option (Addr → Option ℕ)) (src geo geo' : Addr) where
  leaf_matches-geo :
      (rule : MatchRule)
      → is_geo rule ≡ false
      → leaf_matches equal_fold m rule src geo
        ≡ leaf_matches equal_fold (with_databases country asn m) rule src geo'
  unfolding is_geo leaf_matches
  leaf_matches-geo (country_rule code) h = cc
  leaf_matches-geo (asn_rule n) h = cc
  leaf_matches-geo (ip_rule ip) h = refl
  leaf_matches-geo (cidr_rule prefix) h = refl

  mutual
    unfolding element_has_geo_leaf list_has_geo_leaf element_fires list_accepts

    element_fires-geo :
        (el : Element) (d : ℕ)
        → element_has_geo_leaf el d ≡ false
        → element_fires equal_fold m el src geo d
          ≡ element_fires equal_fold (with_databases country asn m) el src geo' d
    element_fires-geo (element (leaf rule) negated sub) d h = leaf_matches-geo rule h
    element_fires-geo (element any_acl negated sub) d h = refl
    element_fires-geo (element none_acl negated sub) d h = refl
    element_fires-geo (element localhost negated sub) d h = refl
    element_fires-geo (element localnets negated sub) d h = refl
    element_fires-geo (element (ref name) negated sub) d h =
        ground (arith, h, list_accepts-geo sub (suc d))
    element_fires-geo (element group negated sub) d h =
        ground (arith, h, list_accepts-geo sub (suc d))

    list_accepts-geo :
        (els : Elements) (d : ℕ)
        → list_has_geo_leaf els d ≡ false
        → list_accepts equal_fold m els src geo d
          ≡ list_accepts equal_fold (with_databases country asn m) els src geo' d
    list_accepts-geo nil d h = refl
    list_accepts-geo (cons (element kind negated sub) els) d h =
        ground (arith, h, element_fires-geo (element kind negated sub) d, list_accepts-geo els d)

  first_accepting-geo :
      (views : List View)
      → first_geo_rule_view views ≡ none
      → first_accepting equal_fold m (map rule_set views) src geo
        ≡ first_accepting equal_fold (with_databases country asn m) (map rule_set views) src geo'
  unfolding first_geo_rule_view first_accepting rule_set
  first_accepting-geo [] h = refl
  first_accepting-geo (v ∷ views) h = elim (Bool-cases (list_has_geo_leaf v.match_clients 0)) [
    | inl geo_rule ↦ absurd (ground (arith, geo_rule, h))
    | inr plain ↦
        ground
          (arith, plain, h, list_accepts-geo v.match_clients 0 plain, first_accepting-geo views)
  ]

-- Where the scan of the views finds no geo rule, the view of a client is the same with any GeoIP
-- databases, or none, and whatever address is looked up in them.
pub resolve-geo :
    (equal_fold : Name → Name → Bool) (m : Matcher) (views : List View)
    (country : Option (Addr → Option Name)) (asn : Option (Addr → Option ℕ)) (src geo geo' : Addr)
    → m.views ≡ map rule_set views
    → first_geo_rule_view views ≡ none
    → resolve equal_fold m src geo ≡ resolve equal_fold (with_databases country asn m) src geo'
unfolding resolve
resolve-geo equal_fold m views country asn src geo geo' e h =
    let looked : Addr → Addr = λ g. if is_valid g then g else src in
    let other = with_databases country asn m in
    ap (λ (vs : List NamedRuleSet). first_accepting equal_fold m vs src (looked geo)) e
    ∙ first_accepting-geo equal_fold m country asn src (looked geo) (looked geo') views h
    ∙ sym (ap (λ (vs : List NamedRuleSet). first_accepting equal_fold other vs src (looked geo')) e)
