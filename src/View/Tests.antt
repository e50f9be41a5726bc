-- ===== src/View/Tests.antt =====
-- The views on concrete input.
use shadow_dns.Prelude.{
  ◌≡◌, refl, Bool, true, false, [], ◌∷◌, map, none, some, ◌=?◌, list_eq, nat_eq,
}
use shadow_dns.Names.{Name, codes}
use shadow_dns.Net.{v4, contains}
use shadow_dns.View.{
  element, nil, cons, leaf, cidr_rule, any_acl, group, View, Matcher, rule_set, first_geo_rule_view,
  is_geo, leaf_matches, resolve,
}
use shadow_dns.View.Geo.{with_databases, resolve-geo}

abbrev same_text : Name → Name → Bool
same_text a b = a =? b

abbrev office : View
office = record {
  name = codes "office";
  match_clients =
      cons (element (leaf (cidr_rule (record { addr = v4 0x0a000001; len = some 32 }))) true nil) (
        cons
          (element group false (
            cons
              (element (leaf (cidr_rule (record { addr = v4 0x0a000000; len = some 8 }))) false nil)
              nil))
          nil);
  line = 1;
  source = codes "named.conf";
}

abbrev others : View
others = record {
  name = codes "others";
  match_clients = cons (element any_acl false nil) nil;
  line = 9;
  source = codes "named.conf";
}

abbrev matcher : Matcher
matcher = record {
  views = map rule_set (office ∷ others ∷ []);
  country = some (λ a. some (codes "DE"));
  asn = none;
  localhost_nets = [];
  localnets_nets = [];
}

in_office : resolve same_text matcher (v4 0x0a000002) (v4 1) ≡ codes "office"
unfolding resolve rule_set leaf_matches contains
in_office = refl

excluded : resolve same_text matcher (v4 0x0a000001) (v4 1) ≡ codes "others"
unfolding resolve rule_set leaf_matches contains
excluded = refl

resolve-geo_example :
    resolve same_text matcher (v4 0x0a000002) (v4 1)
    ≡ resolve same_text (with_databases none none matcher) (v4 0x0a000002) (v4 2)
unfolding first_geo_rule_view is_geo
resolve-geo_example =
    resolve-geo same_text matcher (office ∷ others ∷ []) none none (v4 0x0a000002) (v4 1) (v4 2)
      refl refl
