-- ===== src/View.antt =====
-- internal/config/match.go, the elements of an address-match-list and the scan for geo rules, and
-- internal/view/matcher.go, which finds the view of a client. `strings.EqualFold` and the two GeoIP
-- databases are parameters; a database that is not loaded is `none`. The resolved list of a
-- reference and the list of a group are one thing, as the field `Sub` is; nil is the empty list.
pub mod Geo
mod Tests
use shadow_dns.Prelude.{
  ℕ, suc, Bool, true, false, ◌||◌, not, List, [], ◌∷◌, map, Option, none, some, ltb, leb, ◌==◌,
  if◌then◌else◌,
}
use shadow_dns.Names.{Name}
use shadow_dns.Net.{Addr, Prefix, addr_eqb, is_valid, contains, any_prefix_contains}

-- `MatchRule`
pub data MatchRule : Type 0 where
  country_rule : Name → MatchRule
  asn_rule : ℕ → MatchRule
  ip_rule : Addr → MatchRule
  cidr_rule : Prefix → MatchRule

-- `ElementKind`, with the payload of each kind that has one besides `Sub`.
pub data ElementKind : Type 0 where
  leaf : MatchRule → ElementKind
  any_acl none_acl localhost localnets : ElementKind
  ref : Name → ElementKind
  group : ElementKind

mutual
  -- The fields `Kind`, `Negated` and `Sub`.
  pub data Element : Type 0 where
    element : ElementKind → Bool → Elements → Element

  pub data Elements : Type 0 where
    nil : Elements
    cons : Element → Elements → Elements

abbrev pub max_element_depth : ℕ
max_element_depth = 64

unfoldable pub is_geo : MatchRule → Bool
is_geo (country_rule code) = true
is_geo (asn_rule n) = true
is_geo (ip_rule a) = false
is_geo (cidr_rule p) = false

-- `listHasGeoLeaf`: `list_has_geo_leaf` is its loop, with the depth found to be in range, and
-- `element_has_geo_leaf` the body; the call for `Sub` has its test of the depth with it.
unfoldable mutual
  pub element_has_geo_leaf : Element → ℕ → Bool
  element_has_geo_leaf (element (leaf rule) negated sub) depth = is_geo rule
  element_has_geo_leaf (element any_acl negated sub) depth = false
  element_has_geo_leaf (element none_acl negated sub) depth = false
  element_has_geo_leaf (element localhost negated sub) depth = false
  element_has_geo_leaf (element localnets negated sub) depth = false
  element_has_geo_leaf (element (ref name) negated sub) depth =
      let inner = list_has_geo_leaf sub (suc depth) in
      if ltb max_element_depth (suc depth) then false else inner
  element_has_geo_leaf (element group negated sub) depth =
      let inner = list_has_geo_leaf sub (suc depth) in
      if ltb max_element_depth (suc depth) then false else inner

  pub list_has_geo_leaf : Elements → ℕ → Bool
  list_has_geo_leaf nil depth = false
  list_has_geo_leaf (cons el elems) depth =
      element_has_geo_leaf el depth || list_has_geo_leaf elems depth

-- `View` of internal/config/zones.go, the fields that the two functions below read.
pub record View : Type 0 where
  pub name : Name
  pub match_clients : Elements
  pub line : ℕ
  pub source : Name

-- `FirstGeoRuleView`
unfoldable pub first_geo_rule_view : List View → Option (Name × Name × ℕ)
unfolding list_has_geo_leaf
first_geo_rule_view [] = none
first_geo_rule_view (v ∷ views) =
    if list_has_geo_leaf v.match_clients 0
    then some (v.name, v.source, v.line)
    else first_geo_rule_view views

-- `NamedRuleSet` and `Matcher`
pub record NamedRuleSet : Type 0 where
  pub name : Name
  pub rules : Elements

pub record Matcher : Type 0 where
  pub views : List NamedRuleSet
  pub country : Option (Addr → Option Name)
  pub asn : Option (Addr → Option ℕ)
  pub localhost_nets : List Prefix
  pub localnets_nets : List Prefix

-- The rule sets that internal/server/build.go makes of the views.
unfoldable pub rule_set : View → NamedRuleSet
rule_set v = record { name = v.name; rules = v.match_clients }

module _ (equal_fold : Name → Name → Bool) where
  -- `leafMatches`, with `matchIP` and `matchCIDR` of internal/view/netmatch.go
  unfoldable pub leaf_matches : Matcher → MatchRule → Addr → Addr → Bool
  leaf_matches m (country_rule code) src_ip geo_ip = elim m.country [
    | none ↦ false
    | some db ↦ elim (db geo_ip) [ none ↦ false | some found ↦ equal_fold found code ]
  ]
  leaf_matches m (asn_rule n) src_ip geo_ip = elim m.asn [
    | none ↦ false
    | some db ↦ elim (db geo_ip) [ none ↦ false | some found ↦ found == n ]
  ]
  leaf_matches m (ip_rule ip) src_ip geo_ip = addr_eqb ip src_ip
  leaf_matches m (cidr_rule prefix) src_ip geo_ip = contains prefix src_ip

  -- `elementFires`, and `list_accepts`, the loop of `listAccepts`; its test of the depth stands
  -- with the call.
  unfoldable mutual
    pub element_fires : Matcher → Element → Addr → Addr → ℕ → Bool
    element_fires m (element any_acl negated sub) src_ip geo_ip depth = true
    element_fires m (element none_acl negated sub) src_ip geo_ip depth = false
    element_fires m (element localhost negated sub) src_ip geo_ip depth =
        any_prefix_contains m.localhost_nets src_ip
    element_fires m (element localnets negated sub) src_ip geo_ip depth =
        any_prefix_contains m.localnets_nets src_ip
    element_fires m (element (leaf rule) negated sub) src_ip geo_ip depth =
        leaf_matches m rule src_ip geo_ip
    element_fires m (element (ref name) negated sub) src_ip geo_ip depth =
        let inner = list_accepts m sub src_ip geo_ip (suc depth) in
        if ltb max_element_depth (suc depth) then false else inner
    element_fires m (element group negated sub) src_ip geo_ip depth =
        let inner = list_accepts m sub src_ip geo_ip (suc depth) in
        if ltb max_element_depth (suc depth) then false else inner

    pub list_accepts : Matcher → Elements → Addr → Addr → ℕ → Bool
    list_accepts m nil src_ip geo_ip depth = false
    list_accepts m (cons (element kind negated sub) elems) src_ip geo_ip depth =
        let rest = list_accepts m elems src_ip geo_ip depth in
        if element_fires m (element kind negated sub) src_ip geo_ip depth then not negated else rest

  -- The loop of `Resolve`.
  unfoldable pub first_accepting : Matcher → List NamedRuleSet → Addr → Addr → Name
  unfolding list_accepts
  first_accepting m [] src_ip geo_ip = []
  first_accepting m (v ∷ views) src_ip geo_ip =
      if list_accepts m v.rules src_ip geo_ip 0
      then v.name
      else first_accepting m views src_ip geo_ip

  -- `Resolve`
  unfoldable pub resolve : Matcher → Addr → Addr → Name
  unfolding first_accepting
  resolve m src_ip geo_ip =
      first_accepting m m.views src_ip (if is_valid geo_ip then geo_ip else src_ip)
