-- ===== src/Zone/Wildcard.antt =====
-- `LookupWildcard` and `HasWildcard` of internal/zone/zone.go. The parents of a name are the names
-- that the loop steps through. `dns.NextLabel(name, 0)` is the parameter `next_label`: the offset
-- of the next label, or `none` at the end of the name. `dns.IsSubDomain` is a parameter too.
pub mod Climb
pub mod Full
use shadow_dns.Prelude.{
  ℕ, zero, suc, Bool, true, false, List, [], ◌∷◌, ◌++◌, Option, none, some, ◌==◌, Equality, ◌=?◌,
  nat_eq, list_eq, not, if◌then◌else◌, length, drop,
}
use shadow_dns.Prelude.Map.{Map, lookup}
use shadow_dns.Names.{Name, has_escape, is_in_zone}
use shadow_dns.Dns.{Rr}
use shadow_dns.Zone.{Zone, QtypeStore, single, promoted, rrs_of}

-- The suffixes behind each dot: `strings.Index(name, ".")`, then `name[idx+1:]`, and so on.
unfoldable pub dot_parents : Name → List Name
dot_parents [] = []
dot_parents (c ∷ name) = let rest = dot_parents name in if c == b'.' then name ∷ rest else rest

abbrev pub wildcard_of : Name → Name
wildcard_of parent = b'*' ∷ b'.' ∷ parent

-- `wildcardHit`; type 0 asks whether the owner exists.
unfoldable pub wildcard_hit : QtypeStore → ℕ → List Rr × Bool
unfolding rrs_of
wildcard_hit (single q rrs) qtype =
    if qtype == 0 then ([], true) else (rrs_of qtype (single q rrs), true)
wildcard_hit (promoted []) qtype =
    if qtype == 0 then ([], false) else (rrs_of qtype (promoted []), true)
wildcard_hit (promoted (e ∷ sub)) qtype =
    if qtype == 0 then ([], true) else (rrs_of qtype (promoted (e ∷ sub)), true)

-- The lookup of `"*." + z.Origin`.
unfoldable pub wildcard_at_origin : Zone → ℕ → List Rr × Bool
unfolding wildcard_hit
wildcard_at_origin z qtype = elim (lookup (wildcard_of z.origin) z.records) [
  | none ↦ ([], false)
  | some s ↦ wildcard_hit s qtype
]

module _ (next_label : Name → Option ℕ) where
  unfoldable pub escaped_parents : ℕ → Name → List Name
  escaped_parents zero name = []
  escaped_parents (suc fuel) name = elim (next_label name) [
    | none ↦ []
    | some off ↦ drop off name ∷ escaped_parents fuel (drop off name)
  ]

  unfoldable pub parents : Name → List Name
  unfolding dot_parents escaped_parents
  parents qname =
      if has_escape qname then escaped_parents (suc (length qname)) qname else dot_parents qname

module _ (is_sub_domain : Name → Name → Bool) where
  -- The loop of `LookupWildcard`, over the parents that are ahead.
  unfoldable pub climb : Zone → ℕ → List Name → List Rr × Bool
  unfolding wildcard_hit wildcard_at_origin
  climb z qtype [] = wildcard_at_origin z qtype
  climb z qtype (parent ∷ above) =
      let rest = climb z qtype above in
      if parent =? z.origin
      then wildcard_at_origin z qtype
      else if not (is_in_zone is_sub_domain parent z.origin)
      then ([], false)
      else elim (lookup (wildcard_of parent) z.records) [
        | some s ↦ wildcard_hit s qtype
        | none ↦ elim (lookup parent z.records) [ some s ↦ ([], false) | none ↦ rest ]
      ]

module _ (next_label : Name → Option ℕ) (is_sub_domain : Name → Name → Bool) where
  unfoldable pub lookup_wildcard : Zone → Name → ℕ → List Rr × Bool
  unfolding climb parents
  lookup_wildcard z qname qtype =
      if qname =? z.origin
      then ([], false)
      else climb is_sub_domain z qtype (parents next_label qname)

  unfoldable pub has_wildcard : Zone → Name → Bool
  unfolding lookup_wildcard
  has_wildcard z qname = (lookup_wildcard z qname 0).1
