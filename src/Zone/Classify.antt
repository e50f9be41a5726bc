-- ===== src/Zone/Classify.antt =====
-- internal/zone/classify.go: the role of a zone, and the records that a backup zone keeps. What
-- `filterBackupRecords` logs, and the histogram that it logs, are not modelled.
pub mod Kept
use shadow_dns.Prelude.{
  ℕ, Bool, true, false, ◌||◌, List, [], ◌∷◌, map, Option, none, some, ◌==◌, Equality, nat_eq,
  list_eq, if◌then◌else◌,
}
use shadow_dns.Prelude.Map.{Map, lookup, insert, remove}
use shadow_dns.Names.{Name}
use shadow_dns.Dns.TypeCode
use shadow_dns.Dns.{Rr}
use shadow_dns.Zone.{Zone, QtypeStore, single, promoted, role_root, role_backup_override}

-- `OverridableTypes` of internal/dnsutil/dnsutil.go
unfoldable pub is_overridable : ℕ → Bool
is_overridable q = (q == TypeCode.txt) || (q == TypeCode.mx) || q == TypeCode.srv

-- `for rrtype, rrs := range s.sub { … delete(s.sub, rrtype) }`, over the keys of the map.
unfoldable pub filter_sub : List ℕ → Map ℕ (List Rr) → Map ℕ (List Rr)
unfolding is_overridable
filter_sub [] sub = sub
filter_sub (q ∷ qs) sub = filter_sub qs (if is_overridable q then sub else remove q sub)

-- The body of the loop over the owners; `none` deletes the owner.
unfoldable pub filter_store : QtypeStore → Option QtypeStore
unfolding filter_sub
filter_store (single q rrs) = if is_overridable q then some (single q rrs) else none
filter_store (promoted sub) = elim (filter_sub (map (λ (p : ℕ × List Rr). p.0) sub) sub) [
  | [] ↦ none
  | e ∷ rest ↦ some (promoted (e ∷ rest))
]

-- The loop over the owners, over the keys of the map.
unfoldable pub filter_owners : List Name → Map Name QtypeStore → Map Name QtypeStore
unfolding filter_store
filter_owners [] records = records
filter_owners (owner ∷ owners) records = filter_owners owners (elim (lookup owner records) [
  | none ↦ records
  | some s ↦ elim (filter_store s) [
    | none ↦ remove owner records
    | some kept ↦ insert owner kept records
  ]
])

unfoldable pub filter_backup_records : Zone → Zone
unfolding filter_owners
filter_backup_records z = record z {
  soa = none;
  records = filter_owners (map (λ (p : Name × QtypeStore). p.0) z.records) z.records;
}

-- `Classify`
unfoldable pub classify : Map Name Name → Zone → Zone
unfolding filter_backup_records
classify aliases z = elim (lookup z.origin aliases) [
  | some root ↦ filter_backup_records (record z { role = role_backup_override })
  | none ↦ record z { role = role_root }
]
