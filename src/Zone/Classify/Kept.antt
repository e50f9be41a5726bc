-- ===== src/Zone/Classify/Kept.antt =====
-- What a backup zone answers after `Classify`.
use shadow_dns.Prelude.{
  ℕ, ◌≡◌, refl, ◌∙◌, false, List, [], ◌∷◌, map, any, Option, none, some, arith, ◌==◌, ◌=?◌, =?-true,
  nat_eq, list_eq, if◌then◌else◌, Option-cases, inl, inr,
}
use shadow_dns.Prelude.Map.{Map, lookup, insert, remove, lookup-insert, lookup-remove}
use shadow_dns.Names.{Name}
use shadow_dns.Dns.{Rr}
use shadow_dns.Zone.{Zone, QtypeStore, single, promoted, rrs_at, rrs_of, lookup_rrs}
use shadow_dns.Zone.Classify.{
  is_overridable, filter_sub, filter_store, filter_owners, filter_backup_records, classify,
}

-- The records of a type, where a backup zone may have it.
abbrev pub if_overridable : ℕ → List Rr → List Rr
if_overridable q rrs = if is_overridable q then rrs else []

rrs_at-filter_sub :
    (q : ℕ) (qs : List ℕ) (sub : Map ℕ (List Rr))
    → rrs_at q (filter_sub qs sub)
      ≡ (if any (λ (k : ℕ). k == q) qs then if_overridable q (rrs_at q sub) else rrs_at q sub)
unfolding filter_sub rrs_at
rrs_at-filter_sub q [] sub = refl
rrs_at-filter_sub q (k ∷ qs) sub =
    let next = if is_overridable k then sub else remove k sub in
    ground (arith, rrs_at-filter_sub q qs next, lookup-remove k q sub)

rrs_at-absent :
    (q : ℕ) (sub : Map ℕ (List Rr))
    → any (λ (k : ℕ). k == q) (map (λ (p : ℕ × List Rr). p.0) sub) ≡ false
    → rrs_at q sub ≡ []
unfolding rrs_at lookup
rrs_at-absent q [] h = refl
rrs_at-absent q ((k, rrs) ∷ sub) h = ground (arith, h, rrs_at-absent q sub)

rrs_at-filtered :
    (q : ℕ) (sub : Map ℕ (List Rr))
    → rrs_at q (filter_sub (map (λ (p : ℕ × List Rr). p.0) sub) sub)
      ≡ if_overridable q (rrs_at q sub)
rrs_at-filtered q sub =
    let keys = map (λ (p : ℕ × List Rr). p.0) sub in
    ground (arith, rrs_at-filter_sub q keys sub, rrs_at-absent q sub)

abbrev stored_rrs : ℕ → Option QtypeStore → List Rr
stored_rrs q none = []
stored_rrs q (some s) = rrs_of q s

rrs-promoted :
    (q : ℕ) (sub : Map ℕ (List Rr))
    → stored_rrs q (elim sub [ [] ↦ none | e ∷ rest ↦ some (promoted (e ∷ rest)) ]) ≡ rrs_at q sub
unfolding rrs_of rrs_at lookup
rrs-promoted q [] = refl
rrs-promoted q (e ∷ rest) = refl

rrs-filter_store :
    (q : ℕ) (s : QtypeStore) → stored_rrs q (filter_store s) ≡ if_overridable q (rrs_of q s)
unfolding filter_store rrs_of
rrs-filter_store q (single k rrs) = ground arith
rrs-filter_store q (promoted sub) =
    rrs-promoted q (filter_sub (map (λ (p : ℕ × List Rr). p.0) sub) sub)
    ∙ rrs_at-filtered q sub
    ∙ ground arith

abbrev rrs_under : Name → ℕ → Map Name QtypeStore → List Rr
rrs_under k q records = stored_rrs q (lookup k records)

-- One round of the loop over the owners.
abbrev filter_owner : Name → Map Name QtypeStore → Map Name QtypeStore
filter_owner owner records = elim (lookup owner records) [
  | none ↦ records
  | some s ↦ elim (filter_store s) [
    | none ↦ remove owner records
    | some kept ↦ insert owner kept records
  ]
]

rrs_under-filter_owner :
    (owner k : Name) (q : ℕ) (records : Map Name QtypeStore)
    → rrs_under k q (filter_owner owner records)
      ≡ (if owner =? k then if_overridable q (rrs_under k q records) else rrs_under k q records)
rrs_under-filter_owner owner k q records = elim (Option-cases (lookup owner records)) [
  | inl missing ↦ ground (arith, missing, =?-true owner k)
  | inr (s, there) ↦ elim (Option-cases (filter_store s)) [
    | inl emptied ↦ ground (
      arith,
      there,
      emptied,
      =?-true owner k,
      lookup-remove owner k records,
      rrs-filter_store q s,
    )
    | inr (kept, left) ↦ ground (
      arith,
      there,
      left,
      =?-true owner k,
      lookup-insert owner k kept records,
      rrs-filter_store q s,
    )
  ]
]

rrs_under-filter_owners :
    (k : Name) (q : ℕ) (owners : List Name) (records : Map Name QtypeStore)
    → rrs_under k q (filter_owners owners records) ≡ (
        if any (λ (o : Name). o =? k) owners
        then if_overridable q (rrs_under k q records)
        else rrs_under k q records)
unfolding filter_owners
rrs_under-filter_owners k q [] records = refl
rrs_under-filter_owners k q (o ∷ owners) records = ground (
  arith,
  rrs_under-filter_owners k q owners (filter_owner o records),
  rrs_under-filter_owner o k q records,
)

rrs_under-absent :
    (k : Name) (q : ℕ) (records : Map Name QtypeStore)
    → any (λ (o : Name). o =? k) (map (λ (p : Name × QtypeStore). p.0) records) ≡ false
    → rrs_under k q records ≡ []
unfolding lookup
rrs_under-absent k q [] h = refl
rrs_under-absent k q ((o, s) ∷ records) h = ground (arith, h, rrs_under-absent k q records)

lookup_rrs-rrs_under : (z : Zone) (k : Name) (q : ℕ) → lookup_rrs k q z ≡ rrs_under k q z.records
unfolding lookup_rrs
lookup_rrs-rrs_under z k q = ground arith

-- After `Classify`, a zone that is a backup answers the records of the types that a backup may
-- override, and no others; any other zone answers what it answered.
pub lookup_rrs-classify :
    (aliases : Map Name Name) (z : Zone) (k : Name) (q : ℕ)
    → lookup_rrs k q (classify aliases z) ≡ (elim (lookup z.origin aliases) [
      | none ↦ lookup_rrs k q z
      | some root ↦ if_overridable q (lookup_rrs k q z)
    ])
unfolding classify filter_backup_records lookup_rrs
lookup_rrs-classify aliases z k q =
    let owners = map (λ (p : Name × QtypeStore). p.0) z.records in
    ground (arith, rrs_under-filter_owners k q owners z.records, rrs_under-absent k q z.records)
