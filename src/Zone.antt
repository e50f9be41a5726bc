-- ===== src/Zone.antt =====
-- internal/zone/zone.go: the records of a zone, indexed by owner and type. A parent of a name and
-- the wildcards are in Wildcard, the chains of CNAME records in Cname; `Stored` is about what
-- `AddRR` keeps. `strings.ToLower` on a name that is not ASCII and `dns.IsDuplicate` are
-- parameters.
pub mod Stored
pub mod Plain
pub mod Wildcard
pub mod Cname
pub mod Classify
mod Tests
use shadow_dns.Prelude.{
  ℕ, Bool, true, false, List, [], ◌∷◌, ◌++◌, Option, none, some, ◌==◌, Equality, ◌=?◌, nat_eq,
  list_eq, if◌then◌else◌, any,
}
use shadow_dns.Prelude.Map.{Map, lookup, insert}
use shadow_dns.Names.{Name, to_lower, is_in_zone}
use shadow_dns.Dns.{Rr, Rdata, soa}

pub data Role : Type 0 where
  role_unknown role_root role_backup_override : Role

-- `qtypeStore`: the field `single` tells the two states apart.
pub data QtypeStore : Type 0 where
  single : ℕ → List Rr → QtypeStore
  promoted : Map ℕ (List Rr) → QtypeStore

pub record Zone : Type 0 where
  pub origin : Name
  pub path : Name
  pub soa : Option Rr
  pub records : Map Name QtypeStore
  pub role : Role

-- The read of a Go map of slices: nil for a missing key.
unfoldable pub rrs_at : ℕ → Map ℕ (List Rr) → List Rr
rrs_at qtype sub = elim (lookup qtype sub) [ none ↦ [] | some rrs ↦ rrs ]

-- The records of a type in a store, as `Lookup` and `wildcardHit` read them.
unfoldable pub rrs_of : ℕ → QtypeStore → List Rr
unfolding rrs_at
rrs_of qtype (single q rrs) = if q == qtype then rrs else []
rrs_of qtype (promoted sub) = rrs_at qtype sub

-- `Lookup`
unfoldable pub lookup_rrs : Name → ℕ → Zone → List Rr
unfolding rrs_of
lookup_rrs owner qtype z = elim (lookup owner z.records) [ none ↦ [] | some s ↦ rrs_of qtype s ]

unfoldable pub is_soa : Rr → Bool
is_soa rr = elim rr.rdata [ soa a b c d e f g ↦ true | _ ↦ false ]

module _ (is_duplicate : Rr → Rr → Bool) where
  unfoldable pub contains_duplicate : List Rr → Rr → Bool
  contains_duplicate rrs rr = any (λ existing. is_duplicate existing rr) rrs

  -- The `switch` of `AddRR`: the store of the owner after it, and whether the record was stored.
  unfoldable pub store_rr : Option QtypeStore → Rr → QtypeStore × Bool
  unfolding contains_duplicate rrs_at
  store_rr none rr = (single rr.rrtype (rr ∷ []), true)
  store_rr (some (single qtype rrs)) rr =
      if qtype == rr.rrtype
      then (if contains_duplicate rrs rr
          then (single qtype rrs, false)
          else (single qtype (rrs ++ rr ∷ []), true))
      else (promoted ((qtype, rrs) ∷ (rr.rrtype, rr ∷ []) ∷ []), true)
  store_rr (some (promoted sub)) rr =
      let rrs = rrs_at rr.rrtype sub in
      if contains_duplicate rrs rr
      then (promoted sub, false)
      else (promoted (insert rr.rrtype (rrs ++ rr ∷ []) sub), true)

module _ (unicode_lower : Name → Name) (is_duplicate : Rr → Rr → Bool) where
  -- `AddRR`
  unfoldable pub add_rr : Rr → Zone → Zone × Bool
  unfolding store_rr is_soa
  add_rr rr z =
      let key = to_lower unicode_lower rr.name in
      let (s, stored) = store_rr is_duplicate (lookup key z.records) rr in
      (
        record z {
          soa = if stored then (if is_soa rr then some rr else z.soa) else z.soa;
          records = insert key s z.records;
        },
        stored,
      )

-- The loop of `ParseFile` (internal/zone/parser.go) over the records of a zone file: one whose
-- owner is out of the zone is ignored.
module _ (unicode_lower : Name → Name) (is_duplicate : Rr → Rr → Bool)
    (is_sub_domain : Name → Name → Bool) (canon_origin : Name) where
  unfoldable pub load_records : List Rr → Zone → Zone
  unfolding add_rr
  load_records [] z = z
  load_records (rr ∷ rrs) z =
      let owner_name = to_lower unicode_lower rr.name in
      load_records rrs (
        if is_in_zone is_sub_domain owner_name canon_origin
        then (add_rr unicode_lower is_duplicate rr z).0
        else z)
