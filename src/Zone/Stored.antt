-- ===== src/Zone/Stored.antt =====
-- What `AddRR` stores, read through `Lookup`: the two states of an owner's store cannot be told
-- apart, no RRset holds a duplicate, and every record stands under its own name and type.
use shadow_dns.Prelude.{
  ℕ, ◌≡◌, refl, sym, ◌∙◌, subst, Bool, false, ◌&&◌, List, [], ◌∷◌, ◌++◌, Option, none, some, arith,
  ◌==◌, ◌=?◌, =?-true, nat_eq, list_eq, if◌then◌else◌, any, any-append, keep, Bool-cases, inl, inr,
}
use shadow_dns.Prelude.Map.{lookup, lookup-insert}
use shadow_dns.Names.{Name, to_lower, is_in_zone}
use shadow_dns.Dns.{Rr}
use shadow_dns.Zone.{
  Zone, QtypeStore, single, promoted, role_unknown, rrs_at, rrs_of, lookup_rrs, contains_duplicate,
  store_rr, add_rr, load_records,
}

abbrev rrs_in : ℕ → Option QtypeStore → List Rr
rrs_in q none = []
rrs_in q (some s) = rrs_of q s

module _ (is_duplicate : Rr → Rr → Bool) where
  -- An RRset with one more record, where it is no duplicate.
  abbrev pub with_rr : List Rr → Rr → List Rr
  with_rr rrs rr = if contains_duplicate is_duplicate rrs rr then rrs else rrs ++ rr ∷ []

  store_rr_lem :
      (q : ℕ) (s : Option QtypeStore) (rr : Rr)
      → rrs_of q ((store_rr is_duplicate s rr).0)
        ≡ (if rr.rrtype == q then with_rr (rrs_in q s) rr else rrs_in q s)
  unfolding store_rr rrs_of rrs_at contains_duplicate lookup
  store_rr_lem q none rr = ground arith
  store_rr_lem q (some (single k rrs)) rr = ground arith
  store_rr_lem q (some (promoted sub)) rr =
      ground (arith, lookup-insert rr.rrtype q (rrs_at rr.rrtype sub ++ rr ∷ []) sub)

  with_rr-unit : (rr : Rr) → with_rr [] rr ≡ rr ∷ []
  unfolding contains_duplicate
  with_rr-unit rr = refl

  -- No record is a duplicate of an earlier one.
  abbrev pub NoDuplicates : List Rr → Type 0
  NoDuplicates [] = Unit
  NoDuplicates (rr ∷ rrs) = (any (λ later. is_duplicate rr later) rrs ≡ false) × NoDuplicates rrs

  append-NoDuplicates :
      (rrs : List Rr) (rr : Rr)
      → NoDuplicates rrs
      → contains_duplicate is_duplicate rrs rr ≡ false
      → NoDuplicates (rrs ++ rr ∷ [])
  unfolding contains_duplicate
  append-NoDuplicates [] rr d h = (refl, tt)
  append-NoDuplicates (x ∷ rrs) rr (fresh, d) h = (
    any-append (λ later. is_duplicate x later) rrs (rr ∷ []) ∙ ground (arith, fresh, h),
    append-NoDuplicates rrs rr d (ground (arith, h)),
  )

  with_rr-NoDuplicates :
      (rrs : List Rr) (rr : Rr) → NoDuplicates rrs → NoDuplicates (with_rr rrs rr)
  with_rr-NoDuplicates rrs rr d = elim (Bool-cases (contains_duplicate is_duplicate rrs rr)) [
    | inl there ↦ rw there d
    | inr new ↦ rw new (append-NoDuplicates rrs rr d new)
  ]

  -- The records of a sequence that are no duplicate of an earlier one, in order, behind `acc`.
  abbrev pub first_of_each : List Rr → List Rr → List Rr
  first_of_each acc [] = acc
  first_of_each acc (rr ∷ rrs) = first_of_each (with_rr acc rr) rrs

  first_of_each-NoDuplicates :
      (acc rrs : List Rr) → NoDuplicates acc → NoDuplicates (first_of_each acc rrs)
  first_of_each-NoDuplicates acc [] d = d
  first_of_each-NoDuplicates acc (rr ∷ rrs) d =
      first_of_each-NoDuplicates (with_rr acc rr) rrs (with_rr-NoDuplicates acc rr d)

abbrev pub empty_zone : Name → Name → Zone
empty_zone origin path = record {
  origin = origin;
  path = path;
  soa = none;
  records = [];
  role = role_unknown;
}

module _ (unicode_lower : Name → Name) (is_duplicate : Rr → Rr → Bool) where
  -- The record belongs to the RRset of a name and a type.
  abbrev pub is_at : Name → ℕ → Rr → Bool
  is_at k q rr = (to_lower unicode_lower rr.name =? k) && rr.rrtype == q

  -- `Lookup` after `AddRR`: the RRset of the record's name and type has it, unless a duplicate of
  -- it was there, and every other RRset is what it was.
  pub lookup_rrs-add_rr :
      (rr : Rr) (z : Zone) (k : Name) (q : ℕ)
      → lookup_rrs k q ((add_rr unicode_lower is_duplicate rr z).0)
        ≡ (if is_at k q rr then with_rr is_duplicate (lookup_rrs k q z) rr else lookup_rrs k q z)
  unfolding add_rr lookup_rrs
  lookup_rrs-add_rr rr z k q =
      let key = to_lower unicode_lower rr.name in
      let there = lookup key z.records in
      let after = (store_rr is_duplicate there rr).0 in
      ground (
        arith,
        lookup-insert key k after z.records,
        store_rr_lem is_duplicate q there rr,
        =?-true key k,
      )

module _ (unicode_lower : Name → Name) (is_duplicate : Rr → Rr → Bool)
    (is_sub_domain : Name → Name → Bool) (origin : Name) where
  -- The record belongs to the zone, and to the RRset of a name and a type.
  abbrev pub is_loaded_at : Name → ℕ → Rr → Bool
  is_loaded_at k q rr =
      is_in_zone is_sub_domain (to_lower unicode_lower rr.name) origin
      && is_at unicode_lower is_duplicate k q rr

  lookup_rrs-load_records_from :
      (rrs : List Rr) (z : Zone) (k : Name) (q : ℕ)
      → lookup_rrs k q (load_records unicode_lower is_duplicate is_sub_domain origin rrs z)
        ≡ first_of_each is_duplicate (lookup_rrs k q z) (keep (is_loaded_at k q) rrs)
  unfolding load_records
  lookup_rrs-load_records_from [] z k q = refl
  lookup_rrs-load_records_from (rr ∷ rrs) z k q =
      let owner_name = to_lower unicode_lower rr.name in
      let after = (add_rr unicode_lower is_duplicate rr z).0 in
      let next = if is_in_zone is_sub_domain owner_name origin then after else z in
      lookup_rrs-load_records_from rrs next k q
      ∙ ground (arith, lookup_rrs-add_rr unicode_lower is_duplicate rr z k q)

  -- A loaded zone has, under each name and type, the records of the file that have them and are in
  -- the zone, in their order, each but the first of its duplicates left out.
  pub lookup_rrs-load_records :
      (rrs : List Rr) (path k : Name) (q : ℕ)
      → lookup_rrs k q (
          load_records unicode_lower is_duplicate is_sub_domain origin rrs (empty_zone origin path))
        ≡ first_of_each is_duplicate [] (keep (is_loaded_at k q) rrs)
  unfolding lookup_rrs lookup
  lookup_rrs-load_records rrs path k q =
      lookup_rrs-load_records_from rrs (empty_zone origin path) k q

  -- No RRset of a loaded zone holds a duplicate.
  pub load_records-NoDuplicates :
      (rrs : List Rr) (path k : Name) (q : ℕ)
      → NoDuplicates is_duplicate (
          lookup_rrs k q (
            load_records unicode_lower is_duplicate is_sub_domain origin rrs
              (empty_zone origin path)))
  load_records-NoDuplicates rrs path k q =
      subst (λ (x : List Rr). NoDuplicates is_duplicate x)
        (sym (lookup_rrs-load_records rrs path k q))
        (first_of_each-NoDuplicates is_duplicate [] (keep (is_loaded_at k q) rrs) tt)
