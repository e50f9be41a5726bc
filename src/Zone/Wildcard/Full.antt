-- ===== src/Zone/Wildcard/Full.antt =====
-- No zone that `AddRR` builds has an owner whose map of types is empty.
use shadow_dns.Prelude.{
  ℕ, ◌≡◌, ◌≢◌, refl, ◌∙◌, ap, Bool, true, false, List, [], ◌∷◌, ◌++◌, Option, none, some, arith,
  ◌=?◌, nat_eq, list_eq, Bool-cases, if◌then◌else◌, inl, inr,
}
use shadow_dns.Prelude.Map.{Map, lookup, insert, lookup-insert}
use shadow_dns.Names.{Name, to_lower, is_in_zone}
use shadow_dns.Dns.{Rr}
use shadow_dns.Zone.{
  Zone, QtypeStore, single, promoted, rrs_at, contains_duplicate, store_rr, add_rr, load_records,
}
use shadow_dns.Zone.Stored.{empty_zone}
use shadow_dns.Zone.Wildcard.Climb.{NoEmptyStore}

insert-not-nil : (q : ℕ) (rrs : List Rr) (sub : Map ℕ (List Rr)) → insert q rrs sub ≢ []
unfolding insert
insert-not-nil q rrs [] e = cc
insert-not-nil q rrs (x ∷ sub) e = ground (arith, e)

either-NoEmptyStore :
    (b : Bool) (y z : Zone) → NoEmptyStore y → NoEmptyStore z → NoEmptyStore (if b then y else z)
either-NoEmptyStore true y z full other = full
either-NoEmptyStore false y z full other = other

abbrev sub_of : QtypeStore → Map ℕ (List Rr)
sub_of (single q rrs) = []
sub_of (promoted sub) = sub

module _ (unicode_lower : Name → Name) (is_duplicate : Rr → Rr → Bool) where
  store_rr-some :
      (s : Option QtypeStore) (rr : Rr)
      → s ≢ some (promoted [])
      → (store_rr is_duplicate s rr).0 ≢ promoted []
  unfolding store_rr
  store_rr-some none rr h e = cc
  store_rr-some (some (single q rrs)) rr h e = ground (arith, e)
  store_rr-some (some (promoted sub)) rr h e =
      elim (Bool-cases (contains_duplicate is_duplicate (rrs_at rr.rrtype sub) rr)) [
        | inl there ↦
            let same : promoted sub ≡ promoted [] = ground (arith, e, there) in
            h (ap (λ (s : QtypeStore). some s) same)
        | inr new ↦
            let grown = insert rr.rrtype (rrs_at rr.rrtype sub ++ rr ∷ []) sub in
            let empty : promoted grown ≡ promoted [] = ground (arith, e, new) in
            insert-not-nil rr.rrtype (rrs_at rr.rrtype sub ++ rr ∷ []) sub (ap sub_of empty)
      ]

  add_rr-NoEmptyStore :
      (rr : Rr) (z : Zone)
      → NoEmptyStore z
      → NoEmptyStore (add_rr unicode_lower is_duplicate rr z).0
  unfolding add_rr
  add_rr-NoEmptyStore rr z full k s h e =
      let key = to_lower unicode_lower rr.name in
      let before = lookup key z.records in
      let kept : before ≢ some (promoted []) = λ p. full key (promoted []) p refl in
      let after = (store_rr is_duplicate before rr).0 in
      elim (Bool-cases (key =? k)) [
        | inl same ↦
            let now : after ≡ s = ground (arith, h, same, lookup-insert key k after z.records) in
            store_rr-some before rr kept (now ∙ e)
        | inr other ↦ full k s (ground (arith, h, other, lookup-insert key k after z.records)) e
      ]

module _ (unicode_lower : Name → Name) (is_duplicate : Rr → Rr → Bool)
    (is_sub_domain : Name → Name → Bool) (origin : Name) where
  load_records-NoEmptyStore_from :
      (rrs : List Rr) (z : Zone)
      → NoEmptyStore z
      → NoEmptyStore (load_records unicode_lower is_duplicate is_sub_domain origin rrs z)
  unfolding load_records
  load_records-NoEmptyStore_from [] z full = full
  load_records-NoEmptyStore_from (rr ∷ rrs) z full =
      let owner_name = to_lower unicode_lower rr.name in
      let inside = is_in_zone is_sub_domain owner_name origin in
      load_records-NoEmptyStore_from rrs _ (
        either-NoEmptyStore inside _ z (add_rr-NoEmptyStore unicode_lower is_duplicate rr z full)
          full)

  -- A loaded zone has no empty store.
  pub load_records-NoEmptyStore :
      (rrs : List Rr) (path : Name)
      → NoEmptyStore (
          load_records unicode_lower is_duplicate is_sub_domain origin rrs (empty_zone origin path))
  unfolding lookup
  load_records-NoEmptyStore rrs path =
      load_records-NoEmptyStore_from rrs (empty_zone origin path) (λ k s h. cc)
