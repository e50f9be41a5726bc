-- ===== src/Transfer/Axfr/Complete.antt =====
-- Every record of a zone but its SOA records is transferred, and nothing else.
use shadow_dns.Prelude.{
  ℕ, ◌≡◌, refl, ◌∙◌, ap, Bool, ◌||◌, ◌&&◌, List, [], ◌∷◌, arith, ◌==◌, any, any-append, Bool-cases,
  inl, inr, nat_eq, list_eq, not,
}
use shadow_dns.Prelude.Map.{Map}
use shadow_dns.Names.{Name}
use shadow_dns.Dns.TypeCode
use shadow_dns.Dns.{Rr}
use shadow_dns.Zone.{Zone, QtypeStore}
use shadow_dns.Transfer.Axfr.{
  insert_sorted, sort, each, sorted_owners, non_soa, non_soa_of, collect_non_soa,
}

module _ {A : Type 0} (before : A → A → Bool) (p : A → Bool) where
  insert_sorted-any : (x : A) (xs : List A) → any p (insert_sorted before x xs) ≡ (p x || any p xs)
  unfolding insert_sorted
  insert_sorted-any x [] = refl
  insert_sorted-any x (y ∷ ys) = ground (arith, insert_sorted-any x ys)

  -- Sorting keeps the elements.
  pub sort-any : (xs : List A) → any p (sort before xs) ≡ any p xs
  unfolding sort
  sort-any [] = refl
  sort-any (x ∷ xs) = insert_sorted-any x (sort before xs) ∙ ground (arith, sort-any xs)

module _ (p : Rr → Bool) where
  -- Some record of the store, of a type that is not SOA, passes the test.
  abbrev pub in_sub : Map ℕ (List Rr) → Bool
  in_sub = any (λ (e : ℕ × List Rr). not (e.0 == TypeCode.soa) && any p e.1)

  -- The same of the stores of a zone.
  abbrev pub in_zone : List (Name × QtypeStore) → Bool
  in_zone = any (λ (e : Name × QtypeStore). in_sub (each e.1))

  non_soa-any : (sub : Map ℕ (List Rr)) → any p (non_soa sub) ≡ in_sub sub
  unfolding non_soa
  non_soa-any [] = refl
  non_soa-any ((rrtype, rrs) ∷ sub) = elim (Bool-cases (rrtype == TypeCode.soa)) [
    | inl e ↦ rw e (non_soa-any sub)
    | inr e ↦ rw e (any-append p rrs (non_soa sub) ∙ ap (λ b. any p rrs || b) (non_soa-any sub))
  ]

  non_soa_of-any : (stores : List (Name × QtypeStore)) → any p (non_soa_of stores) ≡ in_zone stores
  unfolding non_soa_of
  non_soa_of-any [] = refl
  non_soa_of-any ((owner, s) ∷ stores) =
      any-append p (non_soa (each s)) (non_soa_of stores)
      ∙ ground (arith, non_soa-any (each s), non_soa_of-any stores)

  -- The records of a zone transfer are those of the zone's stores, but those stored as SOA: a test
  -- passes one of them exactly if it passes one of these.
  pub collect_non_soa-any : (z : Zone) → any p (collect_non_soa z) ≡ in_zone z.records
  unfolding collect_non_soa sorted_owners
  collect_non_soa-any z =
      non_soa_of-any (sorted_owners z)
      ∙ sort-any _ (λ (e : Name × QtypeStore). in_sub (each e.1)) z.records
