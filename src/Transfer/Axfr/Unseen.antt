-- ===== src/Transfer/Axfr/Unseen.antt =====
-- The overrides that a transfer of a backup zone does not see.
use shadow_dns.Prelude.{
  ℕ, ◌≡◌, ◌≢◌, refl, sym, ◌∙◌, Bool, true, List, [], ◌∷◌, Option, some, arith, leb, any,
  Option-cases, inl, inr, nat_eq, list_eq, ◌=?◌, =?-refl,
}
use shadow_dns.Prelude.Map.{Map}
use shadow_dns.Names.{Name}
use shadow_dns.Dns.{Rr}
use shadow_dns.Dns.Library.{Library}
use shadow_dns.Zone.{Zone, QtypeStore}
use shadow_dns.Alias.{rewrite_name}
use shadow_dns.Alias.Withhold.{WithheldRecord}
use shadow_dns.Transfer.Axfr.{
  sort, each, sorted_owners, override_at, alias_rrset, alias_types, alias_owners,
  build_alias_records,
}
use shadow_dns.Transfer.Axfr.Complete.{sort-any}

-- The zone has records at the name.
abbrev pub is_owner : Name → List (Name × QtypeStore) → Bool
is_owner n stores = any (λ (e : Name × QtypeStore). e.0 =? n) stores

module _ (lib : Library) (root_origin backup_origin original : Name) (labels : Bool)
    (own own' : Option Zone) (unseen : Name)
    (agree : (b : Name) (t : ℕ) → b ≢ unseen → override_at own b t ≡ override_at own' b t) where
  abbrev Out : Type 0
  Out = Option (List Rr × List WithheldRecord)

  alias_rrset-same :
      (b : Name) (t : ℕ) (rrs : List Rr)
      → b ≢ unseen
      → alias_rrset lib root_origin original labels own b t rrs
        ≡ alias_rrset lib root_origin original labels own' b t rrs
  unfolding alias_rrset
  alias_rrset-same b t rrs h = let same = agree b t h in rw (alias_rrset, same) refl

  alias_types-same :
      (b : Name) (sub : Map ℕ (List Rr))
      → b ≢ unseen
      → alias_types lib root_origin original labels own b sub
        ≡ alias_types lib root_origin original labels own' b sub
  unfolding alias_types
  alias_types-same b [] h = refl
  alias_types-same b ((t, rrs) ∷ sub) h =
      rw (alias_rrset-same b t rrs h, alias_types-same b sub h) refl

  -- No owner of these is rewritten to the name.
  abbrev Misses : List (Name × QtypeStore) → Type 0
  Misses stores =
      (n b : Name)
      → is_owner n stores ≡ true
      → rewrite_name lib.unicode_lower lib.is_sub_domain n root_origin backup_origin ≡ some b
      → b ≢ unseen

  alias_owners-same :
      (stores : List (Name × QtypeStore))
      → Misses stores
      → alias_owners lib root_origin original labels own backup_origin stores
        ≡ alias_owners lib root_origin original labels own' backup_origin stores
  unfolding alias_owners
  alias_owners-same [] h = refl
  alias_owners-same ((n, s) ∷ stores) h =
      let later = alias_owners-same stores (λ m b there e. h m b (ground (arith, there)) e) in
      elim (Option-cases
        (rewrite_name lib.unicode_lower lib.is_sub_domain n root_origin backup_origin)) [
          | inl e ↦ rw e refl
          | inr (b, e) ↦
              let apart = h n b (rw (=?-refl n) refl) e in
              rw
                (
                  e,
                  alias_types-same b (sort (λ (x y : ℕ × List Rr). leb x.0 y.0) (each s)) apart,
                  later,
                )
                refl
        ]

-- Two backup zones' own files that differ at one name only give the same zone transfer, where no
-- owner of the root zone is rewritten to the name. So a record of the backup zone's own file at
-- such a name is not transferred.
pub build_alias_records-unseen :
    (lib : Library) (z : Zone) (own own' : Option Zone) (root_origin backup_origin original : Name)
    (labels : Bool) (unseen : Name)
    → ((b : Name) (t : ℕ) → b ≢ unseen → override_at own b t ≡ override_at own' b t)
    → ((n b : Name)
        → is_owner n z.records ≡ true
        → rewrite_name lib.unicode_lower lib.is_sub_domain n root_origin backup_origin ≡ some b
        → b ≢ unseen)
    → build_alias_records lib z own root_origin backup_origin original labels
      ≡ build_alias_records lib z own' root_origin backup_origin original labels
unfolding build_alias_records sorted_owners
build_alias_records-unseen lib z own own' root_origin backup_origin original labels unseen agree
      misses =
    alias_owners-same lib root_origin backup_origin original labels own own' unseen agree
      (sorted_owners z)
      λ n b there e.
        misses n b (sym (sort-any _ (λ (x : Name × QtypeStore). x.0 =? n) z.records) ∙ there) e
