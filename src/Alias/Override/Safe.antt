-- ===== src/Alias/Override/Safe.antt =====
-- The answers of a backup zone name the root zone nowhere and hold nothing to be withheld, and making them does not panic, where
-- the names of the root zone and of the query are plain.
use shadow_dns.Prelude.{
  ℕ, ◌≡◌, ◌≢◌, inl, inr, refl, Bool, true, false, not, arith, List, [], ◌∷◌, Option, some, ◌==◌,
  nat_eq, list_eq, keep, All, Bool-cases, Option-cases,
}
use shadow_dns.Prelude.Partial.{traverse}
use shadow_dns.Names.{Name}
use shadow_dns.Dns.TypeCode
use shadow_dns.Dns.{Rr}
use shadow_dns.Dns.Names.{rr_names}
use shadow_dns.Dns.Library.{Library}
use shadow_dns.Zone.{Zone}
use shadow_dns.Zone.Plain.{PlainRrs, PlainZone, follow_cname-Plain}
use shadow_dns.Zone.Cname.{last_target}
use shadow_dns.Alias.Rewrite.{rewrite_rr}
use shadow_dns.Alias.Rewrite.Hides.{Hidden, AreApart, rewrite_rr-Hidden}
use shadow_dns.Alias.Rewrite.Total.{rewrite_rr-IsSome}
use shadow_dns.Alias.Withhold.{is_uncovered, WithheldRecord, filter_backup_rrs}
use shadow_dns.Alias.Withhold.Partition.{safe_rrs, filter_backup_rrs-partition}
use shadow_dns.Alias.Override.{followed, finalize_backup_rrs}

-- Records that may be shown: each names the root zone nowhere, and is the rewriting into the backup
-- zone of a record that is not to be withheld.
abbrev pub ShownRrs : Library → Name → Name → List Rr → Type 0
ShownRrs lib root backup = All (λ (r : Rr).
    All (Hidden root) (rr_names r)
    × (rr : Rr) × (is_uncovered lib rr ≡ false)
    × (rewrite_rr lib.unicode_lower lib.is_sub_domain root backup false rr ≡ some r))

-- What `keep` keeps passes its test.
keep-All : (p : Rr → Bool) (rrs : List Rr) → All (λ (rr : Rr). p rr ≡ true) (keep p rrs)
keep-All p [] = tt
keep-All p (rr ∷ rrs) = elim (Bool-cases (p rr)) [
  | inl e ↦ rw e (e, keep-All p rrs)
  | inr e ↦ rw e (keep-All p rrs)
]

pub keep-Plain : (p : Rr → Bool) (rrs : List Rr) → PlainRrs rrs → PlainRrs (keep p rrs)
keep-Plain p [] h = tt
keep-Plain p (rr ∷ rrs) (q, h) = elim (Bool-cases (p rr)) [
  | inl e ↦ rw e (q, keep-Plain p rrs h)
  | inr e ↦ rw e (keep-Plain p rrs h)
]

module _ (lib : Library) (z : Zone) (backup : Name) (apart : AreApart z.origin backup)
    (named : z.origin ≢ []) (plain : PlainZone z) where
  -- The rule of the rewriting into the backup zone.
  abbrev pub rule : Rr → Option Rr
  rule = rewrite_rr lib.unicode_lower lib.is_sub_domain z.origin backup false

  rewrite-Safe :
      (rrs : List Rr)
      → PlainRrs rrs
      → All (λ (rr : Rr). not (is_uncovered lib rr) ≡ true) rrs
      → (out : List Rr) × (traverse rule rrs ≡ some out) × ShownRrs lib z.origin backup out
  unfolding traverse
  rewrite-Safe [] h k = ([], refl, tt)
  rewrite-Safe (rr ∷ rrs) (p, h) (q, k) =
      let (r, e) = rewrite_rr-IsSome lib.unicode_lower lib.is_sub_domain z.origin backup rr p in
      let (out, e', hidden) = rewrite-Safe rrs h k in
      (
        r ∷ out,
        rw (e, e') refl,
        (
          (
            rewrite_rr-Hidden lib.unicode_lower lib.is_sub_domain z.origin backup rr apart named p
                e,
            rr,
            ground (arith, q),
            e,
          ),
          hidden,
        ),
      )

  followed-Plain : (rrs : List Rr) (qtype : ℕ) → PlainRrs rrs → PlainRrs (followed lib rrs qtype z)
  unfolding followed
  followed-Plain rrs qtype h =
      let chain =
        follow_cname-Plain lib.unicode_lower lib.next_label lib.is_sub_domain z plain rrs qtype h in
      elim (Bool-cases (qtype == TypeCode.cname)) [
        | inl e ↦ rw e h
        | inr e ↦ elim (Option-cases (last_target rrs)) [
          | inl f ↦ rw (e, f) h
          | inr (t, f) ↦ rw (e, f) chain
        ]
      ]

  -- `finalizeBackupRRs` of plain records does not panic, and what it answers may be shown.
  pub finalize_backup_rrs-Safe :
      (rrs : List Rr) (qtype : ℕ)
      → PlainRrs rrs
      → (out : List Rr × List WithheldRecord) × (finalize_backup_rrs lib rrs qtype z backup false
          ≡ some out)
        × ShownRrs lib z.origin backup out.0
  unfolding finalize_backup_rrs
  finalize_backup_rrs-Safe rrs qtype h =
      let chain = followed lib rrs qtype z in
      let split = filter_backup_rrs-partition lib chain in
      let (out, e, hidden) =
        rewrite-Safe (safe_rrs lib chain) (keep-Plain _ chain (followed-Plain rrs qtype h))
          (keep-All _ chain) in
      ((out, (filter_backup_rrs lib chain).1), rw (split, e) refl, hidden)
