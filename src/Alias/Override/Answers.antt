-- ===== src/Alias/Override/Answers.antt =====
-- The stages of `Resolve`, on a root zone of plain names.
use shadow_dns.Prelude.{
  ℕ, ◌≡◌, ◌≢◌, ◌⊎◌, inl, inr, refl, Bool, true, false, ◌&&◌, ◌||◌, not, List, [], ◌++◌, Option,
  some, ◌==◌, nat_eq, list_eq, if◌then◌else◌, Bool-cases,
}
use shadow_dns.Prelude.Partial.{◌>>=◌}
use shadow_dns.Names.{Name, lookup_key}
use shadow_dns.Names.Plain.{IsPlain}
use shadow_dns.Dns.TypeCode
use shadow_dns.Dns.{Rr}
use shadow_dns.Dns.Library.{Library}
use shadow_dns.Zone.{Zone, lookup_rrs}
use shadow_dns.Zone.Plain.{
  PlainRrs, PlainZone, lookup_rrs-Plain, lookup_wildcard-Plain, copy_with_owner-Plain,
}
use shadow_dns.Zone.Cname.{is_empty, copy_with_owner}
use shadow_dns.Zone.Classify.{is_overridable}
use shadow_dns.Zone.Wildcard.{lookup_wildcard}
use shadow_dns.Alias.Rewrite.Hides.{AreApart}
use shadow_dns.Alias.Rewrite.Total.{rewrite_name-IsPlain}
use shadow_dns.Alias.Withhold.{filter_backup_rrs}
use shadow_dns.Alias.Withhold.Partition.{safe_rrs, filter_backup_rrs-partition}
use shadow_dns.Alias.Override.{
  Stage, stage_miss, plain_stage, is_hit, override_rrs, first_owner, root_qname,
  finalize_backup_rrs, synthesize_wildcard_rrs, wildcard_start, wildcard_stage,
  resolve_exact_no_cname, resolve_cname_fallback, resolve_exact, resolve_wildcard, resolve,
}
use shadow_dns.Alias.Override.Safe.{ShownRrs, keep-Plain, finalize_backup_rrs-Safe}

-- A stage that does not panic, and whose records may be shown.
abbrev pub SafeStage : Library → Name → Name → Option Stage → Type 0
SafeStage lib root backup o = (s : Stage) × (o ≡ some s) × ShownRrs lib root backup s.rrs

module _ (lib : Library) (z : Zone) (backup_origin backup : Name) (apart : AreApart z.origin backup)
    (named : z.origin ≢ []) (plain : PlainZone z) (plain_origin : IsPlain z.origin) where
  finalize-Safe :
      (rrs : List Rr) (qtype : ℕ)
      → PlainRrs rrs
      → SafeStage lib z.origin backup
          (finalize_backup_rrs lib rrs qtype z backup false >>= λ out. some (plain_stage out))
  unfolding plain_stage
  finalize-Safe rrs qtype h =
      let (out, e, hidden) = finalize_backup_rrs-Safe lib z backup apart named plain rrs qtype h in
      (plain_stage out, rw e refl, hidden)

  wildcard_stage-Safe :
      (w_rrs : List Rr) (qname : Name) (qtype : ℕ)
      → IsPlain qname
      → PlainRrs w_rrs
      → SafeStage lib z.origin backup
          (wildcard_stage lib w_rrs qname qtype backup_origin backup z false)
  unfolding wildcard_stage synthesize_wildcard_rrs
  wildcard_stage-Safe w_rrs qname qtype p h =
      let split = filter_backup_rrs-partition lib w_rrs in
      let kept = safe_rrs lib w_rrs in
      let (owner, e, plain_owner) =
        rewrite_name-IsPlain lib.unicode_lower lib.is_sub_domain qname backup_origin z.origin p in
      let (out, e', hidden) =
        finalize_backup_rrs-Safe lib z backup apart named plain (copy_with_owner kept owner) qtype
          (copy_with_owner-Plain kept owner (keep-Plain _ w_rrs h) (plain_owner plain_origin)) in
      elim (Bool-cases (is_empty kept)) [
        | inl none_kept ↦ (
          record {
            rrs = [];
            nodata = false;
            owner = first_owner w_rrs;
            withheld = (filter_backup_rrs lib w_rrs).1;
          },
          rw (split, none_kept) refl,
          tt,
        )
        | inr some_kept ↦ (
          record {
            rrs = out.0;
            nodata = false;
            owner = first_owner w_rrs;
            withheld = (filter_backup_rrs lib w_rrs).1 ++ out.1;
          },
          rw (split, some_kept, e, e') refl,
          hidden,
        )
      ]

  if-SafeStage :
      (b : Bool) (x y : Option Stage)
      → SafeStage lib z.origin backup x
      → SafeStage lib z.origin backup y
      → SafeStage lib z.origin backup (if b then x else y)
  if-SafeStage true x y p q = p
  if-SafeStage false x y p q = q

  miss-Safe : SafeStage lib z.origin backup (some stage_miss)
  miss-Safe = (stage_miss, refl, tt)

  resolve_cname_fallback-Safe :
      (qname : Name) (qtype : ℕ)
      → SafeStage lib z.origin backup
          (resolve_cname_fallback lib qname qtype backup_origin backup (some z) false)
  unfolding resolve_cname_fallback
  resolve_cname_fallback-Safe qname qtype =
      let root_rrs = lookup_rrs (root_qname lib qname backup_origin z) TypeCode.cname z in
      if-SafeStage ((qtype == TypeCode.cname) || is_empty root_rrs) _ _ miss-Safe
        (finalize-Safe root_rrs qtype (lookup_rrs-Plain _ TypeCode.cname z plain))

  wildcard_start-Plain :
      (root_name : Name) (qtype : ℕ) → PlainRrs (wildcard_start lib z root_name qtype)
  unfolding wildcard_start
  wildcard_start-Plain root_name qtype =
      let w = lookup_wildcard lib.next_label lib.is_sub_domain z root_name qtype in
      let found = lookup_wildcard-Plain lib.next_label lib.is_sub_domain z root_name qtype plain in
      let cnames =
        lookup_wildcard-Plain lib.next_label lib.is_sub_domain z root_name TypeCode.cname plain in
      elim (Bool-cases (w.1 && is_empty w.0 && not (qtype == TypeCode.cname))) [
        | inl e ↦ rw e cnames
        | inr e ↦ rw e found
      ]

  resolve_wildcard-Safe :
      (qname : Name) (qtype : ℕ)
      → IsPlain qname
      → SafeStage lib z.origin backup
          (resolve_wildcard lib qname qtype backup_origin backup (some z) false)
  unfolding resolve_wildcard
  resolve_wildcard-Safe qname qtype p =
      let w_rrs = wildcard_start lib z (root_qname lib qname backup_origin z) qtype in
      if-SafeStage (is_empty w_rrs) _ _ miss-Safe
        (wildcard_stage-Safe w_rrs qname qtype p (wildcard_start-Plain _ qtype))

  -- The records that a backup zone's own file gives a query.
  abbrev overrides : Option Zone → Name → ℕ → List Rr
  overrides backup_zone qname qtype =
      override_rrs backup_zone (lookup_key lib.unicode_lower qname) qtype

  -- A stage that is safe, or that answers what the backup zone's own file gives, which is not
  -- nothing, for a type that the file may override.
  abbrev SafeOr : ℕ → List Rr → Option Stage → Type 0
  SafeOr qtype own o =
      SafeStage lib z.origin backup o
      ⊎ (((is_overridable qtype && not (is_empty own)) ≡ true) × (o ≡ some (plain_stage (own, []))))

  resolve_exact_no_cname-Safe :
      (qname : Name) (qtype : ℕ) (backup_zone : Option Zone)
      → SafeOr qtype
          (overrides backup_zone qname qtype)
          (resolve_exact_no_cname lib qname qtype backup_origin backup backup_zone (some z) false)
  unfolding resolve_exact_no_cname
  resolve_exact_no_cname-Safe qname qtype backup_zone =
      let own = overrides backup_zone qname qtype in
      let root_rrs = lookup_rrs (root_qname lib qname backup_origin z) qtype z in
      elim (Bool-cases (is_overridable qtype && not (is_empty own))) [
        | inl e ↦ inr (e, rw e refl)
        | inr e ↦ inl (
            rw e (
              if-SafeStage (is_empty root_rrs) _ _ miss-Safe
                (finalize-Safe root_rrs qtype (lookup_rrs-Plain _ qtype z plain))))
      ]

  -- A stage, and the next one where it answers nothing.
  then-Safe :
      (qtype : ℕ) (own : List Rr) (m k : Option Stage)
      → SafeOr qtype own m
      → SafeStage lib z.origin backup k
      → SafeOr qtype own (m >>= λ s. if is_hit s then some s else k)
  then-Safe qtype own m k (inl (s, e, h)) next =
      inl (rw e (if-SafeStage (is_hit s) _ _ (s, refl, h) next))
  then-Safe qtype own m k (inr (w, e)) next = elim (Bool-cases (is_hit (plain_stage (own, [])))) [
    | inl hit ↦ inr (w, rw (e, hit) refl)
    | inr miss ↦ inl (rw (e, miss) next)
  ]

  -- `Resolve` in a root zone of plain names, for a query of a plain name and without the rule for
  -- labels, does not panic. It answers the records that the backup zone's own file has for the
  -- query, of a type that the file may override, or records none of which names the root zone and
  -- each of which is the rewriting of a record that is not to be withheld. (The names of a record are
  -- its owner and those in the data of the types that the rewriting covers. Neither of the two zones
  -- may be a zone of the other, and the root zone has a name.)
  pub resolve-Safe :
      (qname : Name) (qtype : ℕ) (backup_zone : Option Zone)
      → IsPlain qname
      → SafeOr qtype
          (overrides backup_zone qname qtype)
          (resolve lib qname qtype backup_origin backup backup_zone (some z) false)
  unfolding resolve resolve_exact
  resolve-Safe qname qtype backup_zone p =
      let own = overrides backup_zone qname qtype in
      let exact =
        then-Safe qtype own _ _ (resolve_exact_no_cname-Safe qname qtype backup_zone)
          (resolve_cname_fallback-Safe qname qtype) in
      then-Safe qtype own _ _ exact (resolve_wildcard-Safe qname qtype p)
