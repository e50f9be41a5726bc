-- ===== src/Alias/Override/Tests.antt =====
-- Answers of a backup zone on concrete input.
use shadow_dns.Prelude.{
  ℕ, ◌≡◌, ◌⊎◌, refl, sym, ap, true, false, ◌&&◌, not, [], ◌∷◌, Option, none, some, All, map,
}
use shadow_dns.Names.{
  Name, codes, lower_byte, is_ascii, has_escape, is_in_zone_byte_suffix, to_lower, is_in_zone,
  lookup_key,
}
use shadow_dns.Names.Zones.{Under, Under-byte_suffix}
use shadow_dns.Names.Plain.{IsPlain}
use shadow_dns.Dns.TypeCode
use shadow_dns.Dns.{Rr}
use shadow_dns.Dns.Names.{rr_names}
use shadow_dns.Dns.Samples.{plain_library, typed_library, cname_rr, minfo_rr, address_rr}
use shadow_dns.Prelude.Partial.{some-inj}
use shadow_dns.Zone.{Zone, single, role_root}
use shadow_dns.Alias.{rewrite_name}
use shadow_dns.Alias.Rewrite.{rewrite_rr, rewrite_name_anywhere}
use shadow_dns.Alias.Rewrite.Anywhere.{FirstLabel, replaced_at, rewrite_name_anywhere-FirstLabel}
use shadow_dns.Alias.Rewrite.Hides.{AreApart, Hidden, rewrite_rr-Hidden}
use shadow_dns.Alias.Withhold.{is_covered, is_uncovered, has_name_bearing_rdata, filter_backup_rrs}
use shadow_dns.Alias.Withhold.Partition.{
  safe_rrs, unsafe_rrs, filter_backup_rrs-partition, is_uncovered_lem,
}
use shadow_dns.Alias.Override.{resolve, override_rrs, plain_stage}
use shadow_dns.Zone.Classify.{is_overridable}
use shadow_dns.Zone.Cname.{is_empty}
use shadow_dns.Alias.Override.Answers.{SafeStage, resolve-Safe}

abbrev root : Name
root = codes "b."

abbrev backup : Name
backup = codes "c."

not-Under : (n zone : Name) → is_in_zone_byte_suffix n zone ≡ false → ¬ Under n zone
not-Under n zone h u = cc (h, Under-byte_suffix n zone u)

apart : AreApart root backup
unfolding is_in_zone_byte_suffix lower_byte
apart = record {
  above = not-Under (codes "c.") (codes "b.") refl;
  below = not-Under (codes "b.") (codes "c.") refl;
}

IsPlain-owner : IsPlain (codes "w.b.")
unfolding is_ascii has_escape
IsPlain-owner = record { ascii = refl; unescaped = refl }

IsPlain-target : IsPlain (codes "x.b.")
unfolding is_ascii has_escape
IsPlain-target = record { ascii = refl; unescaped = refl }

IsPlain-query : IsPlain (codes "W.c.")
unfolding is_ascii has_escape
IsPlain-query = record { ascii = refl; unescaped = refl }

IsPlain-root : IsPlain root
unfolding is_ascii has_escape
IsPlain-root = record { ascii = refl; unescaped = refl }

abbrev chain_rr : Rr
chain_rr = cname_rr (codes "w.b.") (codes "x.b.")

rewrite_rr-Hidden_example : All (Hidden root) (rr_names (cname_rr (codes "w.c.") (codes "x.c.")))
unfolding rewrite_rr rewrite_name to_lower is_ascii lower_byte is_in_zone has_escape
    is_in_zone_byte_suffix
rewrite_rr-Hidden_example =
    rewrite_rr-Hidden plain_library.unicode_lower plain_library.is_sub_domain root backup chain_rr
      apart (λ e. cc e) (IsPlain-owner, (IsPlain-target, tt)) refl

rewrite_name_anywhere-FirstLabel_example :
    (r : Option ℕ) × FirstLabel (map lower_byte (codes "x.b.org.")) (codes "b.") 0 r
    × (rewrite_name_anywhere plain_library.unicode_lower
          (codes "x.b.org.")
          (codes "b.")
          (codes "c.")
        ≡ some (replaced_at (codes "x.b.org.") (codes "b.") (codes "c.") r))
unfolding is_ascii
rewrite_name_anywhere-FirstLabel_example =
    rewrite_name_anywhere-FirstLabel plain_library.unicode_lower (codes "x.b.org.") (codes "b.")
      (codes "c.") (λ e. cc e) (λ e. cc e) refl

filter_backup_rrs-partition_example :
    filter_backup_rrs plain_library (chain_rr ∷ [])
    ≡ (safe_rrs plain_library (chain_rr ∷ []), unsafe_rrs plain_library (chain_rr ∷ []))
filter_backup_rrs-partition_example = filter_backup_rrs-partition plain_library (chain_rr ∷ [])

-- MINFO is in the table of the sample, and holds names.
is_uncovered_lem_example :
    is_uncovered typed_library (minfo_rr root (127 ∷ []))
    ≡ (has_name_bearing_rdata typed_library (minfo_rr root (127 ∷ [])) && not (is_covered 14))
is_uncovered_lem_example =
    is_uncovered_lem typed_library (minfo_rr root (127 ∷ []))
      (λ p e. ap typed_library.struct_of (sym (some-inj e))) (λ e. absurd (cc e))

minfo_withheld : is_uncovered typed_library (minfo_rr root (127 ∷ [])) ≡ true
unfolding is_uncovered is_covered has_name_bearing_rdata
minfo_withheld = refl

address_kept : is_uncovered typed_library (address_rr root (127 ∷ [])) ≡ false
unfolding is_uncovered is_covered has_name_bearing_rdata
address_kept = refl

abbrev root_zone : Zone
root_zone = record {
  origin = root;
  path = [];
  soa = none;
  records = (codes "w.b.", single TypeCode.cname (chain_rr ∷ [])) ∷ [];
  role = role_root;
}

resolve-Safe_example :
    SafeStage plain_library root backup (
      resolve plain_library (codes "W.c.") TypeCode.cname backup backup none (some root_zone) false)
    ⊎ (((is_overridable TypeCode.cname
            && not
                (is_empty (override_rrs none (lookup_key (λ s. s) (codes "W.c.")) TypeCode.cname)))
          ≡ true)
        × (resolve plain_library
              (codes "W.c.")
              TypeCode.cname
              backup
              backup
              none
              (some root_zone)
              false
            ≡ some (
                plain_stage
                  (override_rrs none (lookup_key (λ s. s) (codes "W.c.")) TypeCode.cname, []))))
resolve-Safe_example =
    resolve-Safe plain_library root_zone backup backup apart (λ e. cc e)
      (((IsPlain-owner, (IsPlain-target, tt)), tt), tt) IsPlain-root (codes "W.c.") TypeCode.cname
      none IsPlain-query
