-- ===== src/Alias/Override.antt =====
-- internal/alias/override.go: the answers of a backup zone, made from the records of its root zone.
-- `none` is a panic, or a chain of CNAME records that outruns its fuel (there is none).
pub mod Safe
pub mod Answers
mod Tests
use shadow_dns.Prelude.{
  ℕ, Bool, true, false, ◌&&◌, ◌||◌, not, List, [], ◌∷◌, ◌++◌, map, Option, none, some, ◌==◌,
  Equality, ◌=?◌, nat_eq, list_eq, if◌then◌else◌, any,
}
use shadow_dns.Prelude.Partial.{◌>>=◌, traverse}
use shadow_dns.Names.{Name, lookup_key}
use shadow_dns.Dns.TypeCode
use shadow_dns.Dns.{Rr, Rdata, cname}
use shadow_dns.Dns.Library.{Library}
use shadow_dns.Zone.{Zone, lookup_rrs}
use shadow_dns.Zone.Classify.{is_overridable}
use shadow_dns.Zone.Wildcard.{lookup_wildcard}
use shadow_dns.Zone.Cname.{
  is_empty, last_target, follow_cname, collapse_cname, copy_with_owner, CollapseResult,
  collapse_records, collapse_tail, collapse_no_data,
}
use shadow_dns.Alias.{rewrite_qname, rewrite_name}
use shadow_dns.Alias.Rewrite.{rewrite_rr, rewrite_rdata_names}
use shadow_dns.Alias.Withhold.{WithheldRecord, filter_backup_rrs}

-- What a stage answers: its records, and those it withheld. `nodata` is the second result of the
-- stages that collapse chains, and `owner` that of the wildcard stages; they are false and empty
-- in the others.
pub record Stage : Type 0 where
  pub rrs : List Rr
  pub nodata : Bool
  pub owner : Name
  pub withheld : List WithheldRecord

abbrev pub stage_miss : Stage
stage_miss = record { rrs = []; nodata = false; owner = []; withheld = [] }

-- `dns.ClassINET`
abbrev pub class_inet : ℕ
class_inet = 1

-- The test `len(rrs) > 0 || len(withheld) > 0`.
unfoldable pub is_hit : Stage → Bool
unfolding is_empty
is_hit s = not (is_empty s.rrs) || elim s.withheld [ [] ↦ false | w ∷ ws ↦ true ]

-- The records of the override zone, where there is one.
unfoldable pub override_rrs : Option Zone → Name → ℕ → List Rr
unfolding lookup_rrs
override_rrs none owner qtype = []
override_rrs (some z) owner qtype = lookup_rrs owner qtype z

-- The owner of the first record, of a list that is not empty.
unfoldable pub first_owner : List Rr → Name
first_owner [] = []
first_owner (rr ∷ rrs) = rr.name

-- `(rrs, withheld)`, of a stage that collapses nothing.
unfoldable pub plain_stage : List Rr × List WithheldRecord → Stage
plain_stage (rrs, withheld) = record { rrs = rrs; nodata = false; owner = []; withheld = withheld }

module _ (lib : Library) where
  -- The chain that `finalizeBackupRRs` follows before it filters.
  unfoldable pub followed : List Rr → ℕ → Zone → List Rr
  unfolding last_target follow_cname
  followed root_rrs qtype root_zone =
      let chain =
        follow_cname lib.unicode_lower lib.next_label lib.is_sub_domain root_zone root_rrs qtype in
      if qtype == TypeCode.cname
      then root_rrs
      else elim (last_target root_rrs) [ none ↦ root_rrs | some target ↦ chain ]

  unfoldable pub finalize_backup_rrs :
      List Rr → ℕ → Zone → Name → Bool → Option (List Rr × List WithheldRecord)
  unfolding followed filter_backup_rrs rewrite_rr traverse
  finalize_backup_rrs root_rrs qtype root_zone backup_original_case rdata_labels = do
    let (kept, withheld) = filter_backup_rrs lib (followed root_rrs qtype root_zone)
    result ←
        traverse
          (rewrite_rr lib.unicode_lower lib.is_sub_domain root_zone.origin backup_original_case
            rdata_labels)
          kept
    some (result, withheld)

  -- The name in the root zone that a query is answered at.
  unfoldable pub root_qname : Name → Name → Zone → Name
  root_qname qname backup_origin root_zone =
      rewrite_qname (lookup_key lib.unicode_lower qname) backup_origin root_zone.origin

  unfoldable pub synthesize_wildcard_rrs :
      List Rr → Name → ℕ → Name → Name → Zone → Bool → Option (List Rr × List WithheldRecord)
  unfolding copy_with_owner is_empty
  synthesize_wildcard_rrs w_rrs qname qtype backup_origin backup_original_case root_zone
        rdata_labels =
      let (kept, withheld) = filter_backup_rrs lib w_rrs in
      if is_empty kept then some ([], withheld) else do
        owner ←
            rewrite_name lib.unicode_lower lib.is_sub_domain qname backup_origin root_zone.origin
        (rrs, more) ←
            finalize_backup_rrs (copy_with_owner kept owner) qtype root_zone backup_original_case
              rdata_labels
        some (rrs, withheld ++ more)

  unfoldable pub resolve_exact_no_cname :
      Name → ℕ → Name → Name → Option Zone → Option Zone → Bool → Option Stage
  unfolding is_overridable override_rrs lookup_rrs is_empty root_qname plain_stage
  resolve_exact_no_cname qname qtype backup_origin backup_original_case backup_zone none
        rdata_labels =
      some stage_miss
  resolve_exact_no_cname qname qtype backup_origin backup_original_case backup_zone (some root_zone)
        rdata_labels =
      let overrides = override_rrs backup_zone (lookup_key lib.unicode_lower qname) qtype in
      let root_rrs = lookup_rrs (root_qname qname backup_origin root_zone) qtype root_zone in
      if is_overridable qtype && not (is_empty overrides)
      then some (plain_stage (overrides, []))
      else if is_empty root_rrs
      then some stage_miss
      else do
        out ← finalize_backup_rrs root_rrs qtype root_zone backup_original_case rdata_labels
        some (plain_stage out)

  unfoldable pub resolve_cname_fallback : Name → ℕ → Name → Name → Option Zone → Bool → Option Stage
  unfolding lookup_rrs is_empty root_qname plain_stage
  resolve_cname_fallback qname qtype backup_origin backup_original_case none rdata_labels =
      some stage_miss
  resolve_cname_fallback qname qtype backup_origin backup_original_case (some root_zone)
        rdata_labels =
      let root_rrs =
        lookup_rrs (root_qname qname backup_origin root_zone) TypeCode.cname root_zone in
      if (qtype == TypeCode.cname) || is_empty root_rrs then some stage_miss else do
        out ← finalize_backup_rrs root_rrs qtype root_zone backup_original_case rdata_labels
        some (plain_stage out)

  unfoldable pub resolve_exact :
      Name → ℕ → Name → Name → Option Zone → Option Zone → Bool → Option Stage
  unfolding resolve_exact_no_cname resolve_cname_fallback is_hit
  resolve_exact qname qtype backup_origin backup_original_case backup_zone root_zone rdata_labels =
      do
        exact ←
            resolve_exact_no_cname qname qtype backup_origin backup_original_case backup_zone
              root_zone rdata_labels
        if is_hit exact
            then some exact
            else resolve_cname_fallback qname qtype backup_origin backup_original_case root_zone
                rdata_labels

  -- The records that the wildcard stage starts from.
  unfoldable pub wildcard_start : Zone → Name → ℕ → List Rr
  unfolding lookup_wildcard is_empty
  wildcard_start root_zone root_name qtype =
      let (w_rrs, w_found) =
        lookup_wildcard lib.next_label lib.is_sub_domain root_zone root_name qtype in
      let (w_cnames, w_any) =
        lookup_wildcard lib.next_label lib.is_sub_domain root_zone root_name TypeCode.cname in
      if w_found && is_empty w_rrs && not (qtype == TypeCode.cname) then w_cnames else w_rrs

  -- The wildcard records synthesized, with the owner of the wildcard.
  unfoldable pub wildcard_stage : List Rr → Name → ℕ → Name → Name → Zone → Bool → Option Stage
  unfolding synthesize_wildcard_rrs first_owner
  wildcard_stage w_rrs qname qtype backup_origin backup_original_case root_zone rdata_labels = do
    (rrs, withheld) ←
        synthesize_wildcard_rrs w_rrs qname qtype backup_origin backup_original_case root_zone
          rdata_labels
    some (record { rrs = rrs; nodata = false; owner = first_owner w_rrs; withheld = withheld })

  unfoldable pub resolve_wildcard : Name → ℕ → Name → Name → Option Zone → Bool → Option Stage
  unfolding wildcard_start wildcard_stage is_empty root_qname
  resolve_wildcard qname qtype backup_origin backup_original_case none rdata_labels =
      some stage_miss
  resolve_wildcard qname qtype backup_origin backup_original_case (some root_zone) rdata_labels =
      let w_rrs = wildcard_start root_zone (root_qname qname backup_origin root_zone) qtype in
      if is_empty w_rrs
      then some stage_miss
      else wildcard_stage w_rrs qname qtype backup_origin backup_original_case root_zone
          rdata_labels

  unfoldable pub resolve : Name → ℕ → Name → Name → Option Zone → Option Zone → Bool → Option Stage
  unfolding resolve_exact resolve_wildcard is_hit
  resolve qname qtype backup_origin backup_original_case backup_zone root_zone rdata_labels = do
    exact ←
        resolve_exact qname qtype backup_origin backup_original_case backup_zone root_zone
          rdata_labels
    if is_hit exact
        then some exact
        else resolve_wildcard qname qtype backup_origin backup_original_case root_zone rdata_labels
