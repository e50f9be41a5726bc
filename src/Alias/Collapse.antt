-- ===== src/Alias/Collapse.antt =====
-- internal/alias/override.go, the functions whose names end in `Collapse`: the answers of a backup
-- zone whose root zone collapses chains of CNAME records. `none` is as in Override.
use shadow_dns.Prelude.{
  ℕ, Bool, true, false, ◌&&◌, not, List, [], ◌∷◌, Option, none, some, ◌==◌, nat_eq, list_eq,
  if◌then◌else◌,
}
use shadow_dns.Prelude.Partial.{◌>>=◌, traverse}
use shadow_dns.Names.{Name}
use shadow_dns.Dns.TypeCode
use shadow_dns.Dns.{Rr, cname}
use shadow_dns.Dns.Library.{Library}
use shadow_dns.Zone.{Zone, lookup_rrs}
use shadow_dns.Zone.Wildcard.{lookup_wildcard}
use shadow_dns.Zone.Cname.{
  is_empty, collapse_cname, CollapseResult, collapse_records, collapse_tail, collapse_no_data,
}
use shadow_dns.Alias.Rewrite.{rewrite_rdata_names}
use shadow_dns.Alias.Withhold.{filter_backup_rrs}
use shadow_dns.Alias.Override.{
  Stage, stage_miss, class_inet, first_owner, root_qname, resolve_exact_no_cname, wildcard_stage,
}

-- The record that stands for the rest of a chain.
abbrev pub tail_rr : Name → Name → ℕ → Rr
tail_rr owner target ttl = record {
  name = owner;
  rrtype = TypeCode.cname;
  class = class_inet;
  ttl = ttl;
  rdata = cname target;
}

module _ (lib : Library) where
  unfoldable pub collapse_backup_result : CollapseResult → Name → Zone → Name → Bool → Option Stage
  unfolding filter_backup_rrs rewrite_rdata_names traverse is_empty
  collapse_backup_result (collapse_records res min_ttl) qname root_zone backup_original_case
        rdata_labels =
      let (kept, withheld) = filter_backup_rrs lib res in
      if is_empty kept
      then some (record { rrs = []; nodata = true; owner = []; withheld = withheld })
      else do
        out ←
            traverse
              (λ (rr : Rr).
                rewrite_rdata_names lib.unicode_lower lib.is_sub_domain root_zone.origin
                  backup_original_case rdata_labels (record rr { name = qname; ttl = min_ttl }))
              kept
        some (record { rrs = out; nodata = false; owner = []; withheld = withheld })
  collapse_backup_result (collapse_tail target min_ttl) qname root_zone backup_original_case
        rdata_labels =
      do
        synth ←
            rewrite_rdata_names lib.unicode_lower lib.is_sub_domain root_zone.origin
              backup_original_case rdata_labels (tail_rr qname target min_ttl)
        some (record { rrs = synth ∷ []; nodata = false; owner = []; withheld = [] })
  collapse_backup_result (collapse_no_data min_ttl) qname root_zone backup_original_case
        rdata_labels =
      some (record { rrs = []; nodata = true; owner = []; withheld = [] })

  -- A chain of a stage, collapsed.
  unfoldable pub collapse_from : List Rr → Name → ℕ → Zone → Name → Bool → Option Stage
  unfolding collapse_backup_result collapse_cname
  collapse_from initial qname qtype root_zone backup_original_case rdata_labels = do
    res ← collapse_cname lib.unicode_lower lib.next_label lib.is_sub_domain root_zone initial qtype
    collapse_backup_result res qname root_zone backup_original_case rdata_labels

  unfoldable pub collapse_chain_at : Name → ℕ → Name → Name → Zone → Bool → Option Stage
  unfolding collapse_from lookup_rrs is_empty root_qname
  collapse_chain_at qname qtype backup_origin backup_original_case root_zone rdata_labels =
      let initial =
        lookup_rrs (root_qname lib qname backup_origin root_zone) TypeCode.cname root_zone in
      if is_empty initial
      then some stage_miss
      else collapse_from initial qname qtype root_zone backup_original_case rdata_labels

  unfoldable pub resolve_exact_collapse :
      Name → ℕ → Name → Name → Option Zone → Option Zone → Bool → Option Stage
  unfolding collapse_chain_at resolve_exact_no_cname
  resolve_exact_collapse qname qtype backup_origin backup_original_case backup_zone none
        rdata_labels =
      some stage_miss
  resolve_exact_collapse qname qtype backup_origin backup_original_case backup_zone (some root_zone)
        rdata_labels =
      if not (qtype == TypeCode.cname)
      then resolve_exact_no_cname lib qname qtype backup_origin backup_original_case backup_zone
          (some root_zone) rdata_labels
      else collapse_chain_at qname qtype backup_origin backup_original_case root_zone rdata_labels

  unfoldable pub resolve_cname_fallback_collapse :
      Name → ℕ → Name → Name → Option Zone → Bool → Option Stage
  unfolding collapse_chain_at
  resolve_cname_fallback_collapse qname qtype backup_origin backup_original_case none rdata_labels =
      some stage_miss
  resolve_cname_fallback_collapse qname qtype backup_origin backup_original_case (some root_zone)
        rdata_labels =
      if qtype == TypeCode.cname
      then some stage_miss
      else collapse_chain_at qname qtype backup_origin backup_original_case root_zone rdata_labels

  unfoldable pub resolve_wildcard_collapse :
      Name → ℕ → Name → Name → Option Zone → Bool → Option Stage
  unfolding collapse_from wildcard_stage lookup_wildcard is_empty first_owner root_qname
  resolve_wildcard_collapse qname qtype backup_origin backup_original_case none rdata_labels =
      some stage_miss
  resolve_wildcard_collapse qname qtype backup_origin backup_original_case (some root_zone)
        rdata_labels =
      let root_name = root_qname lib qname backup_origin root_zone in
      let (w_rrs, w_found) =
        lookup_wildcard lib.next_label lib.is_sub_domain root_zone root_name qtype in
      let (w_cnames, w_any) =
        lookup_wildcard lib.next_label lib.is_sub_domain root_zone root_name TypeCode.cname in
      if not (qtype == TypeCode.cname) && w_found && not (is_empty w_rrs)
      then wildcard_stage lib w_rrs qname qtype backup_origin backup_original_case root_zone
          rdata_labels
      else if is_empty w_cnames
      then some stage_miss
      else do
        s ← collapse_from w_cnames qname qtype root_zone backup_original_case rdata_labels
        some (record s { owner = first_owner w_cnames })
