-- ===== src/Server/Backup.antt =====
-- internal/server/handler.go: the answers of a backup zone.
use shadow_dns.Prelude.{
  Bool, true, false, ◌&&◌, ◌||◌, not, [], ◌∷◌, Option, none, some, ◌==◌, ◌=?◌, nat_eq, list_eq,
  if◌then◌else◌,
}
use shadow_dns.Prelude.Map.{lookup}
use shadow_dns.Prelude.Partial.{◌>>=◌}
use shadow_dns.Names.{Name, lookup_key}
use shadow_dns.Dns.Rcode
use shadow_dns.Dns.TypeCode
use shadow_dns.Dns.{Rr}
use shadow_dns.Zone.{Zone}
use shadow_dns.Zone.Cname.{is_empty}
use shadow_dns.Alias.Rewrite.{backup_soa}
use shadow_dns.Alias.Override.{
  Stage, is_hit, resolve_exact_no_cname, resolve_cname_fallback, resolve_wildcard,
}
use shadow_dns.Alias.Collapse.{
  resolve_exact_collapse, resolve_cname_fallback_collapse, resolve_wildcard_collapse,
}
use shadow_dns.Server.{Calls, ServerState, QueryOpt, Outcome, zone_at, flag_at}
use shadow_dns.Server.Reply.{reply_rcode, reply_with_answer}
use shadow_dns.Server.Negative.{negative_reply, lookup_ephemeral_txt}
use shadow_dns.Server.Root.{Query}

-- `st.BackupOriginalCase[origin]`, with the origin for an empty text.
unfoldable pub original_case : Name → ServerState → Name
original_case origin st = elim (lookup origin st.backup_original_case) [
  | none ↦ origin
  | some c ↦ if c =? [] then origin else c
]

-- The zones and settings that `handleBackupQuery` reads, with the SOA record of the backup zone.
pub record BackupContext : Type 0 where
  pub root_zone : Zone
  pub backup_zone : Option Zone
  pub rdata_labels : Bool
  pub original : Name
  pub soa_rr : Rr

module _ (calls : Calls) where
  -- The negative reply of a backup zone.
  unfoldable pub backup_negative : Query → QueryOpt → BackupContext → Outcome
  unfolding negative_reply
  backup_negative q qo c =
      negative_reply calls q.req qo c.root_zone c.backup_zone q.found q.qname (some c.soa_rr)

  -- `if answered(…) { return }`, and what follows it.
  unfoldable pub answered_or :
      Query → QueryOpt → BackupContext → Stage → Option Outcome → Option Outcome
  unfolding is_empty
  answered_or q qo c s rest =
      if s.nodata || (is_empty s.rrs && elim s.withheld [ [] ↦ false | w ∷ ws ↦ true ])
      then some (backup_negative q qo c)
      else if not (is_empty s.rrs)
      then reply_with_answer calls q.client q.req qo s.rrs
      else rest

  -- `qo.rrlWildcardOwner = …`, where the stage has records.
  unfoldable pub owned_by : Stage → QueryOpt → QueryOpt
  unfolding is_empty
  owned_by s qo =
      if is_empty s.rrs
      then qo
      else record qo { rrl_wildcard_owner = lookup_key calls.lib.unicode_lower s.owner }

  -- The test of the fallback stage that collapses, `!nodata && len(rrs) == 0 && len(withheld) == 0`.
  unfoldable pub is_miss : Stage → Bool
  unfolding is_hit
  is_miss s = not s.nodata && not (is_hit s)

  -- The fallback and the wildcard, where chains collapse.
  unfoldable pub backup_collapsed : Query → QueryOpt → BackupContext → Option Outcome
  unfolding answered_or is_miss owned_by resolve_cname_fallback_collapse resolve_wildcard_collapse
  backup_collapsed q qo c = do
    fallback ←
        resolve_cname_fallback_collapse calls.lib q.qname_orig q.qtype q.found.matched_zone
          c.original (some c.root_zone) c.rdata_labels
    if is_miss fallback
        then (do
          s ←
              resolve_wildcard_collapse calls.lib q.qname_orig q.qtype q.found.matched_zone
                c.original (some c.root_zone) c.rdata_labels
          answered_or q (owned_by s qo) c s (some (backup_negative q (owned_by s qo) c)))
        else answered_or q qo c fallback (some (backup_negative q qo c))

  -- The fallback and the wildcard, where they do not.
  unfoldable pub backup_plain : Query → QueryOpt → BackupContext → Option Outcome
  unfolding answered_or owned_by resolve_cname_fallback resolve_wildcard
  backup_plain q qo c = do
    fallback ←
        resolve_cname_fallback calls.lib q.qname_orig q.qtype q.found.matched_zone c.original
          (some c.root_zone) c.rdata_labels
    answered_or q qo c fallback (do
      s ←
          resolve_wildcard calls.lib q.qname_orig q.qtype q.found.matched_zone c.original
            (some c.root_zone) c.rdata_labels
      answered_or q (owned_by s qo) c s (some (backup_negative q (owned_by s qo) c)))

  -- The exact stage, and the rest behind it.
  unfoldable pub backup_records : Query → QueryOpt → BackupContext → Option Outcome
  unfolding backup_collapsed backup_plain resolve_exact_collapse resolve_exact_no_cname answered_or
  backup_records q qo c =
      let collapse = flag_at q.found.root_zone q.server.state.collapse_flags in
      let later =
        elim (lookup_ephemeral_txt calls q.server.ephemeral_store q.now q.qname q.qname_orig
            q.qtype)
          as (λ x. Option Outcome) [
            | some answer ↦ reply_with_answer calls q.client q.req qo answer
            | none ↦ if collapse then backup_collapsed q qo c else backup_plain q qo c
          ] in
      do
        exact ←
            if (q.qtype == TypeCode.cname) && collapse
            then resolve_exact_collapse calls.lib q.qname_orig q.qtype q.found.matched_zone
                c.original c.backup_zone (some c.root_zone) c.rdata_labels
            else resolve_exact_no_cname calls.lib q.qname_orig q.qtype q.found.matched_zone
                c.original c.backup_zone (some c.root_zone) c.rdata_labels
        answered_or q qo c exact later

  -- `handleBackupQuery`
  unfoldable pub handle_backup_query : Query → QueryOpt → Option Outcome
  unfolding backup_records original_case
  handle_backup_query q qo =
      let st = q.server.state in
      elim (zone_at q.view_name q.found.root_zone st.root_zones) [
        | none ↦ some (reply_rcode calls q.req qo Rcode.server_failure)
        | some root_zone ↦
            let original = original_case q.found.matched_zone st in
            do
              soa_rr ←
                  backup_soa calls.lib.unicode_lower calls.lib.is_sub_domain root_zone.soa
                    root_zone.origin original
              if (q.qtype == TypeCode.soa) && q.qname =? q.found.matched_zone
                  then reply_with_answer calls q.client q.req qo (soa_rr ∷ [])
                  else backup_records q qo (record {
                    root_zone = root_zone;
                    backup_zone = zone_at q.view_name q.found.matched_zone st.backup_zones;
                    rdata_labels = flag_at q.found.matched_zone st.alias_flags;
                    original = original;
                    soa_rr = soa_rr;
                  })
      ]
