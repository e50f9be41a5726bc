-- ===== src/Server/Replies/Backup.antt =====
-- The replies of a backup zone.
use shadow_dns.Prelude.{
  Bool, true, false, ◌&&◌, ◌||◌, not, [], ◌∷◌, Option, none, some, ◌==◌, ◌=?◌, nat_eq, list_eq,
  Bool-cases, inl, inr,
}
use shadow_dns.Prelude.Partial.{◌>>=◌}
use shadow_dns.Dns.TypeCode
use shadow_dns.Zone.Cname.{is_empty}
use shadow_dns.Alias.Override.{Stage, resolve_cname_fallback}
use shadow_dns.Alias.Collapse.{resolve_cname_fallback_collapse}
use shadow_dns.Server.{Calls, QueryOpt, Outcome, zone_at, flag_at}
use shadow_dns.Server.Negative.{lookup_ephemeral_txt}
use shadow_dns.Server.Root.{Query}
use shadow_dns.Server.Backup.{
  BackupContext, backup_negative, answered_or, owned_by, is_miss, backup_collapsed, backup_plain,
  backup_records, handle_backup_query,
}
use shadow_dns.Server.Replies.{
  AllOutcomes, Tells, reply_rcode-AllReplies, negative_reply-AllReplies,
  reply_with_answer-AllOutcomes,
}
use shadow_dns.Server.Replies.Root.{if-AllOutcomes, found-AllOutcomes}

module _ (T : Type 0) (calls : Calls) (q : Query) where
  -- What holds after every value holds of the chain.
  bind-AllOutcomes :
      {V : Type 0} (o : Option V) (f : V → Option Outcome)
      → ((v : V) → AllOutcomes T calls q.req (f v))
      → AllOutcomes T calls q.req (o >>= f)
  bind-AllOutcomes none f h = tt
  bind-AllOutcomes (some v) f h = h v

  owned_by-Tells :
      (s : Stage) (qo : QueryOpt) → Tells calls q.req qo → Tells calls q.req (owned_by calls s qo)
  unfolding owned_by
  owned_by-Tells s qo t = elim (Bool-cases (is_empty s.rrs)) [ inl e ↦ rw e t | inr e ↦ rw e t ]

  module _ (c : BackupContext) where
    negative :
        (qo : QueryOpt)
        → Tells calls q.req qo
        → AllOutcomes T calls q.req (some (backup_negative calls q qo c))
    unfolding backup_negative
    negative qo t =
        negative_reply-AllReplies T calls q.req qo c.root_zone c.backup_zone q.found q.qname
          (some c.soa_rr) t

    answered_or-AllOutcomes :
        (qo : QueryOpt) (s : Stage) (rest : Option Outcome)
        → Tells calls q.req qo
        → AllOutcomes T calls q.req rest
        → AllOutcomes T calls q.req (answered_or calls q qo c s rest)
    unfolding answered_or
    answered_or-AllOutcomes qo s rest t h =
        if-AllOutcomes T calls q _ _
          (s.nodata
            || (is_empty s.rrs && elim s.withheld as (λ x. Bool) [ [] ↦ false | w ∷ ws ↦ true ]))
          (negative qo t)
          (if-AllOutcomes T calls q _ _ (not (is_empty s.rrs))
            (reply_with_answer-AllOutcomes T calls q.req q.client qo s.rrs t) h)

    wildcard-AllOutcomes :
        (qo : QueryOpt) (o : Option Stage)
        → Tells calls q.req qo
        → AllOutcomes T calls q.req (
            o >>= λ s.
            answered_or calls q
              (owned_by calls s qo)
              c
              s
              (some (backup_negative calls q (owned_by calls s qo) c)))
    wildcard-AllOutcomes qo o t = bind-AllOutcomes o _ λ s.
        let own = owned_by-Tells s qo t in
        answered_or-AllOutcomes (owned_by calls s qo) s _ own (negative (owned_by calls s qo) own)

    backup_collapsed-AllOutcomes :
        (qo : QueryOpt)
        → Tells calls q.req qo
        → AllOutcomes T calls q.req (backup_collapsed calls q qo c)
    unfolding backup_collapsed
    backup_collapsed-AllOutcomes qo t =
        bind-AllOutcomes
          (resolve_cname_fallback_collapse calls.lib q.qname_orig q.qtype q.found.matched_zone
            c.original (some c.root_zone) c.rdata_labels)
          _
          λ fallback.
            if-AllOutcomes T calls q _ _ (is_miss calls fallback) (wildcard-AllOutcomes qo _ t)
              (answered_or-AllOutcomes qo fallback _ t (negative qo t))

    backup_plain-AllOutcomes :
        (qo : QueryOpt)
        → Tells calls q.req qo
        → AllOutcomes T calls q.req (backup_plain calls q qo c)
    unfolding backup_plain
    backup_plain-AllOutcomes qo t =
        bind-AllOutcomes
          (resolve_cname_fallback calls.lib q.qname_orig q.qtype q.found.matched_zone c.original
            (some c.root_zone) c.rdata_labels)
          _ λ fallback. answered_or-AllOutcomes qo fallback _ t (wildcard-AllOutcomes qo _ t)

    backup_records-AllOutcomes :
        (qo : QueryOpt)
        → Tells calls q.req qo
        → AllOutcomes T calls q.req (backup_records calls q qo c)
    unfolding backup_records
    backup_records-AllOutcomes qo t =
        let later =
          found-AllOutcomes T calls q
            (lookup_ephemeral_txt calls q.server.ephemeral_store q.now q.qname q.qname_orig q.qtype)
            _ _
            (if-AllOutcomes T calls q _ _ (flag_at q.found.root_zone q.server.state.collapse_flags)
              (backup_collapsed-AllOutcomes qo t) (backup_plain-AllOutcomes qo t))
            (λ answer. reply_with_answer-AllOutcomes T calls q.req q.client qo answer t) in
        bind-AllOutcomes _ _ λ exact. answered_or-AllOutcomes qo exact _ t later

  pub handle_backup_query-AllOutcomes :
      (qo : QueryOpt)
      → Tells calls q.req qo
      → AllOutcomes T calls q.req (handle_backup_query calls q qo)
  unfolding handle_backup_query
  handle_backup_query-AllOutcomes qo t =
      found-AllOutcomes T calls q (zone_at q.view_name q.found.root_zone q.server.state.root_zones)
        _ _ (reply_rcode-AllReplies T calls q.req qo _ t)
        (λ z. bind-AllOutcomes _ _ λ soa_rr.
          if-AllOutcomes T calls q _ _
            ((q.qtype == TypeCode.soa) && q.qname =? q.found.matched_zone)
            (reply_with_answer-AllOutcomes T calls q.req q.client qo _ t)
            (backup_records-AllOutcomes _ qo t))
