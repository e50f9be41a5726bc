-- ===== src/Server/Replies/Root.antt =====
-- The replies of a root zone.
use shadow_dns.Prelude.{
  Bool, true, false, ◌&&◌, not, List, Option, none, some, ◌==◌, ◌=?◌, nat_eq, list_eq,
  if◌then◌else◌,
}
use shadow_dns.Names.{lookup_key}
use shadow_dns.Dns.TypeCode
use shadow_dns.Dns.{Rr}
use shadow_dns.Zone.{Zone, lookup_rrs}
use shadow_dns.Zone.Wildcard.{lookup_wildcard}
use shadow_dns.Zone.Cname.{
  is_empty, CollapseResult, collapse_records, collapse_tail, collapse_no_data, collapse_cname,
}
use shadow_dns.Alias.Override.{first_owner}
use shadow_dns.Server.{Calls, QueryOpt, Outcome, zone_at, flag_at}
use shadow_dns.Server.Negative.{lookup_ephemeral_txt}
use shadow_dns.Server.Root.{
  Query, collapse_answer, collapse_or, root_wildcard, root_fallback, root_records,
  handle_root_query,
}
use shadow_dns.Server.Replies.{
  AllOutcomes, Tells, reply_rcode-AllReplies, negative_reply-AllReplies,
  reply_with_answer-AllOutcomes,
}

module _ (T : Type 0) (calls : Calls) (q : Query) where
  -- What holds of both branches holds of either.
  pub if-AllOutcomes :
      (x y : Option Outcome) (b : Bool)
      → AllOutcomes T calls q.req x
      → AllOutcomes T calls q.req y
      → AllOutcomes T calls q.req (if b then x else y)
  if-AllOutcomes x y true h k = h
  if-AllOutcomes x y false h k = k

  pub found-AllOutcomes :
      {V : Type 0} (o : Option V) (n : Option Outcome) (f : V → Option Outcome)
      → AllOutcomes T calls q.req n
      → ((v : V) → AllOutcomes T calls q.req (f v))
      → AllOutcomes T calls q.req (elim o as (λ x. Option Outcome) [ none ↦ n | some v ↦ f v ])
  found-AllOutcomes none n f h k = h
  found-AllOutcomes (some v) n f h k = k v

  collapse_answer-AllOutcomes :
      (qo : QueryOpt) (z : Zone) (res : CollapseResult)
      → Tells calls q.req qo
      → AllOutcomes T calls q.req (collapse_answer calls q qo z res)
  unfolding collapse_answer
  collapse_answer-AllOutcomes qo z (collapse_records rrs min_ttl) t =
      reply_with_answer-AllOutcomes T calls q.req q.client qo _ t
  collapse_answer-AllOutcomes qo z (collapse_tail target min_ttl) t =
      reply_with_answer-AllOutcomes T calls q.req q.client qo _ t
  collapse_answer-AllOutcomes qo z (collapse_no_data min_ttl) t =
      negative_reply-AllReplies T calls q.req qo z none q.found q.qname z.soa t

  collapse_or-AllOutcomes :
      (qo : QueryOpt) (z : Zone) (initial : List Rr) (rest : Option Outcome)
      → Tells calls q.req qo
      → AllOutcomes T calls q.req rest
      → AllOutcomes T calls q.req (collapse_or calls q qo z initial rest)
  unfolding collapse_or
  collapse_or-AllOutcomes qo z initial rest t h =
      if-AllOutcomes _ _ (flag_at q.found.root_zone q.server.state.collapse_flags)
        (found-AllOutcomes
          (collapse_cname calls.lib.unicode_lower calls.lib.next_label calls.lib.is_sub_domain z
            initial q.qtype)
          none (collapse_answer calls q qo z) tt (λ res. collapse_answer-AllOutcomes qo z res t))
        h

  root_wildcard-AllOutcomes :
      (qo : QueryOpt) (z : Zone)
      → Tells calls q.req qo
      → AllOutcomes T calls q.req (root_wildcard calls q qo z)
  unfolding root_wildcard
  root_wildcard-AllOutcomes qo z t =
      let w = lookup_wildcard calls.lib.next_label calls.lib.is_sub_domain z q.qname q.qtype in
      let w' =
        lookup_wildcard calls.lib.next_label calls.lib.is_sub_domain z q.qname TypeCode.cname in
      let owned = λ (rrs : List Rr). record qo {
        rrl_wildcard_owner = lookup_key calls.lib.unicode_lower (first_owner rrs);
      } in
      let direct = reply_with_answer-AllOutcomes T calls q.req q.client (owned w.0) _ t in
      if-AllOutcomes _ _ (w.1 && not (is_empty w.0))
        (if-AllOutcomes _ _ (q.qtype == TypeCode.cname)
          (collapse_or-AllOutcomes (owned w.0) z w.0 _ t direct) direct)
        (if-AllOutcomes _ _ (not (q.qtype == TypeCode.cname) && not (is_empty w'.0))
          (collapse_or-AllOutcomes (owned w'.0) z w'.0 _ t
            (reply_with_answer-AllOutcomes T calls q.req q.client (owned w'.0) _ t))
          (negative_reply-AllReplies T calls q.req qo z none q.found q.qname z.soa t))

  root_fallback-AllOutcomes :
      (qo : QueryOpt) (z : Zone)
      → Tells calls q.req qo
      → AllOutcomes T calls q.req (root_fallback calls q qo z)
  unfolding root_fallback
  root_fallback-AllOutcomes qo z t =
      if-AllOutcomes _ _
        (not (q.qtype == TypeCode.cname) && not (is_empty (lookup_rrs q.qname TypeCode.cname z)))
        (collapse_or-AllOutcomes qo z _ _ t
          (reply_with_answer-AllOutcomes T calls q.req q.client qo _ t))
        (root_wildcard-AllOutcomes qo z t)

  root_records-AllOutcomes :
      (qo : QueryOpt) (z : Zone)
      → Tells calls q.req qo
      → AllOutcomes T calls q.req (root_records calls q qo z)
  unfolding root_records
  root_records-AllOutcomes qo z t =
      let direct =
        reply_with_answer-AllOutcomes T calls q.req q.client qo (lookup_rrs q.qname q.qtype z) t in
      if-AllOutcomes _ _ (not (is_empty (lookup_rrs q.qname q.qtype z)))
        (if-AllOutcomes _ _ (q.qtype == TypeCode.cname) (collapse_or-AllOutcomes qo z _ _ t direct)
          direct)
        (found-AllOutcomes
          (lookup_ephemeral_txt calls q.server.ephemeral_store q.now q.qname q.qname_orig q.qtype) _
          _ (root_fallback-AllOutcomes qo z t)
          (λ answer. reply_with_answer-AllOutcomes T calls q.req q.client qo answer t))

  pub handle_root_query-AllOutcomes :
      (qo : QueryOpt)
      → Tells calls q.req qo
      → AllOutcomes T calls q.req (handle_root_query calls q qo)
  unfolding handle_root_query
  handle_root_query-AllOutcomes qo t =
      found-AllOutcomes (zone_at q.view_name q.found.matched_zone q.server.state.root_zones) _ _
        (reply_rcode-AllReplies T calls q.req qo _ t)
        (λ z.
          if-AllOutcomes _ _ ((q.qtype == TypeCode.soa) && q.qname =? z.origin)
            (found-AllOutcomes z.soa _ _
              (negative_reply-AllReplies T calls q.req qo z none q.found q.qname z.soa t)
              (λ rr. reply_with_answer-AllOutcomes T calls q.req q.client qo _ t))
            (root_records-AllOutcomes qo z t))
