-- ===== src/Server/Root.antt =====
-- internal/server/handler.go: the answers of a root zone.
use shadow_dns.Prelude.{
  ℕ, ◌&&◌, not, List, [], ◌∷◌, map, Option, none, some, ◌==◌, ◌=?◌, nat_eq, list_eq, if◌then◌else◌,
}
use shadow_dns.Names.{Name, lookup_key}
use shadow_dns.Dns.Rcode
use shadow_dns.Dns.TypeCode
use shadow_dns.Dns.{Msg, Rr}
use shadow_dns.Zone.{Zone, lookup_rrs}
use shadow_dns.Zone.Wildcard.{lookup_wildcard}
use shadow_dns.Zone.Cname.{
  is_empty, copy_with_owner, follow_cname, collapse_cname, CollapseResult, collapse_records,
  collapse_tail, collapse_no_data,
}
use shadow_dns.Alias.{Match}
use shadow_dns.Alias.Override.{first_owner}
use shadow_dns.Alias.Collapse.{tail_rr}
use shadow_dns.Server.{Calls, Server, Client, QueryOpt, Outcome, zone_at, flag_at}
use shadow_dns.Server.Reply.{reply_rcode, reply_with_answer}
use shadow_dns.Server.Negative.{negative_reply, lookup_ephemeral_txt}

-- What the handlers are given: the server, the time, the writer, the query, its view, its name in
-- the lookup form and as it came, its type, the zone that it belongs to.
pub record Query : Type 0 where
  pub server : Server
  pub now : ℕ
  pub client : Client
  pub req : Msg
  pub view_name : Name
  pub qname : Name
  pub qname_orig : Name
  pub qtype : ℕ
  pub found : Match

module _ (calls : Calls) where
  -- The message of `collapseRootCNAME` for an outcome of the chain.
  unfoldable pub collapse_answer : Query → QueryOpt → Zone → CollapseResult → Option Outcome
  unfolding negative_reply
  collapse_answer q qo root_zone (collapse_records rrs min_ttl) =
      reply_with_answer calls q.client q.req qo
        (map (λ (rr : Rr). record rr { name = q.qname_orig; ttl = min_ttl }) rrs)
  collapse_answer q qo root_zone (collapse_tail target min_ttl) =
      reply_with_answer calls q.client q.req qo (tail_rr q.qname_orig target min_ttl ∷ [])
  collapse_answer q qo root_zone (collapse_no_data min_ttl) =
      some (negative_reply calls q.req qo root_zone none q.found q.qname root_zone.soa)

  -- `if s.collapseRootCNAME(…) { return }`, and what follows it.
  unfoldable pub collapse_or : Query → QueryOpt → Zone → List Rr → Option Outcome → Option Outcome
  unfolding collapse_answer
  collapse_or q qo root_zone initial rest =
      if flag_at q.found.root_zone q.server.state.collapse_flags
      then elim (collapse_cname calls.lib.unicode_lower calls.lib.next_label calls.lib.is_sub_domain
          root_zone initial q.qtype) [ none ↦ none | some res ↦ collapse_answer q qo root_zone res ]
      else rest

  -- From the wildcards on.
  unfoldable pub root_wildcard : Query → QueryOpt → Zone → Option Outcome
  unfolding collapse_or lookup_wildcard is_empty
  root_wildcard q qo root_zone =
      let (w_rrs, w_found) =
        lookup_wildcard calls.lib.next_label calls.lib.is_sub_domain root_zone q.qname q.qtype in
      let (w_cnames, w_any) =
        lookup_wildcard calls.lib.next_label calls.lib.is_sub_domain root_zone q.qname
          TypeCode.cname in
      let owned = λ (rrs : List Rr). record qo {
        rrl_wildcard_owner = lookup_key calls.lib.unicode_lower (first_owner rrs);
      } in
      let direct =
        reply_with_answer calls q.client q.req (owned w_rrs) (copy_with_owner w_rrs q.qname_orig) in
      if w_found && not (is_empty w_rrs)
      then (if q.qtype == TypeCode.cname
          then collapse_or q (owned w_rrs) root_zone w_rrs direct
          else direct)
      else if not (q.qtype == TypeCode.cname) && not (is_empty w_cnames)
      then collapse_or q (owned w_cnames) root_zone w_cnames (
          reply_with_answer calls q.client q.req (owned w_cnames) (
            follow_cname calls.lib.unicode_lower calls.lib.next_label calls.lib.is_sub_domain
              root_zone (copy_with_owner w_cnames q.qname_orig) q.qtype))
      else some (negative_reply calls q.req qo root_zone none q.found q.qname root_zone.soa)

  -- From the CNAME fallback on.
  unfoldable pub root_fallback : Query → QueryOpt → Zone → Option Outcome
  unfolding root_wildcard
  root_fallback q qo root_zone =
      let cnames = lookup_rrs q.qname TypeCode.cname root_zone in
      if not (q.qtype == TypeCode.cname) && not (is_empty cnames)
      then collapse_or q qo root_zone cnames (
          reply_with_answer calls q.client q.req qo (
            follow_cname calls.lib.unicode_lower calls.lib.next_label calls.lib.is_sub_domain
              root_zone cnames q.qtype))
      else root_wildcard q qo root_zone

  -- From the exact match on.
  unfoldable pub root_records : Query → QueryOpt → Zone → Option Outcome
  unfolding root_fallback
  root_records q qo root_zone =
      let records = lookup_rrs q.qname q.qtype root_zone in
      let direct = reply_with_answer calls q.client q.req qo records in
      if not (is_empty records)
      then (if q.qtype == TypeCode.cname then collapse_or q qo root_zone records direct else direct)
      else elim (lookup_ephemeral_txt calls q.server.ephemeral_store q.now q.qname q.qname_orig
          q.qtype) [
            | some answer ↦ reply_with_answer calls q.client q.req qo answer
            | none ↦ root_fallback q qo root_zone
          ]

  -- `handleRootQuery`
  unfoldable pub handle_root_query : Query → QueryOpt → Option Outcome
  unfolding root_records
  handle_root_query q qo =
      elim (zone_at q.view_name q.found.matched_zone q.server.state.root_zones) [
        | none ↦ some (reply_rcode calls q.req qo Rcode.server_failure)
        | some root_zone ↦
            if (q.qtype == TypeCode.soa) && q.qname =? root_zone.origin
            then elim root_zone.soa [
              | some rr ↦ reply_with_answer calls q.client q.req qo (rr ∷ [])
              | none ↦
                  some (negative_reply calls q.req qo root_zone none q.found q.qname root_zone.soa)
            ]
            else root_records q qo root_zone
      ]
