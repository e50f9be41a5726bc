-- ===== src/Server/Negative.antt =====
-- internal/server/handler.go: negative replies, the overlay of short-lived TXT records, and what
-- the two kinds of zones share.
pub mod Exists
use shadow_dns.Prelude.{
  ℕ, Bool, true, false, ◌||◌, List, [], ◌∷◌, map, Option, none, some, ltb, ◌==◌, Equality, nat_eq,
  list_eq, if◌then◌else◌,
}
use shadow_dns.Prelude.Map.{lookup}
use shadow_dns.Prelude.Partial.{◌>>=◌}
use shadow_dns.Names.{Name}
use shadow_dns.Dns.Rcode
use shadow_dns.Dns.TypeCode
use shadow_dns.Dns.{Msg, Rr, Rdata, soa, txt}
use shadow_dns.Ephemeral.{Store, lookup_records}
use shadow_dns.Zone.{Zone}
use shadow_dns.Zone.Wildcard.{has_wildcard}
use shadow_dns.Alias.{Match, rewrite_qname}
use shadow_dns.Alias.Override.{class_inet}
use shadow_dns.Server.{Calls, QueryOpt, Outcome, reply}
use shadow_dns.Server.Reply.{attach_opt}

-- `_, exists := z.Records[name]`
unfoldable pub has_records : Name → Zone → Bool
has_records name z = elim (lookup name z.records) [ none ↦ false | some s ↦ true ]

-- `cappedSOA`; the type of the source rules out any other record.
unfoldable pub capped_soa : Rr → Rr
capped_soa rr = elim rr.rdata [
  | soa n b s1 s2 s3 s4 minttl ↦ if ltb minttl rr.ttl then record rr { ttl = minttl } else rr
  | _ ↦ rr
]

-- The authority section of a negative reply.
unfoldable pub authority : Option Rr → List Rr
unfolding capped_soa
authority none = []
authority (some rr) = capped_soa rr ∷ []

abbrev pub ephemeral_response_ttl : ℕ
ephemeral_response_ttl = 0

unfoldable pub ephemeral_rr : Name → Name → Rr
ephemeral_rr qname_orig value = record {
  name = qname_orig;
  rrtype = TypeCode.txt;
  class = class_inet;
  ttl = ephemeral_response_ttl;
  rdata = txt (value ∷ []);
}

module _ (calls : Calls) where
  -- `backupZoneHasName`
  unfoldable pub backup_zone_has_name : Option Zone → Zone → Match → Name → Bool
  backup_zone_has_name backup_zone root_zone m qname =
      let root_name = rewrite_qname qname m.matched_zone m.root_zone in
      elim backup_zone [ none ↦ false | some z ↦ has_records qname z ]
      || has_records root_name root_zone
      || has_wildcard calls.lib.next_label calls.lib.is_sub_domain root_zone root_name

  -- Whether `negativeReply` finds the name.
  unfoldable pub name_exists : Option Zone → Zone → Match → Name → Bool
  unfolding backup_zone_has_name
  name_exists backup_zone root_zone m qname =
      if m.is_backup
      then backup_zone_has_name backup_zone root_zone m qname
      else has_records qname root_zone
        || has_wildcard calls.lib.next_label calls.lib.is_sub_domain root_zone qname

  -- `negativeReply`
  unfoldable pub negative_reply :
      Msg → QueryOpt → Zone → Option Zone → Match → Name → Option Rr → Outcome
  unfolding authority attach_opt
  negative_reply req qo root_zone backup_zone m qname soa_rr =
      let exists = name_exists backup_zone root_zone m qname in
      let r = record (calls.set_reply req) {
        recursion_available = false;
        authoritative = true;
        rcode = if exists then Rcode.success else Rcode.name_error;
        ns = authority soa_rr;
      } in
      reply (attach_opt r qo) []

  -- `lookupEphemeralTXT` at a time; `none` is nil.
  unfoldable pub lookup_ephemeral_txt : Option Store → ℕ → Name → Name → ℕ → Option (List Rr)
  unfolding lookup_records ephemeral_rr
  lookup_ephemeral_txt store now qname qname_orig qtype =
      if qtype == TypeCode.txt
      then (do
        s ← store
        values ← lookup_records calls.lib.unicode_lower qname now s
        some (map (ephemeral_rr qname_orig) values))
      else none
