-- ===== src/Server/Serve.antt =====
-- internal/server/handler.go: `ServeDNS`, from the guards on a query to the handler of its zone,
-- and `handleTransfer`.
pub mod Guards
use shadow_dns.Prelude.{
  ℕ, ◌/◌, ◌%◌, ◌*◌, Bool, true, false, ◌&&◌, ◌||◌, not, List, [], ◌∷◌, Option, none, some, ltb,
  ◌==◌, Equality, ◌=?◌, nat_eq, list_eq, if◌then◌else◌, length, take,
}
use shadow_dns.Prelude.Map.{lookup}
use shadow_dns.Names.{Name, lookup_key}
use shadow_dns.Net.{Addr, invalid, is_valid}
use shadow_dns.Dns.Rcode
use shadow_dns.Dns.TypeCode
use shadow_dns.Dns.{Msg, Question, Subnet}
use shadow_dns.View.{resolve}
use shadow_dns.Transfer.{allows}
use shadow_dns.Transfer.Axfr.{reply_refused, handle_axfr, handle_alias_axfr}
use shadow_dns.RateLimit.Writer.{is_udp}
use shadow_dns.Alias.{Match, detect}
use shadow_dns.Edns.Cookie.{client_cookie_len, valid_query_len, generate}
use shadow_dns.Edns.Ecs.{EcsClass, ecs_malformed, ecs_valid, ecs_opt_out, classify_ecs, echo_ecs}
use shadow_dns.Server.{
  Calls, Server, Client, QueryOpt, Outcome, reply, transferred, zone_at, flag_at,
}
use shadow_dns.Server.Reply.{no_opt, attach_opt, parse_query_opt, addr_from_remote, reply_rcode}
use shadow_dns.Server.Root.{Query, handle_root_query}
use shadow_dns.Server.Backup.{original_case, handle_backup_query}

-- `dns.ClassCHAOS`, and the opcode `dns.OpcodeQuery`.
abbrev pub class_chaos : ℕ
class_chaos = 3

abbrev pub opcode_query : ℕ
opcode_query = 0

-- `st.ZoneOrigins[viewName]`
unfoldable pub origins_of : Name → Server → List Name
origins_of view_name s = elim (lookup view_name s.state.zone_origins) [ none ↦ [] | some os ↦ os ]

-- What a step of the prologue does: it replies with a code, or goes on with a value.
pub data Step (A : Type 0) : Type 0 where
  refuse : ℕ → Step A
  proceed : A → Step A

module _ (calls : Calls) where
  -- The COOKIE option: the text of the cookie of the reply, or the code of the error.
  unfoldable pub cookie_step : Server → ℕ → Client → QueryOpt → Step Name
  unfolding valid_query_len generate addr_from_remote
  cookie_step s unix_time w qo = elim qo.cookie [
    | none ↦ proceed qo.resp_cookie
    | some hex ↦
        if not (length hex % 2 == 0) || not (valid_query_len (length hex / 2))
        then refuse Rcode.format_error
        else elim (calls.hex_decode (take (client_cookie_len * 2) hex)) [
          | none ↦ refuse Rcode.format_error
          | some client_cookie ↦ elim (addr_from_remote calls w.remote_addr) [
            | none ↦ refuse Rcode.refused
            | some ip ↦
                proceed (
                  calls.hex_encode (generate calls.siphash s.cookie_gen client_cookie ip unix_time))
          ]
        ]
  ]

  -- The client subnet option: the option of the reply and the address for geo rules, which is the
  -- zero address where the option gives none.
  unfoldable pub ecs_step : Server → QueryOpt → Step (Option Subnet × Addr)
  unfolding classify_ecs echo_ecs
  ecs_step s qo = elim qo.ecs [
    | none ↦ proceed (none, invalid)
    | some e ↦
        if not s.ecs_enabled
        then proceed (none, invalid)
        else (let (class, addr) = classify_ecs (some e) in
            elim class [
              | ecs_valid ↦ proceed (some (echo_ecs e e.source_netmask), addr)
              | ecs_opt_out ↦ proceed (some (echo_ecs e 0), invalid)
              | ecs_malformed ↦ refuse Rcode.format_error
            ])
  ]

  -- `handleTransfer`, for a query name in the lookup form; `none` is a panic.
  unfoldable pub handle_transfer : Server → Client → Msg → Name → QueryOpt → Option Outcome
  unfolding origins_of addr_from_remote allows resolve detect zone_at flag_at original_case is_udp
      reply_refused handle_axfr handle_alias_axfr
  handle_transfer s w req qname qo = elim (addr_from_remote calls w.remote_addr) [
    | none ↦ some (reply_rcode calls req qo Rcode.refused)
    | some src ↦
        let view_name = resolve calls.equal_fold s.state.matcher src src in
        let m = detect calls.lib.is_sub_domain qname (origins_of view_name s) s.state.aliases in
        let refusal = reply_refused calls.set_reply req in
        if not (allows s.state.allow_transfer_acl src)
        then some (reply_rcode calls req qo Rcode.refused)
        else if view_name =? []
        then some (reply_rcode calls req qo Rcode.refused)
        else if m.matched_zone =? []
        then some (reply_rcode calls req qo Rcode.refused)
        else if m.is_backup
        then elim (handle_alias_axfr calls.lib refusal (is_udp w.local_addr) m.matched_zone
            (original_case m.matched_zone s.state)
            (zone_at view_name m.root_zone s.state.root_zones)
            (zone_at view_name m.matched_zone s.state.backup_zones)
            (flag_at m.matched_zone s.state.alias_flags)) [
              | none ↦ none
              | some stream ↦ some (transferred stream)
            ]
        else some (
            transferred (
              handle_axfr refusal (is_udp w.local_addr)
                (zone_at view_name m.matched_zone s.state.root_zones)))
  ]

  -- From the view of the client on.
  unfoldable pub serve_view :
      Server → ℕ → Client → Msg → QueryOpt → Question → Name → Option Outcome
  unfolding origins_of detect handle_root_query handle_backup_query
  serve_view s now w req qo question view_name =
      let qname = lookup_key calls.lib.unicode_lower question.name in
      let m = detect calls.lib.is_sub_domain qname (origins_of view_name s) s.state.aliases in
      let q : Query = record {
        server = s;
        now = now;
        client = w;
        req = req;
        view_name = view_name;
        qname = qname;
        qname_orig = question.name;
        qtype = question.qtype;
        found = m;
      } in
      if view_name =? []
      then some (reply_rcode calls req qo Rcode.refused)
      else if m.matched_zone =? []
      then some (reply_rcode calls req qo Rcode.refused)
      else if m.is_backup
      then handle_backup_query calls q qo
      else handle_root_query calls q qo

  -- From the question on: the class, the zone transfers, and the address of the client.
  unfoldable pub serve_question :
      Server → ℕ → Client → Msg → QueryOpt → Addr → Question → Option Outcome
  unfolding serve_view handle_transfer addr_from_remote resolve
  serve_question s now w req qo ecs_geo_ip question =
      if question.qclass == class_chaos
      then some (reply_rcode calls req qo Rcode.refused)
      else if (question.qtype == TypeCode.axfr) || question.qtype == TypeCode.ixfr
      then handle_transfer s w req (lookup_key calls.lib.unicode_lower question.name) qo
      else elim (addr_from_remote calls w.remote_addr) [
        | none ↦ some (reply_rcode calls req qo Rcode.refused)
        | some ip ↦ serve_view s now w req qo question (
            resolve calls.equal_fold s.state.matcher ip
              (if is_valid ecs_geo_ip then ecs_geo_ip else ip))
      ]

  -- The options, then the question.
  unfoldable pub serve_options : Server → ℕ → Client → Msg → QueryOpt → Question → Option Outcome
  unfolding cookie_step ecs_step serve_question
  serve_options s now w req qo question = elim (cookie_step s (now / 1000000000) w qo) [
    | refuse rcode ↦ some (reply_rcode calls req qo rcode)
    | proceed resp_cookie ↦
        let cooked = record qo { resp_cookie = resp_cookie } in
        elim (ecs_step s cooked) [
          | refuse rcode ↦ some (reply_rcode calls req cooked rcode)
          | proceed (resp_ecs, geo_ip) ↦
              serve_question s now w req (record cooked { resp_ecs = resp_ecs }) geo_ip question
        ]
  ]

  -- From the count of the questions on.
  unfoldable pub serve_questions :
      Server → ℕ → Client → Msg → QueryOpt → List Question → Option Outcome
  unfolding serve_options
  serve_questions s now w req qo [] = some (reply_rcode calls req qo Rcode.format_error)
  serve_questions s now w req qo (question ∷ []) =
      if qo.present && ltb 0 qo.version
      then some (reply_rcode calls req qo Rcode.bad_vers)
      else serve_options s now w req qo question
  serve_questions s now w req qo (question ∷ next ∷ more) =
      some (reply_rcode calls req qo Rcode.format_error)

  -- The body of `ServeDNS`.
  unfoldable pub serve : Server → ℕ → Client → Msg → Option Outcome
  unfolding serve_questions parse_query_opt
  serve s now w req =
      let qo = parse_query_opt calls req in
      if not (req.opcode == opcode_query)
      then some (reply_rcode calls req qo Rcode.not_implemented)
      else serve_questions s now w req qo req.question

  -- The reply that `ServeDNS` gives when it recovers from a panic.
  unfoldable pub recovered : Msg → Outcome
  unfolding attach_opt
  recovered req =
      let m = record (calls.set_reply req) {
        recursion_available = false;
        rcode = Rcode.server_failure;
      } in
      let qo = record no_opt {
        present = elim (calls.is_edns0 req) [ none ↦ false | some o ↦ true ];
      } in
      reply (attach_opt m qo) []

  -- `ServeDNS`, at a time in nanoseconds.
  unfoldable pub serve_dns : Server → ℕ → Client → Msg → Outcome
  unfolding serve recovered
  serve_dns s now w req = elim (serve s now w req) [ none ↦ recovered req | some o ↦ o ]
