-- ===== src/Server/Replies/Serve.antt =====
-- The replies of the whole handler.
use shadow_dns.Prelude.{
  ℕ, ◌/◌, ◌≡◌, refl, Bool, true, false, ◌&&◌, ◌||◌, not, List, [], ◌∷◌, Option, none, some, ltb,
  ◌==◌, ◌=?◌, nat_eq, list_eq, if◌then◌else◌, Option-cases, inl, inr, arith, sym, subst,
}
use shadow_dns.Names.{Name, lookup_key}
use shadow_dns.Net.{Addr}
use shadow_dns.Dns.TypeCode
use shadow_dns.Alias.Withhold.{WithheldRecord}
use shadow_dns.Dns.{Rr, Msg, Question}
use shadow_dns.View.{resolve}
use shadow_dns.Transfer.{allows}
use shadow_dns.Transfer.Axfr.{
  envelopes, build_alias_records, Stream, axfr_refused, axfr_stream, reply_refused, handle_axfr,
  handle_alias_axfr,
}
use shadow_dns.Zone.{Zone}
use shadow_dns.Alias.Rewrite.{backup_soa}
use shadow_dns.Prelude.Partial.{◌>>=◌}
use shadow_dns.Alias.{detect}
use shadow_dns.Server.{Calls, Server, Client, QueryOpt, Outcome, transferred}
use shadow_dns.Server.Reply.{no_opt, parse_query_opt, addr_from_remote}
use shadow_dns.Server.Root.{Query}
use shadow_dns.Server.Serve.{
  Step, refuse, proceed, class_chaos, opcode_query, origins_of, cookie_step, ecs_step,
  handle_transfer, serve_view, serve_question, serve_options, serve_questions, serve, recovered,
  serve_dns,
}
use shadow_dns.Server.Replies.{
  AllReplies, AllOutcomes, IsRefusal, Tells, has_edns, attach_opt-IsReply, reply_rcode-AllReplies,
}
use shadow_dns.Server.Replies.Root.{handle_root_query-AllOutcomes}
use shadow_dns.Server.Replies.Backup.{handle_backup_query-AllOutcomes}

module _ (calls : Calls) (s : Server) (now : ℕ) (w : Client) (req : Msg) where
  -- The address of the client, and that the transfer list allows it.
  abbrev pub Allowed : Type 0
  Allowed =
      (src : Addr) × (addr_from_remote calls w.remote_addr ≡ some src)
      × (allows s.state.allow_transfer_acl src ≡ true)

  -- The message that refuses a transfer.
  abbrev refusal : Msg
  refusal = reply_refused calls.set_reply req

  refusal-IsRefusal : IsRefusal calls req refusal
  unfolding reply_refused
  refusal-IsRefusal = record {
    refused_id = refl;
    refused_question = refl;
    refused_code = refl;
    refused_recursion = refl;
    refused_extra = refl;
  }

  -- What a transfer is refused with, if it is.
  abbrev Answers : Stream → Type 0
  Answers (axfr_refused m) = m ≡ refusal
  Answers (axfr_stream es) = Unit

  handle_axfr-Answers : (udp : Bool) (z : Option Zone) → Answers (handle_axfr refusal udp z)
  unfolding handle_axfr
  handle_axfr-Answers true z = refl
  handle_axfr-Answers false none = refl
  handle_axfr-Answers false (some z) = elim (Option-cases z.soa) [
    | inl e ↦ rw e refl
    | inr (rr, e) ↦ rw e tt
  ]

  -- The stream, where there is no panic.
  abbrev AllAnswers : Option Stream → Type 0
  AllAnswers none = Unit
  AllAnswers (some t) = Answers t

  then-AllAnswers :
      {V : Type 0} (o : Option V) (f : V → Option Stream)
      → ((v : V) → AllAnswers (f v))
      → AllAnswers (o >>= f)
  then-AllAnswers none f h = tt
  then-AllAnswers (some v) f h = h v

  handle_alias_axfr-AllAnswers :
      (udp : Bool) (origin original : Name) (z own : Option Zone) (labels : Bool)
      → AllAnswers (handle_alias_axfr calls.lib refusal udp origin original z own labels)
  unfolding handle_alias_axfr
  handle_alias_axfr-AllAnswers true origin original z own labels = refl
  handle_alias_axfr-AllAnswers false origin original none own labels = refl
  handle_alias_axfr-AllAnswers false origin original (some z) own labels =
      elim (Option-cases z.soa) [
        | inl e ↦ rw e refl
        | inr (rr, e) ↦
            let records = build_alias_records calls.lib z own z.origin origin original labels in
            let made =
              backup_soa calls.lib.unicode_lower calls.lib.is_sub_domain (some rr) z.origin
                original in
            let stream = λ (soa_rr : Rr) (r : List Rr × List WithheldRecord).
              some (axfr_stream (envelopes soa_rr r.0)) in
            rw e (
              then-AllAnswers made (λ soa_rr. records >>= stream soa_rr)
                (λ soa_rr. then-AllAnswers records (stream soa_rr) (λ r. tt)))
      ]

  if-Outcomes :
      (x y : Option Outcome) (b : Bool)
      → AllOutcomes Allowed calls req x
      → AllOutcomes Allowed calls req y
      → AllOutcomes Allowed calls req (if b then x else y)
  if-Outcomes x y true h k = h
  if-Outcomes x y false h k = k

  found-Outcomes :
      {V : Type 0} (o : Option V) (n : Option Outcome) (f : V → Option Outcome)
      → AllOutcomes Allowed calls req n
      → ((v : V) → AllOutcomes Allowed calls req (f v))
      → AllOutcomes Allowed calls req (elim o as (λ x. Option Outcome) [ none ↦ n | some v ↦ f v ])
  found-Outcomes none n f h k = h
  found-Outcomes (some v) n f h k = k v

  step-Outcomes :
      {V : Type 0} (o : Step V) (f : ℕ → Option Outcome) (g : V → Option Outcome)
      → ((rcode : ℕ) → AllOutcomes Allowed calls req (f rcode))
      → ((v : V) → AllOutcomes Allowed calls req (g v))
      → AllOutcomes Allowed calls req
          (elim o as (λ x. Option Outcome) [ refuse rcode ↦ f rcode | proceed v ↦ g v ])
  step-Outcomes (refuse rcode) f g h k = h rcode
  step-Outcomes (proceed v) f g h k = k v

  known-Outcomes :
      {V : Type 0} (o : Option V) (n : Option Outcome) (f : V → Option Outcome)
      → AllOutcomes Allowed calls req n
      → ((v : V) → o ≡ some v → AllOutcomes Allowed calls req (f v))
      → AllOutcomes Allowed calls req (elim o as (λ x. Option Outcome) [ none ↦ n | some v ↦ f v ])
  known-Outcomes none n f h k = h
  known-Outcomes (some v) n f h k = k v refl

  -- The second branch knows that the test has failed.
  guarded-Outcomes :
      (x y : Option Outcome) (b : Bool)
      → AllOutcomes Allowed calls req x
      → (b ≡ true → AllOutcomes Allowed calls req y)
      → AllOutcomes Allowed calls req (if not b then x else y)
  guarded-Outcomes x y true h k = k refl
  guarded-Outcomes x y false h k = h

  -- A transfer that has passed the transfer list, by what its handler is given.
  stream-AllReplies :
      (t : Stream) → Allowed → Answers t → AllReplies Allowed calls req (transferred t)
  stream-AllReplies (axfr_refused m) ok e =
      (ok, subst (IsRefusal calls req) (sym e) refusal-IsRefusal)
  stream-AllReplies (axfr_stream es) ok e = ok

  streamed-AllOutcomes :
      (o : Option Stream)
      → Allowed
      → AllAnswers o
      → AllOutcomes Allowed calls req
          (elim o as (λ x. Option Outcome) [ none ↦ none | some t ↦ some (transferred t) ])
  streamed-AllOutcomes none ok e = tt
  streamed-AllOutcomes (some t) ok e = stream-AllReplies t ok e

  handle_transfer-AllOutcomes :
      (qname : Name) (qo : QueryOpt)
      → Tells calls req qo
      → AllOutcomes Allowed calls req (handle_transfer calls s w req qname qo)
  unfolding handle_transfer
  handle_transfer-AllOutcomes qname qo t =
      let no = reply_rcode-AllReplies Allowed calls req qo _ t in
      known-Outcomes (addr_from_remote calls w.remote_addr) _ _ no λ src e.
        let view_name = resolve calls.equal_fold s.state.matcher src src in
        let m = detect calls.lib.is_sub_domain qname (origins_of view_name s) s.state.aliases in
        guarded-Outcomes _ _ (allows s.state.allow_transfer_acl src) no λ ok.
          if-Outcomes _ _ (view_name =? []) no (
            if-Outcomes _ _ (m.matched_zone =? []) no (
              if-Outcomes _ _ m.is_backup
                (streamed-AllOutcomes _ (src, e, ok) (handle_alias_axfr-AllAnswers _ _ _ _ _ _))
                (stream-AllReplies _ (src, e, ok) (handle_axfr-Answers _ _))))

  serve_view-AllOutcomes :
      (qo : QueryOpt) (question : Question) (view_name : Name)
      → Tells calls req qo
      → AllOutcomes Allowed calls req (serve_view calls s now w req qo question view_name)
  unfolding serve_view
  serve_view-AllOutcomes qo question view_name t =
      let no = reply_rcode-AllReplies Allowed calls req qo _ t in
      let qname = lookup_key calls.lib.unicode_lower question.name in
      let m = detect calls.lib.is_sub_domain qname (origins_of view_name s) s.state.aliases in
      let q : Query = record {
        server = s;
        now = now;
        client = w;
        req = req;
        view_name = view_name;
        qname = qname;
        qname_orig = question.name;
        qtype = question.qtype;
        found = m;
      } in
      if-Outcomes _ _ (view_name =? []) no (
        if-Outcomes _ _ (m.matched_zone =? []) no (
          if-Outcomes _ _ m.is_backup (handle_backup_query-AllOutcomes Allowed calls q qo t)
            (handle_root_query-AllOutcomes Allowed calls q qo t)))

  serve_question-AllOutcomes :
      (qo : QueryOpt) (ecs_geo_ip : Addr) (question : Question)
      → Tells calls req qo
      → AllOutcomes Allowed calls req (serve_question calls s now w req qo ecs_geo_ip question)
  unfolding serve_question
  serve_question-AllOutcomes qo ecs_geo_ip question t =
      let no = reply_rcode-AllReplies Allowed calls req qo _ t in
      if-Outcomes _ _ (question.qclass == class_chaos) no (
        if-Outcomes _ _ ((question.qtype == TypeCode.axfr) || question.qtype == TypeCode.ixfr)
          (handle_transfer-AllOutcomes _ qo t)
          (found-Outcomes (addr_from_remote calls w.remote_addr) _ _ no
            (λ ip. serve_view-AllOutcomes qo question _ t)))

  serve_options-AllOutcomes :
      (qo : QueryOpt) (question : Question)
      → Tells calls req qo
      → AllOutcomes Allowed calls req (serve_options calls s now w req qo question)
  unfolding serve_options
  serve_options-AllOutcomes qo question t =
      step-Outcomes (cookie_step calls s (now / 1000000000) w qo) _ _
        (λ rcode. reply_rcode-AllReplies Allowed calls req qo rcode t)
        (λ resp_cookie.
          let cooked = record qo { resp_cookie = resp_cookie } in
          step-Outcomes (ecs_step calls s cooked) _ _
            (λ rcode. reply_rcode-AllReplies Allowed calls req cooked rcode t)
            (λ o. serve_question-AllOutcomes (record cooked { resp_ecs = o.0 }) o.1 question t))

  parse_query_opt-Tells : Tells calls req (parse_query_opt calls req)
  unfolding parse_query_opt
  parse_query_opt-Tells = elim (Option-cases (calls.is_edns0 req)) [
    | inl e ↦ ground (arith, e)
    | inr (o, e) ↦ ground (arith, e)
  ]

  serve_questions-AllOutcomes :
      (qo : QueryOpt) (questions : List Question)
      → Tells calls req qo
      → AllOutcomes Allowed calls req (serve_questions calls s now w req qo questions)
  unfolding serve_questions
  serve_questions-AllOutcomes qo [] t = reply_rcode-AllReplies Allowed calls req qo _ t
  serve_questions-AllOutcomes qo (question ∷ []) t =
      if-Outcomes _ _ (qo.present && ltb 0 qo.version)
        (reply_rcode-AllReplies Allowed calls req qo _ t) (serve_options-AllOutcomes qo question t)
  serve_questions-AllOutcomes qo (question ∷ next ∷ more) t =
      reply_rcode-AllReplies Allowed calls req qo _ t

  serve-AllOutcomes : AllOutcomes Allowed calls req (serve calls s now w req)
  unfolding serve
  serve-AllOutcomes =
      let qo = parse_query_opt calls req in
      if-Outcomes _ _ (not (req.opcode == opcode_query))
        (reply_rcode-AllReplies Allowed calls req qo _ parse_query_opt-Tells)
        (serve_questions-AllOutcomes qo req.question parse_query_opt-Tells)

  recovered-AllReplies : AllReplies Allowed calls req (recovered calls req)
  unfolding recovered
  recovered-AllReplies =
      attach_opt-IsReply calls req _ (record no_opt { present = has_edns calls req }) refl refl refl
        refl refl

  -- `ServeDNS` answers a zone transfer, with the zone or with a refusal of the transfer's handler,
  -- only for a client whose address the transfer list allows. Every message that it writes, that of
  -- a recovered panic too, has the number and the question of the library's reply to the query and
  -- offers no recursion. Behind that reply's additional records a message has one OPT record, of
  -- version 0, without flags and with the server's payload size, if the query carries an OPT
  -- record, and else nothing; but a refusal of the transfer's handler, whose code is REFUSED, has
  -- none in either case.
  pub serve_dns-AllReplies : AllReplies Allowed calls req (serve_dns calls s now w req)
  unfolding serve_dns
  serve_dns-AllReplies = outcome (serve calls s now w req) serve-AllOutcomes
    where
      outcome :
          (o : Option Outcome)
          → AllOutcomes Allowed calls req o
          → AllReplies Allowed calls req
              (elim o as (λ x. Outcome) [ none ↦ recovered calls req | some r ↦ r ])
      outcome none h = recovered-AllReplies
      outcome (some r) h = h
