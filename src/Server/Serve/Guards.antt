-- ===== src/Server/Serve/Guards.antt =====
-- What `ServeDNS` refuses, and with which code.
use shadow_dns.Prelude.{
  ℕ, ◌*◌, ◌/◌, ◌%◌, ◌≤◌, ◌≡◌, ◌≢◌, ◌⊎◌, inl, inr, refl, sym, ◌∙◌, ap, append-nil, ◌++◌, Bool, true,
  false, ◌&&◌, ◌||◌, not, List, [], ◌∷◌, none, some, arith, ltb, leb, ◌==◌, ◌=?◌, =?-refl, nat_eq,
  list_eq, length, All, Bool-cases,
}
use shadow_dns.Names.{Name, lookup_key}
use shadow_dns.Net.{Addr, is_valid, invalid}
use shadow_dns.Dns.Rcode
use shadow_dns.Dns.TypeCode
use shadow_dns.Dns.{Rr, Msg, Question}
use shadow_dns.View.{resolve}
use shadow_dns.Alias.{is_match, best_zone, detect}
use shadow_dns.Edns.Cookie.{valid_query_len}
use shadow_dns.Server.{Calls, Server, Client, OptRecord, QueryOpt, Outcome, reply}
use shadow_dns.Server.Replies.{opt_rr}
use shadow_dns.Server.Reply.{
  no_opt, first_cookie, parse_query_opt, addr_from_remote, reply_rcode, attach_opt, response_opt,
  response_options,
}
use shadow_dns.Server.Serve.{
  refuse, class_chaos, opcode_query, origins_of, cookie_step, ecs_step, serve_view, serve_question,
  serve_options, serve_questions, serve, serve_dns,
}

-- The lengths that a COOKIE option may have: eight bytes of the client, alone or with eight to
-- thirty-two bytes of a server.
abbrev pub IsCookieSize : ℕ → Type 0
IsCookieSize n = (n ≡ 8) ⊎ ((16 ≤ n) × (n ≤ 40))

valid_query_len-false : (n : ℕ) → ¬ IsCookieSize n → valid_query_len n ≡ false
unfolding valid_query_len
valid_query_len-false n h = elim (Bool-cases (n == 8)) [
  | inl e ↦ absurd (h (inl (ground (arith, e))))
  | inr e ↦ elim (Bool-cases (leb 16 n && leb n 40)) [
    | inl f ↦ absurd (h (inr (ground (arith, f), ground (arith, f))))
    | inr f ↦ ground (arith, e, f)
  ]
]

bad_size :
    (k : ℕ)
    → ((n : ℕ) → k ≡ 2 * n → ¬ IsCookieSize n)
    → (not (k % 2 == 0) || not (valid_query_len (k / 2))) ≡ true
bad_size k h = elim (Bool-cases (k % 2 == 0)) [
  | inr odd ↦ rw odd refl
  | inl even ↦ rw (even, valid_query_len-false (k / 2) (h (k / 2) (ground (arith, even)))) refl
]

-- A name that no zone of the list matches gets no zone.
best_zone-nothing :
    (is_sub_domain : Name → Name → Bool) (qname : Name) (zones : List Name)
    → All (λ (z : Name). is_match is_sub_domain qname z ≡ false) zones
    → best_zone is_sub_domain qname [] zones ≡ []
unfolding best_zone
best_zone-nothing is_sub_domain qname [] h = refl
best_zone-nothing is_sub_domain qname (z ∷ zones) (away, h) =
    rw away (best_zone-nothing is_sub_domain qname zones h)

module _ (calls : Calls) (s : Server) (now : ℕ) (w : Client) (req : Msg) where
  cookie_step-bad :
      (qo : QueryOpt) (hex : Name)
      → qo.cookie ≡ some hex
      → ((n : ℕ) → length hex ≡ 2 * n → ¬ IsCookieSize n)
      → cookie_step calls s (now / 1000000000) w qo ≡ refuse Rcode.format_error
  unfolding cookie_step
  cookie_step-bad qo hex e h = rw (cookie_step, e, bad_size (length hex) h) refl

  -- A query that passes the tests before the options.
  serve-options :
      (question : Question)
      → req.opcode ≡ opcode_query
      → req.question ≡ question ∷ []
      → ((parse_query_opt calls req).present && ltb 0 (parse_query_opt calls req).version) ≡ false
      → serve calls s now w req
        ≡ serve_options calls s now w req (parse_query_opt calls req) question
  unfolding serve serve_questions
  serve-options question opcode one fits =
      let qo = parse_query_opt calls req in
      let asked : serve calls s now w req ≡ serve_questions calls s now w req qo req.question =
        ground (arith, opcode) in
      let opened : serve_questions calls s now w req qo (question ∷ [])
          ≡ serve_options calls s now w req qo question =
        ground (arith, fits) in
      asked ∙ ap (λ (qs : List Question). serve_questions calls s now w req qo qs) one ∙ opened

  serve_dns-some :
      {o : Outcome} → serve calls s now w req ≡ some o → serve_dns calls s now w req ≡ o
  unfolding serve_dns
  serve_dns-some e = rw (serve_dns, e) refl

  parse_query_opt-some :
      (o : OptRecord)
      → calls.is_edns0 req ≡ some o
      → ((parse_query_opt calls req).version ≡ o.version)
        × ((parse_query_opt calls req).cookie ≡ first_cookie o.options)
        × ((parse_query_opt calls req).present ≡ true)
        × ((parse_query_opt calls req).resp_cookie ≡ [])
        × ((parse_query_opt calls req).resp_ecs ≡ none)
  unfolding parse_query_opt
  parse_query_opt-some o e = (
    ground (arith, e),
    ground (arith, e),
    rw (parse_query_opt, e) refl,
    rw (parse_query_opt, e) refl,
    rw (parse_query_opt, e) refl,
  )

  -- The handler writes a message that says no: its code, no authority, the library's answer section
  -- and the given records behind the library's additional ones, and no account name for it.
  abbrev pub SaysNo : ℕ → List Rr → Outcome → Type 0
  SaysNo code extra o =
      (m : Msg) × (o ≡ reply m [])
      × (m.rcode ≡ code)
      × (m.authoritative ≡ false)
      × (m.recursion_available ≡ false)
      × (m.id ≡ (calls.set_reply req).id)
      × (m.question ≡ (calls.set_reply req).question)
      × (m.answer ≡ (calls.set_reply req).answer)
      × (m.extra ≡ (calls.set_reply req).extra ++ extra)

  -- The message of `replyRcode`.
  abbrev no_msg : QueryOpt → ℕ → Msg
  no_msg qo code =
      attach_opt
        (record (calls.set_reply req) {
          recursion_available = false;
          authoritative = false;
          rcode = code;
        })
        qo

  reply_rcode-msg :
      (qo : QueryOpt) (code : ℕ) → reply_rcode calls req qo code ≡ reply (no_msg qo code) []
  unfolding reply_rcode
  reply_rcode-msg qo code = refl

  -- With an OPT record in the query, and no option for the reply.
  SaysNo-opt :
      (qo : QueryOpt) (code : ℕ) {o : Outcome}
      → qo.present ≡ true
      → qo.resp_cookie ≡ []
      → qo.resp_ecs ≡ none
      → o ≡ reply_rcode calls req qo code
      → SaysNo code (opt_rr [] ∷ []) o
  unfolding attach_opt response_opt response_options
  SaysNo-opt qo code p c x e = (
    no_msg qo code,
    e ∙ reply_rcode-msg qo code,
    rw p refl,
    rw p refl,
    rw p refl,
    rw p refl,
    rw p refl,
    rw p refl,
    rw (p, c, x) refl,
  )

  -- Without one.
  SaysNo-bare : (code : ℕ) {o : Outcome} → o ≡ reply_rcode calls req no_opt code → SaysNo code [] o
  unfolding attach_opt
  SaysNo-bare code e = (
    no_msg no_opt code,
    e ∙ reply_rcode-msg no_opt code,
    refl,
    refl,
    refl,
    refl,
    refl,
    refl,
    sym (append-nil (calls.set_reply req).extra),
  )

  -- A query with one question and an OPT record of version 0 whose first COOKIE option is not the
  -- text of as many bytes as a cookie may have is answered with a message of code FORMERR, not
  -- authoritative, with the number, question and answer section of the library's reply to the
  -- query, and behind that reply's additional records an OPT record that has no option, so no
  -- cookie.
  pub serve_dns-bad_cookie :
      (question : Question) (o : OptRecord) (hex : Name)
      → req.opcode ≡ opcode_query
      → req.question ≡ question ∷ []
      → calls.is_edns0 req ≡ some o
      → o.version ≡ 0
      → first_cookie o.options ≡ some hex
      → ((n : ℕ) → length hex ≡ 2 * n → ¬ IsCookieSize n)
      → SaysNo Rcode.format_error (opt_rr [] ∷ []) (serve_dns calls s now w req)
  unfolding serve_options
  serve_dns-bad_cookie question o hex opcode one edns version cookie h =
      let (v, c, p, rc, re) = parse_query_opt-some o edns in
      let bad = cookie_step-bad (parse_query_opt calls req) hex (c ∙ cookie) h in
      let refused : serve_options calls s now w req (parse_query_opt calls req) question
          ≡ some (reply_rcode calls req (parse_query_opt calls req) Rcode.format_error) =
        rw (serve_options, bad) refl in
      SaysNo-opt (parse_query_opt calls req) Rcode.format_error p rc re
        (serve_dns-some (serve-options question opcode one (ground (arith, v, version)) ∙ refused))

  -- What is read of a query without an OPT record.
  parse_query_opt-none : calls.is_edns0 req ≡ none → parse_query_opt calls req ≡ no_opt
  unfolding parse_query_opt
  parse_query_opt-none e = rw (parse_query_opt, e) refl

  -- The name of the query's question, in the form that zones are looked up in.
  abbrev folded : Question → Name
  folded question = lookup_key calls.lib.unicode_lower question.name

  detect-nothing :
      (qname : Name) (zones : List Name) (aliases : List (Name × Name))
      → All (λ (z : Name). is_match calls.lib.is_sub_domain qname z ≡ false) zones
      → (detect calls.lib.is_sub_domain qname zones aliases).matched_zone ≡ []
  unfolding detect
  detect-nothing qname zones aliases h =
      let nothing = best_zone-nothing calls.lib.is_sub_domain qname zones h in
      ground (arith, nothing, =?-refl (best_zone calls.lib.is_sub_domain qname [] zones))

  serve_view-outside :
      (question : Question) (view_name : Name)
      → All
          (λ (z : Name). is_match calls.lib.is_sub_domain (folded question) z ≡ false)
          (origins_of view_name s)
      → serve_view calls s now w req no_opt question view_name
        ≡ some (reply_rcode calls req no_opt Rcode.refused)
  unfolding serve_view
  serve_view-outside question view_name outside =
      let nothing =
        detect-nothing (folded question) (origins_of view_name s) s.state.aliases outside in
      elim (Bool-cases (view_name =? [])) [ inl e ↦ rw e refl | inr e ↦ rw (e, nothing) refl ]

  serve_question-view :
      (question : Question) (ip : Addr)
      → question.qclass ≢ class_chaos
      → question.qtype ≢ TypeCode.axfr
      → question.qtype ≢ TypeCode.ixfr
      → addr_from_remote calls w.remote_addr ≡ some ip
      → serve_question calls s now w req no_opt invalid question
        ≡ serve_view calls s now w req no_opt question
            (resolve calls.equal_fold s.state.matcher ip ip)
  unfolding serve_question is_valid
  serve_question-view question ip chaos axfr ixfr here =
      let c : (question.qclass == class_chaos) ≡ false = ground (arith, chaos) in
      let a : (question.qtype == TypeCode.axfr) ≡ false = ground (arith, axfr) in
      let i : (question.qtype == TypeCode.ixfr) ≡ false = ground (arith, ixfr) in
      rw (serve_question, c, a, i, here) refl

  -- A query of one question without an OPT record, not of class CHAOS and not for a zone transfer,
  -- from a client with an address: if its name is in none of the zones that are loaded for the
  -- view of the address, it is answered with a message of code REFUSED, not
  -- authoritative, with the number, question, answer section and additional records of the
  -- library's reply to the query, and no OPT record behind them.
  pub serve_dns-outside :
      (question : Question) (ip : Addr)
      → req.opcode ≡ opcode_query
      → req.question ≡ question ∷ []
      → calls.is_edns0 req ≡ none
      → question.qclass ≢ class_chaos
      → question.qtype ≢ TypeCode.axfr
      → question.qtype ≢ TypeCode.ixfr
      → addr_from_remote calls w.remote_addr ≡ some ip
      → All
          (λ (z : Name). is_match calls.lib.is_sub_domain (folded question) z ≡ false)
          (origins_of (resolve calls.equal_fold s.state.matcher ip ip) s)
      → SaysNo Rcode.refused [] (serve_dns calls s now w req)
  unfolding serve_options cookie_step ecs_step
  serve_dns-outside question ip opcode one plain chaos axfr ixfr here outside =
      let bare = parse_query_opt-none plain in
      SaysNo-bare Rcode.refused (
        serve_dns-some (
          serve-options question opcode one (rw bare refl)
          ∙ ap (λ (qo : QueryOpt). serve_options calls s now w req qo question) bare
          ∙ serve_question-view question ip chaos axfr ixfr here
          ∙ serve_view-outside question (resolve calls.equal_fold s.state.matcher ip ip) outside))
