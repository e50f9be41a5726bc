-- ===== src/Server/Replies.antt =====
-- What every message of the handler has, whatever the query meets: the messages one by one, and in
-- the children the handlers.
pub mod Root
pub mod Backup
pub mod Serve
use shadow_dns.Prelude.{
  ℕ, ◌/◌, ◌≡◌, inl, inr, refl, sym, ◌∙◌, ap, subst, Bool, true, false, ◌&&◌, ◌||◌, not, List, [],
  ◌∷◌, ◌++◌, Option, none, some, arith, ltb, leb, ◌==◌, Equality, ◌=?◌, nat_eq, list_eq,
  if◌then◌else◌, length, Bool-cases, Option-cases, append-nil,
}
use shadow_dns.Prelude.Partial.{◌>>=◌}
use shadow_dns.Names.{Name, root_name}
use shadow_dns.Dns.Rcode
use shadow_dns.Dns.TypeCode
use shadow_dns.Dns.{Msg, Rr, Rdata, opt, EdnsOption, Question}
use shadow_dns.Zone.{Zone}
use shadow_dns.Zone.Cname.{
  CollapseResult, collapse_records, collapse_tail, collapse_no_data, collapse_cname,
}
use shadow_dns.Alias.{Match}
use shadow_dns.Alias.Override.{Stage}
use shadow_dns.Transfer.Axfr.{axfr_refused, axfr_stream}
use shadow_dns.Server.{Calls, Server, Client, QueryOpt, OptRecord, Outcome, reply, transferred}
use shadow_dns.Server.Reply.{
  edns_udp_size, response_options, attach_opt, answer_msg, reply_rcode, reply_with_answer,
  search_prefix, truncate_for_udp, with_prefix, parse_query_opt, no_opt, udp_max_size,
}
use shadow_dns.RateLimit.Writer.{is_udp}
use shadow_dns.Server.Reply.Truncate.{cut_at}
use shadow_dns.Server.Negative.{negative_reply}
use shadow_dns.Server.Root.{
  Query, collapse_answer, collapse_or, root_wildcard, root_fallback, root_records,
  handle_root_query,
}
use shadow_dns.Server.Backup.{
  BackupContext, backup_negative, answered_or, owned_by, backup_collapsed, backup_plain,
  backup_records, handle_backup_query,
}
use shadow_dns.Server.Serve.{
  Step, refuse, proceed, handle_transfer, serve_view, serve_question, serve_options, serve,
  recovered, serve_dns, cookie_step, ecs_step,
}

-- The OPT record of a reply with these options: version 0, no flags, the server's payload size.
abbrev pub opt_rr : List EdnsOption → Rr
opt_rr options = record {
  name = root_name;
  rrtype = TypeCode.opt;
  class = edns_udp_size;
  ttl = 0;
  rdata = opt options;
}

-- Whether a query carries an OPT record.
abbrev pub has_edns : Calls → Msg → Bool
has_edns calls req = elim (calls.is_edns0 req) [ none ↦ false | some o ↦ true ]

-- A reply to the query: its number and question, no recursion, and one OPT record of the server's
-- behind the library's additional records if the query carried one.
pub record IsReply (calls : Calls) (req m : Msg) : Type 0 where
  pub same_id : m.id ≡ (calls.set_reply req).id
  pub same_question : m.question ≡ (calls.set_reply req).question
  pub no_recursion : m.recursion_available ≡ false
  pub options : List EdnsOption
  pub echoed :
      m.extra
      ≡ (calls.set_reply req).extra ++ (if has_edns calls req then opt_rr options ∷ [] else [])

-- The refusal of a transfer: the number and question of a reply to the query, REFUSED, no
-- recursion, and no additional records but the library's.
pub record IsRefusal (calls : Calls) (req m : Msg) : Type 0 where
  pub refused_id : m.id ≡ (calls.set_reply req).id
  pub refused_question : m.question ≡ (calls.set_reply req).question
  pub refused_code : m.rcode ≡ Rcode.refused
  pub refused_recursion : m.recursion_available ≡ false
  pub refused_extra : m.extra ≡ (calls.set_reply req).extra

-- Every message is a reply; and where a transfer is refused or begun, `T` holds.
abbrev pub AllReplies : Type 0 → Calls → Msg → Outcome → Type 0
AllReplies T calls req (reply m owner) = IsReply calls req m
AllReplies T calls req (transferred (axfr_refused m)) = T × IsRefusal calls req m
AllReplies T calls req (transferred (axfr_stream envelopes)) = T

-- The same of what may panic.
abbrev pub AllOutcomes : Type 0 → Calls → Msg → Option Outcome → Type 0
AllOutcomes T calls req none = Unit
AllOutcomes T calls req (some o) = AllReplies T calls req o

module _ (calls : Calls) (req : Msg) where
  -- What is read of the OPT record tells whether there is one.
  abbrev pub Tells : QueryOpt → Type 0
  Tells qo = qo.present ≡ has_edns calls req

  pub attach_opt-IsReply :
      (m : Msg) (qo : QueryOpt)
      → Tells qo
      → m.id ≡ (calls.set_reply req).id
      → m.question ≡ (calls.set_reply req).question
      → m.recursion_available ≡ false
      → m.extra ≡ (calls.set_reply req).extra
      → IsReply calls req (attach_opt m qo)
  unfolding attach_opt
  attach_opt-IsReply m qo t a b c d = elim (Bool-cases (has_edns calls req)) [
    | inl here ↦
        let on : qo.present ≡ true = t ∙ here in
        rw on (record {
          same_id = a;
          same_question = b;
          no_recursion = c;
          options = response_options qo;
          echoed = rw here (ap (λ (e : List Rr). e ++ opt_rr (response_options qo) ∷ []) d);
        })
    | inr gone ↦
        let off : qo.present ≡ false = t ∙ gone in
        rw off (record {
          same_id = a;
          same_question = b;
          no_recursion = c;
          options = [];
          echoed = rw gone (d ∙ sym (append-nil (calls.set_reply req).extra));
        })
  ]

  abbrev OptReply : Option Msg → Type 0
  OptReply none = Unit
  OptReply (some m) = IsReply calls req m

  -- The cut of the answer and the mark leave what a reply has.
  cut-IsReply : (m : Msg) (n : ℕ) → IsReply calls req m → IsReply calls req (cut_at m n)
  cut-IsReply m n h = record {
    same_id = h.same_id;
    same_question = h.same_question;
    no_recursion = h.no_recursion;
    options = h.options;
    echoed = h.echoed;
  }

  searched-OptReply :
      (m : Msg) (found : Option (Option ℕ))
      → IsReply calls req m
      → OptReply (elim found as (λ x. Option Msg) [
        | none ↦ none
        | some none ↦ some m
        | some (some lo) ↦ some (record (with_prefix m lo) { truncated = true })
      ])
  searched-OptReply m none h = tt
  searched-OptReply m (some none) h = h
  searched-OptReply m (some (some lo)) h = cut-IsReply m lo h

  truncate-OptReply :
      (m : Msg) (budget : ℕ) → IsReply calls req m → OptReply (truncate_for_udp calls m budget)
  unfolding truncate_for_udp
  truncate-OptReply m budget h = elim (Option-cases (calls.pack_size m)) [
    | inl bad ↦ rw (truncate_for_udp, bad) h
    | inr (size, packed) ↦ elim (Bool-cases (leb size budget)) [
      | inl fits ↦ rw (truncate_for_udp, packed, fits) h
      | inr over ↦ rw (truncate_for_udp, packed, over) (searched-OptReply m _ h)
    ]
  ]

module _ (T : Type 0) (calls : Calls) (req : Msg) where
  pub reply_rcode-AllReplies :
      (qo : QueryOpt) (rcode : ℕ)
      → Tells calls req qo
      → AllReplies T calls req (reply_rcode calls req qo rcode)
  unfolding reply_rcode
  reply_rcode-AllReplies qo rcode t = attach_opt-IsReply calls req _ qo t refl refl refl refl

  pub negative_reply-AllReplies :
      (qo : QueryOpt) (root_zone : Zone) (backup_zone : Option Zone) (m : Match) (qname : Name)
      (soa_rr : Option Rr)
      → Tells calls req qo
      → AllReplies T calls req (negative_reply calls req qo root_zone backup_zone m qname soa_rr)
  unfolding negative_reply
  negative_reply-AllReplies qo root_zone backup_zone m qname soa_rr t =
      attach_opt-IsReply calls req _ qo t refl refl refl refl

  answer_msg-IsReply :
      (qo : QueryOpt) (answer : List Rr)
      → Tells calls req qo
      → IsReply calls req (answer_msg calls req qo answer)
  unfolding answer_msg
  answer_msg-IsReply qo answer t = attach_opt-IsReply calls req _ qo t refl refl refl refl

  pub reply_with_answer-AllOutcomes :
      (w : Client) (qo : QueryOpt) (answer : List Rr)
      → Tells calls req qo
      → AllOutcomes T calls req (reply_with_answer calls w req qo answer)
  unfolding reply_with_answer
  reply_with_answer-AllOutcomes w qo answer t = elim (Bool-cases (is_udp w.local_addr)) [
    | inl udp ↦
        rw (reply_with_answer, udp)
          (sent _
            (truncate-OptReply calls req (answer_msg calls req qo answer) (udp_max_size qo) whole))
    | inr other_kind ↦ rw (reply_with_answer, other_kind) whole
  ]
    where
      whole : IsReply calls req (answer_msg calls req qo answer)
      whole = answer_msg-IsReply qo answer t

      sent :
          (m : Option Msg)
          → OptReply calls req m
          → AllOutcomes T calls req (elim m as (λ x. Option Outcome) [
            | none ↦ none
            | some s ↦ some (reply s qo.rrl_wildcard_owner)
          ])
      sent none h = tt
      sent (some m) h = h
