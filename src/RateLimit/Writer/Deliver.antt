-- ===== src/RateLimit/Writer/Deliver.antt =====
-- What `WriteMsg` writes.
use shadow_dns.Prelude.{
  ℕ, ◌<◌, ◌≡◌, ◌⊎◌, inl, inr, refl, sym, ◌∙◌, Bool, true, false, if◌then◌else◌, Option, none, some,
  arith, Bool-cases, Option-cases,
}
use shadow_dns.Prelude.Int.{pos}
use shadow_dns.Prelude.Partial.{some-inj}
use shadow_dns.Names.{Name}
use shadow_dns.Dns.{Msg}
use shadow_dns.RateLimit.Slip.{allow, drop, slip, truncate_response, uint32_mod}
use shadow_dns.RateLimit.Classify.{classify_response}
use shadow_dns.RateLimit.Limiter.{Limiter}
use shadow_dns.RateLimit.Limiter.Decide.{
  decide-answers, is_limited, is_turn, limiting_count, expected,
}
use shadow_dns.Net.{Addr}
use shadow_dns.RateLimit.Writer.{
  ResponseWriter, is_udp, client_addr, account_name, deliver, write_msg,
}

-- A limiter whose slip is a number of 32 bits.
abbrev pub IsSane : ResponseWriter → Type 0
IsSane w = (l : Limiter) → w.limiter ≡ some l → (n : ℕ) × (l.slip ≡ pos n) × (n < uint32_mod)

module _ (unicode_lower : Name → Name) where
  -- A message that goes over TCP, or to a client without an address, or past no limiter, is
  -- written as it is, and the limiter is not called.
  pub write_msg-unlimited :
      (now : ℕ) (w : ResponseWriter) (m : Msg)
      → (is_udp w.local_addr ≡ false) ⊎ ((client_addr w.remote_addr ≡ none) ⊎ (w.limiter ≡ none))
      → write_msg unicode_lower now w m ≡ some (w, some m)
  unfolding write_msg
  write_msg-unlimited now w m (inl tcp) = ground (arith, tcp)
  write_msg-unlimited now w m (inr (inl unknown)) = ground (arith, unknown)
  write_msg-unlimited now w m (inr (inr off)) = elim (Option-cases (client_addr w.remote_addr)) [
    | inl unknown ↦ ground (arith, unknown)
    | inr (ip, known) ↦ ground (arith, known, off)
  ]

  -- A message over UDP, to a client with an address and past a limiter of this slip, whose response
  -- is limited.
  abbrev pub Limited : ℕ → ResponseWriter → Msg → ℕ → Limiter → Addr → Type 0
  Limited now w m n l ip =
      (is_udp w.local_addr ≡ true)
      × (client_addr w.remote_addr ≡ some ip)
      × (w.limiter ≡ some l)
      × (l.slip ≡ pos n)
      × (is_limited now ip (classify_response m) (account_name unicode_lower w m) l ≡ true)

  -- What is written of a limited message: the truncated message at its turn, and else nothing.
  abbrev pub remnant : ℕ → ResponseWriter → Msg → ℕ → Limiter → Addr → Option Msg
  remnant now w m n l ip =
      if is_turn n (limiting_count now ip (classify_response m) (account_name unicode_lower w m) l)
      then some (truncate_response m)
      else none

  -- The message is not limited and written as it is, or it is limited and its remnant is written.
  abbrev pub Outcome : ℕ → ResponseWriter → Msg → Option Msg → Type 0
  Outcome now w m r =
      (((n : ℕ) (l : Limiter) (ip : Addr) → ¬ Limited now w m n l ip) × (r ≡ some m))
      ⊎ ((n : ℕ) × (l : Limiter) × (ip : Addr) × Limited now w m n l ip
          × (r ≡ remnant now w m n l ip))

  deliver-Outcome :
      (b turn : Bool) (m : Msg)
      → deliver (if b then (if turn then slip else drop) else allow) m
        ≡ (if b then (if turn then some (truncate_response m) else none) else some m)
  unfolding deliver
  deliver-Outcome true true m = refl
  deliver-Outcome true false m = refl
  deliver-Outcome false turn m = refl

  -- With a slip of 32 bits `WriteMsg` never panics. It limits a message where this goes over UDP, the
  -- client has an address and is not exempt, the limiter does not only log, and the account of the
  -- message's category and name or the aggregate account is over its limit when it is charged. It
  -- writes the limited message truncated at the first count of the account and at every n-th after
  -- it, for a slip of n, and else nothing; and every other message as it is.
  pub write_msg-Outcome :
      (now : ℕ) (w : ResponseWriter) (m : Msg)
      → IsSane w
      → (w' : ResponseWriter) × (r : Option Msg) × (write_msg unicode_lower now w m ≡ some (w', r))
        × Outcome now w m r
  unfolding write_msg
  write_msg-Outcome now w m sane = elim (Bool-cases (is_udp w.local_addr)) [
    | inr tcp ↦ (w, some m, ground (arith, tcp), inl ((λ n l ip h. cc (tcp, h.0)), refl))
    | inl udp ↦ elim (Option-cases (client_addr w.remote_addr)) [
      | inl unknown ↦
          (w, some m, ground (arith, udp, unknown), inl ((λ n l ip h. cc (unknown, h.1)), refl))
      | inr (ip, known) ↦ elim (Option-cases w.limiter) [
        | inl off ↦
            (w, some m, ground (arith, udp, known, off), inl ((λ n l ip h. cc (off, h.2)), refl))
        | inr (l, on) ↦
            let (n, whole, small) = sane l on in
            let name = account_name unicode_lower w m in
            let c = classify_response m in
            let (l', e) = decide-answers now n ip c name l whole small in
            let a = expected n now ip c name l in
            let written : write_msg unicode_lower now w m
                ≡ some (record w { limiter = some l' }, deliver a m) =
              ground (arith, udp, known, on, e) in
            let turn = is_turn n (limiting_count now ip c name l) in
            (
              record w { limiter = some l' },
              deliver a m,
              written,
              elim (Bool-cases (is_limited now ip c name l)) [
                | inl over ↦ inr (
                  n,
                  l,
                  ip,
                  (udp, known, on, whole, over),
                  deliver-Outcome (is_limited now ip c name l) turn m ∙ rw over refl,
                )
                | inr under ↦ inl (
                  (λ n' j a' h.
                      cc (under, h.4, some-inj (sym known ∙ h.1), some-inj (sym on ∙ h.2))),
                  deliver-Outcome (is_limited now ip c name l) turn m ∙ rw under refl,
                )
              ],
            )
      ]
    ]
  ]
