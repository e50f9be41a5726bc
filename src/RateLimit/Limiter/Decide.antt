-- ===== src/RateLimit/Limiter/Decide.antt =====
-- What a decision does to the accounts, and what it may answer.
use shadow_dns.Prelude.{
  ℕ, ◌+◌, ◌-◌, ◌%◌, ◌==◌, ◌<◌, ◌≡◌, inl, inr, refl, sym, ◌∙◌, ap, subst, Bool, true, false, ◌&&◌,
  ◌||◌, not, List, [], none, some, arith, ltb, if◌then◌else◌, Bool-cases, Option-cases,
}
use shadow_dns.Prelude.Int.{pos}
use shadow_dns.Names.{Name}
use shadow_dns.Net.{Addr}
use shadow_dns.RateLimit.Slip.{Action, allow, drop, slip, slip_action, uint32_mod}
use shadow_dns.RateLimit.Classify.{Category, all_responses}
use shadow_dns.RateLimit.Exempt.{is_exempt}
use shadow_dns.RateLimit.Float64.{mul}
use shadow_dns.RateLimit.Table.{AccountKey, Table, charge_table}
use shadow_dns.RateLimit.Table.Index.{IsTable, charge_table-IsTable}
use shadow_dns.RateLimit.Limiter.{
  Limiter, Label, exempted, logonly_would_drop, label_of, conclude, note, charge_if, charge_both,
  enforce, decide, mask_addr,
}

note-table : (c : Category) (b : Label) (l : Limiter) → (note c b l).table ≡ l.table
unfolding note
note-table c b l = ground arith

-- The events that a limiter has reported.
abbrev pub reported : Limiter → List (Category × Label)
reported l = elim l.recorder [ none ↦ [] | some events ↦ events ]

enforce-table :
    (c : Category) (n : ℕ) (l : Limiter) {l' : Limiter} {a : Action}
    → enforce l c n ≡ some (l', a)
    → l'.table ≡ l.table
unfolding enforce
enforce-table c n l {l'} {a} e = elim (Option-cases (slip_action l.slip n)) [
  | inl panic ↦ absurd (ground (arith, panic))
  | inr (x, acted) ↦
      let same : l' ≡ note c (label_of x) l = ground (arith, acted) in
      ap (λ (m : Limiter). m.table) same ∙ note-table c (label_of x) l
]

conclude-table :
    (c : Category) (x y : Bool × ℕ) (l : Limiter) {l' : Limiter} {a : Action}
    → conclude c x y l ≡ some (l', a)
    → l'.table ≡ l.table
unfolding conclude
conclude-table c (co, cs) (ao, al) l {l'} {a} e = elim (Bool-cases (not co && not ao)) [
  | inl under ↦ let same : l' ≡ l = ground (arith, under) in ap (λ (m : Limiter). m.table) same
  | inr over ↦ elim (Bool-cases l.log_only) [
    | inl only ↦
        let same : l' ≡ note c logonly_would_drop l = ground (arith, over, only) in
        ap (λ (m : Limiter). m.table) same ∙ note-table c logonly_would_drop l
    | inr acts ↦
        enforce-table c (if co then cs else al) l {l' = l'} {a = a} (ground (arith, over, acts, e))
  ]
]

-- The keys of the account of a category and name, and of the aggregate account, of a client.
abbrev pub category_key : Limiter → Addr → Category → Name → AccountKey
category_key l ip c name = record { block = mask_addr l ip; category = c; name = name }

abbrev pub all_key : Limiter → Addr → AccountKey
all_key l ip = record { block = mask_addr l ip; category = all_responses; name = [] }

-- The table after one charge of an account, where it has a rate.
abbrev pub charged : AccountKey → ℕ → ℕ → ℕ → Table → Table
charged key now rate window t =
    if ltb 0 rate then (charge_table key now rate (mul rate window) t).0 else t

-- The table after a charge of the category's account, and then one of the aggregate account.
abbrev pub charged_twice : ℕ → Addr → Category → Name → Limiter → Table
charged_twice now ip c name l =
    charged (all_key l ip) now l.all_rate l.window
      (charged (category_key l ip c name) now (l.rates c) l.window l.table)

-- Whether the charge of an account finds it over its limit, and its slip counter.
abbrev pub verdict : AccountKey → ℕ → ℕ → ℕ → Table → Bool × ℕ
verdict key now rate window t =
    let (u, over, slip_count) = charge_table key now rate (mul rate window) t in
    if ltb 0 rate then (over, slip_count) else (false, 0)

-- The verdict on the category's account, and that on the aggregate account after it.
abbrev pub category_verdict : ℕ → Addr → Category → Name → Limiter → Bool × ℕ
category_verdict now ip c name l =
    verdict (category_key l ip c name) now (l.rates c) l.window l.table

abbrev pub all_verdict : ℕ → Addr → Category → Name → Limiter → Bool × ℕ
all_verdict now ip c name l =
    verdict (all_key l ip) now l.all_rate l.window
      (charged (category_key l ip c name) now (l.rates c) l.window l.table)

charge_if-eq :
    (key : AccountKey) (now rate window : ℕ) (t : Table)
    → charge_if key now rate window t ≡ (
      charged key now rate window t,
      (verdict key now rate window t).0,
      (verdict key now rate window t).1,
    )
unfolding charge_if
charge_if-eq key now rate window t = elim (Bool-cases (ltb 0 rate)) [
  | inl on ↦ rw on refl
  | inr off ↦ rw off refl
]

pub charge_both-eq :
    (now : ℕ) (ip : Addr) (c : Category) (name : Name) (l : Limiter)
    → charge_both l now ip c name ≡ (
      charged_twice now ip c name l,
      category_verdict now ip c name l,
      all_verdict now ip c name l,
    )
unfolding charge_both
charge_both-eq now ip c name l =
    rw
      (
        charge_if-eq (category_key l ip c name) now (l.rates c) l.window l.table,
        charge_if-eq (all_key l ip) now l.all_rate l.window
            (charged (category_key l ip c name) now (l.rates c) l.window l.table),
      )
      refl

-- `Decide` leaves the table as it is for an exempt client. For every other client it charges the
-- account of the category and name and then the aggregate account, each that has a rate: neither
-- charge depends on the verdict on the other account, nor on whether the limiter only logs.
pub decide-table :
    (now : ℕ) (ip : Addr) (c : Category) (name : Name) (l : Limiter) {l' : Limiter} {a : Action}
    → decide now ip c name l ≡ some (l', a)
    → l'.table ≡ (if is_exempt l.exempt ip then l.table else charged_twice now ip c name l)
unfolding decide
decide-table now ip c name l {l'} {a} e = elim (Bool-cases (is_exempt l.exempt ip)) [
  | inl exempt ↦
      let same : l' ≡ note c exempted l = ground (arith, exempt, e) in
      rw exempt (ap (λ (m : Limiter). m.table) same ∙ note-table c exempted l)
  | inr limited ↦
      let (t, by_category, by_all) = charge_both l now ip c name in
      rw limited (
        conclude-table c by_category by_all (record l { table = t }) {a = a} (rw limited at e)
        ∙ ap (λ (r : Table × (Bool × ℕ) × (Bool × ℕ)). r.0) (charge_both-eq now ip c name l))
]

-- Whether the response of this count of an account over its limit is truncated: with a slip of `n`
-- it is the first and every n-th after it, and with a slip of 0 none.
abbrev pub is_turn : ℕ → ℕ → Bool
is_turn n k = not (n == 0) && (k + uint32_mod - 1) % uint32_mod % n == 0

-- `slipAction` panics at no configured slip.
slip_action-eq :
    (n k : ℕ) → n < uint32_mod → slip_action (pos n) k ≡ some (if is_turn n k then slip else drop)
unfolding slip_action
slip_action-eq n k h = elim (Bool-cases (n == 0)) [
  | inl off ↦ rw off refl
  | inr on ↦
      let whole : n % uint32_mod ≡ n = omega arith in
      elim (Bool-cases ((k + uint32_mod - 1) % uint32_mod % n == 0)) [
        | inl turn ↦ ground (arith, whole, on, turn)
        | inr not_turn ↦ ground (arith, whole, on, not_turn)
      ]
]

-- Whether a response is limited: one of the two accounts of a client that is not exempt is over its
-- limit, and the limiter does not only log.
abbrev pub is_limited : ℕ → Addr → Category → Name → Limiter → Bool
is_limited now ip c name l =
    not (is_exempt l.exempt ip)
    && not l.log_only
    && ((category_verdict now ip c name l).0 || (all_verdict now ip c name l).0)

-- The slip counter that decides on a limited response: that of the category's account where it is
-- over its limit, and else that of the aggregate account.
abbrev pub limiting_count : ℕ → Addr → Category → Name → Limiter → ℕ
limiting_count now ip c name l =
    if (category_verdict now ip c name l).0
    then (category_verdict now ip c name l).1
    else (all_verdict now ip c name l).1

-- What the limiter does with a response.
abbrev pub expected : ℕ → ℕ → Addr → Category → Name → Limiter → Action
expected n now ip c name l =
    if is_limited now ip c name l
    then (if is_turn n (limiting_count now ip c name l) then slip else drop)
    else allow

conclude-answers :
    (n : ℕ) (c : Category) (x y : Bool × ℕ) (l : Limiter)
    → l.slip ≡ pos n
    → n < uint32_mod
    → (l' : Limiter) × (conclude c x y l
        ≡ some (
          l',
          if not l.log_only && (x.0 || y.0)
              then (if is_turn n (if x.0 then x.1 else y.1) then slip else drop)
              else allow,
        ))
unfolding conclude enforce
conclude-answers n c (co, cs) (ao, al) l s h =
    let k = if co then cs else al in
    let acted : slip_action l.slip k ≡ some (if is_turn n k then slip else drop) =
      rw s (slip_action-eq n k h) in
    elim (Bool-cases (not co && not ao)) [
      | inl under ↦ (l, ground (arith, under))
      | inr over ↦ elim (Bool-cases l.log_only) [
        | inl only ↦ (note c logonly_would_drop l, ground (arith, over, only))
        | inr acts ↦ (
          note c (label_of (if is_turn n k then slip else drop)) l,
          ground (arith, over, acts, acted),
        )
      ]
    ]

-- A limiter whose slip is a number of 32 bits answers every response, with the expected action.
pub decide-answers :
    (now n : ℕ) (ip : Addr) (c : Category) (name : Name) (l : Limiter)
    → l.slip ≡ pos n
    → n < uint32_mod
    → (l' : Limiter) × (decide now ip c name l ≡ some (l', expected n now ip c name l))
unfolding decide
decide-answers now n ip c name l s h = elim (Bool-cases (is_exempt l.exempt ip)) [
  | inl exempt ↦ (note c exempted l, rw exempt refl)
  | inr limited ↦
      let (l', e) =
        conclude-answers n c (category_verdict now ip c name l) (all_verdict now ip c name l)
          (record l { table = charged_twice now ip c name l }) s h in
      (l', rw (limited, charge_both-eq now ip c name l) e)
]

conclude-log_only :
    (c : Category) (x y : Bool × ℕ) (l : Limiter) {l' : Limiter} {a : Action}
    → l.log_only ≡ true
    → conclude c x y l ≡ some (l', a)
    → a ≡ allow
unfolding conclude
conclude-log_only c (co, cs) (ao, al) l h e = ground arith

-- A limiter that only logs lets every response pass that it answers.
pub decide-log_only :
    (now : ℕ) (ip : Addr) (c : Category) (name : Name) (l : Limiter) {l' : Limiter} {a : Action}
    → l.log_only ≡ true
    → decide now ip c name l ≡ some (l', a)
    → a ≡ allow
unfolding decide
decide-log_only now ip c name l {l'} {a} h e = elim (Bool-cases (is_exempt l.exempt ip)) [
  | inl exempt ↦ ground (arith, exempt)
  | inr limited ↦
      let (t, by_category, by_all) = charge_both l now ip c name in
      conclude-log_only c by_category by_all (record l { table = t }) {l' = l'} {a = a} h
        (rw limited at e)
]

charged-IsTable :
    (key : AccountKey) (now rate window cap : ℕ) (t : Table)
    → IsTable cap t
    → IsTable cap (charged key now rate window t)
charged-IsTable key now rate window cap t h = elim (Bool-cases (ltb 0 rate)) [
  | inl on ↦ rw on (charge_table-IsTable key now rate (mul rate window) cap t h)
  | inr off ↦ rw off h
]

-- A decision that is answered keeps the account table sound, and its shards at their capacity.
pub decide-IsTable :
    (now cap : ℕ) (ip : Addr) (c : Category) (name : Name) (l : Limiter) {l' : Limiter} {a : Action}
    → IsTable cap l.table
    → decide now ip c name l ≡ some (l', a)
    → IsTable cap l'.table
decide-IsTable now cap ip c name l {l'} {a} h e =
    subst (IsTable cap) (sym (decide-table now ip c name l {a = a} e))
      (elim (Bool-cases (is_exempt l.exempt ip)) [
        | inl exempt ↦ rw exempt h
        | inr limited ↦ rw limited (
            charged-IsTable _ now l.all_rate l.window cap _
              (charged-IsTable _ now (l.rates c) l.window cap l.table h))
      ])
