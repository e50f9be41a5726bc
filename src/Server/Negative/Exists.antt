-- ===== src/Server/Negative/Exists.antt =====
-- What NXDOMAIN says of the zones.
use shadow_dns.Prelude.{
  ℕ, ◌≡◌, inl, inr, Bool, false, ◌||◌, List, [], ◌∷◌, Option, none, some, arith, ◌=?◌, nat_eq,
  list_eq, if◌then◌else◌, Bool-cases, Option-cases,
}
use shadow_dns.Prelude.Map.{lookup}
use shadow_dns.Names.{Name, is_in_zone}
use shadow_dns.Dns.Rcode
use shadow_dns.Dns.{Msg, Rr}
use shadow_dns.Zone.{Zone, QtypeStore, single, promoted, rrs_at, rrs_of, lookup_rrs}
use shadow_dns.Zone.Wildcard.{
  wildcard_hit, wildcard_at_origin, wildcard_of, climb, parents, lookup_wildcard, has_wildcard,
}
use shadow_dns.Alias.{Match, rewrite_qname}
use shadow_dns.Server.{Calls, QueryOpt, reply}
use shadow_dns.Server.Reply.{attach_opt}
use shadow_dns.Server.Negative.{has_records, backup_zone_has_name, name_exists, negative_reply}

-- No records of any type.
abbrev pub NoRecords : Name → Zone → Type 0
NoRecords name z = (qtype : ℕ) → lookup_rrs name qtype z ≡ []

has_records-false : (name : Name) (z : Zone) → has_records name z ≡ false → NoRecords name z
unfolding has_records lookup_rrs
has_records-false name z h qtype = elim (Option-cases (lookup name z.records)) [
  | inl e ↦ ground (arith, e)
  | inr (s, e) ↦ cc (rw (e, has_records) at h)
]

wildcard_hit-false :
    (s : QtypeStore) (qtype : ℕ) → (wildcard_hit s 0).1 ≡ false → (wildcard_hit s qtype).0 ≡ []
unfolding wildcard_hit rrs_of rrs_at lookup
wildcard_hit-false (single q rrs) qtype h = cc h
wildcard_hit-false (promoted []) qtype h = ground arith
wildcard_hit-false (promoted (e ∷ sub)) qtype h = cc h

origin-false :
    (z : Zone) (qtype : ℕ)
    → (wildcard_at_origin z 0).1 ≡ false
    → (wildcard_at_origin z qtype).0 ≡ []
unfolding wildcard_at_origin
origin-false z qtype h = elim (Option-cases (lookup (wildcard_of z.origin) z.records)) [
  | inl e ↦ ground (arith, e)
  | inr (s, e) ↦ ground (arith, e, h, wildcard_hit-false s qtype)
]

climb-false :
    (is_sub_domain : Name → Name → Bool) (z : Zone) (qtype : ℕ) (above : List Name)
    → (climb is_sub_domain z 0 above).1 ≡ false
    → (climb is_sub_domain z qtype above).0 ≡ []
unfolding climb
climb-false is_sub_domain z qtype [] h = origin-false z qtype h
climb-false is_sub_domain z qtype (parent ∷ above) h = elim (Bool-cases (parent =? z.origin)) [
  | inl e ↦ ground (arith, e, h, origin-false z qtype)
  | inr e ↦ elim (Bool-cases (is_in_zone is_sub_domain parent z.origin)) [
    | inr out ↦ ground (arith, e, out)
    | inl inside ↦ elim (Option-cases (lookup (wildcard_of parent) z.records)) [
      | inr (s, f) ↦ ground (arith, e, inside, f, h, wildcard_hit-false s qtype)
      | inl f ↦ elim (Option-cases (lookup parent z.records)) [
        | inr (s, g) ↦ ground (arith, e, inside, f, g)
        | inl g ↦ ground (arith, e, inside, f, g, h, climb-false is_sub_domain z qtype above)
      ]
    ]
  ]
]

module _ (calls : Calls) where
  -- No wildcard of the zone gives the name a record, of any type.
  abbrev pub NoWildcard : Name → Zone → Type 0
  NoWildcard name z =
      (qtype : ℕ)
      → (lookup_wildcard calls.lib.next_label calls.lib.is_sub_domain z name qtype).0 ≡ []

  has_wildcard-false :
      (name : Name) (z : Zone)
      → has_wildcard calls.lib.next_label calls.lib.is_sub_domain z name ≡ false
      → NoWildcard name z
  unfolding has_wildcard lookup_wildcard
  has_wildcard-false name z h qtype = elim (Bool-cases (name =? z.origin)) [
    | inl e ↦ ground (arith, e)
    | inr e ↦ ground (
      arith,
      e,
      h,
      climb-false calls.lib.is_sub_domain z qtype (parents calls.lib.next_label name),
    )
  ]

  -- The name in the root zone that a name stands for.
  abbrev name_in_root : Match → Name → Name
  name_in_root m qname =
      if m.is_backup then rewrite_qname qname m.matched_zone m.root_zone else qname

  none_of_three : (a b c : Bool) → (a || b || c) ≡ false → (b ≡ false) × (c ≡ false)
  none_of_three a b c h = (ground (arith, h), ground (arith, h))

  name_exists-parts :
      (own : Option Zone) (z : Zone) (m : Match) (qname : Name)
      → name_exists calls own z m qname ≡ false
      → (has_records (name_in_root m qname) z ≡ false)
        × (has_wildcard calls.lib.next_label calls.lib.is_sub_domain z (name_in_root m qname)
            ≡ false)
  unfolding name_exists backup_zone_has_name
  name_exists-parts own z m qname h = elim (Bool-cases m.is_backup) [
    | inl e ↦
        let name = rewrite_qname qname m.matched_zone m.root_zone in
        let parts =
          none_of_three
            (elim own as (λ x. Bool) [ none ↦ false | some own_zone ↦ has_records qname own_zone ])
            (has_records name z) (has_wildcard calls.lib.next_label calls.lib.is_sub_domain z name)
            (ground (arith, e, h)) in
        (ground (arith, e, parts.0), ground (arith, e, parts.1))
    | inr e ↦ (ground (arith, e, h), ground (arith, e, h))
  ]

  -- A negative reply of NXDOMAIN is given only where the root zone has no record of any type at the
  -- name (for a backup zone: at the name that it stands for in the root zone), and no wildcard
  -- that would give the name one.
  pub negative_reply-NoRecords :
      (req : Msg) (qo : QueryOpt) (z : Zone) (own : Option Zone) (m : Match) (qname : Name)
      (soa_rr : Option Rr) {r : Msg} {owner : Name}
      → negative_reply calls req qo z own m qname soa_rr ≡ reply r owner
      → r.rcode ≡ Rcode.name_error
      → NoRecords (name_in_root m qname) z × NoWildcard (name_in_root m qname) z
  unfolding negative_reply attach_opt
  negative_reply-NoRecords req qo z own m qname soa_rr {r} {owner} e code =
      elim (Bool-cases (name_exists calls own z m qname)) [
        | inl there ↦ absurd (ground (arith, e, there, code, Bool-cases qo.present))
        | inr away ↦
            let parts = name_exists-parts own z m qname away in
            (
              has_records-false (name_in_root m qname) z parts.0,
              has_wildcard-false (name_in_root m qname) z parts.1,
            )
      ]
