-- ===== src/Zone/Plain.antt =====
-- A zone of plain names answers with plain names.
use shadow_dns.Prelude.{
  ℕ, zero, suc, ◌≡◌, refl, sym, subst, Bool, true, false, not, List, [], ◌∷◌, ◌++◌, Option, none,
  some, arith, ◌==◌, ◌=?◌, nat_eq, list_eq, if◌then◌else◌, All, not, ◌&&◌, Equality, Bool-cases,
  inl, inr, length, ◌-◌,
}
use shadow_dns.Prelude.Map.{Map, lookup}
use shadow_dns.Prelude.Partial.{some-inj}
use shadow_dns.Zone.Cname.{is_empty}
use shadow_dns.Names.{is_in_zone, Name, to_lower, is_in_zone}
use shadow_dns.Names.Plain.{IsPlain, IsPlain-lower, to_lower-plain}
use shadow_dns.Dns.TypeCode
use shadow_dns.Dns.{Rr, Rdata, cname}
use shadow_dns.Dns.Names.{rr_names, names_in}
use shadow_dns.Zone.{Zone, QtypeStore, single, promoted, rrs_at, rrs_of, lookup_rrs}
use shadow_dns.Zone.Wildcard.{
  wildcard_hit, wildcard_at_origin, climb, parents, lookup_wildcard, wildcard_of,
}
use shadow_dns.Zone.Cname.{
  copy_with_owner, last_target, follow_hop, follow_loop, follow_cname, max_cname_depth,
}

-- Records with plain names only.
abbrev pub PlainRrs : List Rr → Type 0
PlainRrs = All (λ (rr : Rr). All IsPlain (rr_names rr))

abbrev PlainStore : QtypeStore → Type 0
PlainStore (single q rrs) = PlainRrs rrs
PlainStore (promoted sub) = All (λ (e : ℕ × List Rr). PlainRrs e.1) sub

-- A zone whose records have plain names only.
abbrev pub PlainZone : Zone → Type 0
PlainZone z = All (λ (e : Name × QtypeStore). PlainStore e.1) z.records

lookup-All :
    {K V : Type 0} ⦃e : Equality K⦄ (P : V → Type 0) (k : K) (m : Map K V) {v : V}
    → All (λ (x : K × V). P x.1) m
    → lookup k m ≡ some v
    → P v
unfolding lookup
lookup-All P k [] h e = cc
lookup-All P k ((j, v) ∷ m) (p, h) e = elim (Bool-cases (j =? k)) [
  | inl here ↦ subst P (some-inj (rw here at e)) p
  | inr away ↦ lookup-All P k m h (rw away at e)
]

-- What holds of both branches holds of either.
if-Plain :
    (b : Bool) (x y : List Rr × Bool)
    → PlainRrs x.0
    → PlainRrs y.0
    → PlainRrs ((if b then x else y).0)
if-Plain true x y p q = p
if-Plain false x y p q = q

pick-Plain : (b : Bool) (x y : List Rr) → PlainRrs x → PlainRrs y → PlainRrs (if b then x else y)
pick-Plain true x y p q = p
pick-Plain false x y p q = q

found-Plain :
    {V : Type 0} (o : Option V) (n : List Rr) (f : V → List Rr)
    → PlainRrs n
    → ((v : V) → o ≡ some v → PlainRrs (f v))
    → PlainRrs (elim o [ none ↦ n | some v ↦ f v ])
found-Plain none n f p q = p
found-Plain (some v) n f p q = q v refl

hit-Plain :
    {V : Type 0} (o : Option V) (n : List Rr × Bool) (f : V → List Rr × Bool)
    → PlainRrs n.0
    → ((v : V) → o ≡ some v → PlainRrs ((f v).0))
    → PlainRrs ((elim o as (λ x. List Rr × Bool) [ none ↦ n | some v ↦ f v ]).0)
hit-Plain none n f p q = p
hit-Plain (some v) n f p q = q v refl

append-Plain : (xs ys : List Rr) → PlainRrs xs → PlainRrs ys → PlainRrs (xs ++ ys)
append-Plain [] ys p q = q
append-Plain (x ∷ xs) ys (p, ps) q = (p, append-Plain xs ys ps q)

rrs_of-Plain : (qtype : ℕ) (s : QtypeStore) → PlainStore s → PlainRrs (rrs_of qtype s)
unfolding rrs_of rrs_at
rrs_of-Plain qtype (single q rrs) h = elim (Bool-cases (q == qtype)) [
  | inl same ↦ rw same h
  | inr apart ↦ rw apart tt
]
rrs_of-Plain qtype (promoted sub) h =
    found-Plain (lookup qtype sub) _ _ tt (λ rrs e. lookup-All PlainRrs qtype sub h e)

pub lookup_rrs-Plain :
    (owner : Name) (qtype : ℕ) (z : Zone) → PlainZone z → PlainRrs (lookup_rrs owner qtype z)
unfolding lookup_rrs
lookup_rrs-Plain owner qtype z h =
    found-Plain (lookup owner z.records) _ _ tt
      (λ s e. rrs_of-Plain qtype s (lookup-All PlainStore owner z.records h e))

wildcard_hit-Plain :
    (s : QtypeStore) (qtype : ℕ) → PlainStore s → PlainRrs ((wildcard_hit s qtype).0)
unfolding wildcard_hit
wildcard_hit-Plain (single q rrs) qtype h =
    if-Plain (qtype == 0) _ _ tt (rrs_of-Plain qtype (single q rrs) h)
wildcard_hit-Plain (promoted []) qtype h =
    if-Plain (qtype == 0) _ _ tt (rrs_of-Plain qtype (promoted []) h)
wildcard_hit-Plain (promoted (e ∷ sub)) qtype h =
    if-Plain (qtype == 0) _ _ tt (rrs_of-Plain qtype (promoted (e ∷ sub)) h)

wildcard_at_origin-Plain :
    (z : Zone) (qtype : ℕ) → PlainZone z → PlainRrs ((wildcard_at_origin z qtype).0)
unfolding wildcard_at_origin
wildcard_at_origin-Plain z qtype h =
    hit-Plain (lookup (wildcard_of z.origin) z.records) _ _ tt (λ s e.
      wildcard_hit-Plain s qtype (lookup-All PlainStore (wildcard_of z.origin) z.records h e))

module _ (is_sub_domain : Name → Name → Bool) (z : Zone) (qtype : ℕ) (plain : PlainZone z) where
  climb-Plain : (above : List Name) → PlainRrs ((climb is_sub_domain z qtype above).0)
  unfolding climb
  climb-Plain [] = wildcard_at_origin-Plain z qtype plain
  climb-Plain (parent ∷ above) =
      if-Plain (parent =? z.origin) _ _ (wildcard_at_origin-Plain z qtype plain) (
        if-Plain (not (is_in_zone is_sub_domain parent z.origin)) _ _ tt (
          hit-Plain (lookup (wildcard_of parent) z.records) _ _
            (hit-Plain (lookup parent z.records) _ _ (climb-Plain above) (λ s e. tt))
            (λ s e.
              wildcard_hit-Plain s qtype
                (lookup-All PlainStore (wildcard_of parent) z.records plain e))))

module _ (next_label : Name → Option ℕ) (is_sub_domain : Name → Name → Bool) where
  pub lookup_wildcard-Plain :
      (z : Zone) (qname : Name) (qtype : ℕ)
      → PlainZone z
      → PlainRrs ((lookup_wildcard next_label is_sub_domain z qname qtype).0)
  unfolding lookup_wildcard
  lookup_wildcard-Plain z qname qtype plain =
      if-Plain (qname =? z.origin) _ _ tt
        (climb-Plain is_sub_domain z qtype plain (parents next_label qname))

pub copy_with_owner-Plain :
    (rrs : List Rr) (owner : Name)
    → PlainRrs rrs
    → IsPlain owner
    → PlainRrs (copy_with_owner rrs owner)
unfolding copy_with_owner
copy_with_owner-Plain [] owner h p = tt
copy_with_owner-Plain (rr ∷ rrs) owner ((q, qs), h) p =
    ((p, qs), copy_with_owner-Plain rrs owner h p)

last_target-Plain :
    (rrs : List Rr) {target : Name} → PlainRrs rrs → last_target rrs ≡ some target → IsPlain target
unfolding last_target
last_target-Plain [] h e = cc
last_target-Plain (rr ∷ []) h e = cname_target rr.rdata h.0.1 e
  where
    cname_target :
        (d : Rdata) {target : Name}
        → All IsPlain (names_in d)
        → elim d [ cname t ↦ some t | _ ↦ none ] ≡ some target
        → IsPlain target
    cname_target (cname t) q f = subst IsPlain (some-inj f) q.0
    cname_target d q f = ground (arith, f)
last_target-Plain (rr ∷ next ∷ rrs) (q, h) e = last_target-Plain (next ∷ rrs) h e

module _ (unicode_lower : Name → Name) (next_label : Name → Option ℕ)
    (is_sub_domain : Name → Name → Bool) (z : Zone) (plain : PlainZone z) where
  follow_hop-Plain :
      (target : Name) (qtype : ℕ)
      → IsPlain target
      → PlainRrs ((follow_hop unicode_lower next_label is_sub_domain z target qtype).0)
  unfolding follow_hop
  follow_hop-Plain target qtype p =
      let wild = λ (t : ℕ). lookup_wildcard-Plain next_label is_sub_domain z target t plain in
      let rrs = lookup_rrs target qtype z in
      let cnames = lookup_rrs target TypeCode.cname z in
      let w = lookup_wildcard next_label is_sub_domain z target qtype in
      let w' = lookup_wildcard next_label is_sub_domain z target TypeCode.cname in
      if-Plain (not (is_empty rrs)) _ _ (lookup_rrs-Plain target qtype z plain) (
        if-Plain (not (is_empty cnames)) _ _ (lookup_rrs-Plain target TypeCode.cname z plain) (
          if-Plain (w.1 && not (is_empty w.0)) _ _ (copy_with_owner-Plain w.0 target (wild qtype) p)
            (if-Plain (not (is_empty w'.0)) _ _
              (copy_with_owner-Plain w'.0 target (wild TypeCode.cname) p) tt)))

  follow_loop-Plain :
      (rounds : ℕ) (answer : List Rr) (qtype : ℕ)
      → PlainRrs answer
      → PlainRrs (follow_loop unicode_lower next_label is_sub_domain z rounds answer qtype)
  unfolding follow_loop
  follow_loop-Plain zero answer qtype h = h
  follow_loop-Plain (suc rounds) answer qtype h = found-Plain (last_target answer) _ _ h (λ cased e.
      let p = last_target-Plain answer h e in
      let q = subst IsPlain (sym (to_lower-plain unicode_lower cased p)) (IsPlain-lower cased p) in
      let longer =
        append-Plain answer _ h (follow_hop-Plain (to_lower unicode_lower cased) qtype q) in
      let hop =
        follow_hop unicode_lower next_label is_sub_domain z (to_lower unicode_lower cased) qtype in
      pick-Plain (not (is_in_zone is_sub_domain (to_lower unicode_lower cased) z.origin)) _ _ h
        (pick-Plain hop.1 _ _ (follow_loop-Plain rounds _ qtype longer) longer))

  -- `FollowCNAME` in a zone of plain names, from such records, answers with such records.
  pub follow_cname-Plain :
      (initial : List Rr) (qtype : ℕ)
      → PlainRrs initial
      → PlainRrs (follow_cname unicode_lower next_label is_sub_domain z initial qtype)
  unfolding follow_cname
  follow_cname-Plain initial qtype h =
      follow_loop-Plain (max_cname_depth - length initial) initial qtype h
