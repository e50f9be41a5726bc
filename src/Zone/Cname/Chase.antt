-- ===== src/Zone/Cname/Chase.antt =====
-- The loop of `CollapseCNAME` ends, and the TTL it answers is a lower bound.
use shadow_dns.Prelude.{
  ℕ, zero, suc, ◌+◌, ◌-◌, ◌≤◌, ◌<◌, min, ◌≡◌, ◌⊎◌, inl, inr, ◌∙◌, Bool, false, List, [], ◌∷◌,
  Option, some, arith, nat_eq, list_eq, leb, length, All, Bool-cases, Option-cases,
}
use shadow_dns.Names.{Name, to_lower, is_in_zone}
use shadow_dns.Dns.{Rr}
use shadow_dns.Zone.{Zone}
use shadow_dns.Zone.Cname.{
  max_cname_depth, last_target, is_empty, min_rr_ttl, CollapseResult, collapse_records,
  collapse_tail, collapse_no_data, chase_hop, chase, collapse_cname,
}

abbrev pub result_ttl : CollapseResult → ℕ
result_ttl (collapse_records rrs t) = t
result_ttl (collapse_tail target t) = t
result_ttl (collapse_no_data t) = t

abbrev pub result_rrs : CollapseResult → List Rr
result_rrs (collapse_records rrs t) = rrs
result_rrs (collapse_tail target t) = []
result_rrs (collapse_no_data t) = []

-- No record of the list has a smaller TTL.
abbrev pub LivesAt : ℕ → List Rr → Type 0
LivesAt t rrs = All (λ (rr : Rr). t ≤ rr.ttl) rrs

LivesAt-mono : (s t : ℕ) (rrs : List Rr) → s ≤ t → LivesAt t rrs → LivesAt s rrs
LivesAt-mono s t [] h a = tt
LivesAt-mono s t (rr ∷ rrs) h (x, a) = (omega (arith, h, x), LivesAt-mono s t rrs h a)

min_rr_ttl-le : (t : ℕ) (rrs : List Rr) → min_rr_ttl t rrs ≤ t
unfolding min_rr_ttl
min_rr_ttl-le t [] = omega arith
min_rr_ttl-le t (rr ∷ rrs) = omega (arith, min_rr_ttl-le (min t rr.ttl) rrs)

min_rr_ttl-LivesAt : (t : ℕ) (rrs : List Rr) → LivesAt (min_rr_ttl t rrs) rrs
unfolding min_rr_ttl
min_rr_ttl-LivesAt t [] = tt
min_rr_ttl-LivesAt t (rr ∷ rrs) =
    (omega (arith, min_rr_ttl-le (min t rr.ttl) rrs), min_rr_ttl-LivesAt (min t rr.ttl) rrs)

not_empty-length : (rrs : List Rr) → is_empty rrs ≡ false → 0 < length rrs
unfolding is_empty
not_empty-length [] h = cc
not_empty-length (rr ∷ rrs) h = omega arith

module _ (unicode_lower : Name → Name) (next_label : Name → Option ℕ)
    (is_sub_domain : Name → Name → Bool) (z : Zone) where
  -- A round of the loop either answers, with terminal records and a TTL below the one so far, or
  -- goes on with at least one more record and a TTL below the one so far.
  chase_cases :
      (fuel : ℕ) (cased : Name) (consumed t q : ℕ)
      → ((r : CollapseResult) × (chase unicode_lower next_label is_sub_domain z
              (suc fuel)
              cased
              consumed
              t
              q
            ≡ some r)
          × (result_ttl r ≤ t)
          × LivesAt (result_ttl r) (result_rrs r))
        ⊎ ((cased' : Name) × (consumed' : ℕ) × (t' : ℕ) × (chase unicode_lower next_label
                is_sub_domain z
                (suc fuel)
                cased
                consumed
                t
                q
              ≡ chase unicode_lower next_label is_sub_domain z fuel cased' consumed' t' q)
            × (consumed < max_cname_depth)
            × (consumed < consumed')
            × (t' ≤ t))
  unfolding chase
  chase_cases fuel cased consumed t q =
      let target = to_lower unicode_lower cased in
      let (rrs, next) = chase_hop unicode_lower next_label is_sub_domain z target q in
      elim (Bool-cases (is_in_zone is_sub_domain target z.origin)) [
        | inr outside ↦ inl (collapse_tail cased t, ground (arith, outside), omega arith, tt)
        | inl inside ↦ elim (Bool-cases (is_empty rrs)) [
          | inr records ↦ inl (
            collapse_records rrs (min_rr_ttl t rrs),
            ground (arith, inside, records),
            min_rr_ttl-le t rrs,
            min_rr_ttl-LivesAt t rrs,
          )
          | inl no_records ↦ elim (Bool-cases (is_empty next)) [
            | inl ended ↦
                inl (collapse_no_data t, ground (arith, inside, no_records, ended), omega arith, tt)
            | inr goes ↦ elim (Bool-cases (leb max_cname_depth consumed)) [
              | inl spent ↦ inl (
                collapse_tail cased t,
                ground (arith, inside, no_records, goes, spent),
                omega arith,
                tt,
              )
              | inr budget ↦ elim (Option-cases (last_target next)) [
                | inl not_cname ↦ inl (
                  collapse_no_data t,
                  ground (arith, inside, no_records, goes, budget, not_cname),
                  omega arith,
                  tt,
                )
                | inr (target_next, found) ↦ inr (
                  target_next,
                  consumed + length next,
                  min_rr_ttl t next,
                  ground (arith, inside, no_records, goes, budget, found),
                  ground (arith, budget),
                  omega (arith, not_empty-length next goes),
                  min_rr_ttl-le t next,
                )
              ]
            ]
          ]
        ]
      ]

  chase_enough :
      (fuel : ℕ) (cased : Name) (consumed t q : ℕ)
      → max_cname_depth - consumed < fuel
      → (r : CollapseResult) × (chase unicode_lower next_label is_sub_domain z fuel cased consumed t
            q
          ≡ some r)
        × (result_ttl r ≤ t)
        × LivesAt (result_ttl r) (result_rrs r)
  chase_enough zero cased consumed t q h = absurd (omega (arith, h))
  chase_enough (suc fuel) cased consumed t q h = elim (chase_cases fuel cased consumed t q) [
    | inl done ↦ done
    | inr (cased', consumed', t', same, budget, more, less) ↦
        let enough : max_cname_depth - consumed' < fuel = omega (arith, h, budget, more) in
        let (r, e, below, live) = chase_enough fuel cased' consumed' t' q enough in
        (r, same ∙ e, omega (arith, below, less), live)
  ]

  -- `CollapseCNAME` of an RRset whose last record is a CNAME ends within its budget, and no record
  -- of the RRset and no record that it answers has a TTL below the TTL that it answers.
  pub collapse_cname-LivesAt :
      (rr : Rr) (initial : List Rr) (q : ℕ) (target : Name)
      → last_target (rr ∷ initial) ≡ some target
      → (r : CollapseResult) × (collapse_cname unicode_lower next_label is_sub_domain z
            (rr ∷ initial)
            q
          ≡ some r)
        × LivesAt (result_ttl r) (rr ∷ initial)
        × LivesAt (result_ttl r) (result_rrs r)
  unfolding collapse_cname
  collapse_cname-LivesAt rr initial q target h =
      let t = min_rr_ttl rr.ttl initial in
      let n = length (rr ∷ initial) in
      let enough : max_cname_depth - n < suc max_cname_depth = omega arith in
      let (r, e, below, live) = chase_enough (suc max_cname_depth) target n t q enough in
      (
        r,
        ground (arith, h, e),
        (
          omega (arith, below, min_rr_ttl-le rr.ttl initial),
          LivesAt-mono (result_ttl r) t initial below (min_rr_ttl-LivesAt rr.ttl initial),
        ),
        live,
      )
