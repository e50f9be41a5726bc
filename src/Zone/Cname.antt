-- ===== src/Zone/Cname.antt =====
-- `FollowCNAME` of internal/zone/zone.go and internal/zone/collapse.go: chains of CNAME records in
-- a zone. The loops run on fuel; the loop of `CollapseCNAME` ends by its budget of records, which
-- `Chase` proves to be less than the fuel given.
pub mod Chase
pub mod Hops
use shadow_dns.Prelude.{
  ℕ, zero, suc, ◌+◌, ◌-◌, min, Bool, true, false, ◌&&◌, List, [], ◌∷◌, ◌++◌, map, Option, none,
  some, ◌==◌, Equality, ◌=?◌, nat_eq, list_eq, not, leb, if◌then◌else◌, length,
}
use shadow_dns.Names.{Name, to_lower, is_in_zone}
use shadow_dns.Dns.TypeCode
use shadow_dns.Dns.{Rr, Rdata, cname}
use shadow_dns.Zone.{Zone, lookup_rrs}
use shadow_dns.Zone.Wildcard.{lookup_wildcard}

abbrev pub max_cname_depth : ℕ
max_cname_depth = 8

-- The target of the last record, where it is a CNAME record.
unfoldable pub last_target : List Rr → Option Name
last_target [] = none
last_target (rr ∷ []) = elim rr.rdata [ cname target ↦ some target | _ ↦ none ]
last_target (rr ∷ next ∷ rrs) = last_target (next ∷ rrs)

unfoldable pub is_empty : List Rr → Bool
is_empty [] = true
is_empty (rr ∷ rrs) = false

-- `copyWithOwner`
unfoldable pub copy_with_owner : List Rr → Name → List Rr
copy_with_owner rrs name = map (λ (rr : Rr). record rr { name = name }) rrs

-- `minRRTTL`
unfoldable pub min_rr_ttl : ℕ → List Rr → ℕ
min_rr_ttl current [] = current
min_rr_ttl current (rr ∷ rrs) = min_rr_ttl (min current rr.ttl) rrs

-- `CollapseResult`, by its outcome.
pub data CollapseResult : Type 0 where
  collapse_records : List Rr → ℕ → CollapseResult
  collapse_tail : Name → ℕ → CollapseResult
  collapse_no_data : ℕ → CollapseResult

module _ (unicode_lower : Name → Name) (next_label : Name → Option ℕ)
    (is_sub_domain : Name → Name → Bool) (z : Zone) where
  -- The body of the loop of `FollowCNAME` for a target in the zone: the records that it appends,
  -- and whether it continues.
  unfoldable pub follow_hop : Name → ℕ → List Rr × Bool
  unfolding is_empty copy_with_owner
  follow_hop target qtype =
      let rrs = lookup_rrs target qtype z in
      let cnames = lookup_rrs target TypeCode.cname z in
      let (w_rrs, w_found) = lookup_wildcard next_label is_sub_domain z target qtype in
      let (w_cnames, w_any) = lookup_wildcard next_label is_sub_domain z target TypeCode.cname in
      if not (is_empty rrs)
      then (rrs, false)
      else if not (is_empty cnames)
      then (cnames, true)
      else if w_found && not (is_empty w_rrs)
      then (copy_with_owner w_rrs target, false)
      else if not (is_empty w_cnames)
      then (copy_with_owner w_cnames target, true)
      else ([], false)

  -- The loop of `FollowCNAME`, for as many rounds as are left, with the answer so far.
  unfoldable pub follow_loop : ℕ → List Rr → ℕ → List Rr
  unfolding follow_hop last_target
  follow_loop zero answer qtype = answer
  follow_loop (suc rounds) answer qtype = elim (last_target answer) [
    | none ↦ answer
    | some cased ↦
        let target = to_lower unicode_lower cased in
        let (found, continues) = follow_hop target qtype in
        let rest = follow_loop rounds (answer ++ found) qtype in
        if not (is_in_zone is_sub_domain target z.origin)
        then answer
        else if continues
        then rest
        else answer ++ found
  ]

  -- `FollowCNAME` without a buffer; a CNAME RRset that starts a chain is not empty.
  unfoldable pub follow_cname : List Rr → ℕ → List Rr
  unfolding follow_loop
  follow_cname initial qtype = follow_loop (max_cname_depth - length initial) initial qtype

  -- What `CollapseCNAME` finds for a target in the zone: the terminal records, or the next CNAME
  -- records, which may be none.
  unfoldable pub chase_hop : Name → ℕ → List Rr × List Rr
  unfolding is_empty
  chase_hop target qtype =
      let rrs = lookup_rrs target qtype z in
      let next = lookup_rrs target TypeCode.cname z in
      let (w_rrs, w_found) = lookup_wildcard next_label is_sub_domain z target qtype in
      let (w_next, w_any) = lookup_wildcard next_label is_sub_domain z target TypeCode.cname in
      if not (qtype == TypeCode.cname) && not (is_empty rrs)
      then (rrs, [])
      else if is_empty next && not (qtype == TypeCode.cname) && w_found && not (is_empty w_rrs)
      then (w_rrs, [])
      else ([], if is_empty next then w_next else next)

  -- The loop of `CollapseCNAME`: the target of `cur`, the records consumed and the least TTL;
  -- `none` where the fuel ends.
  unfoldable pub chase : ℕ → Name → ℕ → ℕ → ℕ → Option CollapseResult
  unfolding chase_hop last_target min_rr_ttl
  chase zero cased consumed min_ttl qtype = none
  chase (suc fuel) cased consumed min_ttl qtype =
      let target = to_lower unicode_lower cased in
      let (rrs, next) = chase_hop target qtype in
      if not (is_in_zone is_sub_domain target z.origin)
      then some (collapse_tail cased min_ttl)
      else if not (is_empty rrs)
      then some (collapse_records rrs (min_rr_ttl min_ttl rrs))
      else if is_empty next
      then some (collapse_no_data min_ttl)
      else if leb max_cname_depth consumed
      then some (collapse_tail cased min_ttl)
      else elim (last_target next) [
        | none ↦ some (collapse_no_data min_ttl)
        | some target_next ↦
            chase fuel target_next (consumed + length next) (min_rr_ttl min_ttl next) qtype
      ]

  -- `CollapseCNAME`
  unfoldable pub collapse_cname : List Rr → ℕ → Option CollapseResult
  unfolding chase
  collapse_cname [] qtype = some (collapse_no_data 0)
  collapse_cname (rr ∷ initial) qtype = elim (last_target (rr ∷ initial)) [
    | none ↦ some (collapse_no_data 0)
    | some target ↦
        chase (suc max_cname_depth) target (length (rr ∷ initial)) (min_rr_ttl rr.ttl initial) qtype
  ]
