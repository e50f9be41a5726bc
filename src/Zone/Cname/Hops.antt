-- ===== src/Zone/Cname/Hops.antt =====
-- A hop of `FollowCNAME` and one of `CollapseCNAME` find the same records.
use shadow_dns.Prelude.{
  ℕ, ◌≡◌, ◌≢◌, inl, inr, refl, ap, Bool, true, false, ◌&&◌, List, [], ◌∷◌, ◌++◌, map, Option, arith,
  ◌==◌, nat_eq, list_eq, not, Bool-cases, append-nil,
}
use shadow_dns.Names.{Name}
use shadow_dns.Dns.TypeCode
use shadow_dns.Dns.{Rr}
use shadow_dns.Zone.{Zone, lookup_rrs}
use shadow_dns.Zone.Wildcard.{lookup_wildcard}
use shadow_dns.Zone.Cname.{is_empty, copy_with_owner, follow_hop, chase_hop}

is_empty-nil : is_empty [] ≡ true
unfolding is_empty
is_empty-nil = refl

empty-nil : (rrs : List Rr) → is_empty rrs ≡ true → rrs ≡ []
unfolding is_empty
empty-nil [] h = refl
empty-nil (rr ∷ rrs) h = cc

module _ (unicode_lower : Name → Name) (next_label : Name → Option ℕ)
    (is_sub_domain : Name → Name → Bool) (z : Zone) where
  copy_with_owner-rdata :
      (rrs : List Rr) (name : Name)
      → map (λ (rr : Rr). rr.rdata) (copy_with_owner rrs name) ≡ map (λ (rr : Rr). rr.rdata) rrs
  unfolding copy_with_owner
  copy_with_owner-rdata [] name = refl
  copy_with_owner-rdata (rr ∷ rrs) name = ap (◌∷◌ rr.rdata) (copy_with_owner-rdata rrs name)

  -- For a type that is not CNAME, a hop of `FollowCNAME` appends the data that a hop of
  -- `CollapseCNAME` finds, terminal records or CNAME records, and goes on where that one does.
  pub hops-agree :
      (target : Name) (q : ℕ)
      → q ≢ TypeCode.cname
      → (map
            (λ (rr : Rr). rr.rdata)
            ((follow_hop unicode_lower next_label is_sub_domain z target q).0)
          ≡ map
              (λ (rr : Rr). rr.rdata)
              ((chase_hop unicode_lower next_label is_sub_domain z target q).0
                ++ (chase_hop unicode_lower next_label is_sub_domain z target q).1))
        × ((follow_hop unicode_lower next_label is_sub_domain z target q).1
            ≡ not (is_empty ((chase_hop unicode_lower next_label is_sub_domain z target q).1)))
  unfolding follow_hop chase_hop
  hops-agree target q h =
      let rrs = lookup_rrs target q z in
      let cnames = lookup_rrs target TypeCode.cname z in
      let wild = lookup_wildcard next_label is_sub_domain z target q in
      let w_cnames = (lookup_wildcard next_label is_sub_domain z target TypeCode.cname).0 in
      let other : (q == TypeCode.cname) ≡ false = ground (arith, h) in
      elim (Bool-cases (is_empty rrs)) [
        | inr exact ↦ (
          ground (arith, other, exact, append-nil rrs),
          ground (arith, other, exact, is_empty-nil),
        )
        | inl no_rrs ↦ elim (Bool-cases (is_empty cnames)) [
          | inr hop ↦ (ground (arith, other, no_rrs, hop), ground (arith, other, no_rrs, hop))
          | inl no_cname ↦ elim (Bool-cases (wild.1 && not (is_empty wild.0))) [
            | inl covered ↦ (
              ground (
                arith,
                other,
                no_rrs,
                no_cname,
                covered,
                append-nil wild.0,
                copy_with_owner-rdata wild.0 target,
              ),
              ground (arith, other, no_rrs, no_cname, covered, is_empty-nil),
            )
            | inr bare ↦ elim (Bool-cases (is_empty w_cnames)) [
              | inl ended ↦ (
                ground (arith, other, no_rrs, no_cname, bare, ended, empty-nil w_cnames ended),
                ground (arith, other, no_rrs, no_cname, bare, ended),
              )
              | inr hop ↦ (
                ground (
                  arith,
                  other,
                  no_rrs,
                  no_cname,
                  bare,
                  hop,
                  copy_with_owner-rdata w_cnames target,
                ),
                ground (arith, other, no_rrs, no_cname, bare, hop),
              )
            ]
          ]
        ]
      ]
