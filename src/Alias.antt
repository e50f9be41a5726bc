-- ===== src/Alias.antt =====
-- internal/alias: the zone that a query belongs to (detect.go), and the rewriting of names between
-- a backup zone and its root zone (rewrite.go). A slice whose bound is negative panics in Go: that
-- is `none`.
pub mod Longest
pub mod RoundTrip
pub mod Rewrite
pub mod Withhold
pub mod Override
pub mod Collapse
mod Tests
use shadow_dns.Prelude.{
  ℕ, suc, ◌+◌, ◌-◌, Bool, true, false, ◌&&◌, not, List, [], ◌∷◌, ◌++◌, Option, none, some, ltb, leb,
  Equality, ◌=?◌, nat_eq, list_eq, if◌then◌else◌, length, take, drop,
}
use shadow_dns.Prelude.Map.{Map, lookup}
use shadow_dns.Names.{Name, to_lower, has_escape, is_in_zone, is_in_zone_byte_suffix}

pub record Match : Type 0 where
  pub matched_zone : Name
  pub is_backup : Bool
  pub root_zone : Name

-- `strings.HasSuffix`
unfoldable pub has_suffix : Name → Name → Bool
has_suffix s suffix = leb (length suffix) (length s) && drop (length s - length suffix) s =? suffix

-- `RewriteQName`
unfoldable pub rewrite_qname : Name → Name → Name → Name
unfolding has_suffix
rewrite_qname qname backup root =
    if qname =? backup
    then root
    else (let suffix = b'.' ∷ backup in
        if has_suffix qname suffix
        then take (length qname - length suffix) qname ++ b'.' ∷ root
        else qname)

module _ (unicode_lower : Name → Name) (is_sub_domain : Name → Name → Bool) where
  -- `RewriteName`
  unfoldable pub rewrite_name : Name → Name → Name → Option Name
  rewrite_name n root backup =
      let lower = to_lower unicode_lower n in
      if n =? []
      then some n
      else if lower =? root
      then some backup
      else if is_in_zone is_sub_domain lower root
      then (if ltb (length n) (length root + 1)
          then none
          else some (take (length n - length root - 1) n ++ b'.' ∷ backup))
      else some n

module _ (is_sub_domain : Name → Name → Bool) where
  -- A loaded zone that the loop of `Detect` accepts.
  unfoldable pub is_match : Name → Name → Bool
  is_match qname z =
      not (z =? [])
      && (if has_escape qname
          then is_in_zone is_sub_domain qname z
          else is_in_zone_byte_suffix qname z)

  -- The loop of `Detect`, with the best zone so far.
  unfoldable pub best_zone : Name → Name → List Name → Name
  unfolding is_match
  best_zone qname best [] = best
  best_zone qname best (z ∷ zones) =
      best_zone qname (if is_match qname z && ltb (length best) (length z) then z else best) zones

  unfoldable pub detect : Name → List Name → Map Name Name → Match
  unfolding best_zone
  detect qname loaded_zones aliases =
      let best = best_zone qname [] loaded_zones in
      if qname =? []
      then record { matched_zone = []; is_backup = false; root_zone = [] }
      else if best =? []
      then record { matched_zone = []; is_backup = false; root_zone = [] }
      else elim (lookup best aliases) [
        | some root_zone ↦ record { matched_zone = best; is_backup = true; root_zone = root_zone }
        | none ↦ record { matched_zone = best; is_backup = false; root_zone = best }
      ]
