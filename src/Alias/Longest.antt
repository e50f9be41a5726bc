-- ===== src/Alias/Longest.antt =====
-- `Detect` finds the longest of the loaded zones that the name is in.
use shadow_dns.Prelude.{
  ◌≤◌, ◌≡◌, ◌≢◌, ◌⊎◌, inl, inr, refl, sym, subst, Bool, true, false, ◌&&◌, List, [], ◌∷◌, arith,
  ltb, ◌=?◌, =?-true, =?-refl, =?-ne, nat_eq, list_eq, if◌then◌else◌, length, any, All, Bool-cases,
}
use shadow_dns.Prelude.Map.{Map}
use shadow_dns.Names.{Name}
use shadow_dns.Alias.{is_match, best_zone, detect}

module _ (is_sub_domain : Name → Name → Bool) (qname : Name) where
  -- No zone of the list that the name is in is longer.
  abbrev pub Longest : Name → List Name → Type 0
  Longest best zones =
      All (λ (z : Name). is_match is_sub_domain qname z ≡ true → length z ≤ length best) zones

  best_zone-grows :
      (best : Name) (zones : List Name)
      → length best ≤ length (best_zone is_sub_domain qname best zones)
  unfolding best_zone
  best_zone-grows best [] = omega arith
  best_zone-grows best (z ∷ zones) =
      let next =
        if is_match is_sub_domain qname z && ltb (length best) (length z) then z else best in
      let step : length best ≤ length next = ground arith in
      omega (arith, step, best_zone-grows next zones)

  best_zone-Longest :
      (best : Name) (zones : List Name) → Longest (best_zone is_sub_domain qname best zones) zones
  unfolding best_zone
  best_zone-Longest best [] = tt
  best_zone-Longest best (z ∷ zones) =
      let next =
        if is_match is_sub_domain qname z && ltb (length best) (length z) then z else best in
      (
        λ h.
            let step : length z ≤ length next = ground (arith, h) in
            omega (arith, step, best_zone-grows next zones),
        best_zone-Longest next zones,
      )

  -- A zone that is the one so far, or one of the list that the name is in.
  abbrev Found : Name → List Name → Name → Type 0
  Found best zones r =
      (r ≡ best)
      ⊎ ((is_match is_sub_domain qname r ≡ true) × (any (λ (z : Name). z =? r) zones ≡ true))

  Found-taken :
      (best z r : Name) (zones : List Name)
      → is_match is_sub_domain qname z ≡ true
      → Found z zones r
      → Found best (z ∷ zones) r
  Found-taken best z r zones h (inl e) = inr (
    subst (λ (x : Name). is_match is_sub_domain qname x ≡ true) (sym e) h,
    rw (e, =?-refl z) refl,
  )
  Found-taken best z r zones h (inr (m, there)) = inr (m, ground (arith, there))

  Found-kept : (best z r : Name) (zones : List Name) → Found best zones r → Found best (z ∷ zones) r
  Found-kept best z r zones (inl e) = inl e
  Found-kept best z r zones (inr (m, there)) = inr (m, ground (arith, there))

  best_zone-Found :
      (best : Name) (zones : List Name)
      → Found best zones (best_zone is_sub_domain qname best zones)
  unfolding best_zone
  best_zone-Found best [] = inl refl
  best_zone-Found best (z ∷ zones) =
      elim (Bool-cases (is_match is_sub_domain qname z && ltb (length best) (length z))) [
        | inl taken ↦
            let same : best_zone is_sub_domain qname z zones
                ≡ best_zone is_sub_domain qname best (z ∷ zones) =
              rw taken refl in
            subst (λ (r : Name). Found best (z ∷ zones) r) same
              (Found-taken best z _ zones (ground (arith, taken)) (best_zone-Found z zones))
        | inr kept ↦
            let same : best_zone is_sub_domain qname best zones
                ≡ best_zone is_sub_domain qname best (z ∷ zones) =
              rw kept refl in
            subst (λ (r : Name). Found best (z ∷ zones) r) same
              (Found-kept best z _ zones (best_zone-Found best zones))
      ]

  detect-zone :
      (zones : List Name) (aliases : Map Name Name)
      → qname ≢ []
      → (detect is_sub_domain qname zones aliases).matched_zone
        ≡ best_zone is_sub_domain qname [] zones
  unfolding detect
  detect-zone zones aliases h =
      let named : (qname =? []) ≡ false = =?-ne qname [] h in
      let best = best_zone is_sub_domain qname [] zones in
      elim (Bool-cases (best =? [])) [
        | inl missing ↦ ground (arith, named, missing, =?-true best [])
        | inr there ↦ ground (arith, named, there)
      ]

  -- Of a name that is not empty, no loaded zone that it is in is longer than the zone that
  -- `Detect` answers; and that is empty, or it is one of the loaded zones and the name is in it.
  pub detect-Longest :
      (zones : List Name) (aliases : Map Name Name)
      → qname ≢ []
      → Longest ((detect is_sub_domain qname zones aliases).matched_zone) zones
        × (((detect is_sub_domain qname zones aliases).matched_zone ≡ [])
            ⊎ ((is_match is_sub_domain qname
                    ((detect is_sub_domain qname zones aliases).matched_zone)
                  ≡ true)
                × (any
                      (λ (z : Name). z =? (detect is_sub_domain qname zones aliases).matched_zone)
                      zones
                    ≡ true)))
  detect-Longest zones aliases h =
      subst (λ (r : Name). Longest r zones × Found [] zones r) (sym (detect-zone zones aliases h))
        (best_zone-Longest [] zones, best_zone-Found [] zones)
