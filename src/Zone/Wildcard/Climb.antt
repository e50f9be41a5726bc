-- ===== src/Zone/Wildcard/Climb.antt =====
-- Where `LookupWildcard` finds its records, and that its loop comes to an end.
use shadow_dns.Prelude.{
  ℕ, zero, suc, ◌-◌, ◌≤◌, ◌<◌, ◌≡◌, ◌≢◌, inl, inr, refl, Bool, true, List, [], ◌∷◌, Option, none,
  some, arith, nat_eq, list_eq, length, drop, Option-cases,
}
use shadow_dns.Prelude.Map.{lookup}
use shadow_dns.Names.{Name, is_in_zone}
use shadow_dns.Zone.{Zone, QtypeStore, single, promoted}
use shadow_dns.Zone.Wildcard.{
  wildcard_of, wildcard_hit, wildcard_at_origin, escaped_parents, parents, climb, lookup_wildcard,
  has_wildcard,
}

length-drop : (n : ℕ) (s : Name) → length (drop n s) ≡ length s - n
length-drop zero s = omega arith
length-drop (suc n) [] = omega arith
length-drop (suc n) (c ∷ s) = omega (arith, length-drop n s)

-- The fuel of the walk over an escaped name is enough: with more of it the walk visits the same
-- names, where each label has a byte.
pub escaped_parents_enough :
    (next_label : Name → Option ℕ)
    → ((s : Name) (off : ℕ) → next_label s ≡ some off → (0 < off) × (off ≤ length s))
    → (n m : ℕ) (s : Name) → length s < n
    → n ≤ m
    → escaped_parents next_label n s ≡ escaped_parents next_label m s
unfolding escaped_parents
escaped_parents_enough next_label within zero m s h k = absurd (omega (arith, h))
escaped_parents_enough next_label within (suc n) zero s h k = absurd (omega (arith, k))
escaped_parents_enough next_label within (suc n) (suc m) s h k =
    elim (Option-cases (next_label s)) [
      | inl last ↦ ground (arith, last)
      | inr (off, found) ↦
          let (positive, inside) = within s off found in
          let shorter : length (drop off s) < n =
            omega (arith, length-drop off s, positive, inside, h) in
          let fewer : n ≤ m = omega (arith, k) in
          ground
            (arith, found, escaped_parents_enough next_label within n m (drop off s) shorter fewer)
    ]

-- No store in the zone is a promoted one without a type.
abbrev pub NoEmptyStore : Zone → Type 0
NoEmptyStore z = (k : Name) (s : QtypeStore) → lookup k z.records ≡ some s → s ≢ promoted []

hit-found : (s : QtypeStore) (q : ℕ) → s ≢ promoted [] → (wildcard_hit s q).1 ≡ true
unfolding wildcard_hit
hit-found (single k rrs) q h = ground arith
hit-found (promoted []) q h = absurd (h refl)
hit-found (promoted (e ∷ sub)) q h = ground arith

-- The names from the query's name up, none of which is stored, down to the wildcard that covers
-- it: `Covers z ps p` says that of the parents `ps` the first one with a wildcard is `p`, and that
-- all below it are in the zone and not stored.
pub data Covers (z : Zone) (is_sub_domain : Name → Name → Bool) : List Name → Name → Type 0 where
  covers_origin_end : Covers z is_sub_domain [] z.origin
  covers_origin : (ps : List Name) → Covers z is_sub_domain (z.origin ∷ ps) z.origin
  covers_here :
      (p : Name) (ps : List Name) (s : QtypeStore)
      → is_in_zone is_sub_domain p z.origin ≡ true
      → lookup (wildcard_of p) z.records ≡ some s
      → Covers z is_sub_domain (p ∷ ps) p
  covers_above :
      (p c : Name) (ps : List Name)
      → is_in_zone is_sub_domain p z.origin ≡ true
      → lookup (wildcard_of p) z.records ≡ none
      → lookup p z.records ≡ none
      → Covers z is_sub_domain ps c
      → Covers z is_sub_domain (p ∷ ps) c

origin-found :
    (z : Zone) (q r : ℕ) → NoEmptyStore z → (wildcard_at_origin z q).1 ≡ (wildcard_at_origin z r).1
unfolding wildcard_at_origin
origin-found z q r full = elim (Option-cases (lookup (wildcard_of z.origin) z.records)) [
  | inl missing ↦ ground (arith, missing)
  | inr (s, there) ↦
      let some_type = full (wildcard_of z.origin) s there in
      ground (arith, there, hit-found s q some_type, hit-found s r some_type)
]

climb-found :
    (is_sub_domain : Name → Name → Bool) (z : Zone) (q r : ℕ) (ps : List Name)
    → NoEmptyStore z
    → (climb is_sub_domain z q ps).1 ≡ (climb is_sub_domain z r ps).1
unfolding climb
climb-found is_sub_domain z q r [] full = origin-found z q r full
climb-found is_sub_domain z q r (p ∷ ps) full =
    elim (Option-cases (lookup (wildcard_of p) z.records)) [
      | inl missing ↦
          ground (arith, missing, origin-found z q r full, climb-found is_sub_domain z q r ps full)
      | inr (s, there) ↦
          let some_type = full (wildcard_of p) s there in
          ground (
            arith,
            there,
            origin-found z q r full,
            hit-found s q some_type,
            hit-found s r some_type,
          )
    ]

-- In a zone without an empty store, `HasWildcard` says for every type whether `LookupWildcard`
-- finds an owner.
pub has_wildcard-found :
    (next_label : Name → Option ℕ) (is_sub_domain : Name → Name → Bool) (z : Zone) (qname : Name)
    (q : ℕ)
    → NoEmptyStore z
    → has_wildcard next_label is_sub_domain z qname
      ≡ (lookup_wildcard next_label is_sub_domain z qname q).1
unfolding has_wildcard lookup_wildcard
has_wildcard-found next_label is_sub_domain z qname q full =
    ground (arith, climb-found is_sub_domain z 0 q (parents next_label qname) full)
