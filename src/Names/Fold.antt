-- ===== src/Names/Fold.antt =====
-- The lookup form of a name: its fast path, and what it identifies.
use shadow_dns.Prelude.{
  ℕ, ◌≡◌, ◌≢◌, ◌↔◌, refl, ap, ◌∙◌, sym, true, [], ◌∷◌, ◌++◌, map, arith, ltb, &&-true, Bool-cases,
  inl, inr,
}
use mathlib.Core.List.{map-append}
use shadow_dns.Names.{
  Name, trim_dot, lower_byte, is_ascii, canonicalize, ends_with_dot, is_folded_byte,
  all_but_last_folded, is_already_lookup_key, to_lower, lookup_key,
}

abbrev pub dot : Name
dot = b'.' ∷ []

trim_dot-append : (s : Name) → trim_dot (s ++ dot) ≡ s
unfolding trim_dot
trim_dot-append [] = refl
trim_dot-append (c ∷ []) = refl
trim_dot-append (c ∷ d ∷ s) = ap (◌∷◌ c) (trim_dot-append (d ∷ s))

lower_byte_idem : (c : ℕ) → lower_byte (lower_byte c) ≡ lower_byte c
unfolding lower_byte
lower_byte_idem c = ground arith

map-lower_byte_idem : (s : Name) → map lower_byte (map lower_byte s) ≡ map lower_byte s
map-lower_byte_idem [] = refl
map-lower_byte_idem (c ∷ s) = cc (lower_byte_idem c, map-lower_byte_idem s)

pub is_ascii-lower : (s : Name) → is_ascii s ≡ true → is_ascii (map lower_byte s) ≡ true
unfolding is_ascii lower_byte
is_ascii-lower [] h = refl
is_ascii-lower (c ∷ s) h = ground (arith, is_ascii-lower s)

lower_folded_byte : (c : ℕ) → is_folded_byte c ≡ true → (lower_byte c ≡ c) × (ltb c 0x80 ≡ true)
unfolding is_folded_byte lower_byte
lower_folded_byte c h = ground arith

-- On a name that the fast path accepts, the slow path changes nothing.
folded_trim :
    (s : Name)
    → ends_with_dot s ≡ true
    → all_but_last_folded s ≡ true
    → (is_ascii (trim_dot s) ≡ true) × (map lower_byte (trim_dot s) ++ dot ≡ s)
unfolding ends_with_dot all_but_last_folded trim_dot is_ascii
folded_trim [] e f = cc
folded_trim (c ∷ []) e f = ground arith
folded_trim (c ∷ d ∷ s) e f = ground (arith, lower_folded_byte c, folded_trim (d ∷ s))

is_ascii-trim : (s : Name) → is_ascii s ≡ true → is_ascii (trim_dot s) ≡ true
unfolding is_ascii trim_dot
is_ascii-trim [] h = refl
is_ascii-trim (c ∷ []) h = ground arith
is_ascii-trim (c ∷ d ∷ s) h = ground (arith, is_ascii-trim (d ∷ s))

append-dot_cancel : (s t : Name) → s ++ dot ≡ t ++ dot → s ≡ t
append-dot_cancel s t h = sym (trim_dot-append s) ∙ ap trim_dot h ∙ trim_dot-append t

append-dot_ne : (s : Name) → s ++ dot ≢ []
append-dot_ne [] h = cc
append-dot_ne (c ∷ s) h = cc

module _ (unicode_lower : Name → Name) where
  -- On every name but the empty one, the lookup form is the folded name, less one trailing dot,
  -- with a dot at its end: the fast path, which returns the name as it is, is never seen.
  pub lookup_key-eq-slow :
      (s : Name) → s ≢ [] → lookup_key unicode_lower s ≡ to_lower unicode_lower (trim_dot s) ++ dot
  unfolding lookup_key to_lower is_already_lookup_key
  lookup_key-eq-slow [] h = absurd (h refl)
  lookup_key-eq-slow (c ∷ s) h = elim (Bool-cases (is_already_lookup_key (c ∷ s))) [
    | inr slow ↦ rw slow refl
    | inl fast ↦
        let t = &&-true _ _ fast in
        let (ascii, same) = folded_trim (c ∷ s) t.0 t.1 in rw (fast, ascii) (sym same)
  ]

  to_lower_idem :
      ((s : Name) → to_lower unicode_lower (unicode_lower s) ≡ unicode_lower s)
      → (s : Name) → to_lower unicode_lower (to_lower unicode_lower s) ≡ to_lower unicode_lower s
  unfolding to_lower
  to_lower_idem idem s = elim (Bool-cases (is_ascii s)) [
    | inl a ↦ rw (a, is_ascii-lower s a) (map-lower_byte_idem s)
    | inr n ↦ rw n (idem s)
  ]

  -- If folding a folded text of the Unicode tables changes nothing, the lookup form of a lookup
  -- form is that form.
  pub lookup_key_idem :
      ((s : Name) → to_lower unicode_lower (unicode_lower s) ≡ unicode_lower s)
      → (s : Name)
      → lookup_key unicode_lower (lookup_key unicode_lower s) ≡ lookup_key unicode_lower s
  unfolding lookup_key
  lookup_key_idem idem [] = refl
  lookup_key_idem idem (c ∷ s) =
      let t = to_lower unicode_lower (trim_dot (c ∷ s)) in
      rw (
        lookup_key-eq-slow (c ∷ s) (λ e. cc),
        lookup_key-eq-slow (t ++ dot) (append-dot_ne t),
        trim_dot-append t,
        to_lower_idem idem (trim_dot (c ∷ s)),
      )

  lookup_key-ascii :
      (s : Name)
      → s ≢ []
      → is_ascii s ≡ true
      → lookup_key unicode_lower s ≡ map lower_byte (trim_dot s) ++ dot
  unfolding to_lower
  lookup_key-ascii s h a = rw (lookup_key-eq-slow s h, is_ascii-trim s a)

  lower-canonicalize :
      (s : Name) → s ≢ [] → map lower_byte (canonicalize s) ≡ map lower_byte (trim_dot s) ++ dot
  unfolding canonicalize lower_byte
  lower-canonicalize [] h = absurd (h refl)
  lower-canonicalize (c ∷ s) h = rw map-append

  -- Two non-empty ASCII names have one lookup form exactly when their canonical forms agree up to
  -- the case of letters.
  pub lookup_key_eq_iff :
      (s t : Name)
      → s ≢ []
      → t ≢ []
      → is_ascii s ≡ true
      → is_ascii t ≡ true
      → (lookup_key unicode_lower s ≡ lookup_key unicode_lower t)
        ↔ (map lower_byte (canonicalize s) ≡ map lower_byte (canonicalize t))
  lookup_key_eq_iff s t hs ht as_ at =
      rw
        (
          lookup_key-ascii s hs as_,
          lookup_key-ascii t ht at,
          lower-canonicalize s hs,
          lower-canonicalize t ht,
        )
        (λ p. p, λ p. p)
