-- ===== src/Names/Zones.antt =====
-- The byte test for zone membership, against the relation that it decides.
use shadow_dns.Prelude.{
  ℕ, suc, ◌-◌, ◌≡◌, ◌↔◌, ◌⊎◌, inl, inr, refl, ap, ◌∙◌, sym, true, ◌&&◌, [], ◌∷◌, ◌++◌, append_assoc,
  arith, ltb, ==_iff, ◌=?◌, =?-true, =?-refl, nat_eq, list_eq, &&-true, Bool-cases, length, take,
  drop, length-append, ltb→lt, lt→ltb, zero,
}
use shadow_dns.Names.{Name, dot_at, is_in_zone_byte_suffix}

-- A name is the zone, or ends in the zone behind a dot.
abbrev pub Under : Name → Name → Type 0
Under name zone = (name ≡ zone) ⊎ ((p : Name) × (name ≡ p ++ b'.' ∷ zone))

dot_at-append : (p zone : Name) → dot_at (p ++ b'.' ∷ zone) (length p) ≡ true
unfolding dot_at
dot_at-append [] zone = refl
dot_at-append (c ∷ p) zone = dot_at-append p zone

-- A dot at an index splits the name there.
dot_at-split :
    (name : Name) (i : ℕ) → dot_at name i ≡ true → name ≡ take i name ++ b'.' ∷ drop (suc i) name
unfolding dot_at
dot_at-split [] i h = cc
dot_at-split (c ∷ s) zero h = ap (λ (x : ℕ). x ∷ s) ((==_iff c b'.').0 h)
dot_at-split (c ∷ s) (suc i) h = ap (◌∷◌ c) (dot_at-split s i h)

pub byte_suffix-Under :
    (name zone : Name) → is_in_zone_byte_suffix name zone ≡ true → Under name zone
unfolding is_in_zone_byte_suffix
byte_suffix-Under name zone h = elim (Bool-cases (name =? zone)) [
  | inl same ↦ inl (=?-true name zone same)
  | inr other ↦
      let offset = length name - length zone in
      let rest : (ltb 0 offset && dot_at name (offset - 1) && drop offset name =? zone) ≡ true =
        rw other at h in
      let outer =
        &&-true (ltb 0 offset && dot_at name (offset - 1)) (drop offset name =? zone) rest in
      let inner = &&-true (ltb 0 offset) (dot_at name (offset - 1)) outer.0 in
      let step : suc (offset - 1) ≡ offset = omega (arith, ltb→lt 0 offset inner.0) in
      inr (
        take (offset - 1) name,
        dot_at-split name (offset - 1) inner.1
            ∙ ap (λ (s : Name). take (offset - 1) name ++ b'.' ∷ s)
                (ap (λ (i : ℕ). drop i name) step ∙ =?-true (drop offset name) zone outer.1),
      )
]

drop-dot : (p zone : Name) → drop (suc (length p)) (p ++ b'.' ∷ zone) ≡ zone
drop-dot [] zone = refl
drop-dot (c ∷ p) zone = drop-dot p zone

offset-append : (p zone : Name) → length (p ++ b'.' ∷ zone) - length zone ≡ suc (length p)
offset-append p zone = omega (arith, length-append p (b'.' ∷ zone))

byte_suffix-append : (p zone : Name) → is_in_zone_byte_suffix (p ++ b'.' ∷ zone) zone ≡ true
unfolding is_in_zone_byte_suffix
byte_suffix-append p zone = elim (Bool-cases (p ++ b'.' ∷ zone =? zone)) [
  | inl same ↦ rw same refl
  | inr other ↦
      let back : suc (length p) - 1 ≡ length p = omega arith in
      rw (
        other,
        offset-append p zone,
        back,
        dot_at-append p zone,
        drop-dot p zone,
        =?-refl zone,
        lt→ltb 0 (suc (length p)) (omega arith),
      )
]

byte_suffix_refl : (zone : Name) → is_in_zone_byte_suffix zone zone ≡ true
unfolding is_in_zone_byte_suffix
byte_suffix_refl zone = rw (=?-refl zone)

pub Under-byte_suffix :
    (name zone : Name) → Under name zone → is_in_zone_byte_suffix name zone ≡ true
Under-byte_suffix name zone (inl e) = rw e (byte_suffix_refl zone)
Under-byte_suffix name zone (inr (p, e)) = rw e (byte_suffix-append p zone)

-- The byte test accepts a name for a zone exactly when the name is the zone, or is the zone behind
-- some bytes and a dot.
pub is_in_zone_byte_suffix_iff :
    (name zone : Name) → (is_in_zone_byte_suffix name zone ≡ true) ↔ Under name zone
is_in_zone_byte_suffix_iff name zone = (byte_suffix-Under name zone, Under-byte_suffix name zone)

Under-trans : (a b c : Name) → Under a b → Under b c → Under a c
Under-trans a b c (inl e) u = rw e u
Under-trans a b c (inr (p, e)) (inl f) = inr (p, e ∙ ap (λ (s : Name). p ++ b'.' ∷ s) f)
Under-trans a b c (inr (p, e)) (inr (q, f)) = inr (
  p ++ b'.' ∷ q,
  e ∙ ap (λ (s : Name). p ++ b'.' ∷ s) f ∙ sym (append_assoc p (b'.' ∷ q) (b'.' ∷ c)),
)

-- A zone of a zone of a name is a zone of the name.
pub is_in_zone_byte_suffix_trans :
    (a b c : Name)
    → is_in_zone_byte_suffix a b ≡ true
    → is_in_zone_byte_suffix b c ≡ true
    → is_in_zone_byte_suffix a c ≡ true
is_in_zone_byte_suffix_trans a b c h k =
    Under-byte_suffix a c (Under-trans a b c (byte_suffix-Under a b h) (byte_suffix-Under b c k))

-- A zone of a name is the end of the name that is as long.
Under-drop : (name zone : Name) → Under name zone → zone ≡ drop (length name - length zone) name
Under-drop name zone (inl e) =
    let none_left : length name - length zone ≡ 0 = omega (arith, ap length e) in
    rw none_left (sym e)
Under-drop name zone (inr (p, e)) = rw (e, offset-append p zone) (sym (drop-dot p zone))

-- Two zones of one name that are equally long are one zone.
pub Under-unique : (name a b : Name) → Under name a → Under name b → length a ≡ length b → a ≡ b
Under-unique name a b u v e =
    Under-drop name a u ∙ ap (λ (n : ℕ). drop (length name - n) name) e ∙ sym (Under-drop name b v)
