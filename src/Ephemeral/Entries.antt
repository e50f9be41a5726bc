-- ===== src/Ephemeral/Entries.antt =====
-- The entries of one name, as a finite map from the value to the expiry.
use shadow_dns.Prelude.{
  ℕ, suc, ◌≡◌, refl, ap, true, false, List, [], ◌∷◌, Option, none, some, arith, ltb, ◌=?◌, =?-true,
  =?-refl, nat_eq, list_eq, if◌then◌else◌, length, Bool-cases, inl, inr, ◌↔◌, Option-cases, map,
  any, subst, ◌∙◌,
}
use shadow_dns.Names.{Name}
use shadow_dns.Ephemeral.{Entry, put_entry, delete_first, unexpired}

-- The expiry of the first entry with a value.
unfoldable pub expiry_in : Name → List Entry → Option ℕ
expiry_in v [] = none
expiry_in v (e ∷ es) = if e.value =? v then some e.expire_at else expiry_in v es

-- No value stands twice.
abbrev pub Distinct : List Entry → Type 0
Distinct [] = Unit
Distinct (e ∷ es) = (expiry_in e.value es ≡ none) × Distinct es

name_iff : (v w : Name) → ((v =? w) ≡ true) ↔ (v ≡ w)
name_iff v w = (=?-true v w, λ e. rw e (=?-refl w))

pub expiry_in-put_entry :
    (v w : Name) (t : ℕ) (es : List Entry)
    → expiry_in v (put_entry w t es) ≡ (if w =? v then some t else expiry_in v es)
unfolding expiry_in put_entry
expiry_in-put_entry v w t [] = refl
expiry_in-put_entry v w t (e ∷ es) =
    ground
      (arith, name_iff e.value w, name_iff e.value v, name_iff w v, expiry_in-put_entry v w t es)

pub put_entry-Distinct :
    (w : Name) (t : ℕ) (es : List Entry) → Distinct es → Distinct (put_entry w t es)
unfolding expiry_in put_entry
put_entry-Distinct w t [] d = (refl, tt)
put_entry-Distinct w t (e ∷ es) (fresh, d) = elim (Bool-cases (e.value =? w)) [
  | inl same ↦ rw same (fresh, d)
  | inr other ↦ rw other (
    ground (
      arith,
      fresh,
      other,
      name_iff e.value w,
      name_iff w e.value,
      expiry_in-put_entry e.value w t es,
    ),
    put_entry-Distinct w t es d,
  )
]

-- What `delete_first` leaves, of every value.
pub expiry_in-delete_first :
    (v w : Name) (es : List Entry)
    → Distinct es
    → (r : List Entry) → delete_first w es ≡ some r
    → expiry_in v r ≡ (if w =? v then none else expiry_in v es)
unfolding expiry_in delete_first
expiry_in-delete_first v w [] d r h = cc
expiry_in-delete_first v w (e ∷ es) (fresh, d) r h = elim (Bool-cases (e.value =? w)) [
  | inl same ↦ ground (arith, same, h, fresh, name_iff e.value w, name_iff e.value v, name_iff w v)
  | inr other ↦ elim (Option-cases (delete_first w es)) [
    | inl missing ↦ absurd (ground (arith, missing, other, h))
    | inr (q, found) ↦ ground (
      arith,
      other,
      found,
      h,
      name_iff e.value w,
      name_iff e.value v,
      name_iff w v,
      expiry_in-delete_first v w es d q found,
    )
  ]
]

pub delete_first-none :
    (w : Name) (es : List Entry) → delete_first w es ≡ none → expiry_in w es ≡ none
unfolding expiry_in delete_first
delete_first-none w [] h = refl
delete_first-none w (e ∷ es) h = elim (Option-cases (delete_first w es)) [
  | inl missing ↦ ground (arith, missing, h, delete_first-none w es missing)
  | inr (q, found) ↦ absurd (ground (arith, found, h))
]

pub delete_first-Distinct :
    (w : Name) (es : List Entry)
    → Distinct es
    → (r : List Entry) → delete_first w es ≡ some r
    → Distinct r
unfolding expiry_in delete_first
delete_first-Distinct w [] d r h = absurd (ground (arith, h))
delete_first-Distinct w (e ∷ es) (fresh, d) r h = elim (Bool-cases (e.value =? w)) [
  | inl same ↦
      let kept : es ≡ r = ground (arith, same, h) in subst (λ (x : List Entry). Distinct x) kept d
  | inr other ↦ elim (Option-cases (delete_first w es)) [
    | inl missing ↦ absurd (ground (arith, missing, other, h))
    | inr (q, found) ↦
        let kept : e ∷ q ≡ r = ground (arith, other, found, h) in
        subst (λ (x : List Entry). Distinct x) kept
          (
            ground (arith, fresh, expiry_in-delete_first e.value w es d q found),
            delete_first-Distinct w es d q found,
          )
  ]
]

-- The expiry, where it lies ahead.
abbrev pub still : ℕ → Option ℕ → Option ℕ
still now none = none
still now (some t) = if ltb now t then some t else none

pub expiry_in-unexpired :
    (v : Name) (now : ℕ) (es : List Entry)
    → Distinct es
    → expiry_in v (unexpired now es) ≡ still now (expiry_in v es)
unfolding expiry_in unexpired
expiry_in-unexpired v now [] d = refl
expiry_in-unexpired v now (e ∷ es) (fresh, d) =
    ground (arith, fresh, name_iff e.value v, expiry_in-unexpired v now es d)

pub unexpired-Distinct : (now : ℕ) (es : List Entry) → Distinct es → Distinct (unexpired now es)
unfolding expiry_in unexpired
unexpired-Distinct now [] d = tt
unexpired-Distinct now (e ∷ es) (fresh, d) = elim (Bool-cases (ltb now e.expire_at)) [
  | inl ahead ↦
      rw ahead
        (expiry_in-unexpired e.value now es d ∙ ap (still now) fresh, unexpired-Distinct now es d)
  | inr past ↦ rw past (unexpired-Distinct now es d)
]

pub unexpired_idem :
    (now : ℕ) (es : List Entry) → unexpired now (unexpired now es) ≡ unexpired now es
unfolding unexpired
unexpired_idem now [] = refl
unexpired_idem now (e ∷ es) = ground (arith, unexpired_idem now es)

-- The values, as `Lookup` lists them, hold exactly those that have an expiry.
pub any-expiry_in :
    (v : Name) (es : List Entry)
    → any (λ (w : Name). w =? v) (map (λ (e : Entry). e.value) es)
      ≡ (elim (expiry_in v es) [ none ↦ false | some t ↦ true ])
unfolding expiry_in
any-expiry_in v [] = refl
any-expiry_in v (e ∷ es) = ground (arith, any-expiry_in v es)

pub length-put_entry :
    (w : Name) (t : ℕ) (es : List Entry)
    → length (put_entry w t es)
      ≡ (elim (expiry_in w es) [ none ↦ suc (length es) | some u ↦ length es ])
unfolding expiry_in put_entry
length-put_entry w t [] = refl
length-put_entry w t (e ∷ es) = ground (arith, length-put_entry w t es)
