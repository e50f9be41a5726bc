-- ===== src/Alias/Rewrite/Occurs.antt =====
-- Where a text occurs in another, and what `strings.Index` answers.
use shadow_dns.Prelude.{
  ℕ, zero, suc, ◌≤◌, ◌<◌, ◌≡◌, inl, inr, refl, sym, subst, Bool, true, false, ◌&&◌, [], ◌∷◌, Option,
  none, some, arith, nat_eq, list_eq, length, drop, Bool-cases,
}
use shadow_dns.Names.{Name}
use shadow_dns.Alias.Rewrite.{has_prefix, index_of, at_label}

-- The text occurs at the index.
abbrev pub occurs : Name → Name → ℕ → Bool
occurs lower root i = has_prefix (drop i lower) root

-- The text occurs at the index, where a label starts.
abbrev pub starts : Name → Name → ℕ → Bool
starts lower root i = occurs lower root i && at_label lower i

-- What `strings.Index` answers.
abbrev pub Index : Name → Name → Option ℕ → Type 0
Index sub s none = (i : ℕ) → i ≤ length s → occurs s sub i ≡ false
Index sub s (some i) =
    (i ≤ length s) × (occurs s sub i ≡ true) × ((j : ℕ) → j < i → occurs s sub j ≡ false)

Index-behind :
    (sub : Name) (c : ℕ) (s : Name) (r : Option ℕ)
    → has_prefix (c ∷ s) sub ≡ false
    → Index sub s r
    → Index sub (c ∷ s) (elim r [ none ↦ none | some i ↦ some (suc i) ])
Index-behind sub c s none h none_there = λ i. go i
  where
    go : (i : ℕ) → i ≤ suc (length s) → occurs (c ∷ s) sub i ≡ false
    go zero le = h
    go (suc i) le = none_there i (omega arith)
Index-behind sub c s (some k) h (fits, there, before) = (omega (arith, fits), there, λ j. go j)
  where
    go : (j : ℕ) → j < suc k → occurs (c ∷ s) sub j ≡ false
    go zero lt = h
    go (suc j) lt = before j (omega (arith, lt))

Index-here : (sub s : Name) → has_prefix s sub ≡ true → Index sub s (some 0)
Index-here sub s h = (omega arith, h, λ j lt. absurd (omega (arith, lt)))

-- `strings.Index` answers the first index at which the text occurs.
pub index_of_lem : (sub s : Name) → Index sub s (index_of sub s)
unfolding index_of
index_of_lem sub [] = elim (Bool-cases (has_prefix [] sub)) [
  | inl here ↦
      let e : some 0 ≡ index_of sub [] = ground (arith, here) in
      subst (Index sub []) e (Index-here sub [] here)
  | inr away ↦
      let e : none ≡ index_of sub [] = ground (arith, away) in
      subst (Index sub []) e (λ i le. let e : i ≡ 0 = omega (arith, le) in rw (e, away) refl)
]
index_of_lem sub (c ∷ s) = elim (Bool-cases (has_prefix (c ∷ s) sub)) [
  | inl here ↦
      let e : some 0 ≡ index_of sub (c ∷ s) = ground (arith, here) in
      subst (Index sub (c ∷ s)) e (Index-here sub (c ∷ s) here)
  | inr away ↦
      let e : index_of sub (c ∷ s) ≡ elim (index_of sub s) [ none ↦ none | some i ↦ some (suc i) ] =
        rw away refl in
      subst (Index sub (c ∷ s)) (sym e)
        (Index-behind sub c s (index_of sub s) away (index_of_lem sub s))
]
