-- ===== src/Alias/Rewrite/Anywhere.antt =====
-- The index at which `RewriteNameAnywhere` replaces, against a description of it.
use shadow_dns.Prelude.{
  ℕ, zero, suc, ◌+◌, ◌-◌, ◌≤◌, ◌<◌, ◌≡◌, inl, inr, refl, sym, ◌∙◌, ap, subst, true, false, [], ◌∷◌,
  ◌++◌, Option, none, some, arith, leb, ◌==◌, nat_eq, list_eq, length, take, drop, Bool-cases,
  Option-cases, map, ◌≢◌, =?-ne, =?-true, &&-true,
}
use shadow_dns.Names.{Name, lower_byte, is_ascii, to_lower}
use shadow_dns.Alias.Rewrite.{has_prefix, index_of, at_label, find_label, rewrite_name_anywhere}
use shadow_dns.Alias.Rewrite.Occurs.{occurs, starts, Index, index_of_lem}

-- The first index from `start` on at which the text occurs and a label starts.
abbrev pub FirstLabel : Name → Name → ℕ → Option ℕ → Type 0
FirstLabel lower root start none =
    (i : ℕ) → start ≤ i → i ≤ length lower → starts lower root i ≡ false
FirstLabel lower root start (some k) =
    (start ≤ k)
    × (k ≤ length lower)
    × (starts lower root k ≡ true)
    × ((j : ℕ) → start ≤ j → j < k → starts lower root j ≡ false)

drop-nil : (n : ℕ) → drop {A = ℕ} n [] ≡ []
drop-nil zero = refl
drop-nil (suc n) = refl

drop-drop : (i j : ℕ) (s : Name) → drop j (drop i s) ≡ drop (i + j) s
drop-drop zero j s = ap (λ (n : ℕ). drop n s) (omega arith)
drop-drop (suc i) j [] = drop-nil j ∙ sym (drop-nil (suc i + j))
drop-drop (suc i) j (c ∷ s) =
    let e : suc i + j ≡ suc (i + j) = omega arith in rw e (drop-drop i j s)

length-drop : (i : ℕ) (s : Name) → length (drop i s) ≡ length s - i
length-drop zero s = omega arith
length-drop (suc i) [] = omega arith
length-drop (suc i) (c ∷ s) = omega (arith, length-drop i s)

module _ (lower root : Name) where
  -- The first occurrence behind `start`, in the whole text.
  occurs-drop : (start i : ℕ) → occurs (drop start lower) root i ≡ occurs lower root (start + i)
  occurs-drop start i = ap (λ (s : Name). has_prefix s root) (drop-drop start i lower)

  away-starts : (i : ℕ) → occurs lower root i ≡ false → starts lower root i ≡ false
  away-starts i h = rw h refl

  -- No occurrence in the rest of the text up to `k` is none in the text.
  unseen :
      (start i : ℕ)
      → start ≤ i
      → occurs (drop start lower) root (i - start) ≡ false
      → starts lower root i ≡ false
  unseen start i le h =
      let at : start + (i - start) ≡ i = omega (arith, le) in
      away-starts i (
        subst (λ (n : ℕ). occurs lower root n ≡ false) at (sym (occurs-drop start (i - start)) ∙ h))

  FirstLabel-none :
      (start : ℕ) → Index root (drop start lower) none → FirstLabel lower root start none
  FirstLabel-none start h i le fits =
      unseen start i le (h (i - start) (omega (arith, length-drop start lower, le, fits)))

  FirstLabel-here :
      (start idx : ℕ)
      → start ≤ length lower
      → Index root (drop start lower) (some idx)
      → at_label lower (start + idx) ≡ true
      → FirstLabel lower root start (some (start + idx))
  FirstLabel-here start idx long (fits, there, before) labelled =
      let found : occurs lower root (start + idx) ≡ true = sym (occurs-drop start idx) ∙ there in
      (
        omega arith,
        omega (arith, length-drop start lower, fits, long),
        rw (found, labelled) refl,
        λ j le lt. unseen start j le (before (j - start) (omega (arith, le, lt))),
      )

  -- An occurrence inside a label is passed over.
  FirstLabel-later :
      (start idx : ℕ) (r : Option ℕ)
      → Index root (drop start lower) (some idx)
      → at_label lower (start + idx) ≡ false
      → FirstLabel lower root (start + idx + 1) r
      → FirstLabel lower root start r
  FirstLabel-later start idx r (fits, there, before) inside rest = go r rest
    where
      passed : (j : ℕ) → start ≤ j → j < start + idx + 1 → starts lower root j ≡ false
      passed j le lt = elim (Bool-cases (j == start + idx)) [
        | inl same ↦ let e : j ≡ start + idx = ground (arith, same) in rw (e, inside) (ground arith)
        | inr apart ↦ unseen start j le (before (j - start) (ground (arith, apart)))
      ]

      go :
          (r : Option ℕ) → FirstLabel lower root (start + idx + 1) r → FirstLabel lower root start r
      go none h = λ i le fits. elim (Bool-cases (leb (start + idx + 1) i)) [
        | inl behind ↦ h i (ground (arith, behind)) fits
        | inr before_it ↦ passed i le (ground (arith, before_it))
      ]
      go (some k) (le, fits, here, none_before) = (
        omega (arith, le),
        fits,
        here,
        λ i low lt. elim (Bool-cases (leb (start + idx + 1) i)) [
          | inl behind ↦ none_before i (ground (arith, behind)) lt
          | inr before_it ↦ passed i low (ground (arith, before_it))
        ],
      )

  -- The loop of `RewriteNameAnywhere` from `start` on, with fuel for the rest of the name and two
  -- rounds more, answers the first index from `start` on at which the root zone occurs and a label
  -- starts; and `none` only where there is no such index.
  pub find_label-FirstLabel :
      (fuel start : ℕ)
      → length lower + 1 < fuel + start
      → FirstLabel lower root start (find_label fuel lower root start)
  unfolding find_label
  find_label-FirstLabel zero start enough = λ i le fits. absurd (omega (arith, enough, le, fits))
  find_label-FirstLabel (suc fuel) start enough = elim (Bool-cases (leb start (length lower))) [
    | inr past ↦
        let e : none ≡ find_label (suc fuel) lower root start = rw past refl in
        subst (FirstLabel lower root start) e (λ i le fits. absurd (ground (arith, past, le, fits)))
    | inl long ↦
        let low : start ≤ length lower = ground (arith, long) in
        let seen = index_of_lem root (drop start lower) in
        elim (Option-cases (index_of root (drop start lower))) [
          | inl missing ↦
              let e : none ≡ find_label (suc fuel) lower root start = rw (long, missing) refl in
              subst (FirstLabel lower root start) e
                (FirstLabel-none start (subst (Index root (drop start lower)) missing seen))
          | inr (idx, found) ↦
              let at = subst (Index root (drop start lower)) found seen in
              elim (Bool-cases (at_label lower (start + idx))) [
                | inl labelled ↦
                    let e : some (start + idx) ≡ find_label (suc fuel) lower root start =
                      rw (long, found, labelled) refl in
                    subst (FirstLabel lower root start) e
                      (FirstLabel-here start idx low at labelled)
                | inr inside ↦
                    let e : find_label fuel lower root (start + idx + 1)
                        ≡ find_label (suc fuel) lower root start =
                      rw (long, found, inside) refl in
                    subst (FirstLabel lower root start) e (
                      FirstLabel-later start idx _ at inside
                        (find_label-FirstLabel fuel (start + idx + 1) (omega (arith, enough))))
              ]
        ]
  ]

-- The name with the root zone's text at the index replaced by the backup zone's.
abbrev pub replaced_at : Name → Name → Name → Option ℕ → Name
replaced_at n root backup none = n
replaced_at n root backup (some k) = take k n ++ backup ++ drop (k + length root) n

length-take : (i : ℕ) (s : Name) → length (take i s) ≤ length s
length-take zero s = omega arith
length-take (suc i) [] = omega arith
length-take (suc i) (c ∷ s) = omega (arith, length-take i s)

length-fold : (s : Name) → length (map lower_byte s) ≡ length s
length-fold [] = refl
length-fold (c ∷ s) = omega (arith, length-fold s)

-- An occurrence fits into the text.
occurs-fits :
    (lower root : Name) (i : ℕ)
    → i ≤ length lower
    → occurs lower root i ≡ true
    → i + length root ≤ length lower
unfolding has_prefix
occurs-fits lower root i le h =
    let same : take (length root) (drop i lower) ≡ root = =?-true _ root h in
    omega (
      arith,
      le,
      ap (λ (s : Name). length s) same,
      length-take (length root) (drop i lower),
      length-drop i lower,
    )

module _ (unicode_lower : Name → Name) where
  -- Of a name of ASCII letters, neither it nor the root zone empty, `RewriteNameAnywhere` replaces
  -- the first occurrence of the root zone at the start of a label, case aside, and nothing else;
  -- where there is none it answers the name. It does not panic.
  pub rewrite_name_anywhere-FirstLabel :
      (n root backup : Name)
      → n ≢ []
      → root ≢ []
      → is_ascii n ≡ true
      → (r : Option ℕ) × FirstLabel (map lower_byte n) root 0 r
        × (rewrite_name_anywhere unicode_lower n root backup ≡ some (replaced_at n root backup r))
  unfolding rewrite_name_anywhere to_lower
  rewrite_name_anywhere-FirstLabel n root backup h k plain =
      let lower = map lower_byte n in
      let r = find_label (length lower + 2) lower root 0 in
      let first = find_label-FirstLabel lower root (length lower + 2) 0 (omega arith) in
      (r, first, go r refl first)
    where
      go :
          (r : Option ℕ)
          → find_label (length (map lower_byte n) + 2) (map lower_byte n) root 0 ≡ r
          → FirstLabel (map lower_byte n) root 0 r
          → rewrite_name_anywhere unicode_lower n root backup ≡ some (replaced_at n root backup r)
      go none e first = rw (=?-ne n [] h, =?-ne root [] k, plain, e) refl
      go (some i) e (le, fits, here, before) =
          let occurs_here = &&-true (occurs (map lower_byte n) root i) _ here in
          let bound : leb (i + length root) (length n) ≡ true =
            ground
              (arith, occurs-fits (map lower_byte n) root i fits occurs_here.0, length-fold n) in
          rw (=?-ne n [] h, =?-ne root [] k, plain, e, bound) refl
