-- ===== src/RateLimit/Float64/Order.antt =====
-- Rounding does not pass a float64: what lies below one is rounded to a number that does not lie
-- above it.
use native.Mathlib.Nat.{
  mod-add-div', mul_comm, mul-le-mul_right, pow-le-pow_right, div-le_of_le-mul, pow-suc,
  le-div_iff_mul-le,
}
use shadow_dns.Prelude.{
  ℕ, zero, suc, ◌+◌, ◌*◌, ◌/◌, ◌%◌, ◌^◌, ◌≤◌, ◌<◌, ◌≡◌, ◌⊎◌, inl, inr, refl, sym, ◌∙◌, subst, false,
  ◌&&◌, ◌||◌, List, [], ◌∷◌, ltb, leb, ◌==◌, Bool-cases, arith,
}
use shadow_dns.Prelude.Int.{ℤ, pos, negsuc, ◌-ℤ◌, pos_part, neg_part}
use shadow_dns.Net.Blocks.{pow-pos}
use shadow_dns.RateLimit.Float64.{shift_from, steps, shift_of, round_div, nearest, round_ℤ}

-- The sum of the steps of the search.
abbrev room : List ℕ → ℕ
room [] = 0
room (k ∷ ks) = k + room ks

-- No step is greater than the sum of those behind it, and one.
abbrev AreDense : List ℕ → Type 0
AreDense [] = Unit
AreDense (k ∷ ks) = (k ≤ room ks + 1) × AreDense ks

-- A number that is shifted has 53 digits at least.
shift_from-above :
    (ks : List ℕ) (acc n : ℕ)
    → (acc ≡ 0) ⊎ (2 ^ (52 + acc) ≤ n)
    → (shift_from ks acc n ≡ 0) ⊎ (2 ^ (52 + shift_from ks acc n) ≤ n)
unfolding shift_from
shift_from-above [] acc n h = h
shift_from-above (k ∷ ks) acc n h = elim (Bool-cases (leb (2 ^ (52 + (acc + k))) n)) [
  | inl e ↦ rw e (shift_from-above ks (acc + k) n (inr (ground (arith, e))))
  | inr e ↦ rw e (shift_from-above ks acc n h)
]

-- What a step that is not taken says, where the rest of the steps goes as far.
step_below :
    (n acc k r : ℕ) → k ≤ r + 1 → leb (2 ^ (52 + (acc + k))) n ≡ false → n < 2 ^ (53 + (acc + r))
step_below n acc k r small e =
    let grown : 2 ^ (52 + (acc + k)) ≤ 2 ^ (53 + (acc + r)) =
      pow-le-pow_right (omega arith) (omega (arith, small)) in
    let less : n < 2 ^ (52 + (acc + k)) = ground (arith, e) in omega (arith, less, grown)

-- Behind the shift it has 53 digits at most.
shift_from-below :
    (ks : List ℕ) (acc n : ℕ)
    → AreDense ks
    → n < 2 ^ (53 + (acc + room ks))
    → n < 2 ^ (53 + shift_from ks acc n)
unfolding shift_from
shift_from-below [] acc n d h = subst (λ (k : ℕ). n < 2 ^ (53 + k)) (omega arith) h
shift_from-below (k ∷ ks) acc n (small, d) h = elim (Bool-cases (leb (2 ^ (52 + (acc + k))) n)) [
  | inl e ↦
      rw e (shift_from-below ks (acc + k) n d (subst (λ (j : ℕ). n < 2 ^ (53 + j)) (omega arith) h))
  | inr e ↦ rw e (shift_from-below ks acc n d (step_below n acc k (room ks) small e))
]

-- A quotient of at most `m` is rounded to at most `m`.
round_div-le : (x d m : ℕ) → 0 < d → x ≤ m * d → round_div x d ≤ m
unfolding round_div
round_div-le x d m p h =
    let q : x / d ≤ m = div-le_of_le-mul d (subst (λ (y : ℕ). x ≤ y) (mul_comm m d) h) in
    let split = mod-add-div' x d in
    elim (Bool-cases (x / d == m)) [
      | inr short ↦ ground (arith, q, short)
      | inl full ↦
          let e : x / d ≡ m = ground (arith, full) in
          let none_left : x % d ≡ 0 =
            omega (arith, h, subst (λ (y : ℕ). x % d + y * d ≡ x) e split) in
          let stays : (ltb d (2 * (x % d)) || ((2 * (x % d) == d) && (x / d) % 2 == 1)) ≡ false =
            rw none_left (ground (arith, p)) in
          rw stays q
    ]

-- A quotient of at least `m` is rounded to at least `m`.
round_div-ge : (x d m : ℕ) → 0 < d → m * d ≤ x → m ≤ round_div x d
unfolding round_div
round_div-ge x d m p h =
    let q : m ≤ x / d = (le-div_iff_mul-le p).1 h in
    elim (Bool-cases (ltb d (2 * (x % d)) || ((2 * (x % d) == d) && (x / d) % 2 == 1))) [
      | inl up ↦ rw up (omega (arith, q))
      | inr down ↦ rw down q
    ]

pow_plus : (a s : ℕ) → 2 ^ (a + s) ≡ 2 ^ a * 2 ^ s
pow_plus a zero =
    let same : a ≡ a + 0 = omega arith in
    subst (λ (e : ℕ). 2 ^ e ≡ 2 ^ a * 2 ^ 0) same (omega arith)
pow_plus a (suc s) =
    subst (λ (e : ℕ). 2 ^ e ≡ 2 ^ a * 2 ^ suc s) (omega arith)
      (pow-suc 2 (a + s) ∙ rw pow-suc (grind (arith, pow_plus a s)))

-- The shifts that fit two numbers.
abbrev Fits : ℕ → ℕ → Type 0
Fits n s = ((s ≡ 0) ⊎ (2 ^ (52 + s) ≤ n)) × (n < 2 ^ (53 + s))

shift_of-Fits : (n : ℕ) → n < 2 ^ 2100 → Fits n (shift_of n)
unfolding shift_of
shift_of-Fits n h = (shift_from-above steps 0 n (inl refl), shift_from-below steps 0 n dense h)
  where
    dense : AreDense steps
    dense = (
      omega arith,
      (
        omega arith,
        (
          omega arith,
          (
            omega arith,
            (
              omega arith,
              (
                omega arith,
                (omega arith, (omega arith, (omega arith, (omega arith, (omega arith, tt))))),
              ),
            ),
          ),
        ),
      ),
    )

rounded-le :
    (x y s t : ℕ)
    → Fits x s
    → Fits y t
    → round_div y (2 ^ t) * 2 ^ t ≡ y
    → x ≤ y
    → round_div x (2 ^ s) * 2 ^ s ≤ y
rounded-le x y s t (above, below) (above', below') float le = elim (Bool-cases (ltb s t)) [
  | inl shorter ↦
      let room_left : x ≤ 2 ^ 53 * 2 ^ s =
        subst (λ (n : ℕ). x ≤ n) (pow_plus 53 s) (omega (arith, below)) in
      let few = mul-le-mul_right (2 ^ s) (round_div-le x (2 ^ s) (2 ^ 53) (pow-pos s) room_left) in
      let under : 2 ^ (53 + s) ≤ 2 ^ (52 + t) =
        pow-le-pow_right (omega arith) (ground (arith, shorter)) in
      elim above' [
        | inl e ↦ absurd (ground (arith, shorter, e))
        | inr there ↦ omega (arith, few, pow_plus 53 s, under, there)
      ]
  | inr longer ↦ elim (Bool-cases (s == t)) [
    | inl e ↦
        let same : t ≡ s = ground (arith, e) in
        let float' : round_div y (2 ^ s) * 2 ^ s ≡ y =
          subst (λ (u : ℕ). round_div y (2 ^ u) * 2 ^ u ≡ y) same float in
        let m = round_div y (2 ^ s) in
        let few =
          mul-le-mul_right (2 ^ s)
            (round_div-le x (2 ^ s) m (pow-pos s) (omega (arith, le, float'))) in
        omega (arith, few, float')
    | inr differ ↦
        let over : 2 ^ (53 + t) ≤ 2 ^ (52 + s) =
          pow-le-pow_right (omega arith) (ground (arith, longer, differ)) in
        elim above [
          | inl e ↦ absurd (ground (arith, longer, differ, e))
          | inr there ↦ absurd (omega (arith, there, over, below', le))
        ]
  ]
]

-- A finite number of float64.
pub record IsFloat (n : ℕ) : Type 0 where
  pub finite : n < 2 ^ 2098
  pub float : nearest n ≡ n

-- What lies below one is rounded to no more.
pub nearest-le : (x y : ℕ) → IsFloat y → x ≤ y → nearest x ≤ y
unfolding nearest
nearest-le x y h le =
    let small : y < 2 ^ 2100 = omega (arith, h.finite) in
    rounded-le x y (shift_of x) (shift_of y) (shift_of-Fits x (omega (arith, le, small)))
      (shift_of-Fits y small) h.float le

rounded-ge :
    (x y s t : ℕ)
    → Fits x s
    → Fits y t
    → round_div y (2 ^ t) * 2 ^ t ≡ y
    → y ≤ x
    → y ≤ round_div x (2 ^ s) * 2 ^ s
rounded-ge x y s t (above, below) (above', below') float le = elim (Bool-cases (ltb t s)) [
  | inl shorter ↦
      let under : 2 ^ (53 + t) ≤ 2 ^ (52 + s) =
        pow-le-pow_right (omega arith) (ground (arith, shorter)) in
      elim above [
        | inl e ↦ absurd (ground (arith, shorter, e))
        | inr there ↦
            let many : 2 ^ 52 * 2 ^ s ≤ x = subst (λ (n : ℕ). n ≤ x) (pow_plus 52 s) there in
            let kept =
              mul-le-mul_right (2 ^ s) (round_div-ge x (2 ^ s) (2 ^ 52) (pow-pos s) many) in
            omega (arith, kept, pow_plus 52 s, under, below')
      ]
  | inr longer ↦ elim (Bool-cases (s == t)) [
    | inl e ↦
        let same : t ≡ s = ground (arith, e) in
        let float' : round_div y (2 ^ s) * 2 ^ s ≡ y =
          subst (λ (u : ℕ). round_div y (2 ^ u) * 2 ^ u ≡ y) same float in
        let m = round_div y (2 ^ s) in
        let kept =
          mul-le-mul_right (2 ^ s)
            (round_div-ge x (2 ^ s) m (pow-pos s) (omega (arith, le, float'))) in
        omega (arith, kept, float')
    | inr differ ↦
        let over : 2 ^ (53 + s) ≤ 2 ^ (52 + t) =
          pow-le-pow_right (omega arith) (ground (arith, longer, differ)) in
        elim above' [
          | inl e ↦ absurd (ground (arith, longer, differ, e))
          | inr there ↦ absurd (omega (arith, there, over, below, le))
        ]
  ]
]

-- What lies above a float64, and is finite, is rounded to no less.
pub nearest-ge : (x y : ℕ) → IsFloat y → x < 2 ^ 2100 → y ≤ x → y ≤ nearest x
unfolding nearest
nearest-ge x y h small le =
    rounded-ge x y (shift_of x) (shift_of y) (shift_of-Fits x small)
      (shift_of-Fits y (omega (arith, le, small))) h.float le

neg-parts : (k : ℕ) → (pos_part (pos 0 -ℤ pos k) ≡ 0) × (neg_part (pos 0 -ℤ pos k) ≡ k)
unfolding ◌-ℤ◌
neg-parts k = (ground arith, ground arith)

-- The two parts of a rounded sum: neither passes a float64 that the exact sum does not pass.
pub round_ℤ-le :
    (z : ℤ) (y : ℕ)
    → IsFloat y
    → (pos_part z ≤ y → pos_part (round_ℤ z) ≤ y) × (neg_part z ≤ y → neg_part (round_ℤ z) ≤ y)
unfolding round_ℤ
round_ℤ-le (pos n) y f = (λ h. nearest-le n y f h, λ h. omega arith)
round_ℤ-le (negsuc n) y f =
    let (up, down) = neg-parts (nearest (n + 1)) in
    let next : suc n ≡ n + 1 = omega arith in
    (
      λ h. subst (λ (k : ℕ). k ≤ y) (sym up) (omega arith),
      λ h.
          subst (λ (k : ℕ). k ≤ y) (sym down)
            (nearest-le (n + 1) y f (subst (λ (k : ℕ). k ≤ y) next h)),
    )
