-- ===== src/RateLimit/Table/Segment.antt =====
-- Lists of pointers without repetition, by a Boolean relation, and the first and last of them.
use mathlib.Core.Option.{some-injective}
use shadow_dns.Prelude.{
  ℕ, subst, ◌≡◌, refl, ◌∙◌, Bool, false, List, [], ◌∷◌, ◌++◌, Option, some, All,
}

-- The first and the last pointer of a list, or what stands in for it.
abbrev pub first : List ℕ → Option ℕ → Option ℕ
first [] nx = nx
first (p ∷ ps) nx = some p

abbrev pub last : Option ℕ → List ℕ → Option ℕ
last pr [] = pr
last pr (p ∷ ps) = last (some p) ps

pub first-append : (xs ys : List ℕ) (nx : Option ℕ) → first (xs ++ ys) nx ≡ first xs (first ys nx)
first-append [] ys nx = refl
first-append (x ∷ xs) ys nx = refl

pub last-append : (xs ys : List ℕ) (pr : Option ℕ) → last pr (xs ++ ys) ≡ last (last pr xs) ys
last-append [] ys pr = refl
last-append (x ∷ xs) ys pr = last-append xs ys (some x)

pub last-some : (x : ℕ) (xs : List ℕ) → (q : ℕ) × (last (some x) xs ≡ some q)
last-some x [] = (x, refl)
last-some x (y ∷ xs) = last-some y xs

-- None of the pointers is related to `p`.
abbrev pub Apart : (ℕ → ℕ → Bool) → ℕ → List ℕ → Type 0
Apart r p ps = All (λ q. r p q ≡ false) ps

-- No two of the pointers are related.
abbrev pub Differ : (ℕ → ℕ → Bool) → List ℕ → Type 0
Differ r [] = Unit
Differ r (p ∷ ps) = Apart r p ps × Differ r ps

module _ (P : ℕ → Type 0) where
  pub All-middle : (xs ys : List ℕ) (p : ℕ) → All P (xs ++ p ∷ ys) → P p × All P (xs ++ ys)
  All-middle [] ys p h = h
  All-middle (x ∷ xs) ys p h = let (a, b) = All-middle xs ys p h.1 in (a, (h.0, b))

  pub All-left : (xs ys : List ℕ) → All P (xs ++ ys) → All P xs
  All-left [] ys h = tt
  All-left (x ∷ xs) ys h = (h.0, All-left xs ys h.1)

  pub All-right : (xs ys : List ℕ) → All P (xs ++ ys) → All P ys
  All-right [] ys h = h
  All-right (x ∷ xs) ys h = All-right xs ys h.1

module _ (r : ℕ → ℕ → Bool) (r_sym : (p q : ℕ) → r p q ≡ r q p) where
  -- A pointer taken out of the list is apart from the rest.
  pub Differ-middle :
      (xs ys : List ℕ) (p : ℕ)
      → Differ r (xs ++ p ∷ ys)
      → Apart r p (xs ++ ys) × Differ r (xs ++ ys)
  Differ-middle [] ys p h = h
  Differ-middle (x ∷ xs) ys p h =
      let (a, d) = Differ-middle xs ys p h.1 in
      let (b, c) = All-middle (λ q. r x q ≡ false) xs ys p h.0 in ((r_sym p x ∙ b, a), (c, d))

  pub Differ-right : (xs ys : List ℕ) → Differ r (xs ++ ys) → Differ r ys
  Differ-right [] ys h = h
  Differ-right (x ∷ xs) ys h = Differ-right xs ys h.1

  pub Differ-left : (xs ys : List ℕ) → Differ r (xs ++ ys) → Differ r xs
  Differ-left [] ys h = tt
  Differ-left (x ∷ xs) ys h = (All-left (λ q. r x q ≡ false) xs ys h.0, Differ-left xs ys h.1)

  -- The last of the front is apart from the back.
  pub Apart-last :
      (x : ℕ) (xs ys : List ℕ) (q : ℕ)
      → Differ r (x ∷ xs ++ ys)
      → last (some x) xs ≡ some q
      → Apart r q ys
  Apart-last x [] ys q h e = subst (λ (z : ℕ). Apart r z ys) (some-injective x q e) h.0
  Apart-last x (y ∷ xs) ys q h e = Apart-last y xs ys q h.1 e

  -- What is apart from the list is apart from its last.
  pub last-Apart :
      (p x : ℕ) (xs : List ℕ) (q : ℕ)
      → Apart r p (x ∷ xs)
      → last (some x) xs ≡ some q
      → r p q ≡ false
  last-Apart p x [] q h e = subst (λ (z : ℕ). r p z ≡ false) (some-injective x q e) h.0
  last-Apart p x (y ∷ xs) q h e = last-Apart p y xs q h.1 e
