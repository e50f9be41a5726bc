-- ===== src/Prelude/Partial.antt =====
-- Code that may panic or fail, as `Option`, in do blocks; and such code over a list.
use mathlib.Core.Path.{◌≡◌, refl, subst}
use mathlib.Core.Option.{Option, none, some}
use mathlib.Core.List.{List, [], ◌∷◌}
use shadow_dns.Prelude.Lists.{All}

infixl 5 ◌>>=◌
abbrev pub ◌>>=◌ {ℓ κ} : {A : Type ℓ} {B : Type κ} → Option A → (A → Option B) → Option B
none >>= k = none
some a >>= k = k a

-- What a chain that ends with a value went through.
pub >>=-some {ℓ κ} :
    {A : Type ℓ} {B : Type κ} (m : Option A) (k : A → Option B) {b : B}
    → (m >>= k) ≡ some b
    → (a : A) × (m ≡ some a) × (k a ≡ some b)
>>=-some none k h = cc
>>=-some (some a) k h = (a, refl, h)

pub some-inj {ℓ} : {A : Type ℓ} {a b : A} → some a ≡ some b → a ≡ b
some-inj e = cc e

-- The results of a function on every element, if it has one on each.
unfoldable pub traverse {ℓ κ} :
    {A : Type ℓ} {B : Type κ} → (A → Option B) → List A → Option (List B)
traverse f [] = some []
traverse f (x ∷ xs) = do y ← f x; ys ← traverse f xs; some (y ∷ ys)

-- Where the function takes what has `Q` to what has `P`, the results of elements that have `Q`
-- have `P`.
pub traverse-All {ℓ κ λ₁ λ₂} :
    {A : Type ℓ} {B : Type κ} (Q : A → Type λ₁) (P : B → Type λ₂) (f : A → Option B) (xs : List A)
    {ys : List B}
    → ((x : A) (y : B) → Q x → f x ≡ some y → P y)
    → All Q xs
    → traverse f xs ≡ some ys
    → All P ys
unfolding traverse
traverse-All Q P f [] h q e = subst (All P) (some-inj e) tt
traverse-All Q P f (x ∷ xs) h (q, qs) e =
    let (y, here, e') = >>=-some (f x) _ e in
    let (zs, there, e'') = >>=-some (traverse f xs) _ e' in
    subst (All P) (some-inj e'') (h x y q here, traverse-All Q P f xs h qs there)
