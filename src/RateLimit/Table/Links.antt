-- ===== src/RateLimit/Table/Links.antt =====
-- Doubly linked segments of the heap, and what writing a link does to them.
use shadow_dns.Prelude.{
  ℕ, ◌≡◌, refl, sym, ◌∙◌, ap, Bool, List, [], ◌∷◌, ◌++◌, Option, none, some, arith, All, ◌==◌,
  ==_iff,
}
use shadow_dns.RateLimit.Table.{Heap, TableEntry, update, set_prev?, set_next?}
use shadow_dns.RateLimit.Table.Segment.{
  first, last, first-append, Apart, Differ, last-Apart, last-some,
}

abbrev pub same_ptr : ℕ → ℕ → Bool
same_ptr p q = p == q

pub same_ptr-sym : (p q : ℕ) → same_ptr p q ≡ same_ptr q p
same_ptr-sym p q = ground arith

-- The pointers form a linked segment: the first one's `prev` is `pr`, the last one's `next` is `nx`.
abbrev pub Seg : Heap → Option ℕ → List ℕ → Option ℕ → Type 0
Seg h pr [] nx = Unit
Seg h pr (p ∷ ps) nx = ((h p).prev ≡ pr) × ((h p).next ≡ first ps nx) × Seg h (some p) ps nx

-- The heaps agree at the pointers of the segment.
pub Seg-frame :
    (h h' : Heap) (pr : Option ℕ) (ps : List ℕ) (nx : Option ℕ)
    → All (λ q. h' q ≡ h q) ps
    → Seg h pr ps nx
    → Seg h' pr ps nx
Seg-frame h h' pr [] nx e s = tt
Seg-frame h h' pr (p ∷ ps) nx e s = (
  ap (λ (x : TableEntry). x.prev) e.0 ∙ s.0,
  ap (λ (x : TableEntry). x.next) e.0 ∙ s.1,
  Seg-frame h h' (some p) ps nx e.1 s.2,
)

pub update-Apart :
    (h : Heap) (p : ℕ) (x : TableEntry) (ps : List ℕ)
    → Apart same_ptr p ps
    → All (λ q. update h p x q ≡ h q) ps
update-Apart h p x [] a = tt
update-Apart h p x (q ∷ ps) a = (rw a.0 refl, update-Apart h p x ps a.1)

-- A write elsewhere leaves a segment as it is.
pub Seg-update :
    (h : Heap) (p : ℕ) (x : TableEntry) (pr : Option ℕ) (ps : List ℕ) (nx : Option ℕ)
    → Apart same_ptr p ps
    → Seg h pr ps nx
    → Seg (update h p x) pr ps nx
Seg-update h p x pr ps nx a s = Seg-frame h (update h p x) pr ps nx (update-Apart h p x ps a) s

pub Seg-split :
    (h : Heap) (pr : Option ℕ) (xs ys : List ℕ) (nx : Option ℕ)
    → Seg h pr (xs ++ ys) nx
    → Seg h pr xs (first ys nx) × Seg h (last pr xs) ys nx
Seg-split h pr [] ys nx s = (tt, s)
Seg-split h pr (x ∷ xs) ys nx s =
    let (a, b) = Seg-split h (some x) xs ys nx s.2 in ((s.0, s.1 ∙ first-append xs ys nx, a), b)

pub Seg-join :
    (h : Heap) (pr : Option ℕ) (xs ys : List ℕ) (nx : Option ℕ)
    → Seg h pr xs (first ys nx)
    → Seg h (last pr xs) ys nx
    → Seg h pr (xs ++ ys) nx
Seg-join h pr [] ys nx a b = b
Seg-join h pr (x ∷ xs) ys nx a b =
    (a.0, a.1 ∙ sym (first-append xs ys nx), Seg-join h (some x) xs ys nx a.2 b)

pub update_self : (h : Heap) (p : ℕ) (x : TableEntry) → update h p x p ≡ x
update_self h p x = rw ((==_iff p p).1 refl) refl

-- The write of `prev` at the first of a segment.
pub Seg-set_prev :
    (h : Heap) (pr v : Option ℕ) (ps : List ℕ) (nx : Option ℕ)
    → Differ same_ptr ps
    → Seg h pr ps nx
    → Seg (set_prev? h (first ps none) v) v ps nx
Seg-set_prev h pr v [] nx d s = tt
Seg-set_prev h pr v (p ∷ ps) nx d s =
    let x : TableEntry = record (h p) { prev = v } in
    (
      ap (λ (y : TableEntry). y.prev) (update_self h p x),
      ap (λ (y : TableEntry). y.next) (update_self h p x) ∙ s.1,
      Seg-update h p x (some p) ps nx d.0 s.2,
    )

-- The write of `prev` at the first pointer spares one that is apart from the list.
pub set_prev?-first :
    (h : Heap) (p : ℕ) (ps : List ℕ) (v : Option ℕ)
    → Apart same_ptr p ps
    → set_prev? h (first ps none) v p ≡ h p
set_prev?-first h p [] v a = refl
set_prev?-first h p (q ∷ ps) v a = rw (same_ptr-sym q p ∙ a.0) refl

-- The write of `next` at the last pointer spares one that is apart from the list.
pub set_next?-last :
    (h : Heap) (p x : ℕ) (xs : List ℕ) (v : Option ℕ)
    → Apart same_ptr p (x ∷ xs)
    → set_next? h (last (some x) xs) v p ≡ h p
set_next?-last h p x xs v a =
    let (q, e) = last-some x xs in
    rw e (rw (same_ptr-sym q p ∙ last-Apart same_ptr same_ptr-sym p x xs q a e) refl)

-- The write of `next` at the last of a segment.
pub Seg-set_next :
    (h : Heap) (pr : Option ℕ) (ps : List ℕ) (nx v : Option ℕ)
    → Differ same_ptr ps
    → Seg h pr ps nx
    → Seg (set_next? h (last none ps) v) pr ps v
Seg-set_next h pr [] nx v d s = tt
Seg-set_next h pr (p ∷ []) nx v d s =
    let x : TableEntry = record (h p) { next = v } in
    (
      ap (λ (y : TableEntry). y.prev) (update_self h p x) ∙ s.0,
      ap (λ (y : TableEntry). y.next) (update_self h p x),
      tt,
    )
Seg-set_next h pr (p ∷ q ∷ ps) nx v d s =
    let kept = set_next?-last h p q ps v d.0 in
    (
      ap (λ (y : TableEntry). y.prev) kept ∙ s.0,
      ap (λ (y : TableEntry). y.next) kept ∙ s.1,
      Seg-set_next h (some p) (q ∷ ps) nx v d.1 s.2,
    )
