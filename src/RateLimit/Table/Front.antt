-- ===== src/RateLimit/Table/Front.antt =====
-- `move_to_front` keeps the shard a representation of its accounts, with one of them moved.
use shadow_dns.Prelude.{
  ℕ, suc, ◌<◌, ◌≡◌, refl, sym, ◌∙◌, ap, subst, Bool, true, false, List, [], ◌∷◌, ◌++◌, Option,
  arith, All, length, ==_iff,
}
use shadow_dns.Prelude.Map.{Map, lookup}
use shadow_dns.RateLimit.Table.{
  AccountKey, key_eq, key_eqb_iff, Heap, TableShard, points_to, push_front, unlink, move_to_front,
}
use shadow_dns.RateLimit.Table.Segment.{Apart, Differ, Differ-middle, All-middle, All-left}
use shadow_dns.RateLimit.Table.Links.{same_ptr, same_ptr-sym}
use shadow_dns.RateLimit.Table.View.{
  SameData, SameData-trans, find_ptr, same_key, Represents, data-find_ptr, data-same_key,
}
use shadow_dns.RateLimit.Table.Unlink.{unlink-IsList}
use shadow_dns.RateLimit.Table.Reorder.{IsList, push_front-data, unlink-data, push_front-IsList}

pub same_key-sym : (h : Heap) (p q : ℕ) → same_key h p q ≡ same_key h q p
same_key-sym h p q =
    ground (arith, key_eqb_iff (h p).key (h q).key, key_eqb_iff (h q).key (h p).key)

-- A pointer whose key stands nowhere before it may be found first.
find_ptr-front :
    (h : Heap) (k : AccountKey) (xs ys : List ℕ) (p : ℕ)
    → Apart (same_key h) p xs
    → find_ptr h k (xs ++ p ∷ ys) ≡ find_ptr h k (p ∷ xs ++ ys)
find_ptr-front h k [] ys p a = refl
find_ptr-front h k (x ∷ xs) ys p a = ground (
  arith,
  find_ptr-front h k xs ys p a.1,
  key_eqb_iff (h p).key k,
  key_eqb_iff (h x).key k,
  key_eqb_iff (h p).key (h x).key,
)

pub length-middle : (xs ys : List ℕ) (p : ℕ) → length (xs ++ p ∷ ys) ≡ suc (length (xs ++ ys))
length-middle [] ys p = refl
length-middle (x ∷ xs) ys p = ap suc (length-middle xs ys p)

pub IsList-of : (s : TableShard) (ps : List ℕ) → Represents s ps → IsList s ps
IsList-of s ps r = record { head = r.head; tail = r.tail; linked = r.linked }

-- A shard whose list has one pointer moved to the front, and nothing else changed.
moved-Represents :
    (s t : TableShard) (xs ys : List ℕ) (p : ℕ)
    → Represents s (xs ++ p ∷ ys)
    → IsList t (p ∷ xs ++ ys)
    → SameData s.heap t.heap
    → t.items ≡ s.items
    → t.size ≡ s.size
    → t.fresh_ptr ≡ s.fresh_ptr
    → Represents t (p ∷ xs ++ ys)
moved-Represents s t xs ys p r l d items size fresh_ptr =
    let keys = Differ-middle (same_key s.heap) (same_key-sym s.heap) xs ys p r.keys in
    record {
      head = l.head;
      tail = l.tail;
      linked = l.linked;
      distinct = Differ-middle same_ptr same_ptr-sym xs ys p r.distinct;
      keys =
          subst (λ (k : ℕ → ℕ → Bool). Differ k (p ∷ xs ++ ys))
            (sym (data-same_key s.heap t.heap d)) keys;
      index = λ k.
          ap (λ (m : Map AccountKey ℕ). lookup k m) items
          ∙ r.index k
          ∙ find_ptr-front s.heap k xs ys p
              (All-left (λ q. same_key s.heap p q ≡ false) xs ys keys.0)
          ∙ sym (data-find_ptr s.heap t.heap k (p ∷ xs ++ ys) d);
      size = size ∙ r.size ∙ length-middle xs ys p;
      old =
          subst (λ (n : ℕ). All (λ q. q < n) (p ∷ xs ++ ys)) (sym fresh_ptr)
            (All-middle (λ q. q < s.fresh_ptr) xs ys p r.old);
    }

-- `move_to_front` by whether the entry is the first.
move_to_front-first : (s : TableShard) (p : ℕ) → points_to s.head p ≡ true → move_to_front p s ≡ s
unfolding move_to_front
move_to_front-first s p h = rw h refl

move_to_front-other :
    (s : TableShard) (p : ℕ)
    → points_to s.head p ≡ false
    → move_to_front p s ≡ push_front p (unlink p s)
unfolding move_to_front
move_to_front-other s p h = rw h refl

-- `move_to_front` of an entry of the shard.
pub move_to_front-Represents :
    (s : TableShard) (xs ys : List ℕ) (p : ℕ)
    → Represents s (xs ++ p ∷ ys)
    → Represents (move_to_front p s) (p ∷ xs ++ ys)
      × SameData s.heap (move_to_front p s).heap
      × ((move_to_front p s).cap ≡ s.cap)
move_to_front-Represents s [] ys p r =
    let here : points_to s.head p ≡ true =
      ap (λ (hd : Option ℕ). points_to hd p) r.head ∙ (==_iff p p).1 refl in
    rw (move_to_front-first s p here) (r, λ q. refl, refl)
move_to_front-Represents s (x ∷ xs) ys p r =
    let away : points_to s.head p ≡ false =
      ap (λ (hd : Option ℕ). points_to hd p) r.head
      ∙ (All-middle (λ q. same_ptr x q ≡ false) xs ys p r.distinct.0).0 in
    let u = unlink p s in
    let t = push_front p u in
    let rest = Differ-middle same_ptr same_ptr-sym (x ∷ xs) ys p r.distinct in
    let d = SameData-trans s.heap u.heap t.heap (unlink-data p s) (push_front-data p u) in
    let l =
      push_front-IsList p u (x ∷ xs ++ ys) rest.1 rest.0
        (unlink-IsList p s (x ∷ xs) ys r.distinct (IsList-of s (x ∷ xs ++ p ∷ ys) r)) in
    rw (move_to_front-other s p away) (
      moved-Represents s t (x ∷ xs) ys p r l d (unfold unlink push_front in refl)
          (unfold unlink push_front in refl) (unfold unlink push_front in refl),
      d,
      unfold unlink push_front in refl,
    )
