-- ===== src/RateLimit/Table/Reorder.antt =====
-- `push_front` puts a pointer before the shard's list, and `push_front` and `unlink` do not change
-- what the entries hold.
use shadow_dns.Prelude.{
  ℕ, ◌≡◌, refl, sym, ◌∙◌, ap, List, [], ◌∷◌, Option, none, some, ◌==◌, ==_iff, subst, Bool-cases,
  inl, inr,
}
use shadow_dns.RateLimit.Table.{
  Heap, TableEntry, TableShard, update, set_prev, set_next, set_prev?, set_next?, if_nil,
  push_front, unlink_prev, unlink_next, unlink,
}
use shadow_dns.RateLimit.Table.Segment.{first, last, last-some, Apart, Differ}
use shadow_dns.RateLimit.Table.Links.{
  update_self, set_prev?-first, same_ptr, Seg, Seg-update, Seg-set_prev,
}
use shadow_dns.RateLimit.Table.View.{SameData, SameData-trans, data_of}

-- The list part of a representation.
pub record IsList (s : TableShard) (ps : List ℕ) : Type 0 where
  pub head : s.head ≡ first ps none
  pub tail : s.tail ≡ last none ps
  pub linked : Seg s.heap none ps none

update-data :
    (h : Heap) (p : ℕ) (x : TableEntry) → data_of x ≡ data_of (h p) → SameData h (update h p x)
update-data h p x e q = elim (Bool-cases (p == q)) [
  | inl same ↦ rw same (e ∙ ap (λ (r : ℕ). data_of (h r)) ((==_iff p q).0 same))
  | inr other ↦ rw other refl
]

set_prev?-data : (h : Heap) (p v : Option ℕ) → SameData h (set_prev? h p v)
set_prev?-data h none v = λ q. refl
set_prev?-data h (some p) v = update-data h p _ refl

set_next?-data : (h : Heap) (p v : Option ℕ) → SameData h (set_next? h p v)
set_next?-data h none v = λ q. refl
set_next?-data h (some p) v = update-data h p _ refl

pub push_front-data : (e : ℕ) (s : TableShard) → SameData s.heap (push_front e s).heap
unfolding push_front
push_front-data e s =
    let a = set_prev s.heap e none in
    let b = set_next a e s.head in
    SameData-trans s.heap b (set_prev? b s.head (some e))
      (SameData-trans s.heap a b (set_prev?-data s.heap (some e) none)
        (set_next?-data a (some e) s.head))
      (set_prev?-data b s.head (some e))

pub unlink-data : (e : ℕ) (s : TableShard) → SameData s.heap (unlink e s).heap
unfolding unlink unlink_prev unlink_next
unlink-data e s =
    let x = s.heap e in
    let a = set_next? s.heap x.prev x.next in
    let y = a e in
    let b = set_prev? a y.next y.prev in
    let c = set_prev b e none in
    SameData-trans s.heap b (set_next c e none)
      (SameData-trans s.heap a b (set_next?-data s.heap x.prev x.next)
        (set_prev?-data a y.next y.prev))
      (SameData-trans b c (set_next c e none) (set_prev?-data b (some e) none)
        (set_next?-data c (some e) none))

push_tail :
    (e : ℕ) (ps : List ℕ) (t : Option ℕ) → t ≡ last none ps → if_nil t (some e) t ≡ last (some e) ps
push_tail e [] t h = rw h refl
push_tail e (p ∷ ps) t h = let (q, f) = last-some p ps in rw (h, f) refl

push-Seg :
    (h : Heap) (e : ℕ) (ps : List ℕ)
    → Differ same_ptr ps
    → Apart same_ptr e ps
    → Seg h none ps none
    → Seg
        (set_prev? (set_next (set_prev h e none) e (first ps none)) (first ps none) (some e))
        none
        (e ∷ ps)
        none
push-Seg h e ps d a l =
    let f = first ps none in
    let x : TableEntry = record (h e) { prev = none } in
    let b = set_prev h e none in
    let y : TableEntry = record (b e) { next = f } in
    let c = set_next b e f in
    let kept = set_prev?-first c e ps (some e) a ∙ update_self b e y in
    (
      ap (λ (z : TableEntry). z.prev) kept ∙ ap (λ (z : TableEntry). z.prev) (update_self h e x),
      ap (λ (z : TableEntry). z.next) kept,
      Seg-set_prev c none (some e) ps none d
          (Seg-update b e y none ps none a (Seg-update h e x none ps none a l)),
    )

-- `push_front` of a pointer that is not in the list.
pub push_front-IsList :
    (e : ℕ) (s : TableShard) (ps : List ℕ)
    → Differ same_ptr ps
    → Apart same_ptr e ps
    → IsList s ps
    → IsList (push_front e s) (e ∷ ps)
unfolding push_front
push_front-IsList e s ps d a l = record {
  head = refl;
  tail = push_tail e ps s.tail l.tail;
  linked =
      subst
        (λ (f : Option ℕ).
          Seg (set_prev? (set_next (set_prev s.heap e none) e f) f (some e)) none (e ∷ ps) none)
        (sym l.head) (push-Seg s.heap e ps d a l.linked);
}
