-- ===== src/RateLimit/Table/Unlink.antt =====
-- Unlinking an account from the list of a shard keeps the others in order.
use shadow_dns.Prelude.{
  ℕ, ◌≡◌, refl, sym, ◌∙◌, ap, ap₂, false, List, [], ◌∷◌, ◌++◌, Option, none, some, subst,
}
use shadow_dns.RateLimit.Table.{
  Heap, TableEntry, TableShard, set_prev, set_next, set_prev?, set_next?, if_nil, unlink_prev,
  unlink_next, unlink,
}
use shadow_dns.RateLimit.Table.Segment.{
  first, last, last-append, last-some, Apart, Differ, Differ-middle, Differ-left, Differ-right,
  Apart-last, All-left, All-right,
}
use shadow_dns.RateLimit.Table.Links.{
  set_next?-last, same_ptr, same_ptr-sym, Seg, Seg-update, Seg-split, Seg-join, Seg-set_prev,
  Seg-set_next,
}
use shadow_dns.RateLimit.Table.Reorder.{IsList}

-- The heap after `unlink`, by the neighbours of the pointer.
abbrev unlinked : Heap → ℕ → Option ℕ → Option ℕ → Heap
unlinked h e before behind =
    let b = set_prev? (set_next? h before behind) behind before in
    set_next (set_prev b e none) e none

-- The write at the last of the front leaves the back as it is, and the write at the first of the
-- back leaves the front.
Seg-last :
    (h : Heap) (pr : Option ℕ) (xs ys : List ℕ) (nx v : Option ℕ)
    → Differ same_ptr (xs ++ ys)
    → Seg h pr ys nx
    → Seg (set_next? h (last none xs) v) pr ys nx
Seg-last h pr [] ys nx v d s = s
Seg-last h pr (x ∷ xs) ys nx v d s =
    let (q, e) = last-some x xs in
    rw e (Seg-update h q _ pr ys nx (Apart-last same_ptr same_ptr-sym x xs ys q d e) s)

Seg-first :
    (h : Heap) (pr : Option ℕ) (xs ys : List ℕ) (nx v : Option ℕ)
    → Differ same_ptr (xs ++ ys)
    → Seg h pr xs nx
    → Seg (set_prev? h (first ys none) v) pr xs nx
Seg-first h pr xs [] nx v d s = s
Seg-first h pr xs (y ∷ ys) nx v d s =
    let (apart, rest) = Differ-middle same_ptr same_ptr-sym xs ys y d in
    Seg-update h y _ pr xs nx (All-left (λ q. same_ptr y q ≡ false) xs ys apart) s

unlink-Seg :
    (h : Heap) (e : ℕ) (xs ys : List ℕ)
    → Differ same_ptr (xs ++ e ∷ ys)
    → Seg h none xs (some e)
    → Seg h (some e) ys none
    → Seg (unlinked h e (last none xs) (first ys none)) none (xs ++ ys) none
unlink-Seg h e xs ys d front back =
    let before = last none xs in
    let behind = first ys none in
    let a = set_next? h before behind in
    let b = set_prev? a behind before in
    let (apart, rest) = Differ-middle same_ptr same_ptr-sym xs ys e d in
    let dx = Differ-left same_ptr same_ptr-sym xs ys rest in
    let dy = Differ-right same_ptr same_ptr-sym xs ys rest in
    let front' =
      Seg-first a none xs ys behind before rest (Seg-set_next h none xs (some e) behind dx front) in
    let back' =
      Seg-set_prev a (some e) before ys none dy (Seg-last h (some e) xs ys none behind rest back) in
    let x : TableEntry = record (b e) { prev = none } in
    let c = set_prev b e none in
    let y : TableEntry = record (c e) { next = none } in
    let ax = All-left (λ q. same_ptr e q ≡ false) xs ys apart in
    let ay = All-right (λ q. same_ptr e q ≡ false) xs ys apart in
    Seg-join (set_next c e none) none xs ys none
      (Seg-update c e y none xs behind ax (Seg-update b e x none xs behind ax front'))
      (Seg-update c e y before ys none ay (Seg-update b e x before ys none ay back'))

if_nil-head :
    (xs ys : List ℕ) (e : ℕ) (hd : Option ℕ)
    → hd ≡ first (xs ++ e ∷ ys) none
    → if_nil (last none xs) (first ys none) hd ≡ first (xs ++ ys) none
if_nil-head [] ys e hd h = refl
if_nil-head (x ∷ xs) ys e hd h = let (q, f) = last-some x xs in rw f h

if_nil-tail :
    (xs ys : List ℕ) (e : ℕ) (tl : Option ℕ)
    → tl ≡ last none (xs ++ e ∷ ys)
    → if_nil (first ys none) (last none xs) tl ≡ last none (xs ++ ys)
if_nil-tail xs [] e tl h = sym (last-append xs [] none)
if_nil-tail xs (y ∷ ys) e tl h =
    h ∙ last-append xs (e ∷ y ∷ ys) none ∙ sym (last-append xs (y ∷ ys) none)

entry_kept :
    (h : Heap) (e : ℕ) (xs : List ℕ) (v : Option ℕ)
    → Apart same_ptr e xs
    → set_next? h (last none xs) v e ≡ h e
entry_kept h e [] v a = refl
entry_kept h e (x ∷ xs) v a = set_next?-last h e x xs v a

-- The parts of the shard after `unlink`, by the neighbours of the pointer.
module _ (e : ℕ) (s : TableShard) (before behind : Option ℕ) where
  unlink_prev-eq :
      (s.heap e).prev ≡ before
      → (s.heap e).next ≡ behind
      → (unlink_prev e s).heap ≡ set_next? s.heap before behind
  unfolding unlink_prev
  unlink_prev-eq p n = ap₂ (set_next? s.heap) p n

  unlink-head :
      (s.heap e).prev ≡ before
      → (s.heap e).next ≡ behind
      → (unlink e s).head ≡ if_nil before behind s.head
  unfolding unlink unlink_prev unlink_next
  unlink-head p n = ap₂ (λ (b f : Option ℕ). if_nil b f s.head) p n

  unlink-tail :
      ((unlink_prev e s).heap e).prev ≡ before
      → ((unlink_prev e s).heap e).next ≡ behind
      → (unlink e s).tail ≡ if_nil behind before s.tail
  unfolding unlink unlink_prev unlink_next
  unlink-tail p n = ap₂ (λ (b f : Option ℕ). if_nil f b s.tail) p n

  unlink-heap :
      (unlink_prev e s).heap ≡ set_next? s.heap before behind
      → ((unlink_prev e s).heap e).prev ≡ before
      → ((unlink_prev e s).heap e).next ≡ behind
      → (unlink e s).heap ≡ unlinked s.heap e before behind
  unfolding unlink unlink_next
  unlink-heap here p n = λ i. set_next (set_prev (set_prev? (here i) (n i) (p i)) e none) e none

-- `unlink` of a pointer in the list.
pub unlink-IsList :
    (e : ℕ) (s : TableShard) (xs ys : List ℕ)
    → Differ same_ptr (xs ++ e ∷ ys)
    → IsList s (xs ++ e ∷ ys)
    → IsList (unlink e s) (xs ++ ys)
unlink-IsList e s xs ys d l =
    let before = last none xs in
    let behind = first ys none in
    let (front, at) = Seg-split s.heap none xs (e ∷ ys) none l.linked in
    let (prev, next, back) = at in
    let (apart, rest) = Differ-middle same_ptr same_ptr-sym xs ys e d in
    let here = unlink_prev-eq e s before behind prev next in
    let kept = entry_kept s.heap e xs behind (All-left (λ q. same_ptr e q ≡ false) xs ys apart) in
    let t = unlink_prev e s in
    let there : t.heap e ≡ s.heap e = ap (λ (h : Heap). h e) here ∙ kept in
    let prev' = ap (λ (x : TableEntry). x.prev) there ∙ prev in
    let next' = ap (λ (x : TableEntry). x.next) there ∙ next in
    record {
      head = unlink-head e s before behind prev next ∙ if_nil-head xs ys e s.head l.head;
      tail = unlink-tail e s before behind prev' next' ∙ if_nil-tail xs ys e s.tail l.tail;
      linked =
          subst (λ (h : Heap). Seg h none (xs ++ ys) none)
            (sym (unlink-heap e s before behind here prev' next'))
            (unlink-Seg s.heap e xs ys d front back);
    }
