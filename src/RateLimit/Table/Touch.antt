-- ===== src/RateLimit/Table/Touch.antt =====
-- `touch` on a shard is `touched` on the list that the shard stands for.
use shadow_dns.Prelude.{
  ℕ, ◌<◌, ◌≡◌, refl, sym, ◌∙◌, ap, ap₂, subst, true, false, List, [], ◌∷◌, ◌++◌, none, some, arith,
  length, leb, Bool-cases, Option-cases, inl, inr,
}
use shadow_dns.Prelude.Map.{lookup}
use shadow_dns.RateLimit.Account.{fresh}
use shadow_dns.RateLimit.Table.{
  AccountKey, key_eq, Heap, TableShard, move_to_front, evict_tail, add_entry, touch,
}
use shadow_dns.RateLimit.Table.Segment.{last-append}
use shadow_dns.RateLimit.Table.View.{
  view, length-view, find_ptr, Represents, Accounts, drop_last, touched, touched_held, touched_full,
  touched_room, data_of, data-view, data-find_ptr, find_ptr-split, find-view, find-view-none,
}
use shadow_dns.RateLimit.Table.Front.{move_to_front-Represents}
use shadow_dns.RateLimit.Table.Evict.{evict_tail-Represents}
use shadow_dns.RateLimit.Table.Add.{add_entry-Represents}

-- A shard and one of its pointers stand for a list of accounts, the pointer's one first.
pub record Stands (cap : ℕ) (l : Accounts) (e : ℕ) (t : TableShard) : Type 0 where
  pub rest : List ℕ
  pub represents : Represents t (e ∷ rest)
  pub viewed : view t.heap (e ∷ rest) ≡ l
  pub capacity : t.cap ≡ cap

touch_hit :
    (k : AccountKey) (s : TableShard) {e : ℕ}
    → lookup k s.items ≡ some e
    → touch k s ≡ (e, move_to_front e s)
unfolding touch
touch_hit k s h = ground (arith, h)

touch_full :
    (k : AccountKey) (s : TableShard) {e : ℕ}
    → lookup k s.items ≡ none
    → leb s.cap s.size ≡ true
    → s.tail ≡ some e
    → touch k s ≡ add_entry k (evict_tail s)
unfolding touch
touch_full k s h full end = ground (arith, h, full, end)

touch_room :
    (k : AccountKey) (s : TableShard)
    → lookup k s.items ≡ none
    → leb s.cap s.size ≡ false
    → touch k s ≡ add_entry k s
unfolding touch
touch_room k s h room = ground (arith, h, room)

snoc : (x : ℕ) (ps : List ℕ) → (xs : List ℕ) × (p : ℕ) × (x ∷ ps ≡ xs ++ p ∷ [])
snoc x [] = ([], x, refl)
snoc x (y ∷ ps) = let (xs, p, e) = snoc y ps in (x ∷ xs, p, ap (◌∷◌ x) e)

drop_last-view : (h : Heap) (xs : List ℕ) (p : ℕ) → drop_last (view h (xs ++ p ∷ [])) ≡ view h xs
unfolding drop_last
drop_last-view h [] p = refl
drop_last-view h (x ∷ []) p = refl
drop_last-view h (x ∷ y ∷ xs) p = ap (◌∷◌ (data_of (h x))) (drop_last-view h (y ∷ xs) p)

find_ptr-prefix :
    (h : Heap) (k : AccountKey) (xs ys : List ℕ)
    → find_ptr h k (xs ++ ys) ≡ none
    → find_ptr h k xs ≡ none
find_ptr-prefix h k [] ys e = refl
find_ptr-prefix h k (x ∷ xs) ys e = ground (arith, find_ptr-prefix h k xs ys)

touch_hit-Stands :
    (k : AccountKey) (s : TableShard) (xs ys : List ℕ) (e : ℕ)
    → Represents s (xs ++ e ∷ ys)
    → find_ptr s.heap k xs ≡ none
    → (s.heap e).key ≡ k
    → Stands s.cap (touched s.cap k (view s.heap (xs ++ e ∷ ys))) e (move_to_front e s)
touch_hit-Stands k s xs ys e r before key =
    let (moved, d, capacity) = move_to_front-Represents s xs ys e r in
    let (found, left) = find-view s.heap k xs ys e before key in
    record {
      rest = xs ++ ys;
      represents = moved;
      viewed =
          data-view s.heap (move_to_front e s).heap (e ∷ xs ++ ys) d
          ∙ ap₂ (λ (j : AccountKey) (l : Accounts). (j, (s.heap e).acct) ∷ l) key (sym left)
          ∙ sym (touched_held s.cap k (view s.heap (xs ++ e ∷ ys)) found);
      capacity = capacity;
    }

add_entry-Stands :
    (k : AccountKey) (s : TableShard) (ps : List ℕ)
    → Represents s ps
    → lookup k s.items ≡ none
    → Stands s.cap ((k, fresh) ∷ view s.heap ps) (add_entry k s).0 (add_entry k s).1
add_entry-Stands k s ps r absent =
    let (added, viewed, capacity) = add_entry-Represents k s ps r absent in
    record { rest = ps; represents = added; viewed = viewed; capacity = capacity }

touch_full-Stands :
    (k : AccountKey) (s : TableShard) (xs : List ℕ) (p : ℕ)
    → Represents s (xs ++ p ∷ [])
    → lookup k s.items ≡ none
    → leb s.cap s.size ≡ true
    → Stands s.cap
        (touched s.cap k (view s.heap (xs ++ p ∷ [])))
        (add_entry k (evict_tail s)).0
        (add_entry k (evict_tail s)).1
touch_full-Stands k s xs p r absent full =
    let (left, d, capacity) = evict_tail-Represents s xs p r in
    let t = evict_tail s in
    let gone : find_ptr s.heap k (xs ++ p ∷ []) ≡ none = sym (r.index k) ∙ absent in
    let still : lookup k t.items ≡ none =
      left.index k
      ∙ data-find_ptr s.heap t.heap k xs d
      ∙ find_ptr-prefix s.heap k xs (p ∷ []) gone in
    let added = add_entry-Stands k t xs left still in
    let many : leb s.cap (length (view s.heap (xs ++ p ∷ []))) ≡ true =
      ap (leb s.cap) (length-view s.heap (xs ++ p ∷ []) ∙ sym r.size) ∙ full in
    record {
      rest = added.rest;
      represents = added.represents;
      viewed =
          added.viewed
          ∙ ap (◌∷◌ (k, fresh)) (data-view s.heap t.heap xs d ∙ sym (drop_last-view s.heap xs p))
          ∙ sym (
              touched_full s.cap k (view s.heap (xs ++ p ∷ []))
                (find-view-none s.heap k (xs ++ p ∷ []) gone) many);
      capacity = added.capacity ∙ capacity;
    }

-- A shard that holds nothing is not full, and one that holds something has a last entry.
touch_miss-Stands :
    (k : AccountKey) (s : TableShard) (ps : List ℕ)
    → Represents s ps
    → 0 < s.cap
    → lookup k s.items ≡ none
    → Stands s.cap (touched s.cap k (view s.heap ps)) (touch k s).0 (touch k s).1
touch_miss-Stands k s ps r room absent = elim (Bool-cases (leb s.cap s.size)) [
  | inr more ↦
      let gone : find_ptr s.heap k ps ≡ none = sym (r.index k) ∙ absent in
      let some_room : leb s.cap (length (view s.heap ps)) ≡ false =
        ap (leb s.cap) (length-view s.heap ps ∙ sym r.size) ∙ more in
      let spec : touched s.cap k (view s.heap ps) ≡ (k, fresh) ∷ view s.heap ps =
        touched_room s.cap k (view s.heap ps) (find-view-none s.heap k ps gone) some_room in
      rw (touch_room k s absent more, spec) (add_entry-Stands k s ps r absent)
  | inl full ↦ full_case ps r full
]
  where
    full_case :
        (qs : List ℕ)
        → Represents s qs
        → leb s.cap s.size ≡ true
        → Stands s.cap (touched s.cap k (view s.heap qs)) (touch k s).0 (touch k s).1
    full_case [] q full = absurd (ground (arith, q.size))
    full_case (x ∷ qs) q full =
        let (xs, p, e) = snoc x qs in
        let q' = subst (Represents s) e q in
        let end = q'.tail ∙ last-append xs (p ∷ []) none in
        rw (touch_full k s absent full end) (
          subst
            (λ (l : List ℕ).
              Stands s.cap (touched s.cap k (view s.heap l)) (add_entry k (evict_tail s)).0
                (add_entry k (evict_tail s)).1)
            (sym e) (touch_full-Stands k s xs p q' absent full))

-- A shard with room for an account refines the list of accounts: `touch` returns the entry of the
-- key, and the shard then stands for the touched list, that entry first.
pub touch-Stands :
    (k : AccountKey) (s : TableShard) (ps : List ℕ)
    → Represents s ps
    → 0 < s.cap
    → Stands s.cap (touched s.cap k (view s.heap ps)) (touch k s).0 (touch k s).1
touch-Stands k s ps r room = elim (Option-cases (lookup k s.items)) [
  | inl absent ↦ touch_miss-Stands k s ps r room absent
  | inr (e, held) ↦
      let (xs, ys, split, before, key) = find_ptr-split s.heap k ps e (sym (r.index k) ∙ held) in
      rw (touch_hit k s held) (
        subst (λ (l : List ℕ). Stands s.cap (touched s.cap k (view s.heap l)) e (move_to_front e s))
          (sym split) (touch_hit-Stands k s xs ys e (subst (Represents s) split r) before key))
]
