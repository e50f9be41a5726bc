-- ===== src/RateLimit/Table/Evict.antt =====
-- `evict_tail` takes away the account that was used the longest time ago.
use shadow_dns.Prelude.{
  ℕ, ◌<◌, ◌≡◌, refl, sym, ◌∙◌, ap, subst, Bool, false, List, [], ◌∷◌, ◌++◌, Option, none, some,
  arith, length-append, ◌=?◌, if◌then◌else◌, append-nil,
}
use shadow_dns.Prelude.Map.{remove, lookup-remove}
use shadow_dns.RateLimit.Table.{
  AccountKey, key_eq, key_eqb_iff, Heap, TableShard, unlink, evict_from, evict_tail,
}
use shadow_dns.RateLimit.Table.Segment.{
  last-append, Apart, Differ, Differ-middle, Differ-left, All-left,
}
use shadow_dns.RateLimit.Table.Links.{same_ptr, same_ptr-sym}
use shadow_dns.RateLimit.Table.View.{
  SameData, find_ptr, same_key, Represents, data-find_ptr, data-same_key,
}
use shadow_dns.RateLimit.Table.Reorder.{IsList, unlink-data}
use shadow_dns.RateLimit.Table.Unlink.{unlink-IsList}
use shadow_dns.RateLimit.Table.Front.{same_key-sym}

-- Without the key of the last pointer, the others are found as before.
find_ptr-drop :
    (h : Heap) (k : AccountKey) (xs : List ℕ) (p : ℕ)
    → Apart (same_key h) p xs
    → (if (h p).key =? k then none else find_ptr h k (xs ++ p ∷ [])) ≡ find_ptr h k xs
find_ptr-drop h k [] p a = ground arith
find_ptr-drop h k (x ∷ xs) p a = ground (
  arith,
  find_ptr-drop h k xs p a.1,
  key_eqb_iff (h p).key k,
  key_eqb_iff (h x).key k,
  key_eqb_iff (h p).key (h x).key,
)

evict_from-Represents :
    (s : TableShard) (xs : List ℕ) (p : ℕ)
    → Represents s (xs ++ p ∷ [])
    → Represents (evict_from (some p) s) xs
      × SameData s.heap (evict_from (some p) s).heap
      × ((evict_from (some p) s).cap ≡ s.cap)
unfolding evict_from
evict_from-Represents s xs p r =
    let gone = record s { items = remove (s.heap p).key s.items } in
    let u = unlink p gone in
    let d = unlink-data p gone in
    let list : IsList gone (xs ++ p ∷ []) = record {
      head = r.head;
      tail = r.tail;
      linked = r.linked;
    } in
    let l = subst (IsList u) (append-nil xs) (unlink-IsList p gone xs [] r.distinct list) in
    let apart = (Differ-middle (same_key s.heap) (same_key-sym s.heap) xs [] p r.keys).0 in
    (
      record {
        head = l.head;
        tail = l.tail;
        linked = l.linked;
        distinct = Differ-left same_ptr same_ptr-sym xs (p ∷ []) r.distinct;
        keys =
            subst (λ (k : ℕ → ℕ → Bool). Differ k xs) (sym (data-same_key s.heap u.heap d))
              (Differ-left (same_key s.heap) (same_key-sym s.heap) xs (p ∷ []) r.keys);
        index = λ k.
            lookup-remove (s.heap p).key k s.items
            ∙ ap (λ (o : Option ℕ). if (s.heap p).key =? k then none else o) (r.index k)
            ∙ find_ptr-drop s.heap k xs p (All-left (λ q. same_key s.heap p q ≡ false) xs [] apart)
            ∙ sym (data-find_ptr s.heap u.heap k xs d);
        size = omega (arith, r.size, length-append xs (p ∷ []));
        old = All-left (λ q. q < s.fresh_ptr) xs (p ∷ []) r.old;
      },
      d,
      refl,
    )

-- `evict_tail` of a shard that is not empty takes the last account away.
pub evict_tail-Represents :
    (s : TableShard) (xs : List ℕ) (p : ℕ)
    → Represents s (xs ++ p ∷ [])
    → Represents (evict_tail s) xs
      × SameData s.heap (evict_tail s).heap
      × ((evict_tail s).cap ≡ s.cap)
evict_tail-Represents s xs p r =
    let end : s.tail ≡ some p = r.tail ∙ last-append xs (p ∷ []) none in
    let same : evict_from (some p) s ≡ evict_tail s =
      unfold evict_tail in ap (λ (tl : Option ℕ). evict_from tl s) (sym end) in
    subst (λ (t : TableShard). Represents t xs × SameData s.heap t.heap × (t.cap ≡ s.cap)) same
      (evict_from-Represents s xs p r)
