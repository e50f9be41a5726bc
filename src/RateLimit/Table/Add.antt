-- ===== src/RateLimit/Table/Add.antt =====
-- `add_entry` puts a fresh account before the others.
use shadow_dns.Prelude.{
  ℕ, suc, ◌<◌, ◌≡◌, refl, sym, ◌∙◌, ap, ap₂, subst, Bool, false, List, [], ◌∷◌, none, some, arith,
  All, ◌=?◌, if◌then◌else◌,
}
use shadow_dns.Prelude.Map.{lookup, insert, lookup-insert}
use shadow_dns.RateLimit.Account.{fresh}
use shadow_dns.RateLimit.Table.{
  AccountKey, key_eq, key_eqb_iff, Heap, TableEntry, TableShard, update, push_front, add_entry,
}
use shadow_dns.RateLimit.Table.Segment.{Apart, Differ}
use shadow_dns.RateLimit.Table.Links.{same_ptr, Seg-update, update-Apart, update_self}
use shadow_dns.RateLimit.Table.View.{
  view, find_ptr, same_key, Represents, data_of, data-view, data-find_ptr, data-same_key,
}
use shadow_dns.RateLimit.Table.Reorder.{push_front-data, push_front-IsList}

-- A pointer that was never allocated is apart from those that were.
new-Apart : (e : ℕ) (ps : List ℕ) → All (λ p. p < e) ps → Apart same_ptr e ps
new-Apart e [] o = tt
new-Apart e (p ∷ ps) o = (ground (arith, o.0), new-Apart e ps o.1)

older : (e : ℕ) (ps : List ℕ) → All (λ p. p < e) ps → All (λ p. p < suc e) ps
older e [] o = tt
older e (p ∷ ps) o = (omega (arith, o.0), older e ps o.1)

not_found :
    (h : Heap) (k : AccountKey) (q : ℕ) (ps : List ℕ)
    → find_ptr h k (q ∷ ps) ≡ none
    → ((k =? (h q).key) ≡ false) × (find_ptr h k ps ≡ none)
not_found h k q ps a = ground (arith, key_eqb_iff (h q).key k, key_eqb_iff k (h q).key)

module _ (h h' : Heap) where
  agree-view : (ps : List ℕ) → All (λ q. h' q ≡ h q) ps → view h' ps ≡ view h ps
  agree-view [] e = refl
  agree-view (p ∷ ps) e = ap₂ ◌∷◌ (ap data_of e.0) (agree-view ps e.1)

  agree-find_ptr :
      (k : AccountKey) (ps : List ℕ) → All (λ q. h' q ≡ h q) ps → find_ptr h' k ps ≡ find_ptr h k ps
  agree-find_ptr k [] e = refl
  agree-find_ptr k (p ∷ ps) e = rw (e.0, agree-find_ptr k ps e.1)

  agree-Apart :
      (p : ℕ) (ps : List ℕ)
      → h' p ≡ h p
      → All (λ q. h' q ≡ h q) ps
      → Apart (same_key h) p ps
      → Apart (same_key h') p ps
  agree-Apart p [] f e a = tt
  agree-Apart p (q ∷ ps) f e a = (rw (f, e.0) a.0, agree-Apart p ps f e.1 a.1)

  agree-Differ :
      (ps : List ℕ) → All (λ q. h' q ≡ h q) ps → Differ (same_key h) ps → Differ (same_key h') ps
  agree-Differ [] e d = tt
  agree-Differ (p ∷ ps) e d = (agree-Apart p ps e.0 e.1 d.0, agree-Differ ps e.1 d.1)

  -- A pointer of a new key is apart from the others by its key.
  absent-Apart :
      (k : AccountKey) (p : ℕ) (ps : List ℕ)
      → (h' p).key ≡ k
      → All (λ q. h' q ≡ h q) ps
      → find_ptr h k ps ≡ none
      → Apart (same_key h') p ps
  absent-Apart k p [] f e a = tt
  absent-Apart k p (q ∷ ps) f e a =
      let (other, rest) = not_found h k q ps a in
      (rw (f, e.0) other, absent-Apart k p ps f e.1 rest)

-- The heap and the shard just before `push_front`.
abbrev entry_of : AccountKey → TableEntry
entry_of k = record { key = k; acct = fresh; prev = none; next = none }

abbrev placed : AccountKey → TableShard → TableShard
placed k s = record s {
  heap = update s.heap s.fresh_ptr (entry_of k);
  fresh_ptr = suc s.fresh_ptr;
  items = insert k s.fresh_ptr s.items;
}

-- `add_entry` of a key that the shard does not hold.
pub add_entry-Represents :
    (k : AccountKey) (s : TableShard) (ps : List ℕ)
    → Represents s ps
    → lookup k s.items ≡ none
    → Represents (add_entry k s).1 ((add_entry k s).0 ∷ ps)
      × (view (add_entry k s).1.heap ((add_entry k s).0 ∷ ps) ≡ (k, fresh) ∷ view s.heap ps)
      × ((add_entry k s).1.cap ≡ s.cap)
unfolding add_entry
add_entry-Represents k s ps r absent =
    let e = s.fresh_ptr in
    let b = placed k s in
    let t = push_front e b in
    let apart = new-Apart e ps r.old in
    let same = update-Apart s.heap e (entry_of k) ps apart in
    let self = update_self s.heap e (entry_of k) in
    let d = push_front-data e b in
    let l = push_front-IsList e b ps r.distinct apart (record {
      head = r.head;
      tail = r.tail;
      linked = Seg-update s.heap e (entry_of k) none ps none apart r.linked;
    }) in
    let none_there : find_ptr s.heap k ps ≡ none = sym (r.index k) ∙ absent in
    let key : (b.heap e).key ≡ k = ap (λ (x : TableEntry). x.key) self in
    let found : (j : AccountKey)
        → find_ptr b.heap j (e ∷ ps) ≡ (if k =? j then some e else lookup j s.items) =
      λ j. rw (key, agree-find_ptr s.heap b.heap j ps same, r.index j) refl in
    (
      record {
        head = l.head;
        tail = l.tail;
        linked = l.linked;
        distinct = (apart, r.distinct);
        keys =
            subst (λ (f : ℕ → ℕ → Bool). Differ f (e ∷ ps)) (sym (data-same_key b.heap t.heap d))
              (
                absent-Apart s.heap b.heap k e ps key same none_there,
                agree-Differ s.heap b.heap ps same r.keys,
              );
        index = λ j.
            lookup-insert k j e s.items ∙ sym (data-find_ptr b.heap t.heap j (e ∷ ps) d ∙ found j);
        size = omega (arith, r.size);
        old = (omega arith, older e ps r.old);
      },
      data-view b.heap t.heap (e ∷ ps) d
          ∙ ap₂ ◌∷◌ (ap data_of self) (agree-view s.heap b.heap ps same),
      refl,
    )
