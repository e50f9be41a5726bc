-- ===== src/Ephemeral/Sweep.antt =====
-- Entries of one name after the steps that store a list or delete the key, and after a sweep.
use shadow_dns.Prelude.{
  ℕ, ◌≡◌, ◌≢◌, refl, subst, false, List, [], ◌∷◌, map, any, some, arith, ◌=?◌, =?-true, nat_eq,
  list_eq, if◌then◌else◌, Bool-cases, Option-cases, inl, inr,
}
use shadow_dns.Prelude.Map.{lookup, lookup-insert, lookup-remove}
use shadow_dns.Names.{Name}
use shadow_dns.Ephemeral.{
  Entry, Store, entries_of, unexpired, store_or_delete, sweep_keys, gc_sweep,
}
use shadow_dns.Ephemeral.Entries.{Distinct, unexpired-Distinct, unexpired_idem}

-- No name is stored with no entry, and none with a value twice.
abbrev pub IsClean : Store → Type 0
IsClean s = (k : Name) (es : List Entry) → lookup k s ≡ some es → (es ≢ []) × Distinct es

pub entries_of-Distinct : (s : Store) → IsClean s → (k : Name) → Distinct (entries_of k s)
unfolding entries_of
entries_of-Distinct s clean k = elim (Option-cases (lookup k s)) [
  | inl missing ↦
      let empty : [] ≡ entries_of k s = ground (arith, missing) in
      subst (λ (x : List Entry). Distinct x) empty tt
  | inr (es, found) ↦
      let here : es ≡ entries_of k s = ground (arith, found) in
      subst (λ (x : List Entry). Distinct x) here ((clean k es found).1)
]

pub entries_of-store_or_delete :
    (j k : Name) (es : List Entry) (s : Store)
    → entries_of j (store_or_delete k es s) ≡ (if k =? j then es else entries_of j s)
unfolding entries_of store_or_delete
entries_of-store_or_delete j k [] s = ground (arith, lookup-remove k j s)
entries_of-store_or_delete j k (e ∷ es) s = ground (arith, lookup-insert k j (e ∷ es) s)

pub store_or_delete-IsClean :
    (k : Name) (es : List Entry) (s : Store)
    → Distinct es
    → IsClean s
    → IsClean (store_or_delete k es s)
unfolding store_or_delete
store_or_delete-IsClean k [] s d clean j fs h = clean j fs (ground (arith, h, lookup-remove k j s))
store_or_delete-IsClean k (e ∷ es) s d clean j fs h = elim (Bool-cases (k =? j)) [
  | inl same ↦
      let stored : e ∷ es ≡ fs = ground (arith, same, h, lookup-insert k j (e ∷ es) s) in
      subst (λ (x : List Entry). (x ≢ []) × Distinct x) stored ((λ p. cc), d)
  | inr other ↦ clean j fs (ground (arith, other, h, lookup-insert k j (e ∷ es) s))
]

pub entries_of-sweep_keys :
    (now : ℕ) (j : Name) (ks : List Name) (s : Store)
    → entries_of j (sweep_keys now ks s)
      ≡ (if any (λ (k : Name). k =? j) ks then unexpired now (entries_of j s) else entries_of j s)
unfolding sweep_keys
entries_of-sweep_keys now j [] s = refl
entries_of-sweep_keys now j (k ∷ ks) s =
    let swept = store_or_delete k (unexpired now (entries_of k s)) s in
    ground (
      arith,
      entries_of-sweep_keys now j ks swept,
      entries_of-store_or_delete j k (unexpired now (entries_of k s)) s,
      unexpired_idem now (entries_of j s),
      =?-true k j,
    )

unswept :
    (j : Name) (s : Store)
    → any (λ (k : Name). k =? j) (map (λ (p : Name × List Entry). p.0) s) ≡ false
    → entries_of j s ≡ []
unfolding entries_of lookup
unswept j [] h = refl
unswept j ((k, es) ∷ s) h = ground (arith, h, unswept j s)

-- A sweep leaves, of every name, the entries that are not expired, in their order.
pub entries_of-gc_sweep :
    (now : ℕ) (j : Name) (s : Store)
    → entries_of j (gc_sweep now s) ≡ unexpired now (entries_of j s)
unfolding gc_sweep unexpired
entries_of-gc_sweep now j s =
    let keys = map (λ (p : Name × List Entry). p.0) s in
    ground (arith, entries_of-sweep_keys now j keys s, unswept j s)

sweep_keys-IsClean :
    (now : ℕ) (ks : List Name) (s : Store) → IsClean s → IsClean (sweep_keys now ks s)
unfolding sweep_keys
sweep_keys-IsClean now [] s clean = clean
sweep_keys-IsClean now (k ∷ ks) s clean =
    let distinct = unexpired-Distinct now (entries_of k s) (entries_of-Distinct s clean k) in
    sweep_keys-IsClean now ks _ (store_or_delete-IsClean k _ s distinct clean)

pub gc_sweep-IsClean : (now : ℕ) (s : Store) → IsClean s → IsClean (gc_sweep now s)
unfolding gc_sweep
gc_sweep-IsClean now s clean =
    sweep_keys-IsClean now (map (λ (p : Name × List Entry). p.0) s) s clean
