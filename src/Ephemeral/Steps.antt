-- ===== src/Ephemeral/Steps.antt =====
-- The calls of the store as steps: what each stores, and that the store stays clean.
use shadow_dns.Prelude.{
  ℕ, ◌+◌, ◌≡◌, ◌⊎◌, refl, sym, subst, true, false, ◌&&◌, List, [], ◌∷◌, Option, none, some, arith,
  ◌=?◌, nat_eq, list_eq, if◌then◌else◌, Bool-cases, Option-cases, inl, inr,
}
use shadow_dns.Prelude.Map.{lookup, insert}
use shadow_dns.Names.{Name, lookup_key}
use shadow_dns.Ephemeral.{
  Entry, Store, entries_of, store_or_delete, nanoseconds, put_entry, delete_first, gc_sweep,
  new_store, put, delete, delete_value,
}
use shadow_dns.Ephemeral.Entries.{
  expiry_in, still, put_entry-Distinct, delete_first-none, delete_first-Distinct,
}
use shadow_dns.Ephemeral.Sweep.{
  IsClean, entries_of-Distinct, store_or_delete-IsClean, gc_sweep-IsClean,
}

-- The calls that change the store.
pub data Op : Type 0 where
  put_op : Name → Name → ℕ → ℕ → Op
  delete_op : Name → Op
  delete_value_op : Name → Name → Op
  clear_op : Op
  gc_op : ℕ → Op

-- A map from folded names and values to expiries.
abbrev pub Expiries : Type 0
Expiries = Name → Name → Option ℕ

abbrev pub expiries : Store → Expiries
expiries s k v = expiry_in v (entries_of k s)

-- `Put` never stores the empty list.
store-put_entry :
    (k w : Name) (t : ℕ) (es : List Entry) (s : Store)
    → store_or_delete k (put_entry w t es) s ≡ insert k (put_entry w t es) s
unfolding store_or_delete put_entry
store-put_entry k w t [] s = refl
store-put_entry k w t (e ∷ es) s = ground arith

same-IsClean : {s t : Store} → t ≡ s → IsClean s → IsClean t
same-IsClean e clean = subst (λ (x : Store). IsClean x) (sym e) clean

pub new_store-IsClean : IsClean new_store
unfolding lookup
new_store-IsClean k es h = cc

module _ (unicode_lower : Name → Name) where
  abbrev pub step : Op → Store → Store
  step (put_op fqdn value ttl now) s = (put unicode_lower fqdn value ttl now s).0
  step (delete_op fqdn) s = delete unicode_lower fqdn s
  step (delete_value_op fqdn value) s = (delete_value unicode_lower fqdn value s).0
  step clear_op s = new_store
  step (gc_op now) s = gc_sweep now s

  -- What the calls do to the map.
  abbrev pub spec_step : Op → Expiries → Expiries
  spec_step (put_op fqdn value ttl now) m k v =
      let key = lookup_key unicode_lower fqdn in
      if key =? []
      then m k v
      else if (key =? k) && value =? v
      then some (now + nanoseconds ttl)
      else m k v
  spec_step (delete_op fqdn) m k v =
      let key = lookup_key unicode_lower fqdn in
      if key =? [] then m k v else if key =? k then none else m k v
  spec_step (delete_value_op fqdn value) m k v =
      let key = lookup_key unicode_lower fqdn in
      if key =? [] then m k v else if (key =? k) && value =? v then none else m k v
  spec_step clear_op m k v = none
  spec_step (gc_op now) m k v = still now (m k v)

  pub put-stores :
      (fqdn value : Name) (ttl now : ℕ) (s : Store)
      → (lookup_key unicode_lower fqdn =? []) ≡ false
      → (put unicode_lower fqdn value ttl now s).0
        ≡ store_or_delete
            (lookup_key unicode_lower fqdn)
            (put_entry value (now + nanoseconds ttl) (entries_of (lookup_key unicode_lower fqdn) s))
            s
  unfolding put
  put-stores fqdn value ttl now s h =
      let key = lookup_key unicode_lower fqdn in
      ground (arith, h, store-put_entry key value (now + nanoseconds ttl) (entries_of key s) s)

  -- A call that deletes a value leaves the store, where there is none, or stores what is left.
  pub delete_value-stores :
      (fqdn value : Name) (s : Store)
      → (lookup_key unicode_lower fqdn =? []) ≡ false
      → ((delete_value unicode_lower fqdn value s).0 ≡ s)
          × (expiries s (lookup_key unicode_lower fqdn) value ≡ none)
        ⊎ (es : List Entry) × (delete_first value (entries_of (lookup_key unicode_lower fqdn) s)
            ≡ some es)
          × ((delete_value unicode_lower fqdn value s).0
              ≡ store_or_delete (lookup_key unicode_lower fqdn) es s)
  unfolding delete_value entries_of expiry_in
  delete_value-stores fqdn value s h =
      let key = lookup_key unicode_lower fqdn in
      let nothing : expiry_in value [] ≡ none = refl in
      elim (Option-cases (lookup key s)) [
        | inl missing ↦ inl (ground (arith, h, missing), ground (arith, missing, nothing))
        | inr (es, found) ↦ elim (Option-cases (delete_first value es)) [
          | inl absent ↦ inl (
            ground (arith, h, found, absent),
            ground (arith, found, delete_first-none value es absent),
          )
          | inr (kept, cut) ↦ inr (kept, ground (arith, found, cut), ground (arith, h, found, cut))
        ]
      ]

  pub delete-stores :
      (fqdn : Name) (s : Store)
      → (lookup_key unicode_lower fqdn =? []) ≡ false
      → delete unicode_lower fqdn s ≡ store_or_delete (lookup_key unicode_lower fqdn) [] s
  unfolding delete store_or_delete
  delete-stores fqdn s h = ground (arith, h)

  -- A call on a name that folds to the empty name leaves the store.
  pub unnamed :
      (fqdn value : Name) (ttl now : ℕ) (s : Store)
      → (lookup_key unicode_lower fqdn =? []) ≡ true
      → ((put unicode_lower fqdn value ttl now s).0 ≡ s)
        × (delete unicode_lower fqdn s ≡ s)
        × ((delete_value unicode_lower fqdn value s).0 ≡ s)
  unfolding put delete delete_value
  unnamed fqdn value ttl now s h = (ground (arith, h), ground (arith, h), ground (arith, h))

  -- The calls keep the store clean.
  pub step-IsClean : (op : Op) (s : Store) → IsClean s → IsClean (step op s)
  step-IsClean (put_op fqdn value ttl now) s clean =
      let key = lookup_key unicode_lower fqdn in
      elim (Bool-cases (key =? [])) [
        | inl empty ↦ same-IsClean ((unnamed fqdn value ttl now s empty).0) clean
        | inr named ↦
            let es = entries_of key s in
            let distinct =
              put_entry-Distinct value (now + nanoseconds ttl) es
                (entries_of-Distinct s clean key) in
            same-IsClean (put-stores fqdn value ttl now s named)
              (store_or_delete-IsClean key _ s distinct clean)
      ]
  step-IsClean (delete_op fqdn) s clean =
      let key = lookup_key unicode_lower fqdn in
      elim (Bool-cases (key =? [])) [
        | inl empty ↦ same-IsClean ((unnamed fqdn [] 0 0 s empty).1) clean
        | inr named ↦
            same-IsClean (delete-stores fqdn s named) (store_or_delete-IsClean key [] s tt clean)
      ]
  step-IsClean (delete_value_op fqdn value) s clean =
      let key = lookup_key unicode_lower fqdn in
      elim (Bool-cases (key =? [])) [
        | inl empty ↦ same-IsClean ((unnamed fqdn value 0 0 s empty).2) clean
        | inr named ↦ elim (delete_value-stores fqdn value s named) [
          | inl (same, absent) ↦ same-IsClean same clean
          | inr (es, cut, e) ↦
              let distinct =
                delete_first-Distinct value (entries_of key s) (entries_of-Distinct s clean key) es
                  cut in
              same-IsClean e (store_or_delete-IsClean key es s distinct clean)
        ]
      ]
  step-IsClean clear_op s clean = new_store-IsClean
  step-IsClean (gc_op now) s clean = gc_sweep-IsClean now s clean
