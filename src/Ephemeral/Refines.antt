-- ===== src/Ephemeral/Refines.antt =====
-- What the store promises: it is a finite map from names and values to expiries.
use shadow_dns.Prelude.{
  ℕ, ◌+◌, ◌≡◌, refl, ◌∙◌, ap, fun_ext, true, false, List, [], ◌∷◌, any, none, some, arith, ◌=?◌,
  =?-true, nat_eq, list_eq, if◌then◌else◌, Bool-cases, inl, inr,
}
use shadow_dns.Prelude.Map.{lookup}
use shadow_dns.Names.{Name, lookup_key}
use shadow_dns.Ephemeral.{
  Entry, Store, entries_of, unexpired, store_or_delete, nanoseconds, new_store, lookup_records,
}
use shadow_dns.Ephemeral.Entries.{
  expiry_in, still, expiry_in-put_entry, expiry_in-delete_first, expiry_in-unexpired, any-expiry_in,
}
use shadow_dns.Ephemeral.Sweep.{
  IsClean, entries_of-Distinct, entries_of-store_or_delete, entries_of-gc_sweep,
}
use shadow_dns.Ephemeral.Steps.{
  Op, put_op, delete_op, delete_value_op, clear_op, gc_op, Expiries, expiries, new_store-IsClean,
  step, spec_step, put-stores, delete_value-stores, delete-stores, unnamed, step-IsClean,
}

module _ (unicode_lower : Name → Name) where
  abbrev pub run : List Op → Store → Store
  run [] s = s
  run (op ∷ ops) s = run ops (step unicode_lower op s)

  abbrev pub spec_run : List Op → Expiries → Expiries
  spec_run [] m = m
  spec_run (op ∷ ops) m = spec_run ops (spec_step unicode_lower op m)

  stored :
      (t s : Store) (key k v : Name) (es : List Entry)
      → t ≡ store_or_delete key es s
      → expiries t k v ≡ (if key =? k then expiry_in v es else expiries s k v)
  stored t s key k v es e =
      ap (λ (x : Store). expiries x k v) e
      ∙ ap (λ (fs : List Entry). expiry_in v fs) (entries_of-store_or_delete k key es s)
      ∙ ground arith

  -- Each call does to the map of expiries what it says, and to nothing else.
  pub step-refines :
      (op : Op) (s : Store)
      → IsClean s
      → (k v : Name)
      → expiries (step unicode_lower op s) k v ≡ spec_step unicode_lower op (expiries s) k v
  step-refines (put_op fqdn value ttl now) s clean k v =
      let key = lookup_key unicode_lower fqdn in
      elim (Bool-cases (key =? [])) [
        | inl empty ↦
            ap (λ (x : Store). expiries x k v)
              ((unnamed unicode_lower fqdn value ttl now s empty).0)
            ∙ ground (arith, empty)
        | inr named ↦
            let es = entries_of key s in
            stored _ s key k v _ (put-stores unicode_lower fqdn value ttl now s named)
            ∙ ground (
              arith,
              named,
              expiry_in-put_entry v value (now + nanoseconds ttl) es,
              =?-true key k,
            )
      ]
  step-refines (delete_op fqdn) s clean k v =
      let key = lookup_key unicode_lower fqdn in
      elim (Bool-cases (key =? [])) [
        | inl empty ↦
            ap (λ (x : Store). expiries x k v) ((unnamed unicode_lower fqdn [] 0 0 s empty).1)
            ∙ ground (arith, empty)
        | inr named ↦
            let nothing : expiry_in v [] ≡ none = unfold expiry_in in refl in
            stored _ s key k v [] (delete-stores unicode_lower fqdn s named)
            ∙ ground (arith, named, nothing)
      ]
  step-refines (delete_value_op fqdn value) s clean k v =
      let key = lookup_key unicode_lower fqdn in
      elim (Bool-cases (key =? [])) [
        | inl empty ↦
            ap (λ (x : Store). expiries x k v) ((unnamed unicode_lower fqdn value 0 0 s empty).2)
            ∙ ground (arith, empty)
        | inr named ↦ elim (delete_value-stores unicode_lower fqdn value s named) [
          | inl (same, absent) ↦
              ap (λ (x : Store). expiries x k v) same
              ∙ ground (arith, named, absent, =?-true key k, =?-true value v)
          | inr (es, cut, e) ↦
              let after =
                expiry_in-delete_first v value (entries_of key s) (entries_of-Distinct s clean key)
                  es cut in
              stored _ s key k v es e ∙ ground (arith, named, after, =?-true key k)
        ]
      ]
  step-refines clear_op s clean k v = unfold expiry_in entries_of lookup in refl
  step-refines (gc_op now) s clean k v =
      ap (λ (es : List Entry). expiry_in v es) (entries_of-gc_sweep now k s)
      ∙ expiry_in-unexpired v now (entries_of k s) (entries_of-Distinct s clean k)

  run-refines_from :
      (ops : List Op) (s : Store) (m : Expiries)
      → IsClean s
      → ((k v : Name) → expiries s k v ≡ m k v)
      → (k v : Name) → expiries (run ops s) k v ≡ spec_run ops m k v
  run-refines_from [] s m clean e k v = e k v
  run-refines_from (op ∷ ops) s m clean e k v =
      run-refines_from ops (step unicode_lower op s) (spec_step unicode_lower op m)
        (step-IsClean unicode_lower op s clean)
        (λ j w.
          step-refines op s clean j w
          ∙ ap (λ (n : Expiries). spec_step unicode_lower op n j w)
              (fun_ext (λ i. fun_ext (λ x. e i x))))
        k v

  -- After any calls on a new store, it holds the expiries that the calls promise.
  pub run-refines :
      (ops : List Op) (k v : Name)
      → expiries (run ops new_store) k v ≡ spec_run ops (λ j w. none) k v
  run-refines ops k v =
      run-refines_from ops new_store (λ j w. none) new_store-IsClean
        (λ j w. unfold expiry_in entries_of lookup in refl) k v

  pub run-IsClean : (ops : List Op) (s : Store) → IsClean s → IsClean (run ops s)
  run-IsClean [] s clean = clean
  run-IsClean (op ∷ ops) s clean =
      run-IsClean ops (step unicode_lower op s) (step-IsClean unicode_lower op s clean)

  -- After any calls on a new store, `Lookup` of a name answers a value exactly when the calls
  -- promise it an expiry that lies ahead; a name that folds to the empty name has no answer.
  pub lookup_records-run :
      (ops : List Op) (fqdn v : Name) (now : ℕ)
      → (elim (lookup_records unicode_lower fqdn now (run ops new_store)) [
        | none ↦ false
        | some values ↦ any (λ (w : Name). w =? v) values
      ])
        ≡ (if lookup_key unicode_lower fqdn =? []
            then false
            else elim (still now (spec_run ops (λ j w. none) (lookup_key unicode_lower fqdn) v)) [
              | none ↦ false
              | some t ↦ true
            ])
  unfolding lookup_records
  lookup_records-run ops fqdn v now =
      let key = lookup_key unicode_lower fqdn in
      let s = run ops new_store in
      let clean = run-IsClean ops new_store new_store-IsClean in
      ground (
        arith,
        any-expiry_in v (unexpired now (entries_of key s)),
        expiry_in-unexpired v now (entries_of key s) (entries_of-Distinct s clean key),
        run-refines ops key v,
      )
