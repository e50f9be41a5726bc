-- ===== src/Ephemeral.antt =====
-- internal/ephemeral/store.go: the store of short-lived TXT records. Its mutex makes each method
-- one step; the reading of the clock, in nanoseconds, is an argument. `Entries` is about the
-- entries of one name, `Sweep` about garbage collection, `Steps` about each of the calls, `Refines` about what the store
-- promises.
pub mod Entries
pub mod Steps
pub mod Refines
pub mod Sweep
mod Tests
use shadow_dns.Prelude.{
  ℕ, suc, ◌+◌, ◌*◌, Bool, true, false, List, [], ◌∷◌, map, Option, none, some, ltb, ◌==◌, Equality,
  ◌=?◌, nat_eq, list_eq, if◌then◌else◌, keep, length,
}
use shadow_dns.Prelude.Map.{Map, lookup, insert, remove}
use shadow_dns.Names.{Name, lookup_key}

pub record Entry : Type 0 where
  pub value : Name
  pub expire_at : ℕ

-- The field `records`.
abbrev pub Store : Type 0
Store = Map Name (List Entry)

-- `s.records[canonical]`, nil for a missing key
unfoldable pub entries_of : Name → Store → List Entry
entries_of key s = elim (lookup key s) [ none ↦ [] | some es ↦ es ]

abbrev pub nanoseconds : ℕ → ℕ
nanoseconds seconds = seconds * 1000000000

-- The loop of `Put`, and the `append` behind it.
unfoldable pub put_entry : Name → ℕ → List Entry → List Entry
put_entry value expiry [] = record { value = value; expire_at = expiry } ∷ []
put_entry value expiry (e ∷ es) =
    let rest = put_entry value expiry es in
    if e.value =? value then record e { expire_at = expiry } ∷ es else e ∷ rest

-- `e.expireAt.After(now)`, over all the entries
unfoldable pub unexpired : ℕ → List Entry → List Entry
unexpired now es = keep (λ (e : Entry). ltb now e.expire_at) es

-- `slices.IndexFunc` and `slices.Delete`; `none` is the index -1.
unfoldable pub delete_first : Name → List Entry → Option (List Entry)
delete_first value [] = none
delete_first value (e ∷ es) =
    let rest = delete_first value es in
    if e.value =? value then some es else elim rest [ none ↦ none | some r ↦ some (e ∷ r) ]

-- `if len(es) == 0 { delete(s.records, key) } else { s.records[key] = es }`
unfoldable pub store_or_delete : Name → List Entry → Store → Store
store_or_delete key [] s = remove key s
store_or_delete key (e ∷ es) s = insert key (e ∷ es) s

-- The loop of `gcSweep`, over the keys of the map.
unfoldable pub sweep_keys : ℕ → List Name → Store → Store
unfolding entries_of unexpired store_or_delete
sweep_keys now [] s = s
sweep_keys now (key ∷ keys) s =
    sweep_keys now keys (store_or_delete key (unexpired now (entries_of key s)) s)

unfoldable pub gc_sweep : ℕ → Store → Store
unfolding sweep_keys
gc_sweep now s = sweep_keys now (map (λ (p : Name × List Entry). p.0) s) s

-- `NewStore`, and the map that `Clear` installs.
abbrev pub new_store : Store
new_store = []

-- `unicode_lower` is `strings.ToLower` on a name that is not ASCII.
module _ (unicode_lower : Name → Name) where
  unfoldable pub put : Name → Name → ℕ → ℕ → Store → Store × ℕ
  unfolding entries_of put_entry
  put fqdn value ttl now s =
      let canonical = lookup_key unicode_lower fqdn in
      if canonical =? []
      then (s, 0)
      else (let entries = put_entry value (now + nanoseconds ttl) (entries_of canonical s) in
          (insert canonical entries s, length entries))

  -- `Lookup`; `none` is `nil, false`.
  unfoldable pub lookup_records : Name → ℕ → Store → Option (List Name)
  unfolding entries_of unexpired
  lookup_records fqdn now s =
      let canonical = lookup_key unicode_lower fqdn in
      if canonical =? []
      then none
      else elim (map (λ (e : Entry). e.value) (unexpired now (entries_of canonical s))) [
        | [] ↦ none
        | v ∷ vs ↦ some (v ∷ vs)
      ]

  unfoldable pub delete : Name → Store → Store
  delete fqdn s =
      let canonical = lookup_key unicode_lower fqdn in
      if canonical =? [] then s else remove canonical s

  unfoldable pub delete_value : Name → Name → Store → Store × Bool
  unfolding delete_first store_or_delete
  delete_value fqdn value s =
      let canonical = lookup_key unicode_lower fqdn in
      if canonical =? [] then (s, false) else elim (lookup canonical s) [
        | none ↦ (s, false)
        | some entries ↦ elim (delete_first value entries) [
          | none ↦ (s, false)
          | some kept ↦ (store_or_delete canonical kept s, true)
        ]
      ]
