-- ===== src/Ephemeral/Tests.antt =====
-- The store on concrete input.
use shadow_dns.Prelude.{
  ℕ, ◌≡◌, true, false, List, [], ◌∷◌, none, some, any, ◌=?◌, list_eq, nat_eq, if◌then◌else◌,
}
use shadow_dns.Names.{Name, codes, lookup_key}
use shadow_dns.Ephemeral.{new_store, lookup_records}
use shadow_dns.Ephemeral.Entries.{still}
use shadow_dns.Ephemeral.Steps.{Op, put_op, delete_value_op, gc_op}
use shadow_dns.Ephemeral.Refines.{spec_run, run, lookup_records-run}

-- The case mapping of a text that is not ASCII, where nothing has a case.
abbrev same_case : Name → Name
same_case s = s

abbrev challenge : Name
challenge = codes "_acme-challenge.Example.com"

-- Two values, one of them removed, and a sweep.
abbrev calls : List Op
calls =
    put_op challenge (codes "one") 60 0
    ∷ put_op challenge (codes "two") 120 0
    ∷ delete_value_op challenge (codes "one")
    ∷ gc_op 1000000000
    ∷ []

abbrev later : ℕ
later = 2000000000

lookup_records-run_example :
    (elim (lookup_records same_case challenge later (run same_case calls new_store)) [
      | none ↦ false
      | some values ↦ any (λ (w : Name). w =? codes "two") values
    ])
    ≡ (if lookup_key same_case challenge =? []
        then false
        else elim (still later (
            spec_run same_case calls
              (λ j w. none)
              (lookup_key same_case challenge)
              (codes "two"))) [ none ↦ false | some t ↦ true ])
lookup_records-run_example = lookup_records-run same_case calls challenge (codes "two") later
