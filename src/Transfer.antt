-- ===== src/Transfer.antt =====
-- internal/transfer/acl.go: who may transfer a zone. `netip.ParsePrefix` and `netip.ParseAddr` are
-- parameters; `none` is their error.
pub mod Allow
pub mod Axfr
mod Tests
use shadow_dns.Prelude.{Bool, true, false, List, [], ◌∷◌, ◌++◌, Option, none, some, if◌then◌else◌}
use shadow_dns.Prelude.Result.{Result, ok, err}
use shadow_dns.Names.{Name}
use shadow_dns.Net.{Addr, Prefix, any_addr, any_prefix_contains}

pub record Acl : Type 0 where
  pub addrs : List Addr
  pub prefixes : List Prefix

abbrev pub empty_acl : Acl
empty_acl = record { addrs = []; prefixes = [] }

module _ (parse_prefix : Name → Option Prefix) (parse_addr : Name → Option Addr) where
  -- The loop of `NewACL`; the error names the entry.
  unfoldable pub add_entries : Acl → List Name → Result Name Acl
  add_entries a [] = ok a
  add_entries a (entry ∷ rest) = elim (parse_prefix entry) [
    | some p ↦ add_entries (record a { prefixes = a.prefixes ++ p ∷ [] }) rest
    | none ↦ elim (parse_addr entry) [
      | some addr ↦ add_entries (record a { addrs = a.addrs ++ addr ∷ [] }) rest
      | none ↦ err entry
    ]
  ]

  -- `NewACL`
  unfoldable pub new_acl : List Name → Result Name Acl
  unfolding add_entries
  new_acl raw_entries = add_entries empty_acl raw_entries

-- `Allows`; the nil list is `none`.
unfoldable pub allows : Option Acl → Addr → Bool
allows none src = false
allows (some a) src = if any_addr a.addrs src then true else any_prefix_contains a.prefixes src
