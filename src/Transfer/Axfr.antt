-- ===== src/Transfer/Axfr.antt =====
-- internal/transfer/axfr.go: the records of a zone transfer, up to `dns.Transfer.Out`, which sends
-- them. A panic is `none`. Go visits a map in no fixed order; here that is the order of the list.
pub mod Complete
pub mod Unseen
use shadow_dns.Prelude.{
  ℕ, Bool, true, false, ◌&&◌, List, [], ◌∷◌, ◌++◌, map, Option, none, some, ltb, leb, ◌==◌,
  Equality, ◌=?◌, nat_eq, list_eq, if◌then◌else◌,
}
use shadow_dns.Prelude.Map.{Map, lookup}
use shadow_dns.Prelude.Partial.{◌>>=◌, traverse}
use shadow_dns.Names.{Name}
use shadow_dns.Dns.Rcode
use shadow_dns.Dns.TypeCode
use shadow_dns.Dns.{Msg, Rr}
use shadow_dns.Dns.Library.{Library}
use shadow_dns.Zone.{Zone, QtypeStore, single, promoted}
use shadow_dns.Zone.Cname.{is_empty}
use shadow_dns.Alias.{rewrite_name}
use shadow_dns.Alias.Rewrite.{rewrite_rr, backup_soa}
use shadow_dns.Alias.Withhold.{WithheldRecord, filter_backup_rrs}
use shadow_dns.Zone.Classify.{is_overridable}

-- `slices.Sort` by an order, as an insertion sort.
module _ {A : Type 0} (before : A → A → Bool) where
  unfoldable pub insert_sorted : A → List A → List A
  insert_sorted x [] = x ∷ []
  insert_sorted x (y ∷ ys) = if before x y then x ∷ y ∷ ys else y ∷ insert_sorted x ys

  unfoldable pub sort : List A → List A
  unfolding insert_sorted
  sort [] = []
  sort (x ∷ xs) = insert_sorted x (sort xs)

-- The order of Go's strings.
unfoldable pub name_before : Name → Name → Bool
name_before [] t = true
name_before (c ∷ s) [] = false
name_before (c ∷ s) (d ∷ t) =
    let rest = name_before s t in if ltb c d then true else if c == d then rest else false

-- What `Each` visits.
unfoldable pub each : QtypeStore → Map ℕ (List Rr)
each (single qtype rrs) = (qtype, rrs) ∷ []
each (promoted sub) = sub

-- The stores of a zone, by owner.
unfoldable pub sorted_owners : Zone → List (Name × QtypeStore)
unfolding sort name_before
sorted_owners z = sort (λ (a b : Name × QtypeStore). name_before a.0 b.0) z.records

-- The records of a store that are not of type SOA.
unfoldable pub non_soa : Map ℕ (List Rr) → List Rr
non_soa [] = []
non_soa ((rrtype, rrs) ∷ sub) =
    let rest = non_soa sub in if rrtype == TypeCode.soa then rest else rrs ++ rest

unfoldable pub non_soa_of : List (Name × QtypeStore) → List Rr
unfolding non_soa each
non_soa_of [] = []
non_soa_of ((owner, s) ∷ stores) = non_soa (each s) ++ non_soa_of stores

-- `collectNonSOA`
unfoldable pub collect_non_soa : Zone → List Rr
unfolding sorted_owners non_soa_of
collect_non_soa z = non_soa_of (sorted_owners z)

-- What a transfer is answered with: a message that refuses it, or the envelopes of a stream.
pub data Stream : Type 0 where
  axfr_refused : Msg → Stream
  axfr_stream : List (List Rr) → Stream

-- The envelopes of `streamAXFR`.
unfoldable pub envelopes : Rr → List Rr → List (List Rr)
unfolding is_empty
envelopes soa_rr records =
    (soa_rr ∷ []) ∷ (if is_empty records then [] else records ∷ []) ++ (soa_rr ∷ []) ∷ []

-- The message of `replyRefused`, for the library's `SetReply`.
unfoldable pub reply_refused : (Msg → Msg) → Msg → Msg
reply_refused set_reply req = record (set_reply req) {
  recursion_available = false;
  authoritative = false;
  rcode = Rcode.refused;
}

-- `HandleAXFR`, with the message that refuses; the Boolean tells whether the query came by UDP.
unfoldable pub handle_axfr : Msg → Bool → Option Zone → Stream
handle_axfr refusal true z = axfr_refused refusal
handle_axfr refusal false none = axfr_refused refusal
handle_axfr refusal false (some z) = elim z.soa [
  | none ↦ axfr_refused refusal
  | some soa_rr ↦ axfr_stream (envelopes soa_rr (collect_non_soa z))
]

-- `overrides[overrideKey(owner, rrtype)]`
unfoldable pub override_at : Option Zone → Name → ℕ → Option (List Rr)
unfolding each
override_at none owner rrtype = none
override_at (some z) owner rrtype = elim (lookup owner z.records) [
  | none ↦ none
  | some s ↦ lookup rrtype (each s)
]

module _ (lib : Library) (root_origin backup_original_case : Name) (rdata_labels : Bool)
    (backup_zone : Option Zone) where
  -- The body of the loop over the types of an owner.
  unfoldable pub alias_rrset : Name → ℕ → List Rr → Option (List Rr × List WithheldRecord)
  unfolding override_at filter_backup_rrs traverse rewrite_rr is_overridable
  alias_rrset backup_owner rrtype rrs =
      let (kept, withheld) = filter_backup_rrs lib rrs in
      let rewritten = do
        out ←
            traverse
              (rewrite_rr lib.unicode_lower lib.is_sub_domain root_origin backup_original_case
                rdata_labels)
              kept
        some (out, withheld)
      in if rrtype == TypeCode.soa
        then some ([], [])
        else if is_overridable rrtype
        then elim (override_at backup_zone backup_owner rrtype) [
          | some ov ↦ some (ov, [])
          | none ↦ rewritten
        ]
        else rewritten

  unfoldable pub alias_types : Name → Map ℕ (List Rr) → Option (List Rr × List WithheldRecord)
  unfolding alias_rrset
  alias_types backup_owner [] = some ([], [])
  alias_types backup_owner ((rrtype, rrs) ∷ sub) = do
    (out, withheld) ← alias_rrset backup_owner rrtype rrs
    (more, others) ← alias_types backup_owner sub
    some (out ++ more, withheld ++ others)

  -- The loop over the owners of the root zone.
  unfoldable pub alias_owners :
      Name → List (Name × QtypeStore) → Option (List Rr × List WithheldRecord)
  unfolding alias_types sort each
  alias_owners backup_origin [] = some ([], [])
  alias_owners backup_origin ((owner, s) ∷ stores) = do
    backup_owner ← rewrite_name lib.unicode_lower lib.is_sub_domain owner root_origin backup_origin
    (out, withheld) ← alias_types backup_owner (sort (λ (a b : ℕ × List Rr). leb a.0 b.0) (each s))
    (more, others) ← alias_owners backup_origin stores
    some (out ++ more, withheld ++ others)

module _ (lib : Library) where
  -- `buildAliasRecords`
  unfoldable pub build_alias_records :
      Zone → Option Zone → Name → Name → Name → Bool → Option (List Rr × List WithheldRecord)
  unfolding alias_owners sorted_owners
  build_alias_records root_zone backup_zone root_origin backup_origin backup_original_case
        rdata_labels =
      alias_owners lib root_origin backup_original_case rdata_labels backup_zone backup_origin
        (sorted_owners root_zone)

  -- `HandleAliasAXFR`, with the message that refuses
  unfoldable pub handle_alias_axfr :
      Msg → Bool → Name → Name → Option Zone → Option Zone → Bool → Option Stream
  unfolding build_alias_records envelopes
  handle_alias_axfr refusal true backup_origin backup_original_case root_zone backup_zone
        rdata_labels =
      some (axfr_refused refusal)
  handle_alias_axfr refusal false backup_origin backup_original_case none backup_zone rdata_labels =
      some (axfr_refused refusal)
  handle_alias_axfr refusal false backup_origin backup_original_case (some root_zone) backup_zone
        rdata_labels =
      elim root_zone.soa [
        | none ↦ some (axfr_refused refusal)
        | some root_soa ↦ do
          soa_rr ←
              backup_soa lib.unicode_lower lib.is_sub_domain (some root_soa) root_zone.origin
                backup_original_case
          (records, withheld) ←
              build_alias_records root_zone backup_zone root_zone.origin backup_origin
                backup_original_case rdata_labels
          some (axfr_stream (envelopes soa_rr records))
      ]
