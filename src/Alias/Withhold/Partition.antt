-- ===== src/Alias/Withhold/Partition.antt =====
-- What `FilterBackupRRs` keeps and withholds.
use shadow_dns.Prelude.{
  ◌≡◌, ◌∙◌, false, not, List, [], ◌∷◌, ◌++◌, map, append_assoc, append-nil, arith, keep, Bool-cases,
  inl, inr, none, some, ◌&&◌, Option-cases,
}
use shadow_dns.Dns.{Rr}
use shadow_dns.Dns.Library.{Library}
use shadow_dns.Alias.Withhold.{
  is_covered, has_name_bearing_rdata, classify_rr, class_by_rr_type, WithheldRecord,
  withheld_record, is_uncovered, filter_rest, filter_from, filter_backup_rrs,
}

module _ (lib : Library) where
  -- The records that may be answered, in order.
  abbrev pub safe_rrs : List Rr → List Rr
  safe_rrs = keep (λ rr. not (is_uncovered lib rr))

  -- The records that may not, in order.
  abbrev pub unsafe_rrs : List Rr → List WithheldRecord
  unsafe_rrs rrs = map withheld_record (keep (is_uncovered lib) rrs)

  filter_rest_lem :
      (kept : List Rr) (withheld : List WithheldRecord) (rrs : List Rr)
      → filter_rest lib kept withheld rrs ≡ (kept ++ safe_rrs rrs, withheld ++ unsafe_rrs rrs)
  unfolding filter_rest
  filter_rest_lem kept withheld [] = simp append-nil
  filter_rest_lem kept withheld (r ∷ rrs) = elim (Bool-cases (is_uncovered lib r)) [
    | inl h ↦
        rw h (filter_rest_lem kept (withheld ++ withheld_record r ∷ []) rrs ∙ simp append_assoc)
    | inr h ↦ rw h (filter_rest_lem (kept ++ r ∷ []) withheld rrs ∙ simp append_assoc)
  ]

  filter_from_lem :
      (passed rrs : List Rr) → filter_from lib passed rrs ≡ (passed ++ safe_rrs rrs, unsafe_rrs rrs)
  unfolding filter_from
  filter_from_lem passed [] = simp append-nil
  filter_from_lem passed (r ∷ rrs) = elim (Bool-cases (is_uncovered lib r)) [
    | inl h ↦ rw h (filter_rest_lem passed (withheld_record r ∷ []) rrs)
    | inr h ↦ rw h (filter_from_lem (passed ++ r ∷ []) rrs ∙ simp append_assoc)
  ]

  -- `FilterBackupRRs` keeps the records that are not of an uncovered type with a name, in order,
  -- and withholds the others, in order.
  pub filter_backup_rrs-partition :
      (rrs : List Rr) → filter_backup_rrs lib rrs ≡ (safe_rrs rrs, unsafe_rrs rrs)
  unfolding filter_backup_rrs
  filter_backup_rrs-partition rrs = filter_from_lem [] rrs

  name_bearing-struct :
      (p rr : Rr)
      → lib.struct_of p ≡ lib.struct_of rr
      → has_name_bearing_rdata lib p ≡ has_name_bearing_rdata lib rr
  unfolding has_name_bearing_rdata
  name_bearing-struct p rr e = ground (arith, e)

  -- The table of classes answers as the walk over the record's own type would, where records of a
  -- type of the table have the struct type of its entry, and the covered types are in the table: a
  -- record is withheld exactly if its data holds a name and its type is not covered.
  pub is_uncovered_lem :
      (rr : Rr)
      → ((p : Rr) → lib.new_rr rr.rrtype ≡ some p → lib.struct_of p ≡ lib.struct_of rr)
      → (lib.new_rr rr.rrtype ≡ none → is_covered rr.rrtype ≡ false)
      → is_uncovered lib rr ≡ (has_name_bearing_rdata lib rr && not (is_covered rr.rrtype))
  unfolding is_uncovered classify_rr class_by_rr_type
  is_uncovered_lem rr same known = elim (Option-cases (lib.new_rr rr.rrtype)) [
    | inl h ↦ ground (arith, h, known h)
    | inr (p, h) ↦ ground (arith, h, name_bearing-struct p rr (same p h))
  ]
