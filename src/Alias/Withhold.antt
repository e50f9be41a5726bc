-- ===== src/Alias/Withhold.antt =====
-- internal/alias/classify.go: the records that are withheld from the answers of backup zones.
pub mod Partition
use shadow_dns.Prelude.{
  ℕ, Bool, true, false, ◌||◌, List, [], ◌∷◌, ◌++◌, Option, none, some, Equality, ◌=?◌, ◌==◌, nat_eq,
  list_eq, if◌then◌else◌, any,
}
use shadow_dns.Names.{Name, codes}
use shadow_dns.Dns.TypeCode
use shadow_dns.Dns.{Rr}
use shadow_dns.Dns.Library.{
  Library, StructType, no_fields, header_field, embedded_struct, embedded_other, tagged_field,
}

pub data RrClass : Type 0 where
  class_covered class_no_name class_uncovered_name : RrClass

pub record WithheldRecord : Type 0 where
  pub rrtype : ℕ
  pub owner : Name

-- `coveredRRTypes`
abbrev pub covered_rr_types : List ℕ
covered_rr_types =
    TypeCode.cname ∷ TypeCode.ns ∷ TypeCode.mx ∷ TypeCode.ptr ∷ TypeCode.srv ∷ TypeCode.soa
    ∷ TypeCode.https ∷ TypeCode.svcb ∷ TypeCode.dname ∷ TypeCode.naptr ∷ TypeCode.rp ∷ TypeCode.kx
    ∷ TypeCode.afsdb ∷ TypeCode.px ∷ TypeCode.rt ∷ []

unfoldable pub is_covered : ℕ → Bool
is_covered rrtype = any (λ t. t == rrtype) covered_rr_types

-- The tags of a field that holds a domain name.
unfoldable pub is_name_tag : Name → Bool
is_name_tag tag =
    (tag =? codes "domain-name")
    || (tag =? codes "cdomain-name")
    || (tag =? codes "ipsechost")
    || tag =? codes "amtrelayhost"

-- `structHasNameTag`
unfoldable pub struct_has_name_tag : StructType → Bool
unfolding is_name_tag
struct_has_name_tag no_fields = false
struct_has_name_tag (header_field st) = struct_has_name_tag st
struct_has_name_tag (embedded_struct ft st) = struct_has_name_tag ft || struct_has_name_tag st
struct_has_name_tag (embedded_other st) = struct_has_name_tag st
struct_has_name_tag (tagged_field tag st) = is_name_tag tag || struct_has_name_tag st

abbrev pub withheld_record : Rr → WithheldRecord
withheld_record rr = record { rrtype = rr.rrtype; owner = rr.name }

module _ (lib : Library) where
  unfoldable pub has_name_bearing_rdata : Rr → Bool
  unfolding struct_has_name_tag
  has_name_bearing_rdata rr = elim (lib.struct_of rr) [
    | none ↦ false
    | some st ↦ struct_has_name_tag st
  ]

  -- `classByRRType`, at one of its keys.
  unfoldable pub class_by_rr_type : ℕ → Option RrClass
  class_by_rr_type rrtype = elim (lib.new_rr rrtype) [
    | none ↦ none
    | some rr ↦ some (
        if is_covered rrtype
        then class_covered
        else if has_name_bearing_rdata rr
        then class_uncovered_name
        else class_no_name)
  ]

  unfoldable pub classify_rr : Rr → RrClass
  unfolding class_by_rr_type
  classify_rr rr = elim (class_by_rr_type rr.rrtype) [
    | some c ↦ c
    | none ↦ if has_name_bearing_rdata rr then class_uncovered_name else class_no_name
  ]

  -- The test `classifyRR(rr) == classUncoveredName`.
  unfoldable pub is_uncovered : Rr → Bool
  unfolding classify_rr
  is_uncovered rr = elim (classify_rr rr) [ class_uncovered_name ↦ true | _ ↦ false ]

  -- The inner loop of `FilterBackupRRs`, with what it has kept and withheld.
  unfoldable pub filter_rest :
      List Rr → List WithheldRecord → List Rr → List Rr × List WithheldRecord
  unfolding is_uncovered
  filter_rest kept withheld [] = (kept, withheld)
  filter_rest kept withheld (r ∷ rrs) =
      filter_rest (if is_uncovered r then kept else kept ++ r ∷ [])
        (if is_uncovered r then withheld ++ withheld_record r ∷ [] else withheld) rrs

  -- The outer loop, behind the records that it has passed.
  unfoldable pub filter_from : List Rr → List Rr → List Rr × List WithheldRecord
  unfolding filter_rest
  filter_from passed [] = (passed, [])
  filter_from passed (rr ∷ rrs) =
      let next = filter_from (passed ++ rr ∷ []) rrs in
      if is_uncovered rr then filter_rest passed (withheld_record rr ∷ []) rrs else next

  unfoldable pub filter_backup_rrs : List Rr → List Rr × List WithheldRecord
  unfolding filter_from
  filter_backup_rrs rrs = filter_from [] rrs
