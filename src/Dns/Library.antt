-- ===== src/Dns/Library.antt =====
-- The functions of the Go libraries that the answers are computed with, in one value. None of them
-- is described here; what a theorem needs of one is a hypothesis of it.
use shadow_dns.Prelude.{ℕ, Bool, Option}
use shadow_dns.Names.{Name}
use shadow_dns.Dns.{Rr}

-- A struct type as `reflect` shows it, field by field: the record header, an embedded struct or
-- pointer to one, an embedded type of another kind, or a field with the value of its `dns` tag.
pub data StructType : Type 0 where
  no_fields : StructType
  header_field : StructType → StructType
  embedded_struct : StructType → StructType → StructType
  embedded_other : StructType → StructType
  tagged_field : Name → StructType → StructType

pub record Library : Type 0 where
  -- `strings.ToLower` on a text that is not ASCII
  pub unicode_lower : Name → Name
  -- `dns.NextLabel(name, 0)`
  pub next_label : Name → Option ℕ
  -- `dns.IsSubDomain(parent, child)`
  pub is_sub_domain : Name → Name → Bool
  -- `dns.TypeToRR`, called
  pub new_rr : ℕ → Option Rr
  -- the struct type of a record, where its type is a struct or a pointer to one
  pub struct_of : Rr → Option StructType
