-- ===== src/Dns/Samples.antt =====
-- Concrete values for tests: libraries, and records.
use shadow_dns.Prelude.{ℕ, false, Option, none, some, List, [], if◌then◌else◌, ◌==◌}
use shadow_dns.Names.{Name, codes}
use shadow_dns.Dns.TypeCode
use shadow_dns.Dns.{Rr, cname, other}
use shadow_dns.Dns.Library.{Library, StructType, no_fields, header_field, tagged_field}

-- For names of ASCII letters without an escape, and with no type known.
abbrev pub plain_library : Library
plain_library = record {
  unicode_lower = λ s. s;
  next_label = λ s. none;
  is_sub_domain = λ zone s. false;
  new_rr = λ rrtype. none;
  struct_of = λ rr. none;
}

abbrev pub cname_rr : Name → Name → Rr
cname_rr owner target = record {
  name = owner;
  rrtype = TypeCode.cname;
  class = 1;
  ttl = 60;
  rdata = cname target;
}

abbrev pub address_rr : Name → List ℕ → Rr
address_rr owner bytes = record {
  name = owner;
  rrtype = 1;
  class = 1;
  ttl = 60;
  rdata = other bytes;
}

-- A record of type MINFO, with its data as bytes.
abbrev pub minfo_rr : Name → List ℕ → Rr
minfo_rr owner bytes = record {
  name = owner;
  rrtype = 14;
  class = 1;
  ttl = 60;
  rdata = other bytes;
}

-- The type of a record of A (1), of MINFO (14) with two names, or of CNAME.
abbrev pub struct_at : ℕ → Option StructType
struct_at rrtype =
    if rrtype == 1
    then some (header_field (tagged_field (codes "a") no_fields))
    else if rrtype == 14
    then some (
        header_field
          (tagged_field (codes "cdomain-name") (tagged_field (codes "cdomain-name") no_fields)))
    else if rrtype == TypeCode.cname
    then some (header_field (tagged_field (codes "cdomain-name") no_fields))
    else none

-- The same library, which knows these types.
abbrev pub typed_library : Library
typed_library = record plain_library {
  new_rr = λ rrtype.
      if rrtype == 1
      then some (address_rr [] [])
      else if rrtype == 14
      then some (minfo_rr [] [])
      else if rrtype == TypeCode.cname
      then some (cname_rr [] [])
      else none;
  struct_of = λ (rr : Rr). struct_at rr.rrtype;
}
