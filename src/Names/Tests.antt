-- ===== src/Names/Tests.antt =====
-- Names on concrete input.
use shadow_dns.Prelude.{◌≡◌, ◌↔◌, refl, true, ◌++◌, map}
use shadow_dns.Names.{
  Name, codes, is_ascii, is_already_lookup_key, ends_with_dot, lookup_key, to_lower, trim_dot,
  lower_byte, canonicalize, is_in_zone_byte_suffix,
}
use shadow_dns.Names.Fold.{dot, lookup_key-eq-slow, lookup_key_eq_iff}
use shadow_dns.Names.Zones.{Under, is_in_zone_byte_suffix_iff}

-- The case mapping of a text that is not ASCII, where nothing has a case.
abbrev no_case : Name → Name
no_case s = s

abbrev mixed : Name
mixed = codes "Www.Example.COM"

abbrev dotted : Name
dotted = codes "wWW.example.com."

folded : lookup_key no_case mixed ≡ codes "www.example.com."
unfolding lookup_key is_already_lookup_key ends_with_dot to_lower is_ascii trim_dot lower_byte
folded = refl

lookup_key-eq-slow_example : lookup_key no_case mixed ≡ to_lower no_case (trim_dot mixed) ++ dot
lookup_key-eq-slow_example = lookup_key-eq-slow no_case mixed (λ p. cc)

lookup_key_eq_iff_example :
    (lookup_key no_case mixed ≡ lookup_key no_case dotted)
    ↔ (map lower_byte (canonicalize mixed) ≡ map lower_byte (canonicalize dotted))
unfolding is_ascii
lookup_key_eq_iff_example = lookup_key_eq_iff no_case mixed dotted (λ p. cc) (λ p. cc) refl refl

abbrev host : Name
host = codes "a.b.example."

abbrev zone : Name
zone = codes "b.example."

is_in_zone_byte_suffix_iff_example : (is_in_zone_byte_suffix host zone ≡ true) ↔ Under host zone
is_in_zone_byte_suffix_iff_example = is_in_zone_byte_suffix_iff host zone
