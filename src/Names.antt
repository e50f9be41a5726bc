-- ===== src/Names.antt =====
-- internal/dnsutil/dnsutil.go: names in presentation form, their canonical and lookup forms, and
-- membership of a zone. A name is the list of its bytes, as Go's strings are.
-- `strings.ToLower` folds the ASCII letters of a text that is all ASCII, and maps the letters of
-- any other text by the Unicode tables: that map is the parameter `unicode_lower`.
-- `dns.IsSubDomain` (github.com/miekg/dns) is the parameter `is_sub_domain`.
pub mod Fold
pub mod Plain
pub mod Zones
mod Tests
use Prim.Native.Char.{code}
use Prim.Native.String.{String}
use shadow_dns.Prelude.{
  ℕ, zero, suc, ◌+◌, ◌-◌, Bool, true, false, ◌&&◌, ◌||◌, not, List, [], ◌∷◌, ◌++◌, map, Option,
  none, some, ltb, leb, ◌==◌, ◌=?◌, nat_eq, list_eq, if◌then◌else◌, length, drop, any,
}

abbrev pub Name : Type 0
Name = List ℕ

-- The bytes of an ASCII text.
abbrev pub codes : String → Name
codes String.[] = []
codes (String.◌∷◌ c s) = code c ∷ codes s

-- `s[i]`; the callers stay in range, where Go would panic outside it.
unfoldable pub byte_at : Name → ℕ → Option ℕ
byte_at [] i = none
byte_at (c ∷ s) zero = some c
byte_at (c ∷ s) (suc i) = byte_at s i

-- `strings.TrimSuffix(name, ".")`
unfoldable pub trim_dot : Name → Name
trim_dot [] = []
trim_dot (c ∷ []) = if c == b'.' then [] else c ∷ []
trim_dot (c ∷ d ∷ s) = c ∷ trim_dot (d ∷ s)

-- `strings.ToLower` on one ASCII byte
unfoldable pub lower_byte : ℕ → ℕ
lower_byte c = if leb b'A' c && leb c b'Z' then c + 32 else c

unfoldable pub is_ascii : Name → Bool
is_ascii [] = true
is_ascii (c ∷ s) = ltb c 0x80 && is_ascii s

unfoldable pub canonicalize : Name → Name
canonicalize [] = []
canonicalize (c ∷ s) = trim_dot (c ∷ s) ++ b'.' ∷ []

-- The test `s[n-1] == '.'`.
unfoldable pub ends_with_dot : Name → Bool
ends_with_dot [] = false
ends_with_dot (c ∷ []) = c == b'.'
ends_with_dot (c ∷ d ∷ s) = ends_with_dot (d ∷ s)

-- A byte that the loop of `isAlreadyLookupKey` lets pass.
unfoldable pub is_folded_byte : ℕ → Bool
is_folded_byte c = not (leb b'A' c && leb c b'Z') && not (leb 0x80 c)

-- The loop of `isAlreadyLookupKey`, over all bytes but the last.
unfoldable pub all_but_last_folded : Name → Bool
all_but_last_folded [] = true
all_but_last_folded (c ∷ []) = true
all_but_last_folded (c ∷ d ∷ s) = is_folded_byte c && all_but_last_folded (d ∷ s)

unfoldable pub is_already_lookup_key : Name → Bool
is_already_lookup_key s = ends_with_dot s && all_but_last_folded s

module _ (unicode_lower : Name → Name) where
  unfoldable pub to_lower : Name → Name
  to_lower s = if is_ascii s then map lower_byte s else unicode_lower s

  unfoldable pub lookup_key : Name → Name
  lookup_key [] = []
  lookup_key (c ∷ s) =
      if is_already_lookup_key (c ∷ s) then c ∷ s else to_lower (trim_dot (c ∷ s)) ++ b'.' ∷ []

unfoldable pub has_escape : Name → Bool
has_escape name = any (λ c. c == b'\\') name

-- The test `name[offset-1] == '.'`.
unfoldable pub dot_at : Name → ℕ → Bool
unfolding byte_at
dot_at name i = elim (byte_at name i) [ none ↦ false | some c ↦ c == b'.' ]

-- `offset > 0` holds exactly when the truncated difference is positive.
unfoldable pub is_in_zone_byte_suffix : Name → Name → Bool
unfolding dot_at
is_in_zone_byte_suffix name zone =
    if name =? zone
    then true
    else (let offset = length name - length zone in
        ltb 0 offset && dot_at name (offset - 1) && drop offset name =? zone)

abbrev pub root_name : Name
root_name = b'.' ∷ []

module _ (is_sub_domain : Name → Name → Bool) where
  unfoldable pub is_in_zone : Name → Name → Bool
  is_in_zone name zone =
      if not (zone =? root_name) && has_escape name
      then is_sub_domain zone name
      else is_in_zone_byte_suffix name zone
