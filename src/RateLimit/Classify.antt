-- ===== src/RateLimit/Classify.antt =====
-- internal/ratelimit/classify.go and key.go: the category of a response, and the name under which
-- it is accounted.
pub mod Names
use shadow_dns.Prelude.{
  ℕ, ◌≡◌, ◌↔◌, refl, Bool, true, false, List, [], ◌∷◌, Option, none, some, arith, ◌==◌, Equality,
  if◌then◌else◌,
}
use shadow_dns.Names.{Name, lookup_key}
use shadow_dns.Dns.Rcode
use shadow_dns.Dns.{Rr, Msg, Question, soa}

-- `Category`, with the pseudo-category `categoryAll` of the limiter.
pub data Category : Type 0 where
  responses nodata nxdomains errors all_responses : Category

abbrev pub category_eqb : Category → Category → Bool
category_eqb responses responses = true
category_eqb nodata nodata = true
category_eqb nxdomains nxdomains = true
category_eqb errors errors = true
category_eqb all_responses all_responses = true
category_eqb _ _ = false

pub category_eqb_iff : (a b : Category) → (category_eqb a b ≡ true) ↔ (a ≡ b)
category_eqb_iff a b = ground arith

instance abbrev pub category_eq : Equality Category
category_eq = record { eqb = category_eqb; eqb_iff = category_eqb_iff }

-- The number that the constant has in Go.
unfoldable pub category_code : Category → ℕ
category_code responses = 0
category_code nodata = 1
category_code nxdomains = 2
category_code errors = 3
category_code all_responses = 4

-- `ClassifyResponse`
unfoldable pub classify_response : Msg → Category
classify_response m =
    if m.rcode == Rcode.success
    then elim m.answer [ [] ↦ nodata | rr ∷ rest ↦ responses ]
    else if m.rcode == Rcode.name_error
    then nxdomains
    else errors

-- The owner of the first record that is a `*dns.SOA`, as the loop over `m.Ns` finds it.
unfoldable pub soa_owner : List Rr → Option Name
soa_owner [] = none
soa_owner (rr ∷ rest) = elim rr.rdata [ soa n b s1 s2 s3 s4 s5 ↦ some rr.name | _ ↦ soa_owner rest ]

module _ (unicode_lower : Name → Name) where
  abbrev key_or_empty : Option Name → Name
  key_or_empty none = []
  key_or_empty (some n) = lookup_key unicode_lower n

  -- `ImputedName`
  unfoldable pub imputed_name : Msg → Category → Name
  unfolding soa_owner
  imputed_name m responses = elim m.question [
    | [] ↦ []
    | q ∷ rest ↦ lookup_key unicode_lower q.name
  ]
  imputed_name m nodata = key_or_empty (soa_owner m.ns)
  imputed_name m nxdomains = key_or_empty (soa_owner m.ns)
  imputed_name m errors = []
  imputed_name m all_responses = []
