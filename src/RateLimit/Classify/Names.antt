-- ===== src/RateLimit/Classify/Names.antt =====
-- Which responses share an account name.
use shadow_dns.Prelude.{◌≡◌, List, [], ◌∷◌, ◌≢◌, map, true}
use shadow_dns.Names.{Name, is_ascii, lower_byte, canonicalize}
use shadow_dns.Names.Fold.{lookup_key_eq_iff}
use shadow_dns.Dns.{Msg, Question}
use shadow_dns.RateLimit.Classify.{responses, imputed_name}

module _ (unicode_lower : Name → Name) where
  -- Positive answers to two questions whose names are ASCII and differ in the case of letters, or
  -- in a trailing dot, are accounted under one name.
  pub imputed_name-case :
      (m m' : Msg) (q q' : Question) (rest rest' : List Question)
      → m.question ≡ q ∷ rest
      → m'.question ≡ q' ∷ rest'
      → q.name ≢ []
      → q'.name ≢ []
      → is_ascii q.name ≡ true
      → is_ascii q'.name ≡ true
      → map lower_byte (canonicalize q.name) ≡ map lower_byte (canonicalize q'.name)
      → imputed_name unicode_lower m responses ≡ imputed_name unicode_lower m' responses
  unfolding imputed_name
  imputed_name-case m m' q q' rest rest' e e' n n' a a' same =
      rw (e, e') ((lookup_key_eq_iff unicode_lower q.name q'.name n n' a a').1 same)
