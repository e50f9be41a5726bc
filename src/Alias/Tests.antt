-- ===== src/Alias/Tests.antt =====
-- Backup zones on concrete input.
use shadow_dns.Prelude.{
  ◌≡◌, ◌⊎◌, refl, Bool, true, false, List, [], ◌∷◌, some, any, ◌=?◌, list_eq, nat_eq,
}
use shadow_dns.Prelude.Map.{lookup}
use shadow_dns.Names.{
  Name, codes, is_ascii, lower_byte, to_lower, has_escape, is_in_zone_byte_suffix,
}
use shadow_dns.Alias.{is_match, detect, rewrite_qname, rewrite_name}
use shadow_dns.Alias.Longest.{Longest, detect-Longest}
use shadow_dns.Alias.RoundTrip.{rewrite_name-rewrite_qname}

-- The case mapping of a text that is not ASCII, where nothing has a case.
abbrev kept_case : Name → Name
kept_case s = s

-- No escaped name is below another.
abbrev no_sub_domain : Name → Name → Bool
no_sub_domain zone name = false

abbrev query : Name
query = codes "a.b.example."

abbrev loaded : List Name
loaded = codes "example." ∷ codes "b.example." ∷ codes "org." ∷ []

longest : (detect no_sub_domain query loaded []).matched_zone ≡ codes "b.example."
unfolding detect has_escape is_in_zone_byte_suffix lookup
longest = refl

detect-Longest_example :
    Longest no_sub_domain query ((detect no_sub_domain query loaded []).matched_zone) loaded
    × (((detect no_sub_domain query loaded []).matched_zone ≡ [])
        ⊎ ((is_match no_sub_domain query ((detect no_sub_domain query loaded []).matched_zone)
              ≡ true)
            × (any (λ (z : Name). z =? (detect no_sub_domain query loaded []).matched_zone) loaded
                ≡ true)))
detect-Longest_example = detect-Longest no_sub_domain query loaded [] (λ p. cc)

rewrite_name-rewrite_qname_example :
    rewrite_name kept_case no_sub_domain
      (rewrite_qname query (codes "b.example.") (codes "root.org."))
      (codes "root.org.")
      (codes "b.example.")
    ≡ some query
unfolding is_in_zone_byte_suffix rewrite_qname to_lower has_escape is_ascii lower_byte
rewrite_name-rewrite_qname_example =
    rewrite_name-rewrite_qname kept_case no_sub_domain query (codes "root.org.")
      (codes "b.example.") refl (λ p. cc) refl refl
