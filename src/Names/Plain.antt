-- ===== src/Names/Plain.antt =====
-- Names of ASCII letters without an escape: on these the functions of this component need none of the
-- library's.
use shadow_dns.Prelude.{
  ℕ, zero, suc, take, ◌++◌, ◌≡◌, refl, ◌∙◌, Bool, true, false, [], ◌∷◌, map, arith, ◌==◌,
}
use shadow_dns.Names.{
  Name, to_lower, lower_byte, is_ascii, has_escape, is_in_zone, is_in_zone_byte_suffix,
}
use shadow_dns.Names.Fold.{is_ascii-lower}

-- A name of ASCII letters without an escape.
pub record IsPlain (n : Name) : Type 0 where
  pub ascii : is_ascii n ≡ true
  pub unescaped : has_escape n ≡ false

lower_byte-escape : (c : ℕ) → (lower_byte c == b'\\') ≡ (c == b'\\')
unfolding lower_byte
lower_byte-escape c = ground arith

pub has_escape-lower : (s : Name) → has_escape (map lower_byte s) ≡ has_escape s
unfolding has_escape
has_escape-lower [] = refl
has_escape-lower (c ∷ s) = rw (lower_byte-escape c, has_escape-lower s) refl

pub to_lower-plain :
    (unicode_lower : Name → Name) (n : Name)
    → IsPlain n
    → to_lower unicode_lower n ≡ map lower_byte n
unfolding to_lower
to_lower-plain unicode_lower n plain = rw plain.ascii refl

-- The fold of a plain name is plain.
pub IsPlain-lower : (n : Name) → IsPlain n → IsPlain (map lower_byte n)
IsPlain-lower n plain = record {
  ascii = is_ascii-lower n plain.ascii;
  unescaped = has_escape-lower n ∙ plain.unescaped;
}

pub IsPlain-take : (i : ℕ) (n : Name) → IsPlain n → IsPlain (take i n)
unfolding is_ascii has_escape
IsPlain-take zero n h = record { ascii = refl; unescaped = refl }
IsPlain-take (suc i) [] h = record { ascii = refl; unescaped = refl }
IsPlain-take (suc i) (c ∷ n) h =
    let tail : IsPlain n = record {
      ascii = ground (arith, h.ascii);
      unescaped = ground (arith, h.unescaped);
    } in
    let rest = IsPlain-take i n tail in
    record {
      ascii = ground (arith, h.ascii, rest.ascii);
      unescaped = ground (arith, h.unescaped, rest.unescaped);
    }

pub IsPlain-append : (n m : Name) → IsPlain n → IsPlain m → IsPlain (n ++ m)
unfolding is_ascii has_escape
IsPlain-append [] m h k = k
IsPlain-append (c ∷ n) m h k =
    let tail : IsPlain n = record {
      ascii = ground (arith, h.ascii);
      unescaped = ground (arith, h.unescaped);
    } in
    let rest = IsPlain-append n m tail k in
    record {
      ascii = ground (arith, h.ascii, rest.ascii);
      unescaped = ground (arith, h.unescaped, rest.unescaped);
    }

pub IsPlain-dot : (n : Name) → IsPlain n → IsPlain (b'.' ∷ n)
unfolding is_ascii has_escape
IsPlain-dot n h = record {
  ascii = ground (arith, h.ascii);
  unescaped = ground (arith, h.unescaped);
}

module _ (is_sub_domain : Name → Name → Bool) where
  -- The membership test on a name without an escape.
  pub is_in_zone-bare :
      (s zone : Name)
      → has_escape s ≡ false
      → is_in_zone is_sub_domain s zone ≡ is_in_zone_byte_suffix s zone
  unfolding is_in_zone
  is_in_zone-bare s zone bare = ground (arith, bare)
