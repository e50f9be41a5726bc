-- ===== src/Alias/RoundTrip.antt =====
-- A query name rewritten into the root zone, and the answer's name rewritten back.
use shadow_dns.Prelude.{
  ℕ, suc, ◌+◌, ◌-◌, ◌≤◌, ◌≡◌, ◌≢◌, inl, inr, refl, sym, ◌∙◌, ap, subst, Bool, true, false, [], ◌∷◌,
  ◌++◌, some, arith, ltb, leb, ◌=?◌, =?-refl, =?-ne, nat_eq, list_eq, length, take, length-append,
  take-append, drop-append,
}
use shadow_dns.Names.{Name, to_lower, has_escape, is_in_zone, is_in_zone_byte_suffix}
use shadow_dns.Names.Zones.{byte_suffix-Under, Under-byte_suffix}
use shadow_dns.Alias.{rewrite_qname, rewrite_name}

length-behind : (p zone : Name) → length (p ++ b'.' ∷ zone) ≡ length p + suc (length zone)
length-behind p zone = length-append p (b'.' ∷ zone)

longer : (p zone : Name) → (p ++ b'.' ∷ zone =? zone) ≡ false
longer p zone =
    =?-ne (p ++ b'.' ∷ zone) zone
      (λ e. absurd (omega (arith, ap (λ (s : Name). length s) e, length-behind p zone)))

front : (p zone : Name) → length (p ++ b'.' ∷ zone) - suc (length zone) ≡ length p
front p zone = omega (arith, length-behind p zone)

-- A name that ends in the backup zone behind a dot keeps what is before the dot.
rewrite_qname-append :
    (p backup root : Name) → rewrite_qname (p ++ b'.' ∷ backup) backup root ≡ p ++ b'.' ∷ root
unfolding rewrite_qname
rewrite_qname-append p backup root =
    let fits : leb (suc (length backup)) (length (p ++ b'.' ∷ backup)) ≡ true =
      ground (arith, length-behind p backup) in
    rw
      (
        longer p backup,
        front p backup,
        take-append p (b'.' ∷ backup),
        drop-append p (b'.' ∷ backup),
        fits,
        =?-refl (b'.' ∷ backup),
      )
      refl

rewrite_qname-apex :
    (qname backup root : Name) → qname ≡ backup → rewrite_qname qname backup root ≡ root
unfolding rewrite_qname
rewrite_qname-apex qname backup root e = rw (e, =?-refl backup) refl

module _ (unicode_lower : Name → Name) (is_sub_domain : Name → Name → Bool) where
  -- A folded name that is behind the root zone and has no escape.
  rewrite_name-behind :
      (n root backup : Name)
      → to_lower unicode_lower n ≡ n
      → has_escape n ≡ false
      → (n =? root) ≡ false
      → is_in_zone_byte_suffix n root ≡ true
      → length root + 1 ≤ length n
      → rewrite_name unicode_lower is_sub_domain n root backup
        ≡ some (take (length n - length root - 1) n ++ b'.' ∷ backup)
  unfolding rewrite_name is_in_zone
  rewrite_name-behind [] root backup folded plain other inside long = absurd (omega (arith, long))
  rewrite_name-behind (c ∷ n) root backup folded plain other inside long =
      let fits : ltb (length (c ∷ n)) (length root + 1) ≡ false = ground (arith, long) in
      rw (folded, other, plain, fits, inside) (ground (arith, plain, inside))

  -- `RewriteName` takes a folded name without an escape, in the root zone, to the backup zone.
  rewrite_name-append :
      (p root backup : Name)
      → to_lower unicode_lower (p ++ b'.' ∷ root) ≡ p ++ b'.' ∷ root
      → has_escape (p ++ b'.' ∷ root) ≡ false
      → rewrite_name unicode_lower is_sub_domain (p ++ b'.' ∷ root) root backup
        ≡ some (p ++ b'.' ∷ backup)
  rewrite_name-append p root backup folded plain =
      let n = p ++ b'.' ∷ root in
      let cut : length n - length root - 1 ≡ length p = omega (arith, length-behind p root) in
      rewrite_name-behind n root backup folded plain (longer p root)
        (Under-byte_suffix n root (inr (p, refl))) (omega (arith, length-behind p root))
      ∙ ap (λ (i : ℕ). some (take i n ++ b'.' ∷ backup)) cut
      ∙ ap (λ (s : Name). some (s ++ b'.' ∷ backup)) (take-append p (b'.' ∷ root))

  rewrite_name-root :
      (root backup : Name)
      → root ≢ []
      → to_lower unicode_lower root ≡ root
      → rewrite_name unicode_lower is_sub_domain root root backup ≡ some backup
  unfolding rewrite_name
  rewrite_name-root root backup h folded =
      let named : (root =? []) ≡ false = =?-ne root [] h in rw (named, folded, =?-refl root) refl

  -- A name of the backup zone, rewritten into the root zone, is rewritten back to what it was,
  -- where the name in the root zone is folded and has no escape, and the root zone has a name.
  pub rewrite_name-rewrite_qname :
      (qname root backup : Name)
      → is_in_zone_byte_suffix qname backup ≡ true
      → root ≢ []
      → to_lower unicode_lower (rewrite_qname qname backup root) ≡ rewrite_qname qname backup root
      → has_escape (rewrite_qname qname backup root) ≡ false
      → rewrite_name unicode_lower is_sub_domain (rewrite_qname qname backup root) root backup
        ≡ some qname
  rewrite_name-rewrite_qname qname root backup inside named folded plain =
      elim (byte_suffix-Under qname backup inside) [
        | inl e ↦
            let there = rewrite_qname-apex qname backup root e in
            ap (λ (s : Name). rewrite_name unicode_lower is_sub_domain s root backup) there
            ∙ rewrite_name-root root backup named
                (subst (λ (s : Name). to_lower unicode_lower s ≡ s) there folded)
            ∙ ap (λ (s : Name). some s) (sym e)
        | inr (p, e) ↦
            let there =
              ap (λ (s : Name). rewrite_qname s backup root) e
              ∙ rewrite_qname-append p backup root in
            ap (λ (s : Name). rewrite_name unicode_lower is_sub_domain s root backup) there
            ∙ rewrite_name-append p root backup
                (subst (λ (s : Name). to_lower unicode_lower s ≡ s) there folded)
                (subst (λ (s : Name). has_escape s ≡ false) there plain)
            ∙ ap (λ (s : Name). some s) (sym e)
      ]
