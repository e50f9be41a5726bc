-- ===== src/Alias/Rewrite/Hides.antt =====
-- A record that is rewritten names the root zone nowhere.
use shadow_dns.Prelude.{
  ℕ, ◌-◌, ◌≡◌, ◌≢◌, ◌⊎◌, inl, inr, sym, ◌∙◌, subst, Bool, false, [], ◌∷◌, ◌++◌, map, Option, some,
  arith, ◌=?◌, nat_eq, list_eq, length, take, All, Bool-cases,
}
use shadow_dns.Prelude.Partial.{◌>>=◌, >>=-some, some-inj}
use shadow_dns.Names.{Name, lower_byte, is_in_zone_byte_suffix}
use mathlib.Core.List.{map-append}
use shadow_dns.Names.Plain.{IsPlain, has_escape-lower, to_lower-plain, is_in_zone-bare}
use shadow_dns.Dns.Names.{names_in, rr_names}
use shadow_dns.Names.Zones.{Under, Under-byte_suffix}
use shadow_dns.Dns.{
  Rr, Rdata, cname, ns, ptr, dname, mx, kx, afsdb, rt, srv, soa, https, svcb, naptr, rp, px, txt,
  opt, other,
}
use shadow_dns.Alias.{rewrite_name}
use shadow_dns.Alias.Rewrite.{rewrite_value, rewrite_rdata, rewrite_rdata_names, rewrite_rr}

-- Behind dots in one name, one of two zones is behind a dot in the other.
append-Under : (p q a b : Name) → p ++ b'.' ∷ a ≡ q ++ b'.' ∷ b → Under a b ⊎ Under b a
append-Under [] [] a b e = inl (inl (cc e))
append-Under [] (c ∷ q) a b e = inl (inr (q, cc e))
append-Under (c ∷ p) [] a b e = inr (inr (p, cc e))
append-Under (c ∷ p) (d ∷ q) a b e = append-Under p q a b (cc e)

-- Of two zones of a name, one is a zone of the other.
pub Under-comparable : (s a b : Name) → Under s a → Under s b → Under a b ⊎ Under b a
Under-comparable s a b (inl e) v = inl (subst (λ (x : Name). Under x b) e v)
Under-comparable s a b (inr (p, e)) (inl f) = inr (subst (λ (x : Name). Under x a) f (inr (p, e)))
Under-comparable s a b (inr (p, e)) (inr (q, f)) = append-Under p q a b (sym e ∙ f)

-- A name that is not in the zone, whatever the case of its letters.
abbrev pub Hidden : Name → Name → Type 0
Hidden root n = ¬ Under (map lower_byte n) root

nil-ne-append : (p : Name) (c : ℕ) (s : Name) → [] ≢ p ++ c ∷ s
nil-ne-append [] c s e = cc e
nil-ne-append (d ∷ p) c s e = cc e

-- What the rewriting needs of its two zones: neither is a zone of the other.
pub record AreApart (root backup : Name) : Type 0 where
  pub above : Hidden root backup
  pub below : ¬ Under root (map lower_byte backup)

module _ (Q P : Name → Type 0) (f : Name → Option Name)
    (h : (n m : Name) → Q n → f n ≡ some m → P m) where
  one_name :
      (n : Name) (g : Name → Rdata) {d : Rdata}
      → ((m : Name) → P m → All P (names_in (g m)))
      → Q n
      → (f n >>= λ m. some (g m)) ≡ some d
      → All P (names_in d)
  one_name n g k q e =
      let (m, here, e') = >>=-some (f n) _ e in
      subst (λ (x : Rdata). All P (names_in x)) (some-inj e') (k m (h n m q here))

  two_names :
      (a b : Name) (g : Name → Name → Rdata) {d : Rdata}
      → ((m x : Name) → P m → P x → All P (names_in (g m x)))
      → Q a
      → Q b
      → (f a >>= λ m. f b >>= λ x. some (g m x)) ≡ some d
      → All P (names_in d)
  two_names a b g k q r e =
      let (m, here, e') = >>=-some (f a) _ e in
      one_name b (g m) (λ x v. k m x (h a m q here) v) r e'

  -- Where the rule takes names that have `Q` to names that have `P`, so does the rewriting.
  pub rewrite_rdata-All :
      (d : Rdata) {d' : Rdata}
      → All Q (names_in d)
      → rewrite_rdata f d ≡ some d'
      → All P (names_in d')
  unfolding rewrite_rdata
  rewrite_rdata-All (cname n) q e = one_name n cname (λ m v. (v, tt)) q.0 e
  rewrite_rdata-All (ns n) q e = one_name n ns (λ m v. (v, tt)) q.0 e
  rewrite_rdata-All (mx p n) q e = one_name n (mx p) (λ m v. (v, tt)) q.0 e
  rewrite_rdata-All (ptr n) q e = one_name n ptr (λ m v. (v, tt)) q.0 e
  rewrite_rdata-All (srv a b c n) q e = one_name n (srv a b c) (λ m v. (v, tt)) q.0 e
  rewrite_rdata-All (soa n b s1 s2 s3 s4 s5) q e =
      two_names n b (λ m x. soa m x s1 s2 s3 s4 s5) (λ m x v w. (v, (w, tt))) q.0 q.1.0 e
  rewrite_rdata-All (https p n v) q e = one_name n (λ m. https p m v) (λ m v. (v, tt)) q.0 e
  rewrite_rdata-All (svcb p n v) q e = one_name n (λ m. svcb p m v) (λ m v. (v, tt)) q.0 e
  rewrite_rdata-All (dname n) q e = one_name n dname (λ m v. (v, tt)) q.0 e
  rewrite_rdata-All (naptr o p fl s r n) q e =
      one_name n (λ m. naptr o p fl s r m) (λ m v. (v, tt)) q.0 e
  rewrite_rdata-All (rp b t) q e = two_names b t rp (λ m x v w. (v, (w, tt))) q.0 q.1.0 e
  rewrite_rdata-All (kx p n) q e = one_name n (kx p) (λ m v. (v, tt)) q.0 e
  rewrite_rdata-All (afsdb p n) q e = one_name n (afsdb p) (λ m v. (v, tt)) q.0 e
  rewrite_rdata-All (px p a b) q e = two_names a b (px p) (λ m x v w. (v, (w, tt))) q.0 q.1.0 e
  rewrite_rdata-All (rt p n) q e = one_name n (rt p) (λ m v. (v, tt)) q.0 e
  rewrite_rdata-All (txt ts) q e = subst (λ (x : Rdata). All P (names_in x)) (some-inj e) tt
  rewrite_rdata-All (opt os) q e = subst (λ (x : Rdata). All P (names_in x)) (some-inj e) tt
  rewrite_rdata-All (other bs) q e = subst (λ (x : Rdata). All P (names_in x)) (some-inj e) tt

module _ (unicode_lower : Name → Name) (is_sub_domain : Name → Name → Bool) where
  rewritten-Hidden :
      (p root backup : Name) → AreApart root backup → Hidden root (p ++ b'.' ∷ backup)
  unfolding lower_byte
  rewritten-Hidden p root backup apart u =
      let low = map lower_byte backup in
      let v : Under (map lower_byte (p ++ b'.' ∷ backup)) low =
        inr (map lower_byte p, map-append lower_byte p (b'.' ∷ backup)) in
      elim (Under-comparable (map lower_byte (p ++ b'.' ∷ backup)) root low u v) [
        | inl w ↦ apart.below w
        | inr w ↦ apart.above w
      ]

  -- `RewriteName` of a plain name gives a name that is not in the root zone.
  rewrite_name-Hidden :
      (root backup n : Name) {r : Name}
      → AreApart root backup
      → root ≢ []
      → IsPlain n
      → rewrite_name unicode_lower is_sub_domain n root backup ≡ some r
      → Hidden root r
  unfolding rewrite_name
  rewrite_name-Hidden root backup [] apart named plain e =
      subst (Hidden root) (some-inj e)
        (λ u. elim u [ inl h ↦ named (sym h) | inr (p, h) ↦ nil-ne-append p (b'.') root h ])
  rewrite_name-Hidden root backup (c ∷ n) {r} apart named plain e =
      let s : Name = c ∷ n in
      let folded = to_lower-plain unicode_lower s plain in
      let bare = has_escape-lower s ∙ plain.unescaped in
      let zone = is_in_zone-bare is_sub_domain (map lower_byte s) root bare in
      elim (Bool-cases (map lower_byte s =? root)) [
        | inl same ↦
            let there : some backup ≡ some r = ground (arith, e, folded, same) in
            subst (Hidden root) (some-inj there) apart.above
        | inr differs ↦ elim (Bool-cases (is_in_zone_byte_suffix (map lower_byte s) root)) [
          | inl inside ↦
              let there : some (take (length s - length root - 1) s ++ b'.' ∷ backup) ≡ some r =
                ground (arith, e, folded, differs, zone, inside) in
              subst (Hidden root) (some-inj there)
                (rewritten-Hidden (take (length s - length root - 1) s) root backup apart)
          | inr outside ↦
              let there : some s ≡ some r = ground (arith, e, folded, differs, zone, outside) in
              subst (Hidden root) (some-inj there)
                (λ u. cc (outside, Under-byte_suffix (map lower_byte s) root u))
        ]
      ]

  -- Of a record whose names are plain, `RewriteRR` without the rule for labels leaves no name in
  -- the root zone, where neither of the two zones is a zone of the other and the root zone has a
  -- name. The owner and the names in the data of the types that the rewriting covers are meant, case
  -- aside.
  pub rewrite_rr-Hidden :
      (root backup : Name) (rr : Rr) {r : Rr}
      → AreApart root backup
      → root ≢ []
      → All IsPlain (rr_names rr)
      → rewrite_rr unicode_lower is_sub_domain root backup false rr ≡ some r
      → All (Hidden root) (rr_names r)
  unfolding rewrite_rr rewrite_rdata_names rewrite_value
  rewrite_rr-Hidden root backup rr {r} apart named (plain, plains) e =
      let rule = λ (n : Name). rewrite_name unicode_lower is_sub_domain n root backup in
      let hides = λ (n m : Name) (p : IsPlain n) (q : rule n ≡ some m).
        rewrite_name-Hidden root backup n apart named p q in
      let (owner, here, e') = >>=-some (rule rr.name) _ e in
      let (d, there, e'') = >>=-some (rewrite_rdata rule rr.rdata) _ e' in
      subst (λ (x : Rr). All (Hidden root) (rr_names x)) (some-inj e'')
        (
          hides rr.name owner plain here,
          rewrite_rdata-All IsPlain (Hidden root) rule hides rr.rdata plains there,
        )
