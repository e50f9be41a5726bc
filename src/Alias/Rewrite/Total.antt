-- ===== src/Alias/Rewrite/Total.antt =====
-- Where the rewriting does not panic.
use shadow_dns.Prelude.{
  ◌+◌, ◌-◌, ◌≤◌, ◌≡◌, inl, inr, refl, =?-refl, subst, ◌∙◌, ap, Bool, true, false, List, [], ◌∷◌,
  ◌++◌, map, Option, some, arith, ltb, ◌=?◌, nat_eq, list_eq, length, take, All, Bool-cases,
  length-append,
}
use shadow_dns.Prelude.Partial.{◌>>=◌}
use shadow_dns.Names.{Name, lower_byte, is_in_zone_byte_suffix}
use shadow_dns.Names.Plain.{
  IsPlain, IsPlain-append, IsPlain-take, IsPlain-dot, has_escape-lower, to_lower-plain,
  is_in_zone-bare,
}
use shadow_dns.Names.Zones.{byte_suffix-Under}
use shadow_dns.Dns.{
  Rr, Rdata, cname, ns, ptr, dname, mx, kx, afsdb, rt, srv, soa, https, svcb, naptr, rp, px, txt,
  opt, other,
}
use shadow_dns.Dns.Names.{names_in, rr_names}
use shadow_dns.Alias.{rewrite_name}
use shadow_dns.Alias.Rewrite.{rewrite_rr, rewrite_rdata, rewrite_rdata_names, rewrite_value}

-- There is a result.
abbrev pub IsSome {ℓ} : {A : Type ℓ} → Option A → Type ℓ
IsSome {A} o = (a : A) × (o ≡ some a)

length-fold : (s : Name) → length (map lower_byte s) ≡ length s
length-fold [] = refl
length-fold (c ∷ s) = omega (arith, length-fold s)

-- A name that is behind a zone is longer than the zone.
Under-longer :
    (s zone : Name)
    → (s =? zone) ≡ false
    → is_in_zone_byte_suffix s zone ≡ true
    → length zone + 1 ≤ length s
Under-longer s zone differs h = elim (byte_suffix-Under s zone h) [
  | inl e ↦
      let same : (s =? zone) ≡ true = subst (λ (x : Name). (s =? x) ≡ true) e (=?-refl s) in
      absurd (cc (same, differs))
  | inr (p, e) ↦ omega (arith, ap (λ (t : Name). length t) e, length-append p (b'.' ∷ zone))
]

module _ (unicode_lower : Name → Name) (is_sub_domain : Name → Name → Bool) where
  -- `RewriteName` of a plain name does not panic, and into a plain zone answers a plain name.
  pub rewrite_name-IsPlain :
      (n root backup : Name)
      → IsPlain n
      → (r : Name) × (rewrite_name unicode_lower is_sub_domain n root backup ≡ some r)
        × (IsPlain backup → IsPlain r)
  unfolding rewrite_name
  rewrite_name-IsPlain [] root backup plain = ([], refl, λ h. plain)
  rewrite_name-IsPlain (c ∷ n) root backup plain =
      let s : Name = c ∷ n in
      let folded = to_lower-plain unicode_lower s plain in
      let bare = has_escape-lower s ∙ plain.unescaped in
      let zone = is_in_zone-bare is_sub_domain (map lower_byte s) root bare in
      elim (Bool-cases (map lower_byte s =? root)) [
        | inl same ↦ (backup, ground (arith, folded, same), λ h. h)
        | inr differs ↦ elim (Bool-cases (is_in_zone_byte_suffix (map lower_byte s) root)) [
          | inl inside ↦
              let long = Under-longer (map lower_byte s) root differs inside in
              let fits : ltb (length s) (length root + 1) ≡ false =
                ground (arith, long, length-fold s) in
              let front = take (length s - length root - 1) s in
              (
                front ++ b'.' ∷ backup,
                ground (arith, folded, differs, zone, inside, fits),
                λ h.
                    IsPlain-append front (b'.' ∷ backup) (IsPlain-take _ s plain)
                      (IsPlain-dot backup h),
              )
          | inr outside ↦ (s, ground (arith, folded, differs, zone, outside), λ h. plain)
        ]
      ]

module _ (f : Name → Option Name) where
  one_total : (n : Name) (g : Name → Rdata) → IsSome (f n) → IsSome (f n >>= λ m. some (g m))
  one_total n g (m, e) = (g m, rw e refl)

  two_total :
      (a b : Name) (g : Name → Name → Rdata)
      → IsSome (f a)
      → IsSome (f b)
      → IsSome (f a >>= λ m. f b >>= λ x. some (g m x))
  two_total a b g (m, e) (x, e') = (g m x, rw (e, e') refl)

  rewrite_rdata-IsSome :
      (d : Rdata) → All (λ (n : Name). IsSome (f n)) (names_in d) → IsSome (rewrite_rdata f d)
  unfolding rewrite_rdata
  rewrite_rdata-IsSome (cname n) q = one_total n cname q.0
  rewrite_rdata-IsSome (ns n) q = one_total n ns q.0
  rewrite_rdata-IsSome (mx p n) q = one_total n (mx p) q.0
  rewrite_rdata-IsSome (ptr n) q = one_total n ptr q.0
  rewrite_rdata-IsSome (srv a b c n) q = one_total n (srv a b c) q.0
  rewrite_rdata-IsSome (soa n b s1 s2 s3 s4 s5) q =
      two_total n b (λ m x. soa m x s1 s2 s3 s4 s5) q.0 q.1.0
  rewrite_rdata-IsSome (https p n v) q = one_total n (λ m. https p m v) q.0
  rewrite_rdata-IsSome (svcb p n v) q = one_total n (λ m. svcb p m v) q.0
  rewrite_rdata-IsSome (dname n) q = one_total n dname q.0
  rewrite_rdata-IsSome (naptr o p fl s r n) q = one_total n (λ m. naptr o p fl s r m) q.0
  rewrite_rdata-IsSome (rp b t) q = two_total b t rp q.0 q.1.0
  rewrite_rdata-IsSome (kx p n) q = one_total n (kx p) q.0
  rewrite_rdata-IsSome (afsdb p n) q = one_total n (afsdb p) q.0
  rewrite_rdata-IsSome (px p a b) q = two_total a b (px p) q.0 q.1.0
  rewrite_rdata-IsSome (rt p n) q = one_total n (rt p) q.0
  rewrite_rdata-IsSome (txt ts) q = (txt ts, refl)
  rewrite_rdata-IsSome (opt os) q = (opt os, refl)
  rewrite_rdata-IsSome (other bs) q = (other bs, refl)

module _ (unicode_lower : Name → Name) (is_sub_domain : Name → Name → Bool) where
  names-IsSome :
      (root backup : Name) (names : List Name)
      → All IsPlain names
      → All (λ (n : Name). IsSome (rewrite_name unicode_lower is_sub_domain n root backup)) names
  names-IsSome root backup [] q = tt
  names-IsSome root backup (n ∷ names) (p, q) =
      let (r, e, kept) = rewrite_name-IsPlain unicode_lower is_sub_domain n root backup p in
      ((r, e), names-IsSome root backup names q)

  -- `RewriteRR` without the rule for labels does not panic on a record whose names are plain.
  pub rewrite_rr-IsSome :
      (root backup : Name) (rr : Rr)
      → All IsPlain (rr_names rr)
      → IsSome (rewrite_rr unicode_lower is_sub_domain root backup false rr)
  unfolding rewrite_rr rewrite_rdata_names rewrite_value
  rewrite_rr-IsSome root backup rr (plain, plains) =
      let rule = λ (n : Name). rewrite_name unicode_lower is_sub_domain n root backup in
      let (owner, e, kept) =
        rewrite_name-IsPlain unicode_lower is_sub_domain rr.name root backup plain in
      let (d, e') =
        rewrite_rdata-IsSome rule rr.rdata (names-IsSome root backup (names_in rr.rdata) plains) in
      (record rr { name = owner; rdata = d }, rw (e, e') refl)
