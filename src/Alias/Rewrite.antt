-- ===== src/Alias/Rewrite.antt =====
-- internal/alias/rewrite.go, from `RewriteNameAnywhere` on, and soa.go: the rewriting of whole
-- records. `none` is the panic of a slice out of range.
pub mod Anywhere
pub mod Hides
pub mod Occurs
pub mod Total
use shadow_dns.Prelude.{
  ℕ, zero, suc, ◌+◌, ◌-◌, Bool, true, false, ◌||◌, List, [], ◌∷◌, ◌++◌, Option, none, some, leb,
  ◌==◌, Equality, ◌=?◌, nat_eq, list_eq, if◌then◌else◌, length, take, drop,
}
use shadow_dns.Prelude.Partial.{◌>>=◌}
use shadow_dns.Names.{Name, to_lower, dot_at}
use shadow_dns.Dns.TypeCode
use shadow_dns.Dns.{
  Rr, Rdata, cname, ns, ptr, dname, mx, kx, afsdb, rt, srv, soa, https, svcb, naptr, rp, px,
}
use shadow_dns.Alias.{rewrite_name}

-- `strings.HasPrefix`
unfoldable pub has_prefix : Name → Name → Bool
has_prefix s sub = take (length sub) s =? sub

-- `strings.Index`; `none` is -1.
unfoldable pub index_of : Name → Name → Option ℕ
unfolding has_prefix
index_of sub [] = if has_prefix [] sub then some 0 else none
index_of sub (c ∷ s) =
    let rest = index_of sub s in
    if has_prefix (c ∷ s) sub then some 0 else elim rest [ none ↦ none | some i ↦ some (suc i) ]

-- `absIdx == 0 || lower[absIdx-1] == '.'`
unfoldable pub at_label : Name → ℕ → Bool
at_label lower i = (i == 0) || dot_at lower (i - 1)

-- The loop of `RewriteNameAnywhere`, from `start` on: the index at which it replaces.
unfoldable pub find_label : ℕ → Name → Name → ℕ → Option ℕ
unfolding index_of at_label
find_label zero lower root start = none
find_label (suc fuel) lower root start =
    if leb start (length lower)
    then elim (index_of root (drop start lower)) [
      | none ↦ none
      | some idx ↦
          let next = find_label fuel lower root (start + idx + 1) in
          if at_label lower (start + idx) then some (start + idx) else next
    ]
    else none

module _ (unicode_lower : Name → Name) where
  -- `RewriteNameAnywhere`; every round starts behind the one before, so that there are no more
  -- rounds than bytes, and two.
  unfoldable pub rewrite_name_anywhere : Name → Name → Name → Option Name
  unfolding find_label
  rewrite_name_anywhere n root backup =
      let lower = to_lower unicode_lower n in
      if (n =? []) || root =? []
      then some n
      else elim (find_label (length lower + 2) lower root 0) [
        | none ↦ some n
        | some i ↦
            if leb (i + length root) (length n)
            then some (take i n ++ backup ++ drop (i + length root) n)
            else none
      ]

  module _ (is_sub_domain : Name → Name → Bool) where
    -- The rule that `rewriteRDATALabels` selects.
    unfoldable pub rewrite_value : Bool → Name → Name → Name → Option Name
    unfolding rewrite_name_anywhere
    rewrite_value rdata_labels root backup n =
        if rdata_labels
        then rewrite_name_anywhere n root backup
        else rewrite_name unicode_lower is_sub_domain n root backup

-- The `switch` of `rewriteRDATANames`, with the rule that is selected.
unfoldable pub rewrite_rdata : (Name → Option Name) → Rdata → Option Rdata
rewrite_rdata f (cname n) = do m ← f n; some (cname m)
rewrite_rdata f (ns n) = do m ← f n; some (ns m)
rewrite_rdata f (mx p n) = do m ← f n; some (mx p m)
rewrite_rdata f (ptr n) = do m ← f n; some (ptr m)
rewrite_rdata f (srv a b c n) = do m ← f n; some (srv a b c m)
rewrite_rdata f (soa n b s1 s2 s3 s4 s5) = do m ← f n; x ← f b; some (soa m x s1 s2 s3 s4 s5)
rewrite_rdata f (https p n v) = do m ← f n; some (https p m v)
rewrite_rdata f (svcb p n v) = do m ← f n; some (svcb p m v)
rewrite_rdata f (dname n) = do m ← f n; some (dname m)
rewrite_rdata f (naptr o p fl s r n) = do m ← f n; some (naptr o p fl s r m)
rewrite_rdata f (rp b t) = do m ← f b; x ← f t; some (rp m x)
rewrite_rdata f (kx p n) = do m ← f n; some (kx p m)
rewrite_rdata f (afsdb p n) = do m ← f n; some (afsdb p m)
rewrite_rdata f (px p a b) = do m ← f a; x ← f b; some (px p m x)
rewrite_rdata f (rt p n) = do m ← f n; some (rt p m)
rewrite_rdata f d = some d

module _ (unicode_lower : Name → Name) (is_sub_domain : Name → Name → Bool) where
  -- `rewriteRDATANames`
  unfoldable pub rewrite_rdata_names : Name → Name → Bool → Rr → Option Rr
  unfolding rewrite_value rewrite_rdata
  rewrite_rdata_names root backup rdata_labels rr = do
    d ← rewrite_rdata (rewrite_value unicode_lower is_sub_domain rdata_labels root backup) rr.rdata
    some (record rr { rdata = d })

  -- `RewriteRR` of a record that is not nil.
  unfoldable pub rewrite_rr : Name → Name → Bool → Rr → Option Rr
  unfolding rewrite_rdata_names
  rewrite_rr root backup rdata_labels rr = do
    owner ← rewrite_name unicode_lower is_sub_domain rr.name root backup
    rewrite_rdata_names root backup rdata_labels (record rr { name = owner })

  -- `BackupSOA`; a nil SOA panics, which `none` is too, and so is a record that is no SOA, which
  -- the source's type rules out.
  unfoldable pub backup_soa : Option Rr → Name → Name → Option Rr
  backup_soa none root backup = none
  backup_soa (some rr) root backup = elim rr.rdata [
    | soa n b s1 s2 s3 s4 s5 ↦ do
      m ← rewrite_name unicode_lower is_sub_domain n root backup
      x ← rewrite_name unicode_lower is_sub_domain b root backup
      some (record rr { name = backup; rrtype = TypeCode.soa; rdata = soa m x s1 s2 s3 s4 s5 })
    | _ ↦ none
  ]
