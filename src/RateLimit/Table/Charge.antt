-- ===== src/RateLimit/Table/Charge.antt =====
-- A charge under the lock of a shard is a charge to the first account of the touched list; and
-- what that keeps of a shard.
use shadow_dns.Prelude.{
  ℕ, suc, ◌-◌, ◌≤◌, ◌<◌, ◌≡◌, refl, sym, ◌∙◌, ap, ap₂, subst, Bool, List, [], ◌∷◌, Option, none,
  some, arith, length, leb, ◌==◌, ==_iff, Bool-cases, Option-cases, inl, inr,
}
use shadow_dns.RateLimit.Account.{CreditAccount}
use shadow_dns.RateLimit.Table.{
  AccountKey, key_eq, Heap, TableShard, update, touch, charge_account, charge_entry, charge_shard,
}
use shadow_dns.RateLimit.Table.Segment.{Apart, Differ}
use shadow_dns.RateLimit.Table.Links.{Seg, same_ptr, update_self}
use shadow_dns.RateLimit.Table.View.{
  SameKeys, view, length-view, Represents, Accounts, find, without, drop_last, touched,
  touched_held, touched_full, touched_room, charge_first, data_of, keys-find_ptr, keys-same_key,
}
use shadow_dns.RateLimit.Table.Touch.{Stands, touch-Stands}

-- Writing an account leaves the links and the keys.
set_acct : Heap → ℕ → CreditAccount → Heap
set_acct h p a = update h p (record (h p) { acct = a })

set_acct-SameKeys : (h : Heap) (p : ℕ) (a : CreditAccount) → SameKeys h (set_acct h p a)
unfolding set_acct
set_acct-SameKeys h p a q = elim (Bool-cases (p == q)) [
  | inl same ↦ rw same (ap (λ (r : ℕ). (h r).key) ((==_iff p q).0 same))
  | inr other ↦ rw other refl
]

set_acct-prev :
    (h : Heap) (p : ℕ) (a : CreditAccount) (q : ℕ) → (set_acct h p a q).prev ≡ (h q).prev
unfolding set_acct
set_acct-prev h p a q = elim (Bool-cases (p == q)) [
  | inl same ↦ rw same (ap (λ (r : ℕ). (h r).prev) ((==_iff p q).0 same))
  | inr other ↦ rw other refl
]

set_acct-next :
    (h : Heap) (p : ℕ) (a : CreditAccount) (q : ℕ) → (set_acct h p a q).next ≡ (h q).next
unfolding set_acct
set_acct-next h p a q = elim (Bool-cases (p == q)) [
  | inl same ↦ rw same (ap (λ (r : ℕ). (h r).next) ((==_iff p q).0 same))
  | inr other ↦ rw other refl
]

set_acct-Seg :
    (h : Heap) (p : ℕ) (a : CreditAccount) (pr : Option ℕ) (ps : List ℕ) (nx : Option ℕ)
    → Seg h pr ps nx
    → Seg (set_acct h p a) pr ps nx
set_acct-Seg h p a pr [] nx s = tt
set_acct-Seg h p a pr (q ∷ ps) nx s = (
  set_acct-prev h p a q ∙ s.0,
  set_acct-next h p a q ∙ s.1,
  set_acct-Seg h p a (some q) ps nx s.2,
)

set_acct-Represents :
    (s : TableShard) (p : ℕ) (a : CreditAccount) (ps : List ℕ)
    → Represents s ps
    → Represents (record s { heap = set_acct s.heap p a }) ps
set_acct-Represents s p a ps r =
    let e = set_acct-SameKeys s.heap p a in
    record {
      head = r.head;
      tail = r.tail;
      linked = set_acct-Seg s.heap p a none ps none r.linked;
      distinct = r.distinct;
      keys =
          subst (λ (k : ℕ → ℕ → Bool). Differ k ps)
            (sym (keys-same_key s.heap (set_acct s.heap p a) e)) r.keys;
      index = λ k. r.index k ∙ sym (keys-find_ptr s.heap (set_acct s.heap p a) k ps e);
      size = r.size;
      old = r.old;
    }

set_acct-view :
    (h : Heap) (p : ℕ) (a : CreditAccount) (ps : List ℕ)
    → Apart same_ptr p ps
    → view (set_acct h p a) (p ∷ ps) ≡ ((h p).key, a) ∷ view h ps
unfolding set_acct
set_acct-view h p a ps apart =
    ap₂ ◌∷◌ (ap data_of (update_self h p (record (h p) { acct = a }))) (view-apart ps apart)
  where
    view-apart : (qs : List ℕ) → Apart same_ptr p qs → view (set_acct h p a) qs ≡ view h qs
    view-apart [] x = refl
    view-apart (q ∷ qs) x = ap₂ ◌∷◌ (rw x.0 refl) (view-apart qs x.1)

-- What a charge of a shard that stands for a list of accounts gives: the shard stands for the
-- result of the abstract charge, and the verdict and the slip counter are those of it.
pub record Charged (cap : ℕ) (spec : Accounts × Bool × ℕ) (out : TableShard × Bool × ℕ)
    : Type 0 where
  pub pointers : List ℕ
  pub represents : Represents out.0 pointers
  pub viewed : view out.0.heap pointers ≡ spec.0
  pub verdict : out.1 ≡ spec.1
  pub slip : out.2 ≡ spec.2
  pub capacity : out.0.cap ≡ cap

charge_entry-Charged :
    (now rate ceiling cap : ℕ) (l : Accounts) (e : ℕ) (t : TableShard)
    → Stands cap l e t
    → Charged cap (charge_first now rate ceiling l) (charge_entry now rate ceiling e t)
charge_entry-Charged now rate ceiling cap l e t st =
    let a = (charge_account now rate ceiling (t.heap e).acct).0 in
    let seen : charge_first now rate ceiling l
        ≡ charge_first now rate ceiling (view t.heap (e ∷ st.rest)) =
      ap (charge_first now rate ceiling) (sym st.viewed) in
    subst (λ (spec : Accounts × Bool × ℕ). Charged cap spec (charge_entry now rate ceiling e t))
      (sym seen)
      (record {
        pointers = e ∷ st.rest;
        represents =
            unfold charge_entry set_acct in set_acct-Represents t e a (e ∷ st.rest) st.represents;
        viewed =
            unfold charge_entry charge_first set_acct in
            set_acct-view t.heap e a st.rest st.represents.distinct.0;
        verdict = unfold charge_entry charge_first in refl;
        slip = unfold charge_entry charge_first in refl;
        capacity = unfold charge_entry in st.capacity;
      })

-- A shard whose list, map and counter agree, and whose capacity is not 0, refines the list of its accounts, the
-- most recently used first: the charge moves the account of the key to the front or adds it there,
-- for the last account where the shard is full, and charges it.
pub charge_shard-Charged :
    (k : AccountKey) (now rate ceiling : ℕ) (s : TableShard) (ps : List ℕ)
    → Represents s ps
    → 0 < s.cap
    → Charged s.cap
        (charge_first now rate ceiling (touched s.cap k (view s.heap ps)))
        (charge_shard k now rate ceiling s)
unfolding charge_shard
charge_shard-Charged k now rate ceiling s ps r room =
    let (e, t) = touch k s in
    charge_entry-Charged now rate ceiling s.cap (touched s.cap k (view s.heap ps)) e t
      (touch-Stands k s ps r room)

length-without :
    (k : AccountKey) (l : Accounts) {a : CreditAccount}
    → find k l ≡ some a
    → suc (length (without k l)) ≡ length l
unfolding find without
length-without k [] h = cc
length-without k ((j, b) ∷ l) {a} h = ground (arith, length-without k l {a = a})

length-drop_last : (l : Accounts) → length (drop_last l) ≡ length l - 1
unfolding drop_last
length-drop_last [] = omega arith
length-drop_last (x ∷ []) = omega arith
length-drop_last (x ∷ y ∷ l) = omega (arith, length-drop_last (y ∷ l))

-- A touched list is no longer than its capacity, if the list was not.
pub length-touched :
    (cap : ℕ) (k : AccountKey) (l : Accounts)
    → 0 < cap
    → length l ≤ cap
    → length (touched cap k l) ≤ cap
length-touched cap k l room fits = elim (Option-cases (find k l)) [
  | inr (a, held) ↦ rw (touched_held cap k l held) (omega (arith, length-without k l held))
  | inl absent ↦ elim (Bool-cases (leb cap (length l))) [
    | inl full ↦ rw (touched_full cap k l absent full) (omega (arith, length-drop_last l))
    | inr more ↦ rw (touched_room cap k l absent more) (ground (arith, more))
  ]
]

length-charge_first :
    (now rate ceiling : ℕ) (l : Accounts) → length (charge_first now rate ceiling l).0 ≡ length l
unfolding charge_first
length-charge_first now rate ceiling [] = refl
length-charge_first now rate ceiling ((k, a) ∷ l) = refl

-- A shard that is well formed and holds no more accounts than its capacity.
pub record IsSound (s : TableShard) : Type 0 where
  pub pointers : List ℕ
  pub represents : Represents s pointers
  pub room : 0 < s.cap
  pub bounded : s.size ≤ s.cap

-- A charge keeps a shard sound: the map and the list agree, and the capacity is not passed.
pub charge_shard-IsSound :
    (k : AccountKey) (now rate ceiling : ℕ) (s : TableShard)
    → IsSound s
    → IsSound (charge_shard k now rate ceiling s).0
charge_shard-IsSound k now rate ceiling s h =
    let c = charge_shard-Charged k now rate ceiling s h.pointers h.represents h.room in
    let t = (charge_shard k now rate ceiling s).0 in
    let l = view s.heap h.pointers in
    let before : length l ≤ s.cap =
      omega (arith, length-view s.heap h.pointers, h.represents.size, h.bounded) in
    let after = length-touched s.cap k l h.room before in
    let count : t.size ≡ length (touched s.cap k l) =
      c.represents.size
      ∙ sym (length-view t.heap c.pointers)
      ∙ ap length c.viewed
      ∙ length-charge_first now rate ceiling (touched s.cap k l) in
    record {
      pointers = c.pointers;
      represents = c.represents;
      room = omega (arith, c.capacity, h.room);
      bounded = omega (arith, count, after, c.capacity);
    }
