-- ===== src/RateLimit/Table/View.antt =====
-- What a shard stands for: the keys with their accounts, the most recently used first; and the
-- abstract operations on such lists.
use shadow_dns.Prelude.{
  ℕ, suc, ◌<◌, ◌≡◌, refl, ◌∙◌, ap, Bool, true, false, List, [], ◌∷◌, ◌++◌, Option, none, some,
  arith, All, length, ◌=?◌, =?-true, leb, if◌then◌else◌, fun_ext, Bool-cases, inl, inr, subst,
}
use shadow_dns.Prelude.Map.{lookup}
use shadow_dns.RateLimit.Account.{CreditAccount, fresh}
use shadow_dns.RateLimit.Table.{
  AccountKey, key_eq, key_eqb_iff, Heap, TableEntry, TableShard, charge_account,
}
use shadow_dns.RateLimit.Table.Segment.{first, last, Differ}
use shadow_dns.RateLimit.Table.Links.{same_ptr, Seg}

abbrev pub Accounts : Type 0
Accounts = List (AccountKey × CreditAccount)

-- An entry without its links.
abbrev pub data_of : TableEntry → AccountKey × CreditAccount
data_of x = (x.key, x.acct)

abbrev pub SameData : Heap → Heap → Type 0
SameData h h' = (p : ℕ) → data_of (h' p) ≡ data_of (h p)

abbrev pub view : Heap → List ℕ → Accounts
view h [] = []
view h (p ∷ ps) = data_of (h p) ∷ view h ps

abbrev pub find_ptr : Heap → AccountKey → List ℕ → Option ℕ
find_ptr h k [] = none
find_ptr h k (p ∷ ps) = if (data_of (h p)).0 =? k then some p else find_ptr h k ps

-- The pointers are to entries of one key.
abbrev pub same_key : Heap → ℕ → ℕ → Bool
same_key h p q = (data_of (h p)).0 =? (data_of (h q)).0

-- The shard's list runs through the pointers, forwards and backwards; its map finds exactly these
-- entries, one for each key; its counter is their number.
pub record Represents (s : TableShard) (ps : List ℕ) : Type 0 where
  pub head : s.head ≡ first ps none
  pub tail : s.tail ≡ last none ps
  pub linked : Seg s.heap none ps none
  pub distinct : Differ same_ptr ps
  pub keys : Differ (same_key s.heap) ps
  pub index : (k : AccountKey) → lookup k s.items ≡ find_ptr s.heap k ps
  pub size : s.size ≡ length ps
  pub old : All (λ p. p < s.fresh_ptr) ps

-- The abstract operations.
unfoldable pub find : AccountKey → Accounts → Option CreditAccount
find k [] = none
find k ((j, a) ∷ l) = if j =? k then some a else find k l

-- The list without the account of `k`.
unfoldable pub without : AccountKey → Accounts → Accounts
without k [] = []
without k ((j, a) ∷ l) = if j =? k then l else (j, a) ∷ without k l

unfoldable pub drop_last : Accounts → Accounts
drop_last [] = []
drop_last (x ∷ []) = []
drop_last (x ∷ y ∷ l) = x ∷ drop_last (y ∷ l)

-- The account of the key comes first; for a new key a fresh account, and where there is no room
-- for it the account at the end goes.
unfoldable pub touched : ℕ → AccountKey → Accounts → Accounts
unfolding find without drop_last
touched cap k l = elim (find k l) [
  | some a ↦ (k, a) ∷ without k l
  | none ↦ (k, fresh) ∷ (if leb cap (length l) then drop_last l else l)
]

module _ (cap : ℕ) (k : AccountKey) (l : Accounts) where
  pub touched_held :
      {a : CreditAccount} → find k l ≡ some a → touched cap k l ≡ (k, a) ∷ without k l
  unfolding touched
  touched_held h = ground (arith, h)

  pub touched_full :
      find k l ≡ none → leb cap (length l) ≡ true → touched cap k l ≡ (k, fresh) ∷ drop_last l
  unfolding touched
  touched_full h full = ground (arith, h, full)

  pub touched_room : find k l ≡ none → leb cap (length l) ≡ false → touched cap k l ≡ (k, fresh) ∷ l
  unfolding touched
  touched_room h room = ground (arith, h, room)

-- A charge to the first account of a list: the list, the verdict and the slip counter.
unfoldable pub charge_first : ℕ → ℕ → ℕ → Accounts → Accounts × Bool × ℕ
charge_first now rate ceiling [] = ([], false, 0)
charge_first now rate ceiling ((k, a) ∷ l) =
    let (b, over) = charge_account now rate ceiling a in ((k, b) ∷ l, over, b.slip)

pub data-view : (h h' : Heap) (ps : List ℕ) → SameData h h' → view h' ps ≡ view h ps
data-view h h' [] e = refl
data-view h h' (p ∷ ps) e = cc (e p, data-view h h' ps e)

abbrev pub SameKeys : Heap → Heap → Type 0
SameKeys h h' = (p : ℕ) → (h' p).key ≡ (h p).key

SameData-SameKeys : (h h' : Heap) → SameData h h' → SameKeys h h'
SameData-SameKeys h h' e = λ p. ap (λ (d : AccountKey × CreditAccount). d.0) (e p)

pub keys-find_ptr :
    (h h' : Heap) (k : AccountKey) (ps : List ℕ)
    → SameKeys h h'
    → find_ptr h' k ps ≡ find_ptr h k ps
keys-find_ptr h h' k [] e = refl
keys-find_ptr h h' k (p ∷ ps) e = rw (e p, keys-find_ptr h h' k ps e)

pub keys-same_key : (h h' : Heap) → SameKeys h h' → same_key h' ≡ same_key h
keys-same_key h h' e = fun_ext (λ p. fun_ext (λ q. rw (e p, e q)))

pub data-find_ptr :
    (h h' : Heap) (k : AccountKey) (ps : List ℕ)
    → SameData h h'
    → find_ptr h' k ps ≡ find_ptr h k ps
data-find_ptr h h' k ps e = keys-find_ptr h h' k ps (SameData-SameKeys h h' e)

pub data-same_key : (h h' : Heap) → SameData h h' → same_key h' ≡ same_key h
data-same_key h h' e = keys-same_key h h' (SameData-SameKeys h h' e)

pub SameData-trans : (h h' h'' : Heap) → SameData h h' → SameData h' h'' → SameData h h''
SameData-trans h h' h'' e f = λ p. f p ∙ e p

pub view-append : (h : Heap) (xs ys : List ℕ) → view h (xs ++ ys) ≡ view h xs ++ view h ys
view-append h [] ys = refl
view-append h (x ∷ xs) ys = ap (◌∷◌ (data_of (h x))) (view-append h xs ys)

pub length-view : (h : Heap) (ps : List ℕ) → length (view h ps) ≡ length ps
length-view h [] = refl
length-view h (p ∷ ps) = ap suc (length-view h ps)

-- A pointer that is found stands somewhere in the list, behind none of its key.
pub find_ptr-split :
    (h : Heap) (k : AccountKey) (ps : List ℕ) (p : ℕ)
    → find_ptr h k ps ≡ some p
    → (xs : List ℕ) × (ys : List ℕ) × (ps ≡ xs ++ p ∷ ys)
      × (find_ptr h k xs ≡ none)
      × ((h p).key ≡ k)
find_ptr-split h k [] p e = cc
find_ptr-split h k (q ∷ ps) p e = elim (Bool-cases ((h q).key =? k)) [
  | inl here ↦
      let same : q ≡ p = ground (arith, here) in
      (
        [],
        ps,
        ap (λ (x : ℕ). x ∷ ps) same,
        refl,
        subst (λ (x : ℕ). (h x).key ≡ k) same (=?-true (h q).key k here),
      )
  | inr there ↦
      let (xs, ys, split, none_before, key) = find_ptr-split h k ps p (ground (arith, there)) in
      (q ∷ xs, ys, ap (◌∷◌ q) split, ground (arith, there, none_before), key)
]

-- The view of a list in which a pointer is found.
pub find-view :
    (h : Heap) (k : AccountKey) (xs ys : List ℕ) (p : ℕ)
    → find_ptr h k xs ≡ none
    → (h p).key ≡ k
    → (find k (view h (xs ++ p ∷ ys)) ≡ some (h p).acct)
      × (without k (view h (xs ++ p ∷ ys)) ≡ view h (xs ++ ys))
unfolding find without
find-view h k [] ys p e key =
    let same : ((h p).key =? k) ≡ true = (key_eqb_iff (h p).key k).1 key in ground (arith, same)
find-view h k (x ∷ xs) ys p e key = ground (arith, find-view h k xs ys p)

pub find-view-none :
    (h : Heap) (k : AccountKey) (ps : List ℕ) → find_ptr h k ps ≡ none → find k (view h ps) ≡ none
unfolding find
find-view-none h k [] e = refl
find-view-none h k (p ∷ ps) e = ground (arith, find-view-none h k ps)
