-- ===== src/RateLimit/Table.antt =====
-- internal/ratelimit/table.go: the sharded account table. A shard keeps a map for lookup and an
-- intrusive doubly linked list in order of use. Pointers to entries are numbers, and the heap says
-- what entry each of them points to; `nil` is `none`. The entries that were ever allocated are
-- those below `fresh_ptr`. A shard's mutex makes each method one step, and is not modelled.
pub mod Segment
pub mod Links
pub mod View
pub mod Reorder
pub mod Unlink
pub mod Front
pub mod Evict
pub mod Add
pub mod Touch
pub mod Charge
pub mod Index
use Prim.Native.Nat.{bit_xor}
use shadow_dns.Prelude.{
  ℕ, zero, suc, ◌+◌, ◌-◌, ◌*◌, ◌/◌, ◌%◌, ◌^◌, ◌≡◌, ◌↔◌, refl, ap, Bool, true, false, ◌&&◌, List, [],
  ◌∷◌, ◌++◌, Option, none, some, arith, ltb, leb, ◌==◌, &&-true, Equality, ◌=?◌, =?-true, =?-refl,
  nat_eq, list_eq, if◌then◌else◌,
}
use shadow_dns.Prelude.Map.{Map, lookup, insert, remove}
use shadow_dns.Names.{Name}
use shadow_dns.Net.{Addr, invalid, v4, v6, addr_eq}
use shadow_dns.RateLimit.Account.{CreditAccount, fresh, charge}
use shadow_dns.RateLimit.Slip.{uint32_mod}
use shadow_dns.RateLimit.Classify.{Category, category_eq, category_code}

-- `accountKey` of internal/ratelimit/limiter.go
pub record AccountKey : Type 0 where
  pub block : Addr
  pub category : Category
  pub name : Name

unfoldable pub key_eqb : AccountKey → AccountKey → Bool
key_eqb a b = a.block =? b.block && a.category =? b.category && a.name =? b.name

key_eqb_lem : (a b : AccountKey) → key_eqb a b ≡ true → a ≡ b
unfolding key_eqb
key_eqb_lem a b h =
    let outer = &&-true (a.block =? b.block && a.category =? b.category) (a.name =? b.name) h in
    let inner = &&-true (a.block =? b.block) (a.category =? b.category) outer.0 in
    let p = =?-true a.block b.block inner.0 in
    let q = =?-true a.category b.category inner.1 in
    let r = =?-true a.name b.name outer.1 in λ i. record { block = p i; category = q i; name = r i }

key_eqb_refl : (a : AccountKey) → key_eqb a a ≡ true
unfolding key_eqb
key_eqb_refl a = rw (=?-refl a.block, =?-refl a.category, =?-refl a.name)

pub key_eqb_iff : (a b : AccountKey) → (key_eqb a b ≡ true) ↔ (a ≡ b)
key_eqb_iff a b = (key_eqb_lem a b, λ e. rw e (key_eqb_refl b))

instance abbrev pub key_eq : Equality AccountKey
key_eq = record { eqb = key_eqb; eqb_iff = key_eqb_iff }

pub record TableEntry : Type 0 where
  pub key : AccountKey
  pub acct : CreditAccount
  pub prev : Option ℕ
  pub next : Option ℕ

abbrev pub Heap : Type 0
Heap = ℕ → TableEntry

pub record TableShard : Type 0 where
  pub items : Map AccountKey ℕ
  pub head : Option ℕ
  pub tail : Option ℕ
  pub size : ℕ
  pub cap : ℕ
  pub heap : Heap
  pub fresh_ptr : ℕ

abbrev pub update : Heap → ℕ → TableEntry → Heap
update h p x = λ q. if p == q then x else h q

-- `p.prev = v` and `p.next = v`
abbrev pub set_prev : Heap → ℕ → Option ℕ → Heap
set_prev h p v = update h p (record (h p) { prev = v })

abbrev pub set_next : Heap → ℕ → Option ℕ → Heap
set_next h p v = update h p (record (h p) { next = v })

-- The same through a pointer that may be nil, where the code tests it first.
abbrev pub set_prev? : Heap → Option ℕ → Option ℕ → Heap
set_prev? h none v = h
set_prev? h (some p) v = set_prev h p v

abbrev pub set_next? : Heap → Option ℕ → Option ℕ → Heap
set_next? h none v = h
set_next? h (some p) v = set_next h p v

-- `x` where the pointer is nil, else `y`.
abbrev pub if_nil {ℓ} : {A : Type ℓ} → Option ℕ → A → A → A
if_nil none x y = x
if_nil (some p) x y = y

abbrev pub points_to : Option ℕ → ℕ → Bool
points_to none e = false
points_to (some p) e = p == e

unfoldable pub push_front : ℕ → TableShard → TableShard
push_front e s =
    let h = set_next (set_prev s.heap e none) e s.head in
    record s {
      heap = set_prev? h s.head (some e);
      head = some e;
      tail = if_nil s.tail (some e) s.tail;
    }

-- The first half of `unlink`: `e.prev.next = e.next`, or `s.head = e.next`.
unfoldable pub unlink_prev : ℕ → TableShard → TableShard
unlink_prev e s =
    let x = s.heap e in
    record s { heap = set_next? s.heap x.prev x.next; head = if_nil x.prev x.next s.head }

-- The second half: `e.next.prev = e.prev`, or `s.tail = e.prev`.
unfoldable pub unlink_next : ℕ → TableShard → TableShard
unlink_next e s =
    let x = s.heap e in
    record s { heap = set_prev? s.heap x.next x.prev; tail = if_nil x.next x.prev s.tail }

unfoldable pub unlink : ℕ → TableShard → TableShard
unfolding unlink_prev unlink_next
unlink e s =
    let t = unlink_next e (unlink_prev e s) in
    record t { heap = set_next (set_prev t.heap e none) e none }

unfoldable pub move_to_front : ℕ → TableShard → TableShard
unfolding unlink push_front
move_to_front e s = if points_to s.head e then s else push_front e (unlink e s)

-- `evictTail`, by its victim; `touch` calls it only where `tail` is not nil.
unfoldable pub evict_from : Option ℕ → TableShard → TableShard
unfolding unlink
evict_from none s = s
evict_from (some victim) s =
    let t = unlink victim (record s { items = remove (s.heap victim).key s.items }) in
    record t { size = t.size - 1 }

unfoldable pub evict_tail : TableShard → TableShard
unfolding evict_from
evict_tail s = evict_from s.tail s

-- `e := &tableEntry{key: k}; s.items[k] = e; s.pushFront(e); s.size++`
unfoldable pub add_entry : AccountKey → TableShard → ℕ × TableShard
unfolding push_front
add_entry k s =
    let e = s.fresh_ptr in
    let entry : TableEntry = record { key = k; acct = fresh; prev = none; next = none } in
    let t =
      push_front e (record s {
        heap = update s.heap e entry;
        fresh_ptr = suc e;
        items = insert k e s.items;
      }) in
    (e, record t { size = t.size + 1 })

-- The entry for `k`, and the shard after `touch`.
unfoldable pub touch : AccountKey → TableShard → ℕ × TableShard
unfolding move_to_front evict_tail add_entry
touch k s = elim (lookup k s.items) [
  | some e ↦ (e, move_to_front e s)
  | none ↦ add_entry k (if leb s.cap s.size && if_nil s.tail false true then evict_tail s else s)
]

-- The account after `e.acct.charge`, with `e.acct.slip++` on 32 bits if it is over the limit.
unfoldable pub charge_account : ℕ → ℕ → ℕ → CreditAccount → CreditAccount × Bool
charge_account now rate ceiling a =
    let (b, over) = charge now rate ceiling a in
    (if over then record b { slip = (b.slip + 1) % uint32_mod } else b, over)

-- The charge of an entry that `touch` returned: the shard, whether the response is over the limit,
-- and the slip counter.
unfoldable pub charge_entry : ℕ → ℕ → ℕ → ℕ → TableShard → TableShard × Bool × ℕ
unfolding charge_account
charge_entry now rate ceiling e s =
    let (a, over) = charge_account now rate ceiling (s.heap e).acct in
    (record s { heap = update s.heap e (record (s.heap e) { acct = a }) }, over, a.slip)

-- The body of `table.charge` under the lock of the shard.
unfoldable pub charge_shard : AccountKey → ℕ → ℕ → ℕ → TableShard → TableShard × Bool × ℕ
charge_shard k now rate ceiling s = let (e, t) = touch k s in charge_entry now rate ceiling e t

abbrev pub num_shards : ℕ
num_shards = 32

-- The array of shards, by index.
abbrev pub Table : Type 0
Table = ℕ → TableShard

abbrev no_entry : TableEntry
no_entry = record {
  key = record { block = invalid; category = Category.responses; name = [] };
  acct = fresh;
  prev = none;
  next = none;
}

unfoldable pub new_table : ℕ → Table
new_table max_size i = record {
  items = [];
  head = none;
  tail = none;
  size = 0;
  cap = if ltb (max_size / num_shards) 1 then 1 else max_size / num_shards;
  heap = λ p. no_entry;
  fresh_ptr = 0;
}

-- One step of the FNV-1a hash, on 64 bits.
unfoldable pub fnv_step : ℕ → ℕ → ℕ
fnv_step h c = bit_xor h c * 1099511628211 % 2 ^ 64

unfoldable pub fnv_bytes : ℕ → List ℕ → ℕ
unfolding fnv_step
fnv_bytes h [] = h
fnv_bytes h (c ∷ cs) = fnv_bytes (fnv_step h c) cs

-- The last `n` bytes of a number, the most significant first.
unfoldable pub be_bytes : ℕ → ℕ → List ℕ
be_bytes zero a = []
be_bytes (suc n) a = be_bytes n (a / 256) ++ (a % 256) ∷ []

-- `Addr.As16`: an IPv4 address is mapped into IPv6, and the zero address gives zero bytes.
unfoldable pub as16 : Addr → List ℕ
unfolding be_bytes
as16 invalid = be_bytes 16 0
as16 (v4 a) = be_bytes 16 (0xffff * 2 ^ 32 + a)
as16 (v6 a z) = be_bytes 16 a

unfoldable pub shard_index : AccountKey → ℕ
unfolding fnv_bytes as16 category_code
shard_index k =
    let h = fnv_bytes 14695981039346656037 (as16 k.block) in
    fnv_bytes (fnv_step h (category_code k.category)) k.name % num_shards

-- The method `table.charge`: `ceiling` is `rate*window`.
unfoldable pub charge_table : AccountKey → ℕ → ℕ → ℕ → Table → Table × Bool × ℕ
charge_table k now rate ceiling t =
    let i = shard_index k in
    let (s, over, slip) = charge_shard k now rate ceiling (t i) in
    (λ j. if i == j then s else t j, over, slip)

-- `table.len`: the loop over the first `n` shards.
unfoldable pub live : ℕ → Table → ℕ
live zero t = 0
live (suc n) t = live n t + (t n).size

-- One call of `table.charge`.
pub record Request : Type 0 where
  pub key : AccountKey
  pub now : ℕ
  pub rate : ℕ
  pub ceiling : ℕ

-- The table after a sequence of calls.
unfoldable pub charge_all : List Request → Table → Table
charge_all [] t = t
charge_all (q ∷ qs) t = charge_all qs (charge_table q.key q.now q.rate q.ceiling t).0
