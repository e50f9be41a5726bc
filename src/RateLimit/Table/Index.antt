-- ===== src/RateLimit/Table/Index.antt =====
-- The table of shards: where a charge goes, what it leaves alone, and the bound on the accounts.
use native.Mathlib.Nat.{mod-lt}
use shadow_dns.Prelude.{
  ℕ, zero, suc, ◌*◌, ◌/◌, ◌≤◌, ◌<◌, ◌≡◌, ◌≢◌, refl, ◌∙◌, List, [], ◌∷◌, arith, max, ltb, ◌==◌,
  =?-ne, nat_eq, if◌then◌else◌, Bool-cases, inl, inr,
}
use shadow_dns.Prelude.Map.{lookup}
use shadow_dns.RateLimit.Table.{
  AccountKey, Table, num_shards, new_table, shard_index, charge_table, live, Request, charge_all,
}
use shadow_dns.RateLimit.Table.Charge.{IsSound, charge_shard-IsSound, charge_shard-Charged}

-- The index of every key is that of a shard.
pub shard_index-lt : (k : AccountKey) → shard_index k < num_shards
unfolding shard_index
shard_index-lt k = mod-lt _ (omega arith)

-- A charge leaves every shard but that of its key as it was.
pub charge_table-other :
    (k : AccountKey) (now rate ceiling i : ℕ) (t : Table)
    → shard_index k ≢ i
    → (charge_table k now rate ceiling t).0 i ≡ t i
unfolding charge_table
charge_table-other k now rate ceiling i t h = rw (=?-ne (shard_index k) i h) refl

-- Every shard is sound and has one capacity.
pub record IsTable (cap : ℕ) (t : Table) : Type 0 where
  pub sound : (i : ℕ) → IsSound (t i)
  pub capacity : (i : ℕ) → (t i).cap ≡ cap

pub charge_table-IsTable :
    (k : AccountKey) (now rate ceiling cap : ℕ) (t : Table)
    → IsTable cap t
    → IsTable cap (charge_table k now rate ceiling t).0
unfolding charge_table
charge_table-IsTable k now rate ceiling cap t h =
    let j = shard_index k in
    let old = h.sound j in
    let charged =
      charge_shard-Charged k now rate ceiling (t j) old.pointers old.represents old.room in
    record {
      sound = λ i. elim (Bool-cases (j == i)) [
        | inl same ↦ rw same (charge_shard-IsSound k now rate ceiling (t j) old)
        | inr other ↦ rw other (h.sound i)
      ];
      capacity = λ i. elim (Bool-cases (j == i)) [
        | inl same ↦ rw same (charged.capacity ∙ h.capacity j)
        | inr other ↦ rw other (h.capacity i)
      ];
    }

abbrev per_shard : ℕ → ℕ
per_shard max_size = if ltb (max_size / num_shards) 1 then 1 else max_size / num_shards

pub new_table-IsTable : (max_size : ℕ) → IsTable (per_shard max_size) (new_table max_size)
unfolding new_table
new_table-IsTable max_size = record {
  sound = λ i. record {
    pointers = [];
    represents = record {
      head = refl;
      tail = refl;
      linked = tt;
      distinct = tt;
      keys = tt;
      index = λ k. unfold lookup in refl;
      size = refl;
      old = tt;
    };
    room = ground arith;
    bounded = omega arith;
  };
  capacity = λ i. refl;
}

charge_all-IsTable :
    (qs : List Request) (cap : ℕ) (t : Table) → IsTable cap t → IsTable cap (charge_all qs t)
unfolding charge_all
charge_all-IsTable [] cap t h = h
charge_all-IsTable (q ∷ qs) cap t h =
    charge_all-IsTable qs cap (charge_table q.key q.now q.rate q.ceiling t).0
      (charge_table-IsTable q.key q.now q.rate q.ceiling cap t h)

live-le : (n cap : ℕ) (t : Table) → IsTable cap t → live n t ≤ n * cap
unfolding live
live-le zero cap t h = omega arith
live-le (suc n) cap t h =
    let one = h.sound n in omega (arith, live-le n cap t h, one.bounded, h.capacity n)

-- After any charges to a new table it holds no more accounts than the configured maximum, or one
-- for each shard where the maximum is below that.
pub live-charge_all :
    (max_size : ℕ) (qs : List Request)
    → live num_shards (charge_all qs (new_table max_size)) ≤ max max_size num_shards
live-charge_all max_size qs =
    let t = charge_all qs (new_table max_size) in
    let h =
      charge_all-IsTable qs (per_shard max_size) (new_table max_size)
        (new_table-IsTable max_size) in
    ground (arith, live-le num_shards (per_shard max_size) t h)
