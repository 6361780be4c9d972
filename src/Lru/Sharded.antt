-- ===== src/Lru/Sharded.antt =====
-- lru_cache.hpp, ShardedLRUCache. A shard is reached by `hash & (n - 1)`; the hash of a key is a
-- parameter.
pub mod Rounding
pub mod Laws
pub mod Make
mod Tests
use Prim.Native.Nat.{bit_and, bit_xor, min}
use multi_threaded_proxy_ser.Base.{
  ℕ, zero, suc, ◌+◌, ◌-◌, ◌*◌, ◌/◌, ◌%◌, ◌^◌, ◌≤◌, ◌<◌, Option, none, some, List, [], ◌∷◌, map,
  length, if◌then◌else◌, ltb, ◌==◌, Bool, ◌≡◌, refl, arith,
}
use multi_threaded_proxy_ser.Base.Eq.{KeyEq}
use multi_threaded_proxy_ser.Lru.{Cache, Stats, init, get, put, erase, stats, reset}

-- The loop of `round_up_pow2` from `p`, with the shift of a 64-bit word; `none` when the fuel runs
-- out.
unfoldable pub double_until : ℕ → ℕ → ℕ → Option ℕ
double_until zero n p = none
double_until (suc fuel) n p =
    let rest = double_until fuel n ((p * 2) % 2 ^ 64) in if ltb p n then rest else some p

-- `round_up_pow2`: at most 64 rounds, where the loop ends at all.
unfoldable pub round_up_pow2 : ℕ → Option ℕ
unfolding double_until
round_up_pow2 n = double_until 64 n 1

-- The mixing of a 64-bit hash.
unfoldable pub mix : ℕ → ℕ
mix h0 =
    let h1 = bit_xor h0 (h0 / 2 ^ 33) in
    let h2 = (h1 * 0xff51afd7ed558ccd) % 2 ^ 64 in bit_xor h2 (h2 / 2 ^ 33)

module _ {ℓ} {A : Type ℓ} where
  abbrev pub get_elem? : List A → ℕ → Option A
  get_elem? [] i = none
  get_elem? (x ∷ xs) zero = some x
  get_elem? (x ∷ xs) (suc i) = get_elem? xs i

  abbrev pub set : List A → ℕ → A → List A
  set [] i v = []
  set (x ∷ xs) zero v = v ∷ xs
  set (x ∷ xs) (suc i) v = x ∷ set xs i v

  abbrev pub replicate : ℕ → A → List A
  replicate zero a = []
  replicate (suc n) a = a ∷ replicate n a

pub record Sharded {ℓ} (K V : Type ℓ) : Type ℓ where
  pub shards : List (Cache K V)
  pub shard_mask : ℕ

-- What comes of the constructor: a cache; the exception of `shards_.reserve`; or nothing, where
-- `round_up_pow2` does not return.
pub data Made {ℓ} (K V : Type ℓ) : Type ℓ where
  built : Sharded K V → Made K V
  length_error : Made K V
  unreturned : Made K V

-- The constructor. `max_size` is `shards_.max_size()`, above which `reserve` throws; memory does not
-- run out.
unfoldable pub make {ℓ} : {K V : Type ℓ} → ℕ → ℕ → ℕ → Made K V
make max_size total_capacity num_shards =
    elim (round_up_pow2 (if num_shards == 0 then 1 else num_shards)) [
      | none ↦ unreturned
      | some n ↦
          (let per_shard = if total_capacity / n == 0 then 1 else total_capacity / n in
            if ltb max_size n
            then length_error
            else built (record { shards = replicate n (init per_shard); shard_mask = n - 1 }))
    ]

-- `h & shard_mask_`: the position of the shard of a key.
unfoldable pub shard_for {ℓ} : {K : Type ℓ} → (K → ℕ) → ℕ → K → ℕ
unfolding mix
shard_for hasher shard_mask key = bit_and (mix (hasher key)) shard_mask

module _ {ℓ} {K V : Type ℓ} ⦃e : KeyEq K⦄ (hasher : K → ℕ) where
  unfoldable pub get_sharded : Sharded K V → K → Sharded K V × Option V
  unfolding shard_for get
  get_sharded s key = elim (get_elem? s.shards (shard_for hasher s.shard_mask key)) [
    | none ↦ (s, none)
    | some c ↦
        (let r = get c key in
          (record s { shards = set s.shards (shard_for hasher s.shard_mask key) r.0 }, r.1))
  ]

  unfoldable pub put_sharded : Sharded K V → K → V → Sharded K V
  unfolding shard_for put
  put_sharded s key value = elim (get_elem? s.shards (shard_for hasher s.shard_mask key)) [
    | none ↦ s
    | some c ↦ record s {
      shards = set s.shards (shard_for hasher s.shard_mask key) (put c key value);
    }
  ]

  unfoldable pub erase_sharded : Sharded K V → K → Sharded K V × Bool
  unfolding shard_for erase
  erase_sharded s key = elim (get_elem? s.shards (shard_for hasher s.shard_mask key)) [
    | none ↦ (s, Bool.false)
    | some c ↦
        (let r = erase c key in
          (record s { shards = set s.shards (shard_for hasher s.shard_mask key) r.0 }, r.1))
  ]

module _ {ℓ} {K V : Type ℓ} where
  abbrev pub num_shards : Sharded K V → ℕ
  num_shards s = length s.shards

  -- The loop of `ShardedLRUCache::stats`, from `agg`. The counters are 64 bits wide.
  unfoldable pub add_stats : Stats → List (Cache K V) → Stats
  unfolding stats
  add_stats agg [] = agg
  add_stats agg (c ∷ cs) =
      let st = stats c in
      add_stats
        (record {
          hits = (agg.hits + st.hits) % 2 ^ 64;
          misses = (agg.misses + st.misses) % 2 ^ 64;
          evictions = (agg.evictions + st.evictions) % 2 ^ 64;
          size = (agg.size + st.size) % 2 ^ 64;
        })
        cs

  unfoldable pub stats_sharded : Sharded K V → Stats
  unfolding add_stats
  stats_sharded s = add_stats (record { hits = 0; misses = 0; evictions = 0; size = 0 }) s.shards

  unfoldable pub sum_capacity : List (Cache K V) → ℕ
  sum_capacity [] = 0
  sum_capacity (c ∷ cs) = c.capacity + sum_capacity cs

  unfoldable pub reset_sharded : Sharded K V → Sharded K V
  unfolding reset
  reset_sharded s = record s { shards = map reset s.shards }
