-- ===== src/Lru/Sharded/Tests.antt =====
-- The sharded cache of lru_cache.hpp at small examples.
use multi_threaded_proxy_ser.Base.{
  ◌≡◌, ◌≢◌, ◌-◌, ◌^◌, ◌⊎◌, ◌≤◌, ◌<◌, refl, ℕ, some, none, ◌∷◌, [], arith,
}
use multi_threaded_proxy_ser.Base.Eq.{number_key}
use multi_threaded_proxy_ser.Lru.{init}
use multi_threaded_proxy_ser.Lru.Valid.{init-IsValid}
use multi_threaded_proxy_ser.Lru.Sharded.{
  Sharded, make, built, length_error, replicate, num_shards, sum_capacity, put_sharded,
  round_up_pow2, double_until,
}
use multi_threaded_proxy_ser.Lru.Sharded.Laws.{IsSound, stored, place, stored-put_sharded}
use multi_threaded_proxy_ser.Lru.Sharded.Make.{make-IsSound}
use multi_threaded_proxy_ser.Lru.Sharded.Rounding.{RoundsTo, round_up_pow2_hangs}

abbrev pair : Sharded ℕ ℕ
pair = record { shards = init 2 ∷ init 2 ∷ []; shard_mask = 1 }

abbrev hasher : ℕ → ℕ
hasher k = k

pair-IsSound : IsSound pair
pair-IsSound = record { covered = refl; valid = (init-IsValid 2, (init-IsValid 2, tt)) }

stored-put_sharded_example :
    (stored hasher (put_sharded hasher pair 3 30) 3 ≡ some 30)
    × (place hasher pair 4 ≢ place hasher pair 3
        → stored hasher (put_sharded hasher pair 3 30) 4 ≡ stored hasher pair 4)
stored-put_sharded_example = stored-put_sharded hasher pair 3 4 30 pair-IsSound

make-IsSound_example :
    (p : ℕ) × RoundsTo 6 p
    × (((p ≤ 2 ^ 60 - 1)
          × ((s : Sharded ℕ ℕ) × (make (2 ^ 60 - 1) 100 6 ≡ built s)
              × IsSound s
              × (num_shards s ≡ p)
              × ((sum_capacity s.shards ≤ 100)
                  ⊎ ((100 < num_shards s) × (sum_capacity s.shards ≡ num_shards s)))))
        ⊎ ((2 ^ 60 - 1 < p) × (make {K = ℕ} {V = ℕ} (2 ^ 60 - 1) 100 6 ≡ length_error)))
make-IsSound_example = make-IsSound (2 ^ 60 - 1) 100 6 (omega arith) (omega arith)

-- `reserve` takes the 8 shards, and not 2 ^ 60 of them.
reserves :
    (make {K = ℕ} {V = ℕ} 8 2 6 ≡ built (record { shards = replicate 8 (init 1); shard_mask = 7 }))
    × (make {K = ℕ} {V = ℕ} (2 ^ 60 - 1) 2 (2 ^ 60) ≡ length_error)
unfolding make round_up_pow2
reserves = (refl, refl)

round_up_pow2_example : round_up_pow2 6 ≡ some 8
unfolding round_up_pow2
round_up_pow2_example = refl

-- `--shards -1` asks for 2 ^ 64 - 1 shards.
round_up_pow2_hangs_example : double_until 1000 18446744073709551615 1 ≡ none
round_up_pow2_hangs_example = round_up_pow2_hangs 1000 18446744073709551615 (omega arith)
