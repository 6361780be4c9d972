-- ===== src/Lru/Sharded/Make.antt =====
-- The constructor of ShardedLRUCache.
use native.Mathlib.Nat.{mul-div-le, div-eq_of_lt}
use native.Mathlib.Decide.{dec_le}
use multi_threaded_proxy_ser.Base.{
  ltb, refl, false, ℕ, zero, suc, ◌-◌, ◌*◌, ◌/◌, ◌^◌, ◌≤◌, ◌<◌, some, if◌then◌else◌, ◌==◌, ◌≡◌, ◌⊎◌,
  ◌∙◌, arith, Bool-cases, inl, inr,
}
use multi_threaded_proxy_ser.Base.Eq.{KeyEq}
use multi_threaded_proxy_ser.Lru.{Cache, init}
use multi_threaded_proxy_ser.Lru.Valid.{IsValid, init-IsValid}
use multi_threaded_proxy_ser.Lru.Sharded.Laws.{IsSound, All-replicate, length-replicate}
use multi_threaded_proxy_ser.Lru.Sharded.Rounding.{RoundsTo, round_up_pow2-RoundsTo}
use multi_threaded_proxy_ser.Lru.Sharded.{
  Sharded, built, length_error, replicate, make, sum_capacity, num_shards, round_up_pow2,
}

abbrev per_shard : ℕ → ℕ → ℕ
per_shard total n = if total / n == 0 then 1 else total / n

module _ {ℓ} {K V : Type ℓ} where
  sum_capacity-replicate : (n : ℕ) (c : Cache K V) → sum_capacity (replicate n c) ≡ n * c.capacity
  unfolding sum_capacity
  sum_capacity-replicate zero c = omega arith
  sum_capacity-replicate (suc n) c = grind (arith, sum_capacity-replicate n c)

per_shard-pos : (total n : ℕ) → 0 < per_shard total n
per_shard-pos total n = ground arith

split-le : (total n : ℕ) → 0 < n → n ≤ total → n * per_shard total n ≤ total
split-le total n pos h = elim (Bool-cases (total / n == 0)) [
  | inl none_each ↦ rw none_each (omega arith)
  | inr some_each ↦ rw some_each (mul-div-le total n)
]

split_small : (total n : ℕ) → total < n → n * per_shard total n ≡ n
split_small total n h = rw (div-eq_of_lt h) (omega arith)

module _ {ℓ} (K V : Type ℓ) ⦃e : KeyEq K⦄ where
  made : ℕ → ℕ → Sharded K V
  made total p = record { shards = replicate p (init (per_shard total p)); shard_mask = p - 1 }

  make-eq :
      (max_size total n p : ℕ)
      → 0 < n
      → round_up_pow2 n ≡ some p
      → make max_size total n ≡ (if ltb max_size p then length_error else built (made total p))
  unfolding make made
  make-eq max_size total n p pos r =
      let nonzero : (n == 0) ≡ false = ground arith in rw (make, nonzero, r) refl

  made-IsSound : (total p : ℕ) → 0 < p → IsSound (made total p)
  unfolding made
  made-IsSound total p pos = record {
    covered = omega (arith, length-replicate p (init {K = K} {V = V} (per_shard total p)));
    valid =
        All-replicate (λ c. IsValid c) p (init (per_shard total p))
          (init-IsValid (per_shard total p));
  }

  made-shards : (total p : ℕ) → num_shards (made total p) ≡ p
  unfolding made
  made-shards total p = length-replicate p (init {K = K} {V = V} (per_shard total p))

  made-capacity : (total p : ℕ) → sum_capacity (made total p).shards ≡ p * per_shard total p
  unfolding made init
  made-capacity total p = sum_capacity-replicate p _ ∙ ground arith

  made_split :
      (total p : ℕ)
      → 0 < p
      → (sum_capacity (made total p).shards ≤ total)
        ⊎ ((total < num_shards (made total p))
            × (sum_capacity (made total p).shards ≡ num_shards (made total p)))
  made_split total p pos =
      rw (made-capacity total p, made-shards total p)
        (elim (dec_le p total) [
          | yes enough ↦ inl (split-le total p pos enough)
          | no few ↦ inr (omega arith, split_small total p (omega arith))
        ])

module _ {ℓ} {K V : Type ℓ} ⦃e : KeyEq K⦄ where
  -- For 1 to 2 ^ 63 shards, let `p` be the least power of two that is at least the number asked
  -- for. If `p` is at most the `max_size` of the vector of shards, the constructor returns a sound
  -- cache with `p` shards, whose capacities add up to at most the total asked for, or to one for
  -- each shard if there are more shards than that. Otherwise it throws `length_error`.
  pub make-IsSound :
      (max_size total n : ℕ)
      → 0 < n
      → n ≤ 2 ^ 63
      → (p : ℕ) × RoundsTo n p
        × (((p ≤ max_size)
              × ((s : Sharded K V) × (make max_size total n ≡ built s)
                  × IsSound s
                  × (num_shards s ≡ p)
                  × ((sum_capacity s.shards ≤ total)
                      ⊎ ((total < num_shards s) × (sum_capacity s.shards ≡ num_shards s)))))
            ⊎ ((max_size < p) × (make {K = K} {V = V} max_size total n ≡ length_error)))
  make-IsSound max_size total n pos h =
      let (p, rounded, to) = round_up_pow2-RoundsTo n pos h in
      let out = make-eq K V max_size total n p pos rounded in
      let above : 0 < p = omega (arith, to.enough) in
      (
        p,
        to,
        elim (Bool-cases (ltb max_size p)) [
          | inl large ↦ inr (ground arith, out ∙ rw large refl)
          | inr fits ↦ inl (
            ground arith,
            (
              made K V total p,
              out ∙ rw fits refl,
              made-IsSound K V total p above,
              made-shards K V total p,
              made_split K V total p above,
            ),
          )
        ],
      )
