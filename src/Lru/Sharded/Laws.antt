-- ===== src/Lru/Sharded/Laws.antt =====
-- Which shard serves a key, and what calls through the shards do.
use Prim.Native.Nat.{bit_and, digits, min, bit_and-bitwise}
use multi_threaded_proxy_ser.Base.{
  ℕ, zero, suc, ◌+◌, ◌/◌, ◌≤◌, ◌<◌, Option, none, some, List, [], ◌∷◌, length, All, if◌then◌else◌,
  ◌==◌, ==_iff, false, ◌≡◌, ◌≢◌, refl, subst, ap, sym, arith, ◌∙◌,
}
use multi_threaded_proxy_ser.Base.Eq.{KeyEq}
use multi_threaded_proxy_ser.Lru.{Cache, get, put}
use multi_threaded_proxy_ser.Lru.Refine.{entries, lookup, ideal_put, get-entries, put-entries}
use multi_threaded_proxy_ser.Lru.Valid.{IsValid, get-IsValid, put-IsValid}
use multi_threaded_proxy_ser.Lru.Sharded.{
  Sharded, get_elem?, set, replicate, mix, shard_for, get_sharded, put_sharded,
}

-- The digits of `a & b` are at most those of `b`.
digits-le : (n a b : ℕ) → digits (λ c. zero) min n a b ≤ b
digits-le zero a b = omega arith
digits-le (suc n) zero b = omega arith
digits-le (suc n) (suc a) b = omega (arith, digits-le n (suc a / 2) (b / 2))

bit_and-le : (a b : ℕ) → bit_and a b ≤ b
bit_and-le a b = omega (arith, bit_and-bitwise a b, digits-le a a b)

==-false : {a b : ℕ} → b ≢ a → (a == b) ≡ false
==-false h = ground arith

module _ {ℓ} {A : Type ℓ} where
  get_elem?_total : (xs : List A) (i : ℕ) → i < length xs → (x : A) × (get_elem? xs i ≡ some x)
  get_elem?_total [] i h = elim h [ ]
  get_elem?_total (x ∷ xs) zero h = (x, refl)
  get_elem?_total (x ∷ xs) (suc i) h = get_elem?_total xs i (omega arith)

  length-set : (xs : List A) (i : ℕ) (v : A) → length (set xs i v) ≡ length xs
  length-set [] i v = refl
  length-set (x ∷ xs) zero v = refl
  length-set (x ∷ xs) (suc i) v = ap suc (length-set xs i v)

  get_elem?-set :
      (xs : List A) (i j : ℕ) (v : A)
      → i < length xs
      → get_elem? (set xs i v) j ≡ (if i == j then some v else get_elem? xs j)
  get_elem?-set [] i j v h = elim h [ ]
  get_elem?-set (x ∷ xs) zero zero v h = refl
  get_elem?-set (x ∷ xs) zero (suc j) v h = ground arith
  get_elem?-set (x ∷ xs) (suc i) zero v h = ground arith
  get_elem?-set (x ∷ xs) (suc i) (suc j) v h = ground (arith, get_elem?-set xs i j v)

  get_elem?-set_self :
      (xs : List A) (i : ℕ) (v : A) → i < length xs → get_elem? (set xs i v) i ≡ some v
  get_elem?-set_self xs i v h = rw (get_elem?-set xs i i v h, (==_iff i i).1 refl)

  get_elem?-set_ne :
      (xs : List A) (i j : ℕ) (v : A)
      → i < length xs
      → j ≢ i
      → get_elem? (set xs i v) j ≡ get_elem? xs j
  get_elem?-set_ne xs i j v h other = rw (get_elem?-set xs i j v h, ==-false other)

  All-set {κ} : (P : A → Type κ) (xs : List A) (i : ℕ) (v : A) → All P xs → P v → All P (set xs i v)
  All-set P [] i v h p = h
  All-set P (x ∷ xs) zero v h p = (p, h.1)
  All-set P (x ∷ xs) (suc i) v h p = (h.0, All-set P xs i v h.1 p)

  All-get_elem? {κ} :
      (P : A → Type κ) (xs : List A) (i : ℕ) (x : A) → All P xs → get_elem? xs i ≡ some x → P x
  All-get_elem? P [] i x h e = cc
  All-get_elem? P (y ∷ xs) zero x h e = subst P (cc) h.0
  All-get_elem? P (y ∷ xs) (suc i) x h e = All-get_elem? P xs i x h.1 e

  pub All-replicate {κ} : (P : A → Type κ) (n : ℕ) (x : A) → P x → All P (replicate n x)
  All-replicate P zero x p = tt
  All-replicate P (suc n) x p = (p, All-replicate P n x p)

  pub length-replicate : (n : ℕ) (x : A) → length (replicate n x) ≡ n
  length-replicate zero x = refl
  length-replicate (suc n) x = ap suc (length-replicate n x)

-- There is one shard for each value under the mask, and each shard is valid.
pub record IsSound {ℓ} {K V : Type ℓ} ⦃e : KeyEq K⦄ (s : Sharded K V) : Type ℓ where
  pub covered : length s.shards ≡ s.shard_mask + 1
  pub valid : All (λ c. IsValid c) s.shards

module _ {ℓ} {K V : Type ℓ} ⦃e : KeyEq K⦄ (hasher : K → ℕ) where
  -- Whatever the hash, the masked position is that of a shard.
  pub shard_for-lt :
      (s : Sharded K V) (k : K) → IsSound s → shard_for hasher s.shard_mask k < length s.shards
  unfolding shard_for
  shard_for-lt s k h = omega (arith, h.covered, bit_and-le (mix (hasher k)) s.shard_mask)

  abbrev pub place : Sharded K V → K → ℕ
  place s k = shard_for hasher s.shard_mask k

  abbrev pub read_from : K → Option (Cache K V) → Option V
  read_from k none = none
  read_from k (some c) = lookup k (entries c)

  -- What the shard of `k` holds for it.
  abbrev pub stored : Sharded K V → K → Option V
  stored s k = read_from k (get_elem? s.shards (place s k))

  serving_total :
      (s : Sharded K V) (k : K)
      → IsSound s
      → (c : Cache K V) × (get_elem? s.shards (place s k) ≡ some c) × IsValid c
  serving_total s k h =
      let (c, found) = get_elem?_total s.shards (place s k) (shard_for-lt s k h) in
      (c, found, All-get_elem? (λ d. IsValid d) s.shards (place s k) c h.valid found)

  with_shard-IsSound :
      (s : Sharded K V) (i : ℕ) (c : Cache K V)
      → IsSound s
      → IsValid c
      → IsSound (record s { shards = set s.shards i c })
  with_shard-IsSound s i c h v = record {
    covered = length-set s.shards i c ∙ h.covered;
    valid = All-set (λ d. IsValid d) s.shards i c h.valid v;
  }

  get_sharded-serving :
      (s : Sharded K V) (k : K) (c : Cache K V)
      → get_elem? s.shards (place s k) ≡ some c
      → get_sharded hasher s k
        ≡ (record s { shards = set s.shards (place s k) (get c k).0 }, (get c k).1)
  unfolding get_sharded
  get_sharded-serving s k c found = rw (found, get_sharded)

  put_sharded-serving :
      (s : Sharded K V) (k : K) (x : V) (c : Cache K V)
      → get_elem? s.shards (place s k) ≡ some c
      → put_sharded hasher s k x ≡ record s { shards = set s.shards (place s k) (put c k x) }
  unfolding put_sharded
  put_sharded-serving s k x c found = rw (found, put_sharded)

  pub get_sharded-IsSound :
      (s : Sharded K V) (k : K) → IsSound s → IsSound (get_sharded hasher s k).0
  get_sharded-IsSound s k h =
      let (c, found, v) = serving_total s k h in
      rw (get_sharded-serving s k c found)
        (with_shard-IsSound s (place s k) (get c k).0 h (get-IsValid c k v))

  pub put_sharded-IsSound :
      (s : Sharded K V) (k : K) (x : V) → IsSound s → IsSound (put_sharded hasher s k x)
  put_sharded-IsSound s k x h =
      let (c, found, v) = serving_total s k h in
      rw (put_sharded-serving s k x c found)
        (with_shard-IsSound s (place s k) (put c k x) h (put-IsValid c k x v))

  -- A read returns what the shard of the key holds.
  pub get_sharded-stored :
      (s : Sharded K V) (k : K) → IsSound s → (get_sharded hasher s k).1 ≡ stored s k
  get_sharded-stored s k h =
      let (c, found, v) = serving_total s k h in
      ap (λ r. r.1) (get_sharded-serving s k c found)
      ∙ (get-entries c k v).0
      ∙ ap (read_from k) (sym found)

  lookup-ideal_put :
      (cap : ℕ) (k : K) (x : V) (l : List (K × V))
      → 0 < cap
      → lookup k (ideal_put cap k x l) ≡ some x
  unfolding lookup
  lookup-ideal_put zero k x l h = elim h [ ]
  lookup-ideal_put (suc n) k x l h = rw ((e.same_iff k k).1 refl)

  -- On a sound sharded cache, whatever the hash function, `put` stores the value under its key, and
  -- what is held for a key of another shard stays the same.
  pub stored-put_sharded :
      (s : Sharded K V) (k q : K) (x : V)
      → IsSound s
      → (stored (put_sharded hasher s k x) k ≡ some x)
        × (place s q ≢ place s k → stored (put_sharded hasher s k x) q ≡ stored s q)
  stored-put_sharded s k q x h =
      let (c, found, v) = serving_total s k h in
      let within = shard_for-lt s k h in
      rw (put_sharded-serving s k x c found) (
        ap (read_from k) (get_elem?-set_self s.shards (place s k) (put c k x) within)
            ∙ ap (lookup k) (put-entries c k x v)
            ∙ lookup-ideal_put c.capacity k x (entries c) v.positive,
        λ other.
            ap (read_from q)
              (get_elem?-set_ne s.shards (place s k) (place s q) (put c k x) within other),
      )
