-- ===== src/Phases/Cache/Refine.antt =====
-- The cache of phase 4 against the one of phase 5: the same but for the count of evictions, where
-- the capacity is positive.
use multi_threaded_proxy_ser.Base.{
  ℕ, ◌<◌, Bool, true, false, none, some, [], length, leb, ◌≡◌, ◌⊎◌, refl, sym, ap, ◌∙◌, arith,
  Option-cases, inl, inr,
}
use multi_threaded_proxy_ser.Base.Eq.{KeyEq}
use multi_threaded_proxy_ser.Base.Int.{bump}
use multi_threaded_proxy_ser.Lru as Latest
use multi_threaded_proxy_ser.Lru.Nodes.{last_node, last_node_total}
use multi_threaded_proxy_ser.Phases.Cache.{Cache, peek, touch, get_around, evict, put}

-- The cache of phase 5 without its count of evictions.
abbrev pub forget_evictions {ℓ} : {K V : Type ℓ} → Latest.Cache K V → Cache K V
forget_evictions c = record {
  capacity = c.capacity;
  items = c.items;
  index = c.index;
  next_id = c.next_id;
  hits = c.hits;
  misses = c.misses;
}

module _ {ℓ} {K V : Type ℓ} ⦃e : KeyEq K⦄ where
  touch-get :
      (c : Latest.Cache K V) (k : K)
      → touch (forget_evictions c) k ≡ (forget_evictions (Latest.get c k).0, (Latest.get c k).1)
  unfolding touch Latest.get
  touch-get c k = elim (Option-cases (c.index k)) [
    | inl miss ↦ rw (miss, touch, Latest.get) refl
    | inr (it, hit) ↦ rw (hit, touch, Latest.get) refl
  ]

  peek-found : (c : Cache K V) (k : K) (it : ℕ) → c.index k ≡ some it → peek c k ≡ (c, true)
  unfolding peek
  peek-found c k it h = rw (h, peek) refl

  peek-absent :
      (c : Cache K V) (k : K)
      → c.index k ≡ none
      → peek c k ≡ (record c { misses = bump c.misses }, false)
  unfolding peek
  peek-absent c k h = rw (h, peek) refl

  touch-absent :
      (c : Cache K V) (k : K)
      → c.index k ≡ none
      → touch c k ≡ (record c { misses = bump c.misses }, none)
  unfolding touch
  touch-absent c k h = rw (h, touch) refl

  -- Whatever other threads do between its two parts, `get` is the `get` of phase 5 before it or
  -- after it.
  pub get_around-get :
      (between : Cache K V → Cache K V) (latest : Latest.Cache K V → Latest.Cache K V)
      (c : Latest.Cache K V) (k : K)
      → between (forget_evictions c) ≡ forget_evictions (latest c)
      → (get_around between (forget_evictions c) k
          ≡ (forget_evictions (Latest.get c k).0, (Latest.get c k).1))
        ⊎ (get_around between (forget_evictions c) k
            ≡ (forget_evictions (Latest.get (latest c) k).0, (Latest.get (latest c) k).1))
  unfolding get_around
  get_around-get between latest c k same = elim (Option-cases (c.index k)) [
    | inl absent ↦ inl (
        rw (peek-absent (forget_evictions c) k absent, get_around)
          (sym (touch-absent (forget_evictions c) k absent) ∙ touch-get c k))
    | inr (it, found) ↦ inr (
        rw (peek-found (forget_evictions c) k it found, get_around)
          (ap (λ d. touch d k) same ∙ touch-get (latest c) k))
  ]

  put-found :
      (c : Latest.Cache K V) (k : K) (v : V) (it : ℕ)
      → c.index k ≡ some it
      → put (forget_evictions c) k v ≡ some (forget_evictions (Latest.put c k v))
  unfolding put Latest.put
  put-found c k v it h = rw (h, put, Latest.put) refl

  put-absent :
      (c : Latest.Cache K V) (k : K) (v : V) (b : Bool)
      → c.index k ≡ none
      → leb c.capacity (length c.items) ≡ b
      → (b ≡ true → 0 < length c.items)
      → put (forget_evictions c) k v ≡ some (forget_evictions (Latest.put c k v))
  unfolding put Latest.put evict Latest.evict_back Latest.push_front
  put-absent c k v false h room full = rw (h, room, put, Latest.put) refl
  put-absent c k v true h room full =
      let (n, last) = last_node_total c.items (full refl) in
      rw (h, room, last, put, Latest.put, evict, Latest.evict_back) refl

  -- With the capacity 0, which the constructor takes, the first `put` has no meaning.
  put_undefined :
      (c : Cache K V) (k : K) (v : V)
      → c.index k ≡ none
      → c.capacity ≡ 0
      → c.items ≡ []
      → put c k v ≡ none
  unfolding put evict last_node
  put_undefined c k v h zero_capacity empty =
      let full : leb c.capacity (length c.items) ≡ true = ground (arith, zero_capacity) in
      let nothing : last_node c.items ≡ none = ap last_node empty in
      rw (h, full, nothing, put, evict) refl

  -- On a cache with a positive capacity, `put` of phase 4 is defined and does what `put` of
  -- lru_cache.hpp does, but for the count of evictions.
  pub put-put :
      (c : Latest.Cache K V) (k : K) (v : V)
      → 0 < c.capacity
      → put (forget_evictions c) k v ≡ some (forget_evictions (Latest.put c k v))
  put-put c k v positive = elim (Option-cases (c.index k)) [
    | inr (it, found) ↦ put-found c k v it found
    | inl absent ↦
        put-absent c k v (leb c.capacity (length c.items)) absent refl
          (λ full. ground (arith, positive))
  ]
