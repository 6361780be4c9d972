-- ===== src/Lru/Valid.antt =====
-- The invariant that ties the index to the list, and what the member functions compute under it.
use multi_threaded_proxy_ser.Base.{
  ℕ, ◌+◌, ◌≤◌, ◌<◌, true, false, Option, none, some, List, ◌∷◌, length, leb, if◌then◌else◌, ◌≡◌,
  refl, arith, Bool-cases, Option-cases, inl, inr,
}
use multi_threaded_proxy_ser.Base.Int.{bump}
use multi_threaded_proxy_ser.Base.Eq.{KeyEq}
use multi_threaded_proxy_ser.Lru.Nodes.{
  Node, IsWellFormed, node_of, remove_key, find_node, node_of-key, NoKey-node_of, find_node-node_of,
  set_value-node_of, remove_key-IsWellFormed, NoId-node_of, node_of-remove_key, length-remove_key,
  pop_back-IsWellFormed, length-pop_back, last_node_total, IsWellFormed-mono, NoId-bound,
  node_of-pop_back,
}
use multi_threaded_proxy_ser.Lru.{
  Cache, splice_front, init, set_index, get, evict_back, push_front, put, erase, reset,
}

abbrev pub id_of {ℓ} : {K V : Type ℓ} → Option (Node K V) → Option ℕ
id_of none = none
id_of (some n) = some n.id

-- The list is within the capacity, no two nodes share a key or an identity, and the index holds
-- exactly the keys of the list, each with its own node.
pub record IsValid {ℓ} {K V : Type ℓ} ⦃e : KeyEq K⦄ (c : Cache K V) : Type ℓ where
  pub positive : 0 < c.capacity
  pub bounded : length c.items ≤ c.capacity
  pub formed : IsWellFormed c.next_id c.items
  pub agrees : (k : K) → c.index k ≡ id_of (node_of k c.items)

module _ {ℓ} {K V : Type ℓ} ⦃e : KeyEq K⦄ where
  pub init-IsValid : (cap : ℕ) → IsValid (init {K = K} {V = V} cap)
  unfolding init node_of
  init-IsValid cap = record {
    positive = ground arith;
    bounded = omega arith;
    formed = tt;
    agrees = λ k. refl;
  }

  pub reset-IsValid : (c : Cache K V) → IsValid c → IsValid (reset c)
  unfolding reset node_of
  reset-IsValid c v = record {
    positive = v.positive;
    bounded = omega arith;
    formed = tt;
    agrees = λ k. refl;
  }

  -- A hit moves the node of the key to the front, perhaps with another value.
  abbrev pub touched : Cache K V → K → Node K V → List (Node K V)
  touched c k n = n ∷ remove_key k c.items

  pub get-hit :
      (c : Cache K V) (k : K) (n : Node K V)
      → IsValid c
      → node_of k c.items ≡ some n
      → get c k ≡ (record c { items = touched c k n; hits = bump c.hits }, some n.value)
  unfolding get splice_front find_node
  get-hit c k n v h = ground (arith, v.agrees k, find_node-node_of k c.next_id c.items n v.formed h)

  pub get-miss :
      (c : Cache K V) (k : K)
      → IsValid c
      → node_of k c.items ≡ none
      → get c k ≡ (record c { misses = bump c.misses }, none)
  unfolding get
  get-miss c k v h = ground (arith, v.agrees k)

  pub put-hit :
      (c : Cache K V) (k : K) (x : V) (n : Node K V)
      → IsValid c
      → node_of k c.items ≡ some n
      → put c k x ≡ record c { items = touched c k (record n { value = x }) }
  unfolding put splice_front
  put-hit c k x n v h =
      ground (arith, v.agrees k, set_value-node_of k x c.next_id c.items n v.formed h)

  abbrev pub make_room : Cache K V → Cache K V
  make_room c = if leb c.capacity (length c.items) then evict_back c else c

  pub put-miss :
      (c : Cache K V) (k : K) (x : V)
      → IsValid c
      → node_of k c.items ≡ none
      → put c k x ≡ push_front (make_room c) k x
  unfolding put
  put-miss c k x v h = ground (arith, v.agrees k)

  pub erase-hit :
      (c : Cache K V) (k : K) (n : Node K V)
      → IsValid c
      → node_of k c.items ≡ some n
      → erase c k
        ≡ (record c { items = remove_key k c.items; index = set_index k none c.index }, true)
  unfolding erase
  erase-hit c k n v h =
      ground (arith, v.agrees k, find_node-node_of k c.next_id c.items n v.formed h)

  pub erase-miss :
      (c : Cache K V) (k : K) → IsValid c → node_of k c.items ≡ none → erase c k ≡ (c, false)
  unfolding erase
  erase-miss c k v h = ground (arith, v.agrees k)

  touched-IsWellFormed :
      (c : Cache K V) (k : K) (n m : Node K V)
      → IsValid c
      → node_of k c.items ≡ some n
      → m.id ≡ n.id
      → m.key ≡ n.key
      → IsWellFormed c.next_id (touched c k m)
  touched-IsWellFormed c k n m v h i p =
      let (free, below) = NoId-node_of k c.next_id c.items n v.formed h in
      let (formed, none_left) = remove_key-IsWellFormed k c.next_id c.items v.formed in
      rw (i, p, node_of-key k c.items n h) (below, free, none_left, formed)

  touched-agrees :
      (c : Cache K V) (k : K) (n m : Node K V)
      → IsValid c
      → node_of k c.items ≡ some n
      → m.id ≡ n.id
      → m.key ≡ n.key
      → (q : K) → c.index q ≡ id_of (node_of q (touched c k m))
  unfolding node_of
  touched-agrees c k n m v h i p q = ground (
    arith,
    v.agrees q,
    node_of-key k c.items n h,
    e.same_iff k q,
    e.same_iff m.key q,
    node_of-remove_key k q c.next_id c.items v.formed,
  )

  -- So a state with such a list, and any counters, is valid.
  touched-IsValid :
      (c : Cache K V) (k : K) (n m : Node K V) (hits : ℕ)
      → IsValid c
      → node_of k c.items ≡ some n
      → m.id ≡ n.id
      → m.key ≡ n.key
      → IsValid (record c { items = touched c k m; hits = hits })
  touched-IsValid c k n m hits v h i p = record {
    positive = v.positive;
    bounded = omega (arith, v.bounded, length-remove_key k c.items n h);
    formed = touched-IsWellFormed c k n m v h i p;
    agrees = touched-agrees c k n m v h i p;
  }

  pub get-IsValid : (c : Cache K V) (k : K) → IsValid c → IsValid (get c k).0
  get-IsValid c k v = elim (Option-cases (node_of k c.items)) [
    | inl miss ↦ rw (get-miss c k v miss) (record {
      positive = v.positive;
      bounded = v.bounded;
      formed = v.formed;
      agrees = v.agrees;
    })
    | inr (n, hit) ↦
        rw (get-hit c k n v hit) (touched-IsValid c k n n (bump c.hits) v hit refl refl)
  ]

  pub erase-IsValid : (c : Cache K V) (k : K) → IsValid c → IsValid (erase c k).0
  erase-IsValid c k v = elim (Option-cases (node_of k c.items)) [
    | inl miss ↦ rw (erase-miss c k v miss) v
    | inr (n, hit) ↦ rw (erase-hit c k n v hit) (record {
      positive = v.positive;
      bounded = omega (arith, v.bounded, length-remove_key k c.items n hit);
      formed = (remove_key-IsWellFormed k c.next_id c.items v.formed).0;
      agrees = λ q. ground (arith, v.agrees q, node_of-remove_key k q c.next_id c.items v.formed);
    })
  ]

  -- After an eviction the cache is valid, and there is room.
  evict_back-IsValid : (c : Cache K V) → IsValid c → 0 < length c.items → IsValid (evict_back c)
  unfolding evict_back
  evict_back-IsValid c v h =
      let (l, last) = last_node_total c.items h in
      rw (last, evict_back)
        (record {
          positive = v.positive;
          bounded = omega (arith, v.bounded, length-pop_back c.items h);
          formed = pop_back-IsWellFormed c.next_id c.items v.formed;
          agrees =
              λ q. ground (arith, v.agrees q, node_of-pop_back q c.next_id c.items l v.formed last);
        })

  -- What `put` knows of the state that it inserts into.
  pub record HasRoom (c : Cache K V) (k : K) : Type ℓ where
    pub valid : IsValid c
    pub room : length c.items < c.capacity
    pub absent : node_of k c.items ≡ none

  evict_back-absent :
      (c : Cache K V) (k : K)
      → IsValid c
      → 0 < length c.items
      → node_of k c.items ≡ none
      → node_of k (evict_back c).items ≡ none
  unfolding evict_back
  evict_back-absent c k v h miss =
      let (l, last) = last_node_total c.items h in
      ground (arith, last, node_of-pop_back k c.next_id c.items l v.formed last)

  evict_back-room :
      (c : Cache K V)
      → IsValid c
      → 0 < length c.items
      → length (evict_back c).items < (evict_back c).capacity
  unfolding evict_back
  evict_back-room c v h =
      let (l, last) = last_node_total c.items h in
      rw (last, evict_back) (omega (arith, v.bounded, length-pop_back c.items h))

  pub make_room-HasRoom :
      (c : Cache K V) (k : K) → IsValid c → node_of k c.items ≡ none → HasRoom (make_room c) k
  make_room-HasRoom c k v miss = elim (Bool-cases (leb c.capacity (length c.items))) [
    | inl full ↦
        let h : 0 < length c.items = ground (arith, v.positive) in
        rw full (record {
          valid = evict_back-IsValid c v h;
          room = evict_back-room c v h;
          absent = evict_back-absent c k v h miss;
        })
    | inr free ↦ rw free (record { valid = v; room = ground arith; absent = miss })
  ]

  push_front-IsValid : (c : Cache K V) (k : K) (x : V) → HasRoom c k → IsValid (push_front c k x)
  unfolding push_front node_of
  push_front-IsValid c k x r = record {
    positive = r.valid.positive;
    bounded = omega (arith, r.room);
    formed = (
      omega arith,
      NoId-bound c.next_id c.items r.valid.formed,
      NoKey-node_of k c.items r.absent,
      IsWellFormed-mono c.next_id (c.next_id + 1) c.items (omega arith) r.valid.formed,
    );
    agrees = λ q. ground (arith, r.valid.agrees q);
  }

  -- `put` keeps a cache valid: the list within its positive capacity, no key and no node twice, and
  -- an index that holds exactly the keys of the list, each with its own node.
  pub put-IsValid : (c : Cache K V) (k : K) (x : V) → IsValid c → IsValid (put c k x)
  put-IsValid c k x v = elim (Option-cases (node_of k c.items)) [
    | inl miss ↦
        rw (put-miss c k x v miss) (push_front-IsValid _ k x (make_room-HasRoom c k v miss))
    | inr (n, hit) ↦
        rw (put-hit c k x n v hit)
          (touched-IsValid c k n (record n { value = x }) c.hits v hit refl refl)
  ]
