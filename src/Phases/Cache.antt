-- ===== src/Phases/Cache.antt =====
-- server_phase4.cpp, LRUCache, on the nodes of the cache of lru_cache.hpp. A part of a member
-- function under one lock is one step, so that `get` has two.
pub mod Refine
use multi_threaded_proxy_ser.Base.{
  ℕ, suc, ◌+◌, Bool, true, false, Option, none, some, List, [], ◌∷◌, length, leb, if◌then◌else◌,
}
use multi_threaded_proxy_ser.Base.Eq.{KeyEq}
use multi_threaded_proxy_ser.Base.Int.{bump}
use multi_threaded_proxy_ser.Lru.{splice_front, value_at, set_index}
use multi_threaded_proxy_ser.Lru.Nodes.{
  Node, find_node, remove_node, set_value, last_node, pop_back,
}

pub record Cache {ℓ} (K V : Type ℓ) : Type ℓ where
  pub capacity : ℕ
  pub items : List (Node K V)
  pub index : K → Option ℕ
  pub next_id : ℕ
  pub hits : ℕ
  pub misses : ℕ

-- The constructor.
abbrev pub init {ℓ} : {K V : Type ℓ} → ℕ → Cache K V
init cap = record {
  capacity = cap;
  items = [];
  index = λ k. none;
  next_id = 0;
  hits = 0;
  misses = 0;
}

module _ {ℓ} {K V : Type ℓ} ⦃e : KeyEq K⦄ where
  -- The part of `get` under the shared lock: the cache, and whether `get` goes on.
  unfoldable pub peek : Cache K V → K → Cache K V × Bool
  peek c key = elim (c.index key) [
    | none ↦ (record c { misses = bump c.misses }, false)
    | some it ↦ (c, true)
  ]

  -- The part under the unique lock.
  unfoldable pub touch : Cache K V → K → Cache K V × Option V
  unfolding splice_front
  touch c key = elim (c.index key) [
    | none ↦ (record c { misses = bump c.misses }, none)
    | some it ↦
        (let items = splice_front it c.items in
          (record c { items = items; hits = bump c.hits }, value_at it items))
  ]

  -- `get`, where other threads take `between` from the first part to the second.
  unfoldable pub get_around : (Cache K V → Cache K V) → Cache K V → K → Cache K V × Option V
  unfolding peek touch
  get_around between c key =
      let (c1, found) = peek c key in if found then touch (between c1) key else (c1, none)

  -- The eviction: `items.back()` of an empty list has no meaning, which is `none`.
  unfoldable pub evict : Cache K V → Option (Cache K V)
  unfolding last_node pop_back
  evict c = elim (last_node c.items) [
    | none ↦ none
    | some n ↦ some (record c { items = pop_back c.items; index = set_index n.key none c.index })
  ]

  abbrev pub insert : Cache K V → K → V → Cache K V
  insert c key value = record c {
    items = record { id = c.next_id; key = key; value = value } ∷ c.items;
    index = set_index key (some c.next_id) c.index;
    next_id = c.next_id + 1;
  }

  unfoldable pub put : Cache K V → K → V → Option (Cache K V)
  unfolding splice_front set_value evict
  put c key value = elim (c.index key) [
    | some it ↦ some (record c { items = splice_front it (set_value it value c.items) })
    | none ↦ elim (if leb c.capacity (length c.items) then evict c else some c) [
      | none ↦ none
      | some c1 ↦ some (insert c1 key value)
    ]
  ]
