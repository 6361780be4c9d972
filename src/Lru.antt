-- ===== src/Lru.antt =====
-- lru_cache.hpp, LRUCache. A list iterator is the identity of a node: the index maps keys to
-- identities, and `splice` moves a node without changing its identity. The mutex makes each member
-- function one step.
pub mod Nodes
pub mod Valid
pub mod Refine
pub mod History
pub mod Sharded
mod Tests
use multi_threaded_proxy_ser.Base.{
  ℕ, suc, ◌+◌, Bool, true, false, Option, none, some, List, [], ◌∷◌, length, leb, ◌==◌,
  if◌then◌else◌,
}
use multi_threaded_proxy_ser.Base.Eq.{KeyEq}
use multi_threaded_proxy_ser.Base.Int.{bump}
use Nodes.{Node, find_node, remove_node, set_value, last_node, pop_back}

pub record Cache {ℓ} (K V : Type ℓ) : Type ℓ where
  pub capacity : ℕ
  pub items : List (Node K V)
  pub index : K → Option ℕ
  pub next_id : ℕ
  pub hits : ℕ
  pub misses : ℕ
  pub evictions : ℕ

-- `items_.splice(items_.begin(), items_, it)`; with a dangling iterator the program has no meaning,
-- and the model leaves the list alone.
unfoldable pub splice_front {ℓ} : {K V : Type ℓ} → ℕ → List (Node K V) → List (Node K V)
unfolding find_node remove_node
splice_front it items = elim (find_node it items) [
  | none ↦ items
  | some n ↦ n ∷ remove_node it items
]

abbrev pub value_at {ℓ} : {K V : Type ℓ} → ℕ → List (Node K V) → Option V
value_at it items = elim (find_node it items) [ none ↦ none | some n ↦ some n.value ]

-- The constructor.
unfoldable pub init {ℓ} : {K V : Type ℓ} → ℕ → Cache K V
init cap = record {
  capacity = if cap == 0 then 1 else cap;
  items = [];
  index = λ k. none;
  next_id = 0;
  hits = 0;
  misses = 0;
  evictions = 0;
}

-- `index_[key] = it`, and `index_.erase(key)` for `none`.
abbrev pub set_index {ℓ} : {K : Type ℓ} ⦃e : KeyEq K⦄ → K → Option ℕ → (K → Option ℕ) → K → Option ℕ
set_index ⦃e⦄ key it index k = if e.same key k then it else index k

module _ {ℓ} {K V : Type ℓ} ⦃e : KeyEq K⦄ where
  unfoldable pub get : Cache K V → K → Cache K V × Option V
  unfolding splice_front
  get c key = elim (c.index key) [
    | none ↦ (record c { misses = bump c.misses }, none)
    | some it ↦
        (let items = splice_front it c.items in
          (record c { items = items; hits = bump c.hits }, value_at it items))
  ]

  -- The eviction in `put`: the node at the back leaves the list and the index.
  unfoldable pub evict_back : Cache K V → Cache K V
  unfolding last_node pop_back
  evict_back c = elim (last_node c.items) [
    | none ↦ c
    | some n ↦ record c {
      items = pop_back c.items;
      index = set_index n.key none c.index;
      evictions = bump c.evictions;
    }
  ]

  unfoldable pub push_front : Cache K V → K → V → Cache K V
  push_front c key value = record c {
    items = record { id = c.next_id; key = key; value = value } ∷ c.items;
    index = set_index key (some c.next_id) c.index;
    next_id = c.next_id + 1;
  }

  unfoldable pub put : Cache K V → K → V → Cache K V
  unfolding splice_front set_value evict_back push_front
  put c key value = elim (c.index key) [
    | some it ↦ record c { items = splice_front it (set_value it value c.items) }
    | none ↦ push_front (if leb c.capacity (length c.items) then evict_back c else c) key value
  ]

  unfoldable pub erase : Cache K V → K → Cache K V × Bool
  unfolding remove_node
  erase c key = elim (c.index key) [
    | none ↦ (c, false)
    | some it ↦
        (record c { items = remove_node it c.items; index = set_index key none c.index }, true)
  ]

abbrev pub size {ℓ} : {K V : Type ℓ} → Cache K V → ℕ
size c = length c.items

-- The integer members of `Stats`.
pub record Stats : Type 0 where
  pub hits : ℕ
  pub misses : ℕ
  pub evictions : ℕ
  pub size : ℕ

unfoldable pub stats {ℓ} : {K V : Type ℓ} → Cache K V → Stats
stats c = record {
  hits = c.hits;
  misses = c.misses;
  evictions = c.evictions;
  size = length c.items;
}

-- The evictions are counted afresh, too.
unfoldable pub reset {ℓ} : {K V : Type ℓ} → Cache K V → Cache K V
reset c = record c { items = []; index = λ k. none; hits = 0; misses = 0; evictions = 0 }
