-- ===== src/Lru/Nodes.antt =====
-- The `std::list<Node>` under the cache: nodes found by identity and by key.
use multi_threaded_proxy_ser.Base.{
  sym, ℕ, ◌+◌, ◌≤◌, ◌<◌, Option, none, some, List, [], ◌∷◌, length, ◌==◌, if◌then◌else◌, ◌≡◌, ◌≢◌,
  refl, arith, Bool-cases, inl, inr,
}
use multi_threaded_proxy_ser.Base.Eq.{KeyEq}

pub record Node {ℓ} (K V : Type ℓ) : Type ℓ where
  pub id : ℕ
  pub key : K
  pub value : V

module _ {ℓ} {K V : Type ℓ} where
  unfoldable pub find_node : ℕ → List (Node K V) → Option (Node K V)
  find_node it [] = none
  find_node it (n ∷ ns) = if n.id == it then some n else find_node it ns

  unfoldable pub remove_node : ℕ → List (Node K V) → List (Node K V)
  remove_node it [] = []
  remove_node it (n ∷ ns) = if n.id == it then ns else n ∷ remove_node it ns

  -- `it->second->value = value`.
  unfoldable pub set_value : ℕ → V → List (Node K V) → List (Node K V)
  set_value it value [] = []
  set_value it value (n ∷ ns) =
      if n.id == it then record n { value = value } ∷ ns else n ∷ set_value it value ns

  unfoldable pub last_node : List (Node K V) → Option (Node K V)
  last_node [] = none
  last_node (n ∷ []) = some n
  last_node (n ∷ m ∷ ns) = last_node (m ∷ ns)

  unfoldable pub pop_back : List (Node K V) → List (Node K V)
  pop_back [] = []
  pop_back (n ∷ []) = []
  pop_back (n ∷ m ∷ ns) = n ∷ pop_back (m ∷ ns)

  -- No node has the identity; no node has the key.
  abbrev pub NoId : ℕ → List (Node K V) → Type ℓ
  NoId i [] = Unit
  NoId i (n ∷ ns) = (n.id ≢ i) × NoId i ns

  abbrev pub NoKey : K → List (Node K V) → Type ℓ
  NoKey k [] = Unit
  NoKey k (n ∷ ns) = (n.key ≢ k) × NoKey k ns

  -- Identities and keys are distinct, and identities are below `bound`.
  abbrev pub IsWellFormed : ℕ → List (Node K V) → Type ℓ
  IsWellFormed bound [] = Unit
  IsWellFormed bound (n ∷ ns) =
      (n.id < bound) × NoId n.id ns × NoKey n.key ns × IsWellFormed bound ns

module _ {ℓ} {K V : Type ℓ} ⦃e : KeyEq K⦄ where
  -- The node with a key, by walking the list.
  unfoldable pub node_of : K → List (Node K V) → Option (Node K V)
  node_of k [] = none
  node_of k (n ∷ ns) = if e.same n.key k then some n else node_of k ns

  unfoldable pub remove_key : K → List (Node K V) → List (Node K V)
  remove_key k [] = []
  remove_key k (n ∷ ns) = if e.same n.key k then ns else n ∷ remove_key k ns

  -- What the walk finds has the key, and is what the identity finds.
  pub node_of-key :
      (k : K) (ns : List (Node K V)) (n : Node K V) → node_of k ns ≡ some n → n.key ≡ k
  unfolding node_of
  node_of-key k [] n h = cc
  node_of-key k (m ∷ ns) n h = ground (arith, e.same_iff m.key k, node_of-key k ns n)

  pub node_of-NoKey : (k : K) (ns : List (Node K V)) → NoKey k ns → node_of k ns ≡ none
  unfolding node_of
  node_of-NoKey k [] h = refl
  node_of-NoKey k (m ∷ ns) h = ground (arith, e.same_iff m.key k, node_of-NoKey k ns)

  pub NoKey-node_of : (k : K) (ns : List (Node K V)) → node_of k ns ≡ none → NoKey k ns
  unfolding node_of
  NoKey-node_of k [] h = tt
  NoKey-node_of k (m ∷ ns) h = ground (arith, e.same_iff m.key k, NoKey-node_of k ns)

  node_of-NoId :
      (k : K) (i : ℕ) (ns : List (Node K V)) (n : Node K V)
      → NoId i ns
      → node_of k ns ≡ some n
      → n.id ≢ i
  unfolding node_of
  node_of-NoId k i [] n f h = cc
  node_of-NoId k i (m ∷ ns) n f h = ground (arith, node_of-NoId k i ns n f.1)

  pub find_node-node_of :
      (k : K) (bound : ℕ) (ns : List (Node K V)) (n : Node K V)
      → IsWellFormed bound ns
      → node_of k ns ≡ some n
      → (find_node n.id ns ≡ some n) × (remove_node n.id ns ≡ remove_key k ns)
  unfolding node_of find_node remove_node remove_key
  find_node-node_of k bound [] n f h = cc
  find_node-node_of k bound (m ∷ ns) n f h =
      ground (arith, find_node-node_of k bound ns n f.3, node_of-NoId k m.id ns n f.1)

  pub set_value-node_of :
      (k : K) (v : V) (bound : ℕ) (ns : List (Node K V)) (n : Node K V)
      → IsWellFormed bound ns
      → node_of k ns ≡ some n
      → (find_node n.id (set_value n.id v ns) ≡ some (record n { value = v }))
        × (remove_node n.id (set_value n.id v ns) ≡ remove_key k ns)
  unfolding node_of find_node remove_node remove_key set_value
  set_value-node_of k v bound [] n f h = cc
  set_value-node_of k v bound (m ∷ ns) n f h =
      ground (arith, set_value-node_of k v bound ns n f.3, node_of-NoId k m.id ns n f.1)

  -- Removing a key keeps the list well formed, and frees the key and the identity.
  remove_key-NoId : (k : K) (i : ℕ) (ns : List (Node K V)) → NoId i ns → NoId i (remove_key k ns)
  unfolding remove_key
  remove_key-NoId k i [] h = tt
  remove_key-NoId k i (m ∷ ns) h = ground (arith, remove_key-NoId k i ns h.1)

  remove_key-NoKey : (k q : K) (ns : List (Node K V)) → NoKey q ns → NoKey q (remove_key k ns)
  unfolding remove_key
  remove_key-NoKey k q [] h = tt
  remove_key-NoKey k q (m ∷ ns) h = ground (arith, remove_key-NoKey k q ns h.1)

  pub remove_key-IsWellFormed :
      (k : K) (bound : ℕ) (ns : List (Node K V))
      → IsWellFormed bound ns
      → IsWellFormed bound (remove_key k ns) × NoKey k (remove_key k ns)
  unfolding remove_key
  remove_key-IsWellFormed k bound [] f = (tt, tt)
  remove_key-IsWellFormed k bound (m ∷ ns) f = ground (
    arith,
    e.same_iff m.key k,
    remove_key-IsWellFormed k bound ns f.3,
    remove_key-NoId k m.id ns f.1,
    remove_key-NoKey k m.key ns f.2,
  )

  pub NoId-node_of :
      (k : K) (bound : ℕ) (ns : List (Node K V)) (n : Node K V)
      → IsWellFormed bound ns
      → node_of k ns ≡ some n
      → NoId n.id (remove_key k ns) × (n.id < bound)
  unfolding node_of remove_key
  NoId-node_of k bound [] n f h = cc
  NoId-node_of k bound (m ∷ ns) n f h = elim (Bool-cases (e.same m.key k)) [
    | inl hit ↦ let same : m ≡ n = ground arith in rw (hit, ← same) (f.1, f.0)
    | inr miss ↦
        let found : node_of k ns ≡ some n = rw miss at h in
        let (free, below) = NoId-node_of k bound ns n f.3 found in
        rw miss (((λ p. node_of-NoId k m.id ns n f.1 found (sym p)), free), below)
  ]

  pub node_of-remove_key :
      (k q : K) (bound : ℕ) (ns : List (Node K V))
      → IsWellFormed bound ns
      → node_of q (remove_key k ns) ≡ (if e.same k q then none else node_of q ns)
  unfolding node_of remove_key
  node_of-remove_key k q bound [] f = ground arith
  node_of-remove_key k q bound (m ∷ ns) f = ground (
    arith,
    e.same_iff m.key k,
    e.same_iff m.key q,
    e.same_iff k q,
    node_of-remove_key k q bound ns f.3,
    node_of-NoKey q ns,
  )

  pub length-remove_key :
      (k : K) (ns : List (Node K V)) (n : Node K V)
      → node_of k ns ≡ some n
      → length (remove_key k ns) + 1 ≡ length ns
  unfolding node_of remove_key
  length-remove_key k [] n h = cc
  length-remove_key k (m ∷ ns) n h = ground (arith, length-remove_key k ns n)

module _ {ℓ} {K V : Type ℓ} where
  NoId-pop_back : (i : ℕ) (ns : List (Node K V)) → NoId i ns → NoId i (pop_back ns)
  unfolding pop_back
  NoId-pop_back i [] h = tt
  NoId-pop_back i (n ∷ []) h = tt
  NoId-pop_back i (n ∷ m ∷ ns) h = (h.0, NoId-pop_back i (m ∷ ns) h.1)

  NoKey-pop_back : (k : K) (ns : List (Node K V)) → NoKey k ns → NoKey k (pop_back ns)
  unfolding pop_back
  NoKey-pop_back k [] h = tt
  NoKey-pop_back k (n ∷ []) h = tt
  NoKey-pop_back k (n ∷ m ∷ ns) h = (h.0, NoKey-pop_back k (m ∷ ns) h.1)

  pub pop_back-IsWellFormed :
      (bound : ℕ) (ns : List (Node K V)) → IsWellFormed bound ns → IsWellFormed bound (pop_back ns)
  unfolding pop_back
  pop_back-IsWellFormed bound [] f = tt
  pop_back-IsWellFormed bound (n ∷ []) f = tt
  pop_back-IsWellFormed bound (n ∷ m ∷ ns) f = (
    f.0,
    NoId-pop_back n.id (m ∷ ns) f.1,
    NoKey-pop_back n.key (m ∷ ns) f.2,
    pop_back-IsWellFormed bound (m ∷ ns) f.3,
  )

  pub length-pop_back :
      (ns : List (Node K V)) → 0 < length ns → length (pop_back ns) + 1 ≡ length ns
  unfolding pop_back
  length-pop_back [] h = absurd (omega arith)
  length-pop_back (n ∷ []) h = refl
  length-pop_back (n ∷ m ∷ ns) h = omega (arith, length-pop_back (m ∷ ns) (omega arith))

  NoKey-last_node :
      (k : K) (ns : List (Node K V)) (l : Node K V) → NoKey k ns → last_node ns ≡ some l → l.key ≢ k
  unfolding last_node
  NoKey-last_node k [] l h p = cc
  NoKey-last_node k (n ∷ []) l h p = ground arith
  NoKey-last_node k (n ∷ m ∷ ns) l h p = NoKey-last_node k (m ∷ ns) l h.1 p

  pub last_node_total :
      (ns : List (Node K V)) → 0 < length ns → (l : Node K V) × (last_node ns ≡ some l)
  unfolding last_node
  last_node_total [] h = absurd (omega arith)
  last_node_total (n ∷ []) h = (n, refl)
  last_node_total (n ∷ m ∷ ns) h = last_node_total (m ∷ ns) (omega arith)

  pub IsWellFormed-mono :
      (b c : ℕ) (ns : List (Node K V)) → b ≤ c → IsWellFormed b ns → IsWellFormed c ns
  IsWellFormed-mono b c [] h f = tt
  IsWellFormed-mono b c (n ∷ ns) h f = (omega arith, f.1, f.2, IsWellFormed-mono b c ns h f.3)

  pub NoId-bound : (b : ℕ) (ns : List (Node K V)) → IsWellFormed b ns → NoId b ns
  NoId-bound b [] f = tt
  NoId-bound b (n ∷ ns) f = (omega arith, NoId-bound b ns f.3)

module _ {ℓ} {K V : Type ℓ} ⦃e : KeyEq K⦄ where
  pub node_of-pop_back :
      (q : K) (bound : ℕ) (ns : List (Node K V)) (l : Node K V)
      → IsWellFormed bound ns
      → last_node ns ≡ some l
      → node_of q (pop_back ns) ≡ (if e.same l.key q then none else node_of q ns)
  unfolding node_of pop_back last_node
  node_of-pop_back q bound [] l f h = cc
  node_of-pop_back q bound (n ∷ []) l f h = ground arith
  node_of-pop_back q bound (n ∷ m ∷ ns) l f h = ground (
    arith,
    e.same_iff n.key q,
    e.same_iff l.key q,
    NoKey-last_node n.key (m ∷ ns) l f.2 h,
    node_of-pop_back q bound (m ∷ ns) l f.3 h,
  )
