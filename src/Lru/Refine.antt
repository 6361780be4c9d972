-- ===== src/Lru/Refine.antt =====
-- The cache against an ideal one: a list of pairs, most recently used first, with no nodes, index
-- or identities.
use multi_threaded_proxy_ser.Base.{
  ℕ, zero, suc, ◌+◌, ◌-◌, ◌≤◌, ◌<◌, true, false, Option, none, some, List, [], ◌∷◌, length, leb,
  take, drop, length-drop, take-append-drop, ◌++◌, if◌then◌else◌, ◌≡◌, refl, ap, sym, ◌∙◌, arith,
  Bool-cases, Option-cases, inl, inr, map,
}
use mathlib.Core.List.{append-nil}
use multi_threaded_proxy_ser.Base.Eq.{KeyEq}
use multi_threaded_proxy_ser.Lru.Nodes.{
  Node, node_of, remove_key, pop_back, node_of-key, last_node_total, length-remove_key,
}
use multi_threaded_proxy_ser.Lru.Valid.{
  IsValid, get-hit, get-miss, put-hit, put-miss, erase-hit, erase-miss, make_room,
}
use multi_threaded_proxy_ser.Lru.{Cache, evict_back, push_front, get, put, erase}

abbrev pub entry {ℓ} : {K V : Type ℓ} → Node K V → K × V
entry n = (n.key, n.value)

abbrev pub entries {ℓ} : {K V : Type ℓ} → Cache K V → List (K × V)
entries c = map entry c.items

module _ {ℓ} {K V : Type ℓ} where
  pub entries-length : (ns : List (Node K V)) → length (map entry ns) ≡ length ns
  entries-length [] = refl
  entries-length (n ∷ ns) = ap suc (entries-length ns)

module _ {ℓ} {K V : Type ℓ} ⦃e : KeyEq K⦄ where
  unfoldable pub lookup : K → List (K × V) → Option V
  lookup k [] = none
  lookup k ((j, v) ∷ l) = if e.same j k then some v else lookup k l

  unfoldable pub forget : K → List (K × V) → List (K × V)
  forget k [] = []
  forget k ((j, v) ∷ l) = if e.same j k then l else (j, v) ∷ forget k l

  -- The ideal `put` and `get`: the entry goes to the front, and the first `cap` entries stay.
  abbrev pub ideal_put : ℕ → K → V → List (K × V) → List (K × V)
  ideal_put cap k v l = take cap ((k, v) ∷ forget k l)

  abbrev pub ideal_get : K → List (K × V) → List (K × V)
  ideal_get k l = elim (lookup k l) [ none ↦ l | some v ↦ (k, v) ∷ forget k l ]

  lookup-entries :
      (k : K) (ns : List (Node K V))
      → lookup k (map entry ns) ≡ elim (node_of k ns) [ none ↦ none | some n ↦ some n.value ]
  unfolding lookup node_of
  lookup-entries k [] = refl
  lookup-entries k (n ∷ ns) = ground (arith, lookup-entries k ns)

  forget-entries :
      (k : K) (ns : List (Node K V)) → map entry (remove_key k ns) ≡ forget k (map entry ns)
  unfolding forget remove_key
  forget-entries k [] = refl
  forget-entries k (n ∷ ns) = ground (arith, forget-entries k ns)

  forget_absent :
      (k : K) (ns : List (Node K V)) → node_of k ns ≡ none → forget k (map entry ns) ≡ map entry ns
  unfolding forget node_of
  forget_absent k [] h = refl
  forget_absent k (n ∷ ns) h = ground (arith, forget_absent k ns)

  length-forget :
      (k : K) (ns : List (Node K V)) (n : Node K V)
      → node_of k ns ≡ some n
      → length (forget k (map entry ns)) + 1 ≡ length ns
  length-forget k ns n h = omega (
    arith,
    ap length (forget-entries k ns),
    entries-length (remove_key k ns),
    length-remove_key k ns n h,
  )

  -- On a valid cache `get` returns the value of the key's entry, if there is one, and then moves
  -- that entry to the front; the other entries keep their order.
  pub get-entries :
      (c : Cache K V) (k : K)
      → IsValid c
      → ((get c k).1 ≡ lookup k (entries c)) × (entries (get c k).0 ≡ ideal_get k (entries c))
  get-entries c k v = elim (Option-cases (node_of k c.items)) [
    | inl miss ↦ rw (get-miss c k v miss, ideal_get, lookup-entries k c.items, miss) (refl, refl)
    | inr (n, hit) ↦
        rw (get-hit c k n v hit, ideal_get, lookup-entries k c.items, hit)
          (refl, ground (arith, node_of-key k c.items n hit, forget-entries k c.items))
  ]

module _ {ℓ} {A : Type ℓ} where
  take-cons : (n : ℕ) (x : A) (xs : List A) → 0 < n → take n (x ∷ xs) ≡ x ∷ take (n - 1) xs
  take-cons zero x xs h = absurd (omega arith)
  take-cons (suc n) x xs h = ap (λ m. x ∷ take m xs) (omega arith)

  nil_of_length : (xs : List A) → length xs ≡ 0 → xs ≡ []
  nil_of_length [] h = refl
  nil_of_length (x ∷ xs) h = absurd (omega arith)

  -- Nothing is dropped behind the end, so a list that fits is taken whole.
  pub take_whole : (n : ℕ) (xs : List A) → length xs ≤ n → take n xs ≡ xs
  take_whole n xs fits =
      let dropped = nil_of_length (drop n xs) (omega (arith, length-drop n xs, fits)) in
      sym (append-nil (take n xs)) ∙ ap (λ t. take n xs ++ t) (sym dropped) ∙ take-append-drop n xs

module _ {ℓ} {K V : Type ℓ} where
  take-pop_back :
      (m : ℕ) (ns : List (Node K V))
      → length ns ≡ suc m
      → map entry (pop_back ns) ≡ take m (map entry ns)
  unfolding pop_back
  take-pop_back m [] h = absurd (omega arith)
  take-pop_back zero (n ∷ []) h = refl
  take-pop_back (suc m) (n ∷ []) h = absurd (omega arith)
  take-pop_back zero (n ∷ n' ∷ ns) h = absurd (omega arith)
  take-pop_back (suc m) (n ∷ n' ∷ ns) h =
      ap (◌∷◌ (entry n)) (take-pop_back m (n' ∷ ns) (omega arith))

module _ {ℓ} {K V : Type ℓ} ⦃e : KeyEq K⦄ where
  make_room-entries :
      (c : Cache K V) (m : ℕ)
      → IsValid c
      → c.capacity ≡ suc m
      → (entries (make_room c) ≡ take m (entries c))
  unfolding evict_back
  make_room-entries c m v cap = elim (Bool-cases (leb c.capacity (length c.items))) [
    | inl full ↦
        let h : length c.items ≡ suc m = ground (arith, v.bounded) in
        let (l, last) = last_node_total c.items (omega arith) in
        rw full (rw (last, evict_back) (take-pop_back m c.items h))
    | inr free ↦ rw free (
        sym (
          take_whole m (map entry c.items) (
            let bound : length c.items ≤ m = ground (arith, v.bounded) in
            omega (arith, entries-length c.items))))
  ]

  -- On a valid cache `put` does to the entries what an ideal cache does: the new entry comes to the
  -- front, an older one with its key goes, and only the first `capacity` entries stay.
  pub put-entries :
      (c : Cache K V) (k : K) (x : V)
      → IsValid c
      → entries (put c k x) ≡ ideal_put c.capacity k x (entries c)
  unfolding push_front
  put-entries c k x v =
      let cap : c.capacity ≡ suc (c.capacity - 1) = omega (arith, v.positive) in
      elim (Option-cases (node_of k c.items)) [
        | inl miss ↦
            rw (put-miss c k x v miss, forget_absent k c.items miss)
              (ap (◌∷◌ (k, x)) (make_room-entries c (c.capacity - 1) v cap)
                ∙ sym (take-cons c.capacity (k, x) (entries c) v.positive))
        | inr (n, hit) ↦
            rw (put-hit c k x n v hit, node_of-key k c.items n hit, forget-entries k c.items)
              (sym
                (take_whole c.capacity _ (omega (arith, v.bounded, length-forget k c.items n hit))))
      ]

  -- On a valid cache `erase` removes the entry of the key and nothing else, and returns whether
  -- there was one.
  pub erase-entries :
      (c : Cache K V) (k : K)
      → IsValid c
      → (entries (erase c k).0 ≡ forget k (entries c))
        × ((erase c k).1 ≡ elim (lookup k (entries c)) [ none ↦ false | some _ ↦ true ])
  erase-entries c k v = elim (Option-cases (node_of k c.items)) [
    | inl miss ↦
        rw (erase-miss c k v miss, lookup-entries k c.items, miss)
          (sym (forget_absent k c.items miss), refl)
    | inr (n, hit) ↦
        rw (erase-hit c k n v hit, lookup-entries k c.items, hit) (forget-entries k c.items, refl)
  ]
