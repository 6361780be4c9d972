-- ===== src/Lru/History.antt =====
-- Which entries a run of calls leaves: the recent of an ideal history that forgets nothing.
use multi_threaded_proxy_ser.Base.{
  ◌≤◌, ℕ, zero, suc, ◌+◌, none, some, List, [], ◌∷◌, length, take, ◌≡◌, refl, ap, sym, ◌∙◌, arith,
  Option-cases, Bool-cases, inl, inr,
}
use multi_threaded_proxy_ser.Base.Eq.{KeyEq}
use multi_threaded_proxy_ser.Lru.Refine.{
  entries, lookup, forget, ideal_put, take_whole, entries-length, ideal_get, get-entries,
  put-entries,
}
use multi_threaded_proxy_ser.Lru.Valid.{IsValid, get-IsValid, put-IsValid}
use multi_threaded_proxy_ser.Lru.{Cache, get, put, evict_back, push_front}

pub data Call {ℓ} (K V : Type ℓ) : Type ℓ where
  read : K → Call K V
  write : K → V → Call K V

module _ {ℓ} {K V : Type ℓ} ⦃e : KeyEq K⦄ where
  unfoldable pub run : List (Call K V) → Cache K V → Cache K V
  run [] c = c
  run (read k ∷ calls) c = run calls (get c k).0
  run (write k v ∷ calls) c = run calls (put c k v)

  -- The history of a cache of `cap` entries: what a call touches comes to the front. A read counts
  -- if its key is among the first `cap` entries.
  pub note : ℕ → List (K × V) → Call K V → List (K × V)
  note cap h (write k v) = (k, v) ∷ forget k h
  note cap h (read k) = elim (lookup k (take cap h)) [ none ↦ h | some v ↦ (k, v) ∷ forget k h ]

  pub history : ℕ → List (K × V) → List (Call K V) → List (K × V)
  history cap h [] = h
  history cap h (call ∷ calls) = history cap (note cap h call) calls

  take-take : (n : ℕ) (l : List (K × V)) → take n (take n l) ≡ take n l
  take-take zero l = refl
  take-take (suc n) [] = refl
  take-take (suc n) (x ∷ l) = ap (◌∷◌ x) (take-take n l)

  take-forget-take-suc :
      (n : ℕ) (k : K) (l : List (K × V)) → take n (forget k (take (suc n) l)) ≡ take n (forget k l)
  unfolding forget
  take-forget-take-suc zero k l = refl
  take-forget-take-suc (suc n) k [] = refl
  take-forget-take-suc (suc n) k ((j, v) ∷ l) = elim (Bool-cases (e.same j k)) [
    | inl hit ↦ rw hit (take-take (suc n) l)
    | inr miss ↦ rw miss (ap (◌∷◌ (j, v)) (take-forget-take-suc n k l))
  ]

  -- To touch an entry and keep `n` entries, the first `n` are all that matter.
  ideal_put-take :
      (n : ℕ) (k : K) (v : V) (l : List (K × V)) → ideal_put n k v (take n l) ≡ ideal_put n k v l
  ideal_put-take zero k v l = refl
  ideal_put-take (suc n) k v l = ap (◌∷◌ (k, v)) (take-forget-take-suc n k l)

  length-forget :
      (k : K) (v : V) (l : List (K × V)) → lookup k l ≡ some v → length (forget k l) + 1 ≡ length l
  unfolding lookup forget
  length-forget k v [] h = cc
  length-forget k v ((j, w) ∷ l) h = ground (arith, length-forget k v l)

  -- A read that hits takes an entry out before it puts it in front, so the bound is kept.
  note-read :
      (cap : ℕ) (k : K) (h l : List (K × V))
      → l ≡ take cap h
      → length l ≤ cap
      → ideal_get k l ≡ take cap (note cap h (read k))
  unfolding note
  note-read cap k h l w bound = elim (Option-cases (lookup k l)) [
    | inl miss ↦ rw (ideal_get, note, ← w, miss) w
    | inr (v, hit) ↦
        rw (ideal_get, note, ← w, hit)
          (sym (take_whole cap ((k, v) ∷ forget k l) (omega (arith, length-forget k v l hit)))
            ∙ ap (ideal_put cap k v) w
            ∙ ideal_put-take cap k v h)
  ]

  pub record Tracks (cap : ℕ) (c : Cache K V) (h : List (K × V)) : Type ℓ where
    pub valid : IsValid c
    pub capacity : c.capacity ≡ cap
    pub recent : entries c ≡ take cap h

  get-capacity : (c : Cache K V) (k : K) → (get c k).0.capacity ≡ c.capacity
  unfolding get
  get-capacity c k = ground arith

  put-capacity : (c : Cache K V) (k : K) (v : V) → (put c k v).capacity ≡ c.capacity
  unfolding put push_front evict_back
  put-capacity c k v = ground arith

  Tracks-read :
      (cap : ℕ) (c : Cache K V) (h : List (K × V)) (k : K)
      → Tracks cap c h
      → Tracks cap (get c k).0 (note cap h (read k))
  Tracks-read cap c h k t = record {
    valid = get-IsValid c k t.valid;
    capacity = get-capacity c k ∙ t.capacity;
    recent =
        (get-entries c k t.valid).1
        ∙ note-read cap k h (entries c) t.recent
            (omega (arith, entries-length c.items, t.valid.bounded, t.capacity));
  }

  Tracks-write :
      (cap : ℕ) (c : Cache K V) (h : List (K × V)) (k : K) (v : V)
      → Tracks cap c h
      → Tracks cap (put c k v) (note cap h (write k v))
  unfolding note
  Tracks-write cap c h k v t = record {
    valid = put-IsValid c k v t.valid;
    capacity = put-capacity c k v ∙ t.capacity;
    recent =
        put-entries c k v t.valid
        ∙ ap (λ m. ideal_put m k v (entries c)) t.capacity
        ∙ ap (ideal_put cap k v) t.recent
        ∙ ideal_put-take cap k v h;
  }

  -- After any sequence of reads and writes on a cache of capacity `cap` that is valid and holds the
  -- first `cap` entries of a history, the cache is valid and holds, in order, the first `cap`
  -- entries of the history brought up to date by these calls, in which every write and every read
  -- that hits moves its entry to the front: exactly the most recently used entries survive.
  pub run-Tracks :
      (cap : ℕ) (calls : List (Call K V)) (c : Cache K V) (h : List (K × V))
      → Tracks cap c h
      → Tracks cap (run calls c) (history cap h calls)
  unfolding run history
  run-Tracks cap [] c h t = t
  run-Tracks cap (read k ∷ calls) c h t =
      run-Tracks cap calls (get c k).0 (note cap h (read k)) (Tracks-read cap c h k t)
  run-Tracks cap (write k v ∷ calls) c h t =
      run-Tracks cap calls (put c k v) (note cap h (write k v)) (Tracks-write cap c h k v t)
