-- ===== src/Lru/Tests.antt =====
-- The cache of lru_cache.hpp at small examples.
use multi_threaded_proxy_ser.Base.{◌≡◌, refl, ℕ, List, some, none, map, ◌∷◌, []}
use multi_threaded_proxy_ser.Base.Eq.{number_key}
use multi_threaded_proxy_ser.Lru.{Cache, init, get, put, erase, stats}
use multi_threaded_proxy_ser.Lru.History.{Call, read, write, run, history, Tracks, run-Tracks}
use multi_threaded_proxy_ser.Lru.Refine.{entries}
use multi_threaded_proxy_ser.Lru.Valid.{IsValid, init-IsValid, put-IsValid, get-IsValid}

abbrev two : Cache ℕ ℕ
two = put (put (init 2) 1 10) 2 20

abbrev three : Cache ℕ ℕ
three = put (get two 1).0 3 30

cases :
    ((get three 2).1 ≡ none)
    × ((get three 1).1 ≡ some 10)
    × ((stats three).evictions ≡ 1)
    × (map (λ n. n.key) three.items ≡ 3 ∷ 1 ∷ [])
    × ((get (erase three 3).0 3).1 ≡ none)
unfolding init get put erase stats
cases = (refl, refl, refl, refl, refl)

three-IsValid : IsValid three
three-IsValid = put-IsValid (get two 1).0 3 30 (
    get-IsValid two 1
      (put-IsValid (put (init 2) 1 10) 2 20 (put-IsValid (init 2) 1 10 (init-IsValid 2))))

empty : Tracks 2 (init {K = ℕ} {V = ℕ} 2) []
unfolding init
empty = record { valid = init-IsValid 2; capacity = refl; recent = refl }

abbrev calls : List (Call ℕ ℕ)
calls = write 1 10 ∷ write 2 20 ∷ read 1 ∷ write 3 30 ∷ read 2 ∷ []

run-Tracks_example : Tracks 2 (run calls (init 2)) (history 2 [] calls)
run-Tracks_example = run-Tracks 2 calls (init 2) [] empty

-- The least recently used entry was evicted.
run_example : entries (run calls (init 2)) ≡ (3, 30) ∷ (1, 10) ∷ []
unfolding init get put run
run_example = refl
