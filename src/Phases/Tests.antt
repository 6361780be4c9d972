-- ===== src/Phases/Tests.antt =====
-- The pool, the cache and the handler of the earlier phases at small examples.
use multi_threaded_proxy_ser.Base.{
  ℕ, ◌<◌, true, false, some, [], ◌∷◌, ◌≡◌, refl, arith, Bytes, codes,
}
use multi_threaded_proxy_ser.Base.Eq.{number_key, bytes_key}
use multi_threaded_proxy_ser.Lru as Latest
use multi_threaded_proxy_ser.Lru.Refine.{entries, lookup}
use multi_threaded_proxy_ser.Lru.Valid.{IsValid, init-IsValid, put-IsValid}
use multi_threaded_proxy_ser.Phases.Cache.{put}
use multi_threaded_proxy_ser.Phases.Cache.Refine.{forget_evictions, put-put}
use multi_threaded_proxy_ser.Phases.Handler.{build_response, extract_path, handle_request}
use multi_threaded_proxy_ser.Phases.Handler.Answers.{page, content, handle_request-answers}
use multi_threaded_proxy_ser.Phases.Pool.{
  Pool, Step, Reach, here, next, asleep, joining, notifying_one, enters, decides, falls_asleep,
  pushes, total, sleeps,
}
use multi_threaded_proxy_ser.Phases.Pool.Stranded.{unlocked_stop, stop_strands}
use multi_threaded_proxy_ser.Phases.Pool.Wakeups.{Covered, Reach-Covered}

-- One worker has fallen asleep, and a task was pushed, whose notification is under way.
abbrev pushed : Pool ℕ
pushed = record {
  tasks = 5 ∷ [];
  shutdown = false;
  running = true;
  workers = asleep ∷ [];
  main = notifying_one;
}

pushed-Reach : Reach unlocked_stop 1 pushed
pushed-Reach =
    let tested = next (next here (enters [] [] refl refl)) (decides [] [] refl refl refl) in
    next (next tested (falls_asleep [] [] refl)) (pushes 5 refl refl)

Reach-Covered_example : Covered pushed
Reach-Covered_example = Reach-Covered pushed-Reach

stop_strands_example :
    (s : Pool ℕ) × Reach unlocked_stop 3 s
    × (s.main ≡ joining)
    × (0 < total sleeps s.workers)
    × ((t : Pool ℕ) → ¬ Step unlocked_stop s t)
stop_strands_example = stop_strands ℕ 2

-- A full cache, of which `put` evicts an entry.
abbrev full : Latest.Cache ℕ ℕ
full = Latest.put (Latest.init 1) 1 10

full_capacity : 0 < full.capacity
unfolding Latest.put Latest.init
full_capacity = omega arith

put-put_example : put (forget_evictions full) 2 20 ≡ some (forget_evictions (Latest.put full 2 20))
put-put_example = put-put full 2 20 full_capacity

abbrev cache : Latest.Cache Bytes Bytes
cache = Latest.put (Latest.init 2) (codes "/a") (codes "A")

cache-IsValid : IsValid cache
cache-IsValid = put-IsValid (Latest.init 2) (codes "/a") (codes "A") (init-IsValid 2)

abbrev request : Bytes
request = codes "GET /a HTTP/1.1\r\n\r\n"

handle_request-answers_example :
    let path = extract_path request in
    (c' : Latest.Cache Bytes Bytes) × IsValid c'
    × (lookup path (entries c') ≡ some (content 3 path (lookup path (entries cache))))
    × (handle_request 3 (forget_evictions cache) request
        ≡ some (
          forget_evictions c',
          some (build_response (page 3 path (lookup path (entries cache)))),
        ))
handle_request-answers_example = handle_request-answers 3 cache request cache-IsValid (λ e. cc)
