-- ===== src/Phases/Pool.antt =====
-- server_phase3.cpp, TaskQueue and ThreadPool, with the condition variable: what `cv.wait` does
-- between its test and its sleep counts here. server_phase4.cpp has the same text.
pub mod Counts
pub mod Wakeups
pub mod Stranded
use multi_threaded_proxy_ser.Base.{
  ℕ, zero, suc, ◌+◌, ◌<◌, Bool, true, false, not, ◌||◌, Option, none, some, List, [], ◌∷◌, ◌++◌,
  map, is_empty, if◌then◌else◌, ◌≡◌,
}
use multi_threaded_proxy_ser.Tasks.{front, behind}
use multi_threaded_proxy_ser.Tasks.Pool.{replicate}

-- Where a worker is: at the test of `while (running)`; in `pop`, in front of the predicate; behind
-- the predicate, which was false, with the mutex held; asleep in `cv.wait`, the mutex released; in
-- `task()`; or out of its loop.
pub data Worker {ℓ} (A : Type ℓ) : Type ℓ where
  looping : Worker A
  entering : Worker A
  deciding : Worker A
  asleep : Worker A
  executing : A → Worker A
  exited : Worker A

-- Where the main thread is: in its loop; in `push`, in front of `notify_one`; in `shutdown`, in
-- front of `queue.stop()`; in `stop`, in front of `notify_all`; or at the joins.
pub data Main : Type 0 where
  free : Main
  notifying_one : Main
  stopping : Main
  notifying_all : Main
  joining : Main

pub record Pool {ℓ} (A : Type ℓ) : Type ℓ where
  pub tasks : List A
  pub shutdown : Bool
  pub running : Bool
  pub workers : List (Worker A)
  pub main : Main

-- Whether `stop` sets the flag under the mutex, which the source does not; and whether `cv.wait`
-- may wake without a notification, which the standard permits.
pub record Mode : Type 0 where
  pub stop_locks : Bool
  pub spurious : Bool

module _ {ℓ} {A : Type ℓ} where
  abbrev pub start : ℕ → Pool A
  start n = record {
    tasks = [];
    shutdown = false;
    running = true;
    workers = replicate n looping;
    main = free;
  }

  -- The sum of a weight over the workers.
  abbrev pub total : (Worker A → ℕ) → List (Worker A) → ℕ
  total f [] = 0
  total f (w ∷ ws) = f w + total f ws

  -- A worker that holds the mutex, sleeps, or is about to test the queue.
  abbrev pub holds : Worker A → ℕ
  holds deciding = 1
  holds _ = 0

  abbrev pub sleeps : Worker A → ℕ
  sleeps asleep = 1
  sleeps _ = 0

  abbrev pub tests : Worker A → ℕ
  tests entering = 1
  tests _ = 0

  -- The mutex is free.
  abbrev pub IsUnlocked : Pool A → Type 0
  IsUnlocked s = total holds s.workers ≡ 0

  -- The predicate of `cv.wait`.
  abbrev pub can_pop : Pool A → Bool
  can_pop s = not (is_empty s.tasks) || s.shutdown

  -- What a worker does with the result of `pop`: `if (!task) break; task();`
  abbrev pub next_state : Option A → Worker A
  next_state none = exited
  next_state (some t) = executing t

  -- `notify_all`, for one worker.
  abbrev pub wake : Worker A → Worker A
  wake asleep = entering
  wake looping = looping
  wake entering = entering
  wake deciding = deciding
  wake (executing t) = executing t
  wake exited = exited

  pub data Step (mode : Mode) (s : Pool A) : Pool A → Type ℓ where
    enters :
        (ws vs : List (Worker A))
        → s.workers ≡ ws ++ looping ∷ vs
        → s.running ≡ true
        → Step mode s (record s { workers = ws ++ entering ∷ vs })
    leaves :
        (ws vs : List (Worker A))
        → s.workers ≡ ws ++ looping ∷ vs
        → s.running ≡ false
        → Step mode s (record s { workers = ws ++ exited ∷ vs })
    decides :
        (ws vs : List (Worker A))
        → s.workers ≡ ws ++ entering ∷ vs
        → IsUnlocked s
        → can_pop s ≡ false
        → Step mode s (record s { workers = ws ++ deciding ∷ vs })
    falls_asleep :
        (ws vs : List (Worker A))
        → s.workers ≡ ws ++ deciding ∷ vs
        → Step mode s (record s { workers = ws ++ asleep ∷ vs })
    wakes :
        (ws vs : List (Worker A))
        → mode.spurious ≡ true
        → s.workers ≡ ws ++ asleep ∷ vs
        → Step mode s (record s { workers = ws ++ entering ∷ vs })
    pops :
        (ws vs : List (Worker A))
        → s.workers ≡ ws ++ entering ∷ vs
        → IsUnlocked s
        → can_pop s ≡ true
        → Step mode s
            (record s { tasks = behind s.tasks; workers = ws ++ next_state (front s.tasks) ∷ vs })
    finishes :
        (ws vs : List (Worker A)) (t : A)
        → s.workers ≡ ws ++ executing t ∷ vs
        → Step mode s (record s { workers = ws ++ looping ∷ vs })
    pushes :
        (t : A)
        → s.main ≡ free
        → IsUnlocked s
        → Step mode s (record s { tasks = s.tasks ++ t ∷ []; main = notifying_one })
    notifies_one :
        (ws vs : List (Worker A))
        → s.main ≡ notifying_one
        → s.workers ≡ ws ++ asleep ∷ vs
        → Step mode s (record s { workers = ws ++ entering ∷ vs; main = free })
    notifies_none :
        s.main ≡ notifying_one → total sleeps s.workers ≡ 0 → Step mode s (record s { main = free })
    clears_running : s.main ≡ free → Step mode s (record s { running = false; main = stopping })
    sets_shutdown :
        s.main ≡ stopping
        → (mode.stop_locks ≡ true → IsUnlocked s)
        → Step mode s (record s { shutdown = true; main = notifying_all })
    notifies_all :
        s.main ≡ notifying_all
        → Step mode s (record s { workers = map wake s.workers; main = joining })

  pub data Reach (mode : Mode) (n : ℕ) : Pool A → Type ℓ where
    here : Reach mode n (start n)
    next : {s t : Pool A} → Reach mode n s → Step mode s t → Reach mode n t
