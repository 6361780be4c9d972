-- ===== src/Tasks/Pool.antt =====
-- The worker threads of ThreadPool over one TaskQueue, as interleaved steps of the threads. The
-- predicate of `cv_.wait` changes under the mutex only, so that its test is one step with what
-- follows it under the mutex: the pop, or the sleep. The notifications come after the mutex is
-- released and are steps of their own.
pub mod Order
pub mod Counts
pub mod Ending
pub mod Wakeups
use multi_threaded_proxy_ser.Base.{
  ℕ, suc, ◌+◌, ◌≤◌, Bool, true, false, Option, none, some, List, [], ◌∷◌, ◌++◌, map, length, ltb,
  if◌then◌else◌, ◌≡◌, ◌⊎◌, inl, inr, refl, arith, length-append, sym, ap, ◌∙◌, is_empty,
}
use mathlib.Core.List.{append_assoc, append-nil}
use multi_threaded_proxy_ser.Tasks.{TaskQueue, initial, push, can_pop, pop, stop, behind, front}

-- Where a worker thread is: in `queue_.pop()`, in front of the predicate; asleep in `cv_.wait`; in
-- `task()`; or out of its loop.
pub data Worker {ℓ} (A : Type ℓ) : Type ℓ where
  waiting : Worker A
  asleep : Worker A
  running : A → Worker A
  exited : Worker A

-- Where the thread of the event loop is: in its loop; in `push`, in front of `notify_one`; in
-- `stop`, in front of `notify_all`; or at the joins.
pub data Main : Type 0 where
  looping : Main
  notifying_one : Main
  notifying_all : Main
  joining : Main

-- The queue and the threads. `accepted` and `started` are the tasks that `push` took and that
-- workers began, in order; the program keeps neither.
pub record System {ℓ} (A : Type ℓ) : Type ℓ where
  pub queue : TaskQueue A
  pub workers : List (Worker A)
  pub main : Main
  pub accepted : List A
  pub started : List A

abbrev pub replicate {ℓ} : {A : Type ℓ} → ℕ → A → List A
replicate Prim.Native.Nat.ℕ.zero a = []
replicate (Prim.Native.Nat.ℕ.suc n) a = a ∷ replicate n a

-- `push` returns in front of `notify_one` where the queue is shut down.
abbrev pub after_push : Bool → Main
after_push shutdown = if shutdown then looping else notifying_one

module _ {ℓ} {A : Type ℓ} where
  -- The constructor: `n` threads, each about to call `pop`.
  abbrev pub start : ℕ → System A
  start n = record {
    queue = initial;
    workers = replicate n waiting;
    main = looping;
    accepted = [];
    started = [];
  }

  -- What the worker does with the result of `pop`: `if (!task) break; task();`
  abbrev pub next_state : Option A → Worker A
  next_state none = exited
  next_state (some t) = running t

  abbrev pub note : Option A → List A → List A
  note none started = started
  note (some t) started = started ++ t ∷ []

  abbrev pub accept : Bool → A → List A → List A
  accept shutdown t accepted = if shutdown then accepted else accepted ++ t ∷ []

  -- `notify_all`, for one worker.
  unfoldable pub wake : Worker A → Worker A
  wake asleep = waiting
  wake waiting = waiting
  wake (running t) = running t
  wake exited = exited

  abbrev pub total : (Worker A → ℕ) → List (Worker A) → ℕ
  total f [] = 0
  total f (w ∷ ws) = f w + total f ws

  abbrev pub sleeps : Worker A → ℕ
  sleeps asleep = 1
  sleeps _ = 0

  -- A step of one worker, the one behind `ws` in the list, but for a spurious wake-up.
  pub data WorkerStep (s : System A) : System A → Type ℓ where
    pops :
        (ws vs : List (Worker A))
        → s.workers ≡ ws ++ waiting ∷ vs
        → can_pop s.queue ≡ true
        → WorkerStep s (record s {
          queue = (pop s.queue).0;
          workers = ws ++ next_state (pop s.queue).1 ∷ vs;
          started = note (pop s.queue).1 s.started;
        })
    falls_asleep :
        (ws vs : List (Worker A))
        → s.workers ≡ ws ++ waiting ∷ vs
        → can_pop s.queue ≡ false
        → WorkerStep s (record s { workers = ws ++ asleep ∷ vs })
    finishes :
        (ws vs : List (Worker A)) (t : A)
        → s.workers ≡ ws ++ running t ∷ vs
        → WorkerStep s (record s { workers = ws ++ waiting ∷ vs })

  -- A step of the event loop, which pushes tasks, stops the queue and notifies the workers; a step
  -- of a worker; or a spurious wake-up, which the standard permits.
  pub data Step (s : System A) : System A → Type ℓ where
    pushes :
        (t : A)
        → s.main ≡ looping
        → Step s (record s {
          queue = push s.queue t;
          main = after_push s.queue.shutdown;
          accepted = accept s.queue.shutdown t s.accepted;
        })
    notifies_one :
        (ws vs : List (Worker A))
        → s.main ≡ notifying_one
        → s.workers ≡ ws ++ asleep ∷ vs
        → Step s (record s { workers = ws ++ waiting ∷ vs; main = looping })
    notifies_none :
        s.main ≡ notifying_one → total sleeps s.workers ≡ 0 → Step s (record s { main = looping })
    stops : s.main ≡ looping → Step s (record s { queue = stop s.queue; main = notifying_all })
    notifies_all :
        s.main ≡ notifying_all → Step s (record s { workers = map wake s.workers; main = joining })
    wakes :
        (ws vs : List (Worker A))
        → s.workers ≡ ws ++ asleep ∷ vs
        → Step s (record s { workers = ws ++ waiting ∷ vs })
    works : {t : System A} → WorkerStep s t → Step s t

  pub data Reach (n : ℕ) : System A → Type ℓ where
    here : Reach n (start n)
    next : {s t : System A} → Reach n s → Step s t → Reach n t
