-- ===== src/Tasks/Pool/Wakeups.antt =====
-- The wake-ups that `push` of server_phase5.cpp sends.
use multi_threaded_proxy_ser.Base.{
  ℕ, ◌+◌, ◌≤◌, ◌<◌, Bool, false, List, [], ◌∷◌, ◌++◌, length, ◌≡◌, inl, inr, refl, arith, ap, not,
  ◌||◌, is_empty, length-append, Bool-cases,
}
use multi_threaded_proxy_ser.Tasks.{TaskQueue, push, can_pop, pop, stop, behind}
use multi_threaded_proxy_ser.Tasks.Pool.{
  Worker, waiting, asleep, running, Main, notifying_one, System, next_state, after_push, total,
  sleeps, WorkerStep, pops, falls_asleep, finishes, Step, pushes, notifies_one, notifies_none,
  stops, notifies_all, wakes, works, Reach, here, next,
}
use multi_threaded_proxy_ser.Tasks.Pool.Counts.{total-append, total-split, sleeps-next_state}
use multi_threaded_proxy_ser.Tasks.Pool.Ending.{total-sleeps-wake}

-- A notification of one task that is under way.
abbrev pub pending : Main → ℕ
pending notifying_one = 1
pending _ = 0

module _ {ℓ} {A : Type ℓ} where
  -- A worker in front of the predicate.
  abbrev pub tests : Worker A → ℕ
  tests waiting = 1
  tests _ = 0

  -- While a worker sleeps, each task has a worker in front of the predicate or a notification.
  abbrev pub IsServed : System A → Type 0
  IsServed s =
      0 < total sleeps s.workers → length s.queue.tasks ≤ total tests s.workers + pending s.main

  -- One worker moves, and the queue and the event loop may change with it.
  moved-IsServed :
      (s : System A) (ws vs : List (Worker A)) (w w' : Worker A) (n p : ℕ)
      → s.workers ≡ ws ++ w ∷ vs
      → ((z k : ℕ)
          → (0 < sleeps w + z → length s.queue.tasks ≤ (tests w + k) + pending s.main)
          → 0 < sleeps w' + z
          → n ≤ (tests w' + k) + p)
      → IsServed s
      → 0 < total sleeps (ws ++ w' ∷ vs)
      → n ≤ total tests (ws ++ w' ∷ vs) + p
  moved-IsServed s ws vs w w' n p e f v q =
      let z = total sleeps ws + total sleeps vs in
      let k = total tests ws + total tests vs in
      let before : 0 < sleeps w + z → length s.queue.tasks ≤ (tests w + k) + pending s.main = λ r.
        omega (
          arith,
          v (omega (arith, r, total-split sleeps s.workers ws vs w e)),
          total-split tests s.workers ws vs w e,
        ) in
      omega (
        arith,
        f z k before (omega (arith, q, total-append sleeps ws vs w')),
        total-append tests ws vs w',
      )

  empty_queue : (q : TaskQueue A) → can_pop q ≡ false → length q.tasks ≡ 0
  empty_queue q h = of q.tasks q.shutdown h
    where
      of : (ts : List A) (b : Bool) → (not (is_empty ts) || b) ≡ false → length ts ≡ 0
      of [] b h = refl
      of (t ∷ ts) b h = absurd cc

  behind-lt : (q : TaskQueue A) (n : ℕ) → length q.tasks ≤ 1 + n → length (pop q).0.tasks ≤ n
  unfolding pop
  behind-lt q n h = of q.tasks h
    where
      of : (ts : List A) → length ts ≤ 1 + n → length (behind ts) ≤ n
      of [] h = omega arith
      of (t ∷ ts) h = omega arith

  WorkerStep-IsServed : {s t : System A} → WorkerStep s t → IsServed s → IsServed t
  WorkerStep-IsServed {s} (pops ws vs e h) v =
      let w = next_state (pop s.queue).1 in
      moved-IsServed s ws vs waiting w (length (pop s.queue).0.tasks) (pending s.main) e
        (λ z k b q.
          let le =
            behind-lt s.queue (k + pending s.main)
              (omega (arith, b (omega (arith, q, sleeps-next_state s.queue)))) in
          omega (arith, le))
        v
  WorkerStep-IsServed {s} (falls_asleep ws vs e h) v =
      moved-IsServed s ws vs waiting asleep (length s.queue.tasks) (pending s.main) e
        (λ z k b q. omega (arith, empty_queue s.queue h)) v
  WorkerStep-IsServed {s} (finishes ws vs t e) v =
      moved-IsServed s ws vs (running t) waiting (length s.queue.tasks) (pending s.main) e
        (λ z k b q. omega (arith, b q)) v

  length-push :
      (q : TaskQueue A) (t : A)
      → length (push q t).tasks ≤ length q.tasks + pending (after_push q.shutdown)
  unfolding push
  length-push q t = elim (Bool-cases q.shutdown) [
    | inl down ↦ rw (down, push) (omega arith)
    | inr up ↦ rw (up, push) (omega (arith, length-append q.tasks (t ∷ [])))
  ]

  Step-IsServed : {s t : System A} → Step s t → IsServed s → IsServed t
  Step-IsServed {s} (pushes t m) v = λ q. omega (arith, length-push s.queue t, v q, ap pending m)
  Step-IsServed {s} (notifies_one ws vs m e) v =
      moved-IsServed s ws vs asleep waiting (length s.queue.tasks) 0 e
        (λ z k b q. omega (arith, b (omega arith), ap pending m)) v
  Step-IsServed {s} (notifies_none m none_asleep) v = λ q. absurd (omega (arith, q, none_asleep))
  Step-IsServed {s} (stops m) v = unfold stop in λ q. omega (arith, v q, ap pending m)
  Step-IsServed {s} (notifies_all m) v = λ q. absurd (omega (arith, q, total-sleeps-wake s.workers))
  Step-IsServed {s} (wakes ws vs e) v =
      moved-IsServed s ws vs asleep waiting (length s.queue.tasks) (pending s.main) e
        (λ z k b q. omega (arith, b (omega arith))) v
  Step-IsServed (works st) v = WorkerStep-IsServed st v

  -- In every reachable state of the pool of phase 5, with spurious wake-ups or without, while a
  -- worker sleeps in `cv_.wait` there are no more tasks queued than workers in front of the
  -- predicate and notifications under way.
  pub Reach-IsServed : {n : ℕ} {s : System A} → Reach n s → IsServed s
  Reach-IsServed here = λ q. omega arith
  Reach-IsServed (next r st) = Step-IsServed st (Reach-IsServed r)
