-- ===== src/Tasks/Tests.antt =====
-- The task queue and the pool of server_phase5.cpp at a small run.
use multi_threaded_proxy_ser.Base.{false, ℕ, ◌≡◌, ◌⊎◌, ◌<◌, refl, [], ◌∷◌, All, true}
use multi_threaded_proxy_ser.Tasks.{push, pop, stop}
use multi_threaded_proxy_ser.Tasks.Pool.{
  System, waiting, asleep, exited, joining, notifying_one, Reach, here, next, WorkerStep, Step,
  pushes, stops, works, pops, finishes, falls_asleep, notifies_one, notifies_all, wake, total,
  sleeps,
}
use multi_threaded_proxy_ser.Tasks.Pool.Order.{Inv, Reach-Inv, HasExited, join_drains}
use multi_threaded_proxy_ser.Tasks.Pool.Wakeups.{IsServed, Reach-IsServed}
use multi_threaded_proxy_ser.Tasks.Pool.Ending.{remaining, joins_end}

-- One worker takes a task, the queue is stopped, and the worker leaves.
abbrev ended : System ℕ
ended = record {
  queue = record { tasks = []; shutdown = true; high_water = 1 };
  workers = exited ∷ [];
  main = joining;
  accepted = 7 ∷ [];
  started = 7 ∷ [];
}

-- The worker sleeps first, is woken for the task, and has ended when all are notified.
ended-Reach : Reach 1 ended
unfolding push pop stop wake
ended-Reach =
    next
      (next
        (next
          (next
            (next
              (next (next (next here (works (falls_asleep [] [] refl refl))) (pushes 7 refl))
                (notifies_one [] [] refl refl))
              (works (pops [] [] refl refl)))
            (stops refl))
          (works (finishes [] [] 7 refl)))
        (works (pops [] [] refl refl)))
      (notifies_all refl)

Reach-Inv_example : Inv ended
Reach-Inv_example = Reach-Inv ended-Reach

join_drains_example : ended.started ≡ ended.accepted
join_drains_example = join_drains ended exited [] ended-Reach refl (refl, tt)

-- Two workers sleep when the queue is stopped.
abbrev stopped : System ℕ
stopped = record {
  queue = record { tasks = []; shutdown = true; high_water = 0 };
  workers = waiting ∷ waiting ∷ [];
  main = joining;
  accepted = [];
  started = [];
}

stopped-Reach : Reach 2 stopped
unfolding stop wake
stopped-Reach =
    next
      (next
        (next (next here (works (falls_asleep [] (waiting ∷ []) refl refl)))
          (works (falls_asleep (asleep ∷ []) [] refl refl)))
        (stops refl))
      (notifies_all refl)

joins_end_example :
    (total sleeps stopped.workers ≡ 0)
    × (All HasExited stopped.workers ⊎ ((t : System ℕ) × WorkerStep stopped t))
    × ((t : System ℕ) → Step stopped t → (remaining t < remaining stopped) × (t.main ≡ joining))
joins_end_example = joins_end stopped stopped-Reach refl

-- A task is pushed while the worker sleeps.
abbrev told : System ℕ
told = record {
  queue = record { tasks = 5 ∷ []; shutdown = false; high_water = 1 };
  workers = asleep ∷ [];
  main = notifying_one;
  accepted = 5 ∷ [];
  started = [];
}

told-Reach : Reach 1 told
unfolding push
told-Reach = next (next here (works (falls_asleep [] [] refl refl))) (pushes 5 refl)

Reach-IsServed_example : IsServed told
Reach-IsServed_example = Reach-IsServed told-Reach
