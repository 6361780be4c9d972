-- ===== src/Tasks/Pool/Order.antt =====
-- The pool runs what was accepted, once, in order, and its threads end only when all is done.
use mathlib.Core.List.{append-nil, append_assoc}
use multi_threaded_proxy_ser.Base.{
  ℕ, zero, suc, ◌≤◌, Bool, true, List, [], ◌∷◌, ◌++◌, map, length, All, ◌≡◌, inl, inr, refl, arith,
  sym, ap, subst, not, ◌||◌, ◌∙◌, is_empty, Bool-cases,
}
use multi_threaded_proxy_ser.Tasks.{TaskQueue, push, can_pop, pop, stop, behind, front}
use multi_threaded_proxy_ser.Tasks.Pool.{
  Worker, waiting, asleep, running, exited, Main, looping, System, start, next_state, note, accept,
  wake, Step, WorkerStep, works, pushes, stops, pops, falls_asleep, finishes, notifies_one,
  notifies_none, notifies_all, wakes, Reach, here, next, replicate,
}

module _ {ℓ} {A : Type ℓ} where
  -- A thread that has left its loop means that the queue is shut down and drained.
  abbrev pub ExitIsFinal : TaskQueue A → Worker A → Type ℓ
  ExitIsFinal q waiting = Unit
  ExitIsFinal q asleep = Unit
  ExitIsFinal q (running t) = Unit
  ExitIsFinal q exited = (q.shutdown ≡ true) × (q.tasks ≡ [])

  pub record Inv (s : System A) : Type ℓ where
    pub in_order : s.accepted ≡ s.started ++ s.queue.tasks
    pub marked : length s.queue.tasks ≤ s.queue.high_water
    pub final : All (ExitIsFinal s.queue) s.workers

  All-replicate : (q : TaskQueue A) (n : ℕ) → All (ExitIsFinal q) (replicate n waiting)
  All-replicate q zero = tt
  All-replicate q (suc n) = (tt, All-replicate q n)

  All-map :
      (q r : TaskQueue A) (ws : List (Worker A))
      → ((w : Worker A) → ExitIsFinal q w → ExitIsFinal r w)
      → All (ExitIsFinal q) ws
      → All (ExitIsFinal r) ws
  All-map q r [] f h = tt
  All-map q r (w ∷ ws) f h = (f w h.0, All-map q r ws f h.1)

  push_final : (q : TaskQueue A) (t : A) (w : Worker A) → ExitIsFinal q w → ExitIsFinal (push q t) w
  unfolding push
  push_final q t waiting h = tt
  push_final q t asleep h = tt
  push_final q t (running u) h = tt
  push_final q t exited h = ground arith

  stop_final : (q : TaskQueue A) (w : Worker A) → ExitIsFinal q w → ExitIsFinal (stop q) w
  unfolding stop
  stop_final q waiting h = tt
  stop_final q asleep h = tt
  stop_final q (running u) h = tt
  stop_final q exited h = (refl, h.1)

  pop_final : (q : TaskQueue A) (w : Worker A) → ExitIsFinal q w → ExitIsFinal (pop q).0 w
  unfolding pop
  pop_final q waiting h = tt
  pop_final q asleep h = tt
  pop_final q (running u) h = tt
  pop_final q exited h = (h.0, ap behind h.1)

  popped_of :
      (ts : List A) (shutdown : Bool) (high_water : ℕ)
      → (not (is_empty ts) || shutdown) ≡ true
      → ExitIsFinal
          (record { tasks = behind ts; shutdown = shutdown; high_water = high_water })
          (next_state (front ts))
  popped_of [] shutdown high_water h = (h, refl)
  popped_of (t ∷ ts) shutdown high_water h = tt

  popped_final : (q : TaskQueue A) → can_pop q ≡ true → ExitIsFinal (pop q).0 (next_state (pop q).1)
  unfolding pop
  popped_final q h = popped_of q.tasks q.shutdown q.high_water h

  All-around :
      (q : TaskQueue A) (ws vs : List (Worker A)) (w v : Worker A)
      → ExitIsFinal q v
      → All (ExitIsFinal q) (ws ++ w ∷ vs)
      → All (ExitIsFinal q) (ws ++ v ∷ vs)
  All-around q [] vs w v h a = (h, a.1)
  All-around q (x ∷ ws) vs w v h a = (a.0, All-around q ws vs w v h a.1)

  push_order :
      (q : TaskQueue A) (t : A) (accepted started : List A)
      → accepted ≡ started ++ q.tasks
      → accept q.shutdown t accepted ≡ started ++ (push q t).tasks
  unfolding push
  push_order q t accepted started h = elim (Bool-cases q.shutdown) [
    | inl down ↦ rw (down, accept, push) h
    | inr up ↦ rw (up, accept, push) (rw h (append_assoc started q.tasks (t ∷ [])))
  ]

  push_marked :
      (q : TaskQueue A) (t : A)
      → length q.tasks ≤ q.high_water
      → length (push q t).tasks ≤ (push q t).high_water
  unfolding push
  push_marked q t h = ground arith

  order_of :
      (ts accepted started : List A)
      → accepted ≡ started ++ ts
      → accepted ≡ note (front ts) started ++ behind ts
  order_of [] accepted started h = h
  order_of (t ∷ ts) accepted started h = h ∙ sym (append_assoc started (t ∷ []) ts)

  behind-le : (ts : List A) (n : ℕ) → length ts ≤ n → length (behind ts) ≤ n
  behind-le [] n h = h
  behind-le (t ∷ ts) n h = omega arith

  pop_order :
      (q : TaskQueue A) (accepted started : List A)
      → accepted ≡ started ++ q.tasks
      → accepted ≡ note (pop q).1 started ++ (pop q).0.tasks
  unfolding pop
  pop_order q accepted started h = order_of q.tasks accepted started h

  -- A worker moves, and the queue stays.
  moved-Inv :
      (s : System A) (ws vs : List (Worker A)) (w w' : Worker A)
      → ExitIsFinal s.queue w'
      → s.workers ≡ ws ++ w ∷ vs
      → Inv s
      → Inv (record s { workers = ws ++ w' ∷ vs })
  moved-Inv s ws vs w w' h e v = record {
    in_order = v.in_order;
    marked = v.marked;
    final = All-around s.queue ws vs w w' h (subst (All (ExitIsFinal s.queue)) e v.final);
  }

  wake_final :
      (q : TaskQueue A) (ws : List (Worker A))
      → All (ExitIsFinal q) ws
      → All (ExitIsFinal q) (map wake ws)
  unfolding wake
  wake_final q [] h = tt
  wake_final q (waiting ∷ ws) h = (tt, wake_final q ws h.1)
  wake_final q (asleep ∷ ws) h = (tt, wake_final q ws h.1)
  wake_final q (running t ∷ ws) h = (tt, wake_final q ws h.1)
  wake_final q (exited ∷ ws) h = (h.0, wake_final q ws h.1)

  WorkerStep-Inv : {s t : System A} → WorkerStep s t → Inv s → Inv t
  WorkerStep-Inv {s} (pops ws vs e h) v = record {
    in_order = pop_order s.queue s.accepted s.started v.in_order;
    marked = unfold pop in behind-le s.queue.tasks s.queue.high_water v.marked;
    final =
        All-around (pop s.queue).0 ws vs waiting (next_state (pop s.queue).1)
          (popped_final s.queue h)
          (All-map s.queue (pop s.queue).0 (ws ++ waiting ∷ vs) (pop_final s.queue)
            (subst (All (ExitIsFinal s.queue)) e v.final));
  }
  WorkerStep-Inv {s} (falls_asleep ws vs e h) v = moved-Inv s ws vs waiting asleep tt e v
  WorkerStep-Inv {s} (finishes ws vs t e) v = moved-Inv s ws vs (running t) waiting tt e v

  with_main : (s : System A) (m : Main) → Inv s → Inv (record s { main = m })
  with_main s m v = record { in_order = v.in_order; marked = v.marked; final = v.final }

  Step-Inv : {s t : System A} → Step s t → Inv s → Inv t
  Step-Inv {s} (pushes t m) v = record {
    in_order = push_order s.queue t s.accepted s.started v.in_order;
    marked = push_marked s.queue t v.marked;
    final = All-map s.queue (push s.queue t) s.workers (push_final s.queue t) v.final;
  }
  Step-Inv {s} (stops m) v = record {
    in_order = unfold stop in v.in_order;
    marked = unfold stop in v.marked;
    final = All-map s.queue (stop s.queue) s.workers (stop_final s.queue) v.final;
  }
  Step-Inv {s} (notifies_one ws vs m e) v =
      with_main (record s { workers = ws ++ waiting ∷ vs }) looping
        (moved-Inv s ws vs asleep waiting tt e v)
  Step-Inv {s} (notifies_none m none_asleep) v = with_main s looping v
  Step-Inv {s} (notifies_all m) v = record {
    in_order = v.in_order;
    marked = v.marked;
    final = wake_final s.queue s.workers v.final;
  }
  Step-Inv {s} (wakes ws vs e) v = moved-Inv s ws vs asleep waiting tt e v
  Step-Inv (works st) v = WorkerStep-Inv st v

  start-Inv : (n : ℕ) → Inv (start n)
  start-Inv n = record {
    in_order = refl;
    marked = omega arith;
    final = All-replicate (start n).queue n;
  }

  -- In every reachable state of the pool the tasks accepted are those started followed by those
  -- queued, the high-water mark is at least the depth of the queue, and a worker has left its loop
  -- only if the queue is shut down and empty.
  pub Reach-Inv : {n : ℕ} {s : System A} → Reach n s → Inv s
  Reach-Inv {n} here = start-Inv n
  Reach-Inv (next r st) = Step-Inv st (Reach-Inv r)

  abbrev pub HasExited : Worker A → Type ℓ
  HasExited w = w ≡ exited

  exited_drained :
      (q : TaskQueue A) (w : Worker A) (ws : List (Worker A))
      → All (ExitIsFinal q) (w ∷ ws)
      → All HasExited (w ∷ ws)
      → q.tasks ≡ []
  exited_drained q waiting ws f h = absurd (cc)
  exited_drained q asleep ws f h = absurd (cc)
  exited_drained q (running t) ws f h = absurd (cc)
  exited_drained q exited ws f h = f.0.1

  drained : (s : System A) → Inv s → s.queue.tasks ≡ [] → s.started ≡ s.accepted
  drained s v h = sym (v.in_order ∙ ap (λ t. s.started ++ t) h ∙ append-nil s.started)

  -- In every reachable state of a pool with at least one worker in which all workers have left
  -- their loop, the tasks that were started are the tasks that the queue accepted, each once and in
  -- that order.
  pub join_drains :
      {n : ℕ} (s : System A) (w : Worker A) (ws : List (Worker A))
      → Reach n s
      → s.workers ≡ w ∷ ws
      → All HasExited s.workers
      → s.started ≡ s.accepted
  join_drains s w ws r e h =
      let v = Reach-Inv r in
      drained s v (
        exited_drained s.queue w ws (subst (All (ExitIsFinal s.queue)) e v.final)
          (subst (All HasExited) e h))
