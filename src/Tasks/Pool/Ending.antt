-- ===== src/Tasks/Pool/Ending.antt =====
-- The end of the pool: `stop` wakes every worker, and the workers go on until all have left their
-- loop.
use multi_threaded_proxy_ser.Base.{
  ℕ, ◌+◌, ◌≤◌, ◌<◌, ◌*◌, Bool, true, false, List, [], ◌∷◌, ◌++◌, map, length, All, ◌≡◌, ◌≢◌, ◌⊎◌,
  inl, inr, refl, arith, ap, sym, ◌∙◌, not, ◌||◌, is_empty,
}
use multi_threaded_proxy_ser.Tasks.{TaskQueue, push, can_pop, pop, stop, behind, front}
use multi_threaded_proxy_ser.Tasks.Pool.{
  Worker, waiting, asleep, running, exited, Main, looping, notifying_one, notifying_all, joining,
  System, next_state, after_push, wake, total, sleeps, WorkerStep, pops, falls_asleep, finishes,
  Step, pushes, notifies_one, notifies_none, stops, notifies_all, wakes, works, Reach, here, next,
}
use multi_threaded_proxy_ser.Tasks.Pool.Counts.{total-append, total-split, sleeps-next_state}
use multi_threaded_proxy_ser.Tasks.Pool.Order.{HasExited}

-- Whether the event loop is behind `shutdown_ = true`, and at the joins.
abbrev flagged : Main → Bool
flagged looping = false
flagged notifying_one = false
flagged notifying_all = true
flagged joining = true

abbrev joined : Main → Bool
joined joining = true
joined _ = false

joined-flagged : (m : Main) → joined m ≡ true → flagged m ≡ true
joined-flagged looping h = cc
joined-flagged notifying_one h = cc
joined-flagged notifying_all h = refl
joined-flagged joining h = refl

module _ {ℓ} {A : Type ℓ} where
  pub total-sleeps-wake : (ws : List (Worker A)) → total sleeps (map wake ws) ≡ 0
  unfolding wake
  total-sleeps-wake [] = refl
  total-sleeps-wake (waiting ∷ ws) = omega (arith, total-sleeps-wake ws)
  total-sleeps-wake (asleep ∷ ws) = omega (arith, total-sleeps-wake ws)
  total-sleeps-wake (running t ∷ ws) = omega (arith, total-sleeps-wake ws)
  total-sleeps-wake (exited ∷ ws) = omega (arith, total-sleeps-wake ws)

  -- At the joins the queue is shut down and nobody sleeps.
  record Told (s : System A) : Type 0 where
    is_flagged : s.queue.shutdown ≡ flagged s.main
    is_quiet : joined s.main ≡ true → total sleeps s.workers ≡ 0

  moved-Told :
      (s : System A) (ws vs : List (Worker A)) (w w' : Worker A)
      → s.workers ≡ ws ++ w ∷ vs
      → (joined s.main ≡ true → sleeps w' ≤ sleeps w)
      → Told s
      → Told (record s { workers = ws ++ w' ∷ vs })
  moved-Told s ws vs w w' e f v = record {
    is_flagged = v.is_flagged;
    is_quiet = λ q. omega (
      arith,
      f q,
      v.is_quiet q,
      total-split sleeps s.workers ws vs w e,
      total-append sleeps ws vs w',
    );
  }

  cannot_pop : (q : TaskQueue A) → can_pop q ≡ false → q.shutdown ≡ false
  cannot_pop q h = of q.tasks q.shutdown h
    where
      of : (ts : List A) (b : Bool) → (not (is_empty ts) || b) ≡ false → b ≡ false
      of [] b h = h
      of (t ∷ ts) b h = absurd cc

  push-shutdown : (q : TaskQueue A) (t : A) → (push q t).shutdown ≡ q.shutdown
  unfolding push
  push-shutdown q t = ground arith

  pop-shutdown : (q : TaskQueue A) → (pop q).0.shutdown ≡ q.shutdown
  unfolding pop
  pop-shutdown q = refl

  WorkerStep-Told : {s t : System A} → WorkerStep s t → Told s → Told t
  WorkerStep-Told {s} (pops ws vs e h) v = record {
    is_flagged = pop-shutdown s.queue ∙ v.is_flagged;
    is_quiet = λ q. omega (
      arith,
      v.is_quiet q,
      sleeps-next_state s.queue,
      total-split sleeps s.workers ws vs waiting e,
      total-append sleeps ws vs (next_state (pop s.queue).1),
    );
  }
  WorkerStep-Told {s} (falls_asleep ws vs e h) v =
      let up : flagged s.main ≡ false = sym v.is_flagged ∙ cannot_pop s.queue h in
      moved-Told s ws vs waiting asleep e
        (λ q.
          absurd
            (let down = joined-flagged s.main q in let clash : true ≡ false = sym down ∙ up in cc))
        v
  WorkerStep-Told {s} (finishes ws vs t e) v =
      moved-Told s ws vs (running t) waiting e (λ q. omega arith) v

  Step-Told : {s t : System A} → Step s t → Told s → Told t
  Step-Told {s} (pushes t m) v =
      let up : s.queue.shutdown ≡ false = v.is_flagged ∙ ap flagged m in
      let main : after_push s.queue.shutdown ≡ notifying_one = ap after_push up in
      record {
        is_flagged = push-shutdown s.queue t ∙ up ∙ sym (ap flagged main);
        is_quiet = λ q. absurd (let clash : true ≡ false = sym q ∙ ap joined main in cc);
      }
  Step-Told {s} (notifies_one ws vs m e) v = record {
    is_flagged = v.is_flagged ∙ ap flagged m;
    is_quiet = λ q. cc;
  }
  Step-Told {s} (notifies_none m none_asleep) v = record {
    is_flagged = v.is_flagged ∙ ap flagged m;
    is_quiet = λ q. cc;
  }
  Step-Told {s} (stops m) v = record { is_flagged = unfold stop in refl; is_quiet = λ q. cc }
  Step-Told {s} (notifies_all m) v = record {
    is_flagged = v.is_flagged ∙ ap flagged m;
    is_quiet = λ q. total-sleeps-wake s.workers;
  }
  Step-Told {s} (wakes ws vs e) v = moved-Told s ws vs asleep waiting e (λ q. omega arith) v
  Step-Told (works st) v = WorkerStep-Told st v

  Reach-Told : {n : ℕ} {s : System A} → Reach n s → Told s
  Reach-Told here = record { is_flagged = refl; is_quiet = λ q. cc }
  Reach-Told (next r st) = Step-Told st (Reach-Told r)

  -- A thread that has not ended, if there is one.
  find_live :
      (ws : List (Worker A))
      → All HasExited ws
        ⊎ ((us : List (Worker A)) × (w : Worker A) × (vs : List (Worker A)) × (ws ≡ us ++ w ∷ vs)
            × (w ≢ exited))
  find_live [] = inl tt
  find_live (exited ∷ ws) = elim (find_live ws) [
    | inl all ↦ inl (refl, all)
    | inr (us, w, vs, e, live) ↦ inr (exited ∷ us, w, vs, ap (◌∷◌ exited) e, live)
  ]
  find_live (waiting ∷ ws) = inr ([], waiting, ws, refl, λ p. cc)
  find_live (asleep ∷ ws) = inr ([], asleep, ws, refl, λ p. cc)
  find_live (running t ∷ ws) = inr ([], running t, ws, refl, λ p. cc)

  can_pop_down : (q : TaskQueue A) → q.shutdown ≡ true → can_pop q ≡ true
  can_pop_down q h = of q.tasks q.shutdown h
    where
      of : (ts : List A) (b : Bool) → b ≡ true → (not (is_empty ts) || b) ≡ true
      of [] b h = h
      of (t ∷ ts) b h = refl

  live-WorkerStep :
      (s : System A) (us vs : List (Worker A)) (w : Worker A)
      → s.queue.shutdown ≡ true
      → total sleeps s.workers ≡ 0
      → s.workers ≡ us ++ w ∷ vs
      → w ≢ exited
      → (t : System A) × WorkerStep s t
  live-WorkerStep s us vs waiting down awake e live = (_, pops us vs e (can_pop_down s.queue down))
  live-WorkerStep s us vs asleep down awake e live =
      absurd (omega (arith, awake, total-split sleeps s.workers us vs asleep e))
  live-WorkerStep s us vs (running t) down awake e live = (_, finishes us vs t e)
  live-WorkerStep s us vs exited down awake e live = absurd (live refl)

  -- What is left to do: at most three worker steps for a queued task, two for a running one, and
  -- one for a thread to end.
  abbrev pub weight : Worker A → ℕ
  weight waiting = 1
  weight asleep = 1
  weight (running t) = 2
  weight exited = 0

  abbrev pub remaining : System A → ℕ
  remaining s = 3 * length s.queue.tasks + total weight s.workers

  popped_weight :
      (q : TaskQueue A)
      → 3 * length (pop q).0.tasks + weight (next_state (pop q).1) < 3 * length q.tasks + 1
  unfolding pop
  popped_weight q = of q.tasks
    where
      of :
          (ts : List A)
          → 3 * length (behind ts) + weight (next_state (front ts)) < 3 * length ts + 1
      of [] = omega arith
      of (t ∷ ts) = omega arith

  -- A step at the joins: the thread of the event loop has none.
  joining-Step :
      (s t : System A)
      → Told s
      → s.main ≡ joining
      → Step s t
      → (remaining t < remaining s) × (t.main ≡ joining)
  joining-Step s t v m (pushes u m') = absurd (let clash : looping ≡ joining = sym m' ∙ m in cc)
  joining-Step s t v m (notifies_one ws vs m' e) =
      absurd (let clash : notifying_one ≡ joining = sym m' ∙ m in cc)
  joining-Step s t v m (notifies_none m' none_asleep) =
      absurd (let clash : notifying_one ≡ joining = sym m' ∙ m in cc)
  joining-Step s t v m (stops m') = absurd (let clash : looping ≡ joining = sym m' ∙ m in cc)
  joining-Step s t v m (notifies_all m') =
      absurd (let clash : notifying_all ≡ joining = sym m' ∙ m in cc)
  joining-Step s t v m (wakes ws vs e) =
      absurd (omega (arith, v.is_quiet (ap joined m), total-split sleeps s.workers ws vs asleep e))
  joining-Step s t v m (works (pops ws vs e h)) = (
    omega (
      arith,
      popped_weight s.queue,
      total-split weight s.workers ws vs waiting e,
      total-append weight ws vs (next_state (pop s.queue).1),
    ),
    m,
  )
  joining-Step s t v m (works (falls_asleep ws vs e h)) = absurd (
      let clash : true ≡ false = sym (ap flagged m) ∙ sym v.is_flagged ∙ cannot_pop s.queue h in cc)
  joining-Step s t v m (works (finishes ws vs u e)) = (
    omega (
      arith,
      total-split weight s.workers ws vs (running u) e,
      total-append weight ws vs waiting,
    ),
    m,
  )

  -- In every reachable state with the event loop at its joins, behind `stop`, no worker sleeps in
  -- `cv_.wait`; all workers have left their loop or some worker can take a step that is no spurious
  -- wake-up; and every step that any thread can take leaves the event loop at its joins and makes
  -- what remains to be done, a natural number, smaller.
  pub joins_end :
      {n : ℕ} (s : System A)
      → Reach n s
      → s.main ≡ joining
      → (total sleeps s.workers ≡ 0)
        × (All HasExited s.workers ⊎ ((t : System A) × WorkerStep s t))
        × ((t : System A) → Step s t → (remaining t < remaining s) × (t.main ≡ joining))
  joins_end s r m =
      let v = Reach-Told r in
      let awake = v.is_quiet (ap joined m) in
      let down = v.is_flagged ∙ ap flagged m in
      let goes_on : All HasExited s.workers ⊎ ((t : System A) × WorkerStep s t) =
        elim (find_live s.workers) [
          | inl all ↦ inl all
          | inr (us, w, vs, e, live) ↦ inr (live-WorkerStep s us vs w down awake e live)
        ] in
      (awake, goes_on, λ t st. joining-Step s t v m st)
