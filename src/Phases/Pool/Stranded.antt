-- ===== src/Phases/Pool/Stranded.antt =====
-- With `stop` as phases 3 and 4 have it, without the mutex, a worker can miss the last wake-up.
use mathlib.Core.List.{append-nil}
use multi_threaded_proxy_ser.Base.{
  ℕ, zero, suc, ◌<◌, true, false, List, [], ◌∷◌, ◌++◌, map, ◌≡◌, refl, ap, subst, arith,
}
use multi_threaded_proxy_ser.Phases.Pool.{
  Worker, looping, entering, deciding, asleep, executing, exited, free, notifying_one, stopping,
  notifying_all, joining, Pool, Mode, total, holds, sleeps, wake, Step, enters, leaves, decides,
  falls_asleep, wakes, pops, finishes, pushes, notifies_one, notifies_none, clears_running,
  sets_shutdown, notifies_all, Reach, here, next,
}
use multi_threaded_proxy_ser.Phases.Pool.Counts.{total-split, total-replicate}
use multi_threaded_proxy_ser.Tasks.Pool.{replicate}

-- Phases 3 and 4, where `cv.wait` wakes for notifications only.
abbrev pub unlocked_stop : Mode
unlocked_stop = record { stop_locks = false; spurious = false }

module _ {ℓ} {A : Type ℓ} where
  -- At the joins, one worker asleep, `i` that have ended and `j` in their loop.
  abbrev at_joins : List (Worker A) → Pool A
  at_joins ws = record {
    tasks = [];
    shutdown = true;
    running = false;
    workers = asleep ∷ ws;
    main = joining;
  }

  map-wake-replicate : (n : ℕ) → map wake (replicate n looping) ≡ replicate {A = Worker A} n looping
  map-wake-replicate zero = refl
  map-wake-replicate (suc n) = ap (◌∷◌ looping) (map-wake-replicate n)

  replicate-snoc :
      (i : ℕ) (w : Worker A) (ws : List (Worker A))
      → replicate i w ++ w ∷ ws ≡ w ∷ (replicate i w ++ ws)
  replicate-snoc zero w ws = refl
  replicate-snoc (suc i) w ws = ap (◌∷◌ w) (replicate-snoc i w ws)

  -- The workers still in their loop leave it.
  all_leave :
      {n : ℕ} (i j : ℕ)
      → Reach unlocked_stop n (at_joins (replicate i exited ++ replicate j looping))
      → (m : ℕ) × Reach unlocked_stop n (at_joins (replicate m exited))
  all_leave {n = n} i zero r =
      (i, subst (λ ws. Reach unlocked_stop n (at_joins ws)) (append-nil (replicate i exited)) r)
  all_leave {n = n} i (suc j) r =
      let gone = next r (leaves (asleep ∷ replicate i exited) (replicate j looping) refl refl) in
      all_leave (suc i) j (
        subst (λ ws. Reach unlocked_stop n (at_joins ws))
          (replicate-snoc i exited (replicate j looping)) gone)

  -- A worker that a step could move.
  abbrev pub movable : Worker A → ℕ
  movable asleep = 0
  movable exited = 0
  movable _ = 1

  none_movable :
      (m : ℕ) (ws vs : List (Worker A)) (w : Worker A)
      → asleep ∷ replicate m exited ≡ ws ++ w ∷ vs
      → ¬ (movable w ≡ 1)
  none_movable m ws vs w e h = omega (
    arith,
    h,
    total-split movable (asleep ∷ replicate m exited) ws vs w e,
    total-replicate movable m exited refl,
  )

  no-Step : (m : ℕ) (t : Pool A) → ¬ Step unlocked_stop (at_joins (replicate m exited)) t
  no-Step m t (enters ws vs e on) = none_movable m ws vs looping e refl
  no-Step m t (leaves ws vs e off) = none_movable m ws vs looping e refl
  no-Step m t (decides ws vs e unlocked shut) = none_movable m ws vs entering e refl
  no-Step m t (falls_asleep ws vs e) = none_movable m ws vs deciding e refl
  no-Step m t (wakes ws vs allowed e) = absurd (let clash : false ≡ true = allowed in cc)
  no-Step m t (pops ws vs e unlocked can) = none_movable m ws vs entering e refl
  no-Step m t (finishes ws vs u e) = none_movable m ws vs (executing u) e refl
  no-Step m t (pushes u m' unlocked) = absurd (let clash : joining ≡ free = m' in cc)
  no-Step m t (notifies_one ws vs m' e) = absurd (let clash : joining ≡ notifying_one = m' in cc)
  no-Step m t (notifies_none m' none_asleep) =
      absurd (let clash : joining ≡ notifying_one = m' in cc)
  no-Step m t (clears_running m') = absurd (let clash : joining ≡ free = m' in cc)
  no-Step m t (sets_shutdown m' unlocked) = absurd (let clash : joining ≡ stopping = m' in cc)
  no-Step m t (notifies_all m') = absurd (let clash : joining ≡ notifying_all = m' in cc)

-- The first worker tests the queue, `stop` notifies, and the worker falls asleep.
missed {ℓ} :
    (A : Type ℓ) (n : ℕ) → Reach unlocked_stop (suc n) (at_joins {A = A} (replicate n looping))
missed A n =
    let others : List (Worker A) = replicate n looping in
    let tested = next (next here (enters [] others refl refl)) (
      decides [] others refl (omega (arith, total-replicate (holds {A = A}) n looping refl))
        refl) in
    let flagged = next (next tested (clears_running refl)) (sets_shutdown refl (λ e. cc)) in
    let notified = next flagged (notifies_all refl) in
    subst (λ ws. Reach unlocked_stop (suc n) (at_joins ws)) (map-wake-replicate n)
      (next notified (falls_asleep [] (map wake others) refl))

-- If `stop` does not take the mutex, as in phases 3 and 4, then a pool with any positive number of
-- workers can reach a state in which the main thread waits at its joins, a worker sleeps, and
-- without a spurious wake-up no thread can take a step.
pub stop_strands {ℓ} :
    (A : Type ℓ) (n : ℕ)
    → (s : Pool A) × Reach unlocked_stop (suc n) s
      × (s.main ≡ joining)
      × (0 < total sleeps s.workers)
      × ((t : Pool A) → ¬ Step unlocked_stop s t)
stop_strands A n =
    let (m, r) = all_leave 0 n (missed A n) in
    (at_joins (replicate m exited), r, refl, omega arith, no-Step m)
