-- ===== src/Phases/Pool/Wakeups.antt =====
-- The wake-ups that `push` of server_phase3.cpp and server_phase4.cpp sends.
use multi_threaded_proxy_ser.Base.{
  ℕ, ◌+◌, ◌≤◌, ◌<◌, Bool, false, not, ◌||◌, List, [], ◌∷◌, ◌++◌, length, is_empty, ◌≡◌, refl, sym,
  ap, arith, length-append,
}
use multi_threaded_proxy_ser.Phases.Pool.{
  Worker, looping, entering, deciding, asleep, executing, exited, Main, notifying_one, Pool, Mode,
  start, total, holds, sleeps, tests, next_state, Step, enters, leaves, decides, falls_asleep,
  wakes, pops, finishes, pushes, notifies_one, notifies_none, clears_running, sets_shutdown,
  notifies_all, Reach, here, next,
}
use multi_threaded_proxy_ser.Phases.Pool.Counts.{
  total-split, total-append, total-replicate, total-holds-wake, total-sleeps-wake, next_state-awake,
  length-behind,
}
use multi_threaded_proxy_ser.Tasks.{front, behind}

-- A notification of one task that is under way.
abbrev pub pending : Main → ℕ
pending notifying_one = 1
pending _ = 0

-- With `h` holders of the mutex, `z` sleepers, `k` workers about to test the queue, `n` tasks and
-- `p` notifications: the mutex has one holder at most, and who holds it saw an empty queue; and
-- while a worker sleeps, each task has a worker about to test the queue or a notification.
abbrev pub Balanced : ℕ → ℕ → ℕ → ℕ → ℕ → Type 0
Balanced h z k n p = (h ≤ 1) × (0 < h → n ≡ 0) × (0 < z → n ≤ k + p)

Balanced-eq :
    {h h' z z' k k' n n' p p' : ℕ}
    → h ≡ h'
    → z ≡ z'
    → k ≡ k'
    → n ≡ n'
    → p ≡ p'
    → Balanced h z k n p
    → Balanced h' z' k' n' p'
Balanced-eq a b c d e v = (
  omega (arith, v.0, a),
  λ q. omega (arith, v.1 (omega (arith, q, a)), d),
  λ q. omega (arith, v.2 (omega (arith, q, b)), c, d, e),
)

module _ {ℓ} {A : Type ℓ} where
  abbrev pub Covered : Pool A → Type 0
  Covered s =
      Balanced (total holds s.workers) (total sleeps s.workers) (total tests s.workers)
        (length s.tasks) (pending s.main)

  -- One worker moves from `w` to `w'`, and the queue and the main thread may change with it.
  moved :
      (s : Pool A) (ws vs : List (Worker A)) (w w' : Worker A) (n p : ℕ)
      → s.workers ≡ ws ++ w ∷ vs
      → ((h z k : ℕ)
          → total holds s.workers ≡ holds w + h
          → Balanced (holds w + h) (sleeps w + z) (tests w + k) (length s.tasks) (pending s.main)
          → Balanced (holds w' + h) (sleeps w' + z) (tests w' + k) n p)
      → Covered s
      → Balanced
          (total holds (ws ++ w' ∷ vs))
          (total sleeps (ws ++ w' ∷ vs))
          (total tests (ws ++ w' ∷ vs))
          n
          p
  moved s ws vs w w' n p e f v =
      let before = total-split holds s.workers ws vs w e in
      Balanced-eq (sym (total-append holds ws vs w')) (sym (total-append sleeps ws vs w'))
        (sym (total-append tests ws vs w')) refl refl
        (f (total holds ws + total holds vs) (total sleeps ws + total sleeps vs)
          (total tests ws + total tests vs) before
          (Balanced-eq before (total-split sleeps s.workers ws vs w e)
            (total-split tests s.workers ws vs w e) refl refl v))

  pub cannot_pop :
      (ts : List A) (b : Bool) → (not (is_empty ts) || b) ≡ false → (length ts ≡ 0) × (b ≡ false)
  cannot_pop [] b h = (refl, h)
  cannot_pop (t ∷ ts) b h = absurd cc

  Step-Covered : {mode : Mode} {s t : Pool A} → Step mode s t → Covered s → Covered t
  Step-Covered {s = s} (enters ws vs e on) v =
      moved s ws vs looping entering (length s.tasks) (pending s.main) e
        (λ h z k b v. (
          omega (arith, v.0),
          λ q. v.1 (omega (arith, q)),
          λ q. omega (arith, v.2 (omega (arith, q))),
        ))
        v
  Step-Covered {s = s} (leaves ws vs e off) v =
      moved s ws vs looping exited (length s.tasks) (pending s.main) e (λ h z k b v. v) v
  Step-Covered {s = s} (decides ws vs e unlocked shut) v =
      let none_there = (cannot_pop s.tasks s.shutdown shut).0 in
      moved s ws vs entering deciding (length s.tasks) (pending s.main) e
        (λ h z k b v. (omega (arith, b, unlocked), λ q. none_there, λ q. omega (arith, none_there)))
        v
  Step-Covered {s = s} (falls_asleep ws vs e) v =
      moved s ws vs deciding asleep (length s.tasks) (pending s.main) e
        (λ h z k b v.
          (omega (arith, v.0), λ q. v.1 (omega arith), λ q. omega (arith, v.1 (omega arith))))
        v
  Step-Covered {s = s} (wakes ws vs allowed e) v =
      moved s ws vs asleep entering (length s.tasks) (pending s.main) e
        (λ h z k b v. (v.0, v.1, λ q. omega (arith, v.2 (omega arith)))) v
  Step-Covered {s = s} (pops ws vs e unlocked can) v =
      let (awake, up) = next_state-awake s.tasks in
      let fewer = length-behind s.tasks in
      moved s ws vs entering (next_state (front s.tasks)) (length (behind s.tasks)) (pending s.main)
        e
        (λ h z k b v. (
          omega (arith, v.0, awake),
          λ q. absurd (omega (arith, q, awake, b, unlocked)),
          λ q. omega (arith, v.2 (omega (arith, q, up)), fewer),
        ))
        v
  Step-Covered {s = s} (finishes ws vs t e) v =
      moved s ws vs (executing t) looping (length s.tasks) (pending s.main) e (λ h z k b v. v) v
  Step-Covered {s = s} (pushes t e unlocked) v =
      let longer = length-append s.tasks (t ∷ []) in
      (
        v.0,
        λ q. absurd (omega (arith, q, unlocked)),
        λ q. omega (arith, v.2 q, longer, ap pending e),
      )
  Step-Covered {s = s} (notifies_one ws vs m e) v =
      moved s ws vs asleep entering (length s.tasks) 0 e
        (λ h z k b v. (v.0, v.1, λ q. omega (arith, v.2 (omega arith), ap pending m))) v
  Step-Covered {s = s} (notifies_none m none_asleep) v =
      (v.0, v.1, λ q. absurd (omega (arith, q, none_asleep)))
  Step-Covered {s = s} (clears_running m) v = (v.0, v.1, λ q. omega (arith, v.2 q, ap pending m))
  Step-Covered {s = s} (sets_shutdown m unlocked) v =
      (v.0, v.1, λ q. omega (arith, v.2 q, ap pending m))
  Step-Covered {s = s} (notifies_all m) v =
      let same = total-holds-wake s.workers in
      (
        omega (arith, v.0, same),
        λ q. v.1 (omega (arith, q, same)),
        λ q. absurd (omega (arith, q, total-sleeps-wake s.workers)),
      )

start-Covered {ℓ} : (A : Type ℓ) (n : ℕ) → Covered (start {A = A} n)
start-Covered A n =
    let h = total-replicate (holds {A = A}) n looping refl in
    let z = total-replicate (sleeps {A = A}) n looping refl in
    (omega (arith, h), λ q. refl, λ q. omega arith)

-- In every reachable state of the pool, whether `stop` takes the mutex or not and with spurious
-- wake-ups or without, at most one worker holds the mutex on its way to sleep, and then the queue
-- is empty; and while a worker sleeps there are no more tasks queued than workers about to test the
-- queue and notifications under way.
pub Reach-Covered {ℓ} : {A : Type ℓ} {mode : Mode} {n : ℕ} {s : Pool A} → Reach mode n s → Covered s
Reach-Covered {A = A} {n = n} here = start-Covered A n
Reach-Covered (next r st) = Step-Covered st (Reach-Covered r)
