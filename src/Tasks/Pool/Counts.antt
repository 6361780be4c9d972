-- ===== src/Tasks/Pool/Counts.antt =====
-- Sums over the workers of the pool.
use multi_threaded_proxy_ser.Base.{ℕ, ◌+◌, List, [], ◌∷◌, ◌++◌, ◌≡◌, refl, ap, ◌∙◌, arith}
use multi_threaded_proxy_ser.Tasks.{TaskQueue, pop, front}
use multi_threaded_proxy_ser.Tasks.Pool.{Worker, next_state, total, sleeps}

module _ {ℓ} {A : Type ℓ} where
  pub total-append :
      (f : Worker A → ℕ) (ws vs : List (Worker A)) (w : Worker A)
      → total f (ws ++ w ∷ vs) ≡ f w + (total f ws + total f vs)
  total-append f [] vs w = omega arith
  total-append f (x ∷ ws) vs w = omega (arith, total-append f ws vs w)

  pub total-split :
      (f : Worker A → ℕ) (all ws vs : List (Worker A)) (w : Worker A)
      → all ≡ ws ++ w ∷ vs
      → total f all ≡ f w + (total f ws + total f vs)
  total-split f all ws vs w e = ap (total f) e ∙ total-append f ws vs w

  -- A worker that comes back from `pop` does not sleep.
  pub sleeps-next_state : (q : TaskQueue A) → sleeps (next_state (pop q).1) ≡ 0
  unfolding pop
  sleeps-next_state q = of q.tasks
    where
      of : (ts : List A) → sleeps (next_state (front ts)) ≡ 0
      of [] = refl
      of (t ∷ ts) = refl
