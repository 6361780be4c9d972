-- ===== src/Phases/Pool/Counts.antt =====
-- Sums over the workers.
use multi_threaded_proxy_ser.Base.{
  ℕ, zero, suc, ◌+◌, ◌-◌, List, [], ◌∷◌, ◌++◌, map, length, ◌≡◌, refl, ap, ◌∙◌, arith,
}
use multi_threaded_proxy_ser.Phases.Pool.{
  Worker, looping, entering, deciding, asleep, executing, exited, total, holds, sleeps, wake,
  next_state,
}
use multi_threaded_proxy_ser.Tasks.{front, behind}
use multi_threaded_proxy_ser.Tasks.Pool.{replicate}

module _ {ℓ} {A : Type ℓ} where
  pub total-append :
      (f : Worker A → ℕ) (ws vs : List (Worker A)) (w : Worker A)
      → total f (ws ++ w ∷ vs) ≡ f w + (total f ws + total f vs)
  total-append f [] vs w = omega arith
  total-append f (x ∷ ws) vs w = omega (arith, total-append f ws vs w)

  pub total-split :
      (f : Worker A → ℕ) (all ws vs : List (Worker A)) (w : Worker A)
      → all ≡ ws ++ w ∷ vs
      → total f all ≡ f w + (total f ws + total f vs)
  total-split f all ws vs w e = ap (total f) e ∙ total-append f ws vs w

  pub total-replicate :
      (f : Worker A → ℕ) (n : ℕ) (w : Worker A) → f w ≡ 0 → total f (replicate n w) ≡ 0
  total-replicate f zero w h = refl
  total-replicate f (suc n) w h = omega (arith, h, total-replicate f n w h)

  holds-wake : (w : Worker A) → holds (wake w) ≡ holds w
  holds-wake looping = refl
  holds-wake entering = refl
  holds-wake deciding = refl
  holds-wake asleep = refl
  holds-wake (executing t) = refl
  holds-wake exited = refl

  sleeps-wake : (w : Worker A) → sleeps (wake w) ≡ 0
  sleeps-wake looping = refl
  sleeps-wake entering = refl
  sleeps-wake deciding = refl
  sleeps-wake asleep = refl
  sleeps-wake (executing t) = refl
  sleeps-wake exited = refl

  pub total-holds-wake : (ws : List (Worker A)) → total holds (map wake ws) ≡ total holds ws
  total-holds-wake [] = refl
  total-holds-wake (w ∷ ws) = omega (arith, holds-wake w, total-holds-wake ws)

  pub total-sleeps-wake : (ws : List (Worker A)) → total sleeps (map wake ws) ≡ 0
  total-sleeps-wake [] = refl
  total-sleeps-wake (w ∷ ws) = omega (arith, sleeps-wake w, total-sleeps-wake ws)

  -- A worker that comes back from `pop` neither holds the mutex nor sleeps.
  pub next_state-awake :
      (ts : List A) → (holds (next_state (front ts)) ≡ 0) × (sleeps (next_state (front ts)) ≡ 0)
  next_state-awake [] = (refl, refl)
  next_state-awake (t ∷ ts) = (refl, refl)

  pub length-behind : (ts : List A) → length (behind ts) ≡ length ts - 1
  length-behind [] = omega arith
  length-behind (t ∷ ts) = omega arith
