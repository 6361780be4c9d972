-- ===== src/Lru/Sharded/Rounding.antt =====
-- `round_up_pow2`: what it returns, and when it does not return.
use native.Mathlib.Nat.{pow-suc, pow-le-pow_right}
use multi_threaded_proxy_ser.Base.{
  ℕ, zero, suc, ◌+◌, ◌*◌, ◌%◌, ◌^◌, ◌≤◌, ◌<◌, none, some, ltb, ◌≡◌, ◌⊎◌, inl, inr, refl, arith,
  Bool-cases, lt→ltb,
}
use multi_threaded_proxy_ser.Lru.Sharded.{double_until, round_up_pow2}

pow-le-word : (k : ℕ) → k ≤ 63 → 2 ^ k ≤ 2 ^ 63
pow-le-word k h = pow-le-pow_right {n = 2} (omega arith) h

-- Below the top bit a shift loses nothing.
double-pow : (k : ℕ) → k < 63 → (2 ^ k * 2) % 2 ^ 64 ≡ 2 ^ suc k
double-pow k h = omega (arith, pow-suc 2 k, pow-le-word (suc k) h)

double_top : (2 ^ 63 * 2) % 2 ^ 64 ≡ 0
double_top = refl

exponent_cases : (k : ℕ) → k ≤ 63 → (k < 63) ⊎ (k ≡ 63)
exponent_cases k h = omega arith

exponent_below : (k n : ℕ) → n ≤ 2 ^ 63 → k ≤ 63 → 2 ^ k < n → k < 63
exponent_below k n hn hk lt = elim (exponent_cases k hk) [
  | inl below ↦ below
  | inr top ↦ absurd (let high : 2 ^ 63 < n = rw top at lt in omega arith)
]

-- What the loop returns: the first power of two that is at least `n`.
pub record RoundsTo (n p : ℕ) : Type 0 where
  pub exponent : ℕ
  pub is_power : p ≡ 2 ^ exponent
  pub enough : n ≤ p
  pub least : (p ≡ 1) ⊎ (p < 2 * n)

double_until-RoundsTo :
    (fuel n k : ℕ)
    → n ≤ 2 ^ 63
    → k ≤ 63
    → 63 < fuel + k
    → (2 ^ k ≡ 1) ⊎ (2 ^ k < 2 * n)
    → (p : ℕ) × (double_until fuel n (2 ^ k) ≡ some p) × RoundsTo n p
unfolding double_until
double_until-RoundsTo zero n k hn hk hf least = absurd (omega arith)
double_until-RoundsTo (suc fuel) n k hn hk hf least = elim (Bool-cases (ltb (2 ^ k) n)) [
  | inl small ↦
      let lt : 2 ^ k < n = ground arith in
      let below : k < 63 = exponent_below k n hn hk lt in
      rw (small, double-pow k below)
        (double_until-RoundsTo fuel n (suc k) hn below (omega arith)
          (inr (omega (arith, pow-suc 2 k))))
  | inr large ↦ (
    2 ^ k,
    rw large,
    record { exponent = k; is_power = refl; enough = ground arith; least = least },
  )
]

-- For `n` from 1 to 2 ^ 63 the loop of `round_up_pow2` ends within 64 rounds, with the least power
-- of two that is at least `n`.
pub round_up_pow2-RoundsTo :
    (n : ℕ) → 0 < n → n ≤ 2 ^ 63 → (p : ℕ) × (round_up_pow2 n ≡ some p) × RoundsTo n p
unfolding round_up_pow2
round_up_pow2-RoundsTo n pos h =
    double_until-RoundsTo 64 n 0 h (omega arith) (omega arith) (inl refl)

-- Above that the loop shifts its only bit out and never ends, whatever the fuel.
double_until-zero : (fuel n : ℕ) → 0 < n → double_until fuel n 0 ≡ none
unfolding double_until
double_until-zero zero n h = refl
double_until-zero (suc fuel) n h = ground (arith, double_until-zero fuel n h)

double_until-none : (fuel n k : ℕ) → 2 ^ 63 < n → k ≤ 63 → double_until fuel n (2 ^ k) ≡ none
unfolding double_until
double_until-none zero n k h hk = refl
double_until-none (suc fuel) n k h hk = elim (exponent_cases k hk) [
  | inl below ↦
      rw (lt→ltb (2 ^ k) n (omega (arith, pow-le-word k hk)), double-pow k below)
        (double_until-none fuel n (suc k) h below)
  | inr top ↦ rw (top, lt→ltb (2 ^ 63) n h) (double_until-zero fuel n (omega arith))
]

-- For `n` above 2 ^ 63 the loop of `round_up_pow2` does not end: no number of rounds brings it to a
-- result, since the shift loses the top bit.
pub round_up_pow2_hangs : (fuel n : ℕ) → 2 ^ 63 < n → double_until fuel n 1 ≡ none
round_up_pow2_hangs fuel n h = double_until-none fuel n 0 h (omega arith)
