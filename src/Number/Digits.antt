-- ===== src/Number/Digits.antt =====
-- Printing a number and reading it back: `std::to_string` against `strtol` and `atoi`.
use native.Mathlib.Nat.{pow-suc}
use multi_threaded_proxy_ser.Base.{
  ℕ, zero, suc, ◌+◌, ◌-◌, ◌*◌, ◌/◌, ◌%◌, ◌^◌, ◌≤◌, ◌<◌, true, false, [], ◌∷◌, ◌++◌, ◌==◌, leb, ltb,
  All, All-append, Bytes, ◌≡◌, ◌≢◌, refl, ap, ◌∙◌, arith, Bool-cases, inl, inr,
}
use multi_threaded_proxy_ser.Base.Int.{pos, to_int}
use multi_threaded_proxy_ser.Number.{
  is_digit, is_space, c_str, skip_space, decimal, after_digits, long_max, strtol, atoi,
  print_digits, to_string, read_sign, convert,
}

-- The bytes '0' to '9'.
abbrev pub IsDigit : ℕ → Type 0
IsDigit c = (48 ≤ c) × (c ≤ 57)

print_digits-IsDigit : (fuel n : ℕ) → All IsDigit (print_digits fuel n)
unfolding print_digits
print_digits-IsDigit zero n = tt
print_digits-IsDigit (suc fuel) n = elim (Bool-cases (ltb n 10)) [
  | inl e ↦ rw e (ground arith, tt)
  | inr e ↦ rw e (
      All-append IsDigit (print_digits fuel (n / 10)) ((48 + n % 10) ∷ [])
        (print_digits-IsDigit fuel (n / 10)) (omega arith, tt))
]

pub to_string-IsDigit : (n : ℕ) → All IsDigit (to_string n)
unfolding to_string
to_string-IsDigit n = print_digits-IsDigit 20 n

decimal-snoc :
    (ds : Bytes) (acc d : ℕ)
    → All IsDigit ds
    → d < 10
    → decimal acc (ds ++ (48 + d) ∷ []) ≡ decimal acc ds * 10 + d
unfolding decimal
decimal-snoc [] acc d h k = ground arith
decimal-snoc (c ∷ ds) acc d h k = ground (arith, decimal-snoc ds (acc * 10 + (c - 48)) d h.1)

fuel_left : (fuel n : ℕ) → n < 10 ^ suc fuel → 10 ≤ n → 0 < fuel
fuel_left zero n h m = absurd (omega (arith, pow-suc 10 0))
fuel_left (suc fuel) n h m = omega arith

decimal-print_digits : (fuel n : ℕ) → n < 10 ^ fuel → 0 < fuel → decimal 0 (print_digits fuel n) ≡ n
unfolding print_digits decimal
decimal-print_digits zero n h m = elim m [ ]
decimal-print_digits (suc fuel) n h m = elim (Bool-cases (ltb n 10)) [
  | inl e ↦ rw e (ground arith)
  | inr e ↦
      let big : 10 ≤ n = ground arith in
      let front : decimal 0 (print_digits fuel (n / 10)) ≡ n / 10 =
        decimal-print_digits fuel (n / 10) (omega (arith, pow-suc 10 fuel))
          (fuel_left fuel n h big) in
      rw e (
        decimal-snoc (print_digits fuel (n / 10)) 0 (n % 10) (print_digits-IsDigit fuel (n / 10))
          (omega arith)
        ∙ omega (arith, front))
]

print_digits-ne-nil : (fuel n : ℕ) → print_digits (suc fuel) n ≢ []
unfolding print_digits
print_digits-ne-nil fuel n = elim (Bool-cases (ltb n 10)) [
  | inl e ↦ rw e (λ p. cc)
  | inr e ↦ rw e (snoc-ne-nil (print_digits fuel (n / 10)))
]
  where
    snoc-ne-nil : (xs : Bytes) → xs ++ (48 + n % 10) ∷ [] ≢ []
    snoc-ne-nil [] = λ p. cc
    snoc-ne-nil (x ∷ xs) = λ p. cc

pub to_string-ne-nil : (n : ℕ) → to_string n ≢ []
unfolding to_string
to_string-ne-nil n = print_digits-ne-nil 19 n

c_str-digits : (ds : Bytes) → All IsDigit ds → c_str ds ≡ ds
unfolding c_str
c_str-digits [] h = refl
c_str-digits (c ∷ ds) h =
    let e : (c == 0) ≡ false = ground arith in rw e (ap (◌∷◌ c) (c_str-digits ds h.1))

after_digits-digits : (ds : Bytes) → All IsDigit ds → after_digits ds ≡ []
unfolding after_digits
after_digits-digits [] h = refl
after_digits-digits (c ∷ ds) h =
    let e : is_digit c ≡ true = ground arith in rw e (after_digits-digits ds h.1)

convert-digits :
    (all : Bytes) (c : ℕ) (ds : Bytes)
    → All IsDigit (c ∷ ds)
    → decimal 0 (c ∷ ds) ≤ long_max
    → convert all false (c ∷ ds)
      ≡ record { value = pos (decimal 0 (c ∷ ds)); rest = []; overflow = false }
convert-digits all c ds h fits =
    let digit : is_digit c ≡ true = ground arith in
    let within : leb (decimal 0 (c ∷ ds)) long_max ≡ true = ground arith in
    rw (digit, within, after_digits-digits (c ∷ ds) h) refl

-- The number that a text of digits stands for, with nothing behind it.
strtol-digits :
    (ds : Bytes)
    → All IsDigit ds
    → ds ≢ []
    → decimal 0 ds ≤ long_max
    → strtol ds ≡ record { value = pos (decimal 0 ds); rest = []; overflow = false }
unfolding strtol skip_space
strtol-digits [] h ne fits = absurd (ne refl)
strtol-digits (c ∷ ds) h ne fits =
    let no_space : is_space c ≡ false = ground arith in
    let minus : (c == b'-') ≡ false = ground arith in
    let plus : (c == b'+') ≡ false = ground arith in
    rw (c_str-digits (c ∷ ds) h, no_space, minus, plus) (convert-digits (c ∷ ds) c ds h fits)

-- A number that fits a `long` is read back from its digits, with nothing left.
pub strtol-to_string :
    (n : ℕ)
    → n ≤ long_max
    → strtol (to_string n) ≡ record { value = pos n; rest = []; overflow = false }
unfolding to_string
strtol-to_string n fits =
    let read : decimal 0 (print_digits 20 n) ≡ n =
      decimal-print_digits 20 n (omega arith) (omega arith) in
    strtol-digits (print_digits 20 n) (print_digits-IsDigit 20 n) (print_digits-ne-nil 19 n)
      (omega (arith, read))
    ∙ ap (λ (v : ℕ). record { value = pos v; rest = []; overflow = false }) read

pub atoi-to_string : (n : ℕ) → n < 2 ^ 31 → atoi (to_string n) ≡ pos n
unfolding atoi
atoi-to_string n h =
    let small : ltb (n % 2 ^ 32) (2 ^ 31) ≡ true = ground arith in
    let same : n % 2 ^ 32 ≡ n = omega arith in
    ap (λ v. to_int v.value) (strtol-to_string n (omega arith)) ∙ rw small (ap pos same)

-- Digits behind a space and in front of a carriage return, which ends them.
c_str-front : (ds t : Bytes) → All IsDigit ds → c_str (ds ++ 13 ∷ t) ≡ ds ++ 13 ∷ c_str t
unfolding c_str
c_str-front [] t h = refl
c_str-front (c ∷ ds) t h =
    let e : (c == 0) ≡ false = ground arith in rw e (ap (◌∷◌ c) (c_str-front ds t h.1))

decimal-front :
    (acc : ℕ) (ds t : Bytes) → All IsDigit ds → decimal acc (ds ++ 13 ∷ t) ≡ decimal acc ds
unfolding decimal
decimal-front acc [] t h = refl
decimal-front acc (c ∷ ds) t h =
    let e : is_digit c ≡ true = ground arith in rw e (decimal-front (acc * 10 + (c - 48)) ds t h.1)

convert-front :
    (all : Bytes) (c : ℕ) (ds : Bytes)
    → is_digit c ≡ true
    → decimal 0 (c ∷ ds) ≤ long_max
    → (convert all false (c ∷ ds)).value ≡ pos (decimal 0 (c ∷ ds))
convert-front all c ds digit fits =
    let within : leb (decimal 0 (c ∷ ds)) long_max ≡ true = ground arith in rw (digit, within) refl

c_str-space : (s : Bytes) → c_str (b' ' ∷ s) ≡ b' ' ∷ c_str s
unfolding c_str
c_str-space s = refl

skip_space-word : (c : ℕ) (s : Bytes) → IsDigit c → skip_space (b' ' ∷ c ∷ s) ≡ c ∷ s
unfolding skip_space
skip_space-word c s h = let e : is_space c ≡ false = ground arith in rw e refl

strtol-steps : (s : Bytes) → strtol s ≡ read_sign (c_str s) (skip_space (c_str s))
unfolding strtol
strtol-steps s = refl

read_sign-digit :
    (all : Bytes) (c : ℕ) (s : Bytes)
    → IsDigit c
    → read_sign all (c ∷ s) ≡ convert all false (c ∷ s)
read_sign-digit all c s h =
    let minus : (c == b'-') ≡ false = ground arith in
    let plus : (c == b'+') ≡ false = ground arith in rw (minus, plus) refl

strtol-front :
    (ds t : Bytes)
    → All IsDigit ds
    → ds ≢ []
    → decimal 0 ds ≤ long_max
    → (strtol (b' ' ∷ (ds ++ 13 ∷ t))).value ≡ pos (decimal 0 ds)
strtol-front [] t h ne fits = absurd (ne refl)
strtol-front (c ∷ ds) t h ne fits =
    let s = b' ' ∷ ((c ∷ ds) ++ 13 ∷ t) in
    let behind = ds ++ 13 ∷ c_str t in
    let text : c_str s ≡ b' ' ∷ c ∷ behind =
      c_str-space ((c ∷ ds) ++ 13 ∷ t) ∙ ap (◌∷◌ b' ') (c_str-front (c ∷ ds) t h) in
    let same = decimal-front 0 (c ∷ ds) (c_str t) h in
    let steps : strtol s ≡ convert (b' ' ∷ c ∷ behind) false (c ∷ behind) =
      strtol-steps s
      ∙ ap (λ u. read_sign u (skip_space u)) text
      ∙ ap (read_sign (b' ' ∷ c ∷ behind)) (skip_space-word c behind h.0)
      ∙ read_sign-digit (b' ' ∷ c ∷ behind) c behind h.0 in
    ap (λ p. p.value) steps
    ∙ convert-front (b' ' ∷ c ∷ behind) c behind (ground (arith, h.0.0, h.0.1))
        (omega (arith, fits, same))
    ∙ ap pos same

pub strtol-field :
    (n : ℕ) (t : Bytes) → n ≤ long_max → (strtol (b' ' ∷ (to_string n ++ 13 ∷ t))).value ≡ pos n
unfolding to_string
strtol-field n t fits =
    let read : decimal 0 (print_digits 20 n) ≡ n =
      decimal-print_digits 20 n (omega arith) (omega arith) in
    strtol-front (print_digits 20 n) t (print_digits-IsDigit 20 n) (print_digits-ne-nil 19 n)
      (omega (arith, read))
    ∙ ap pos read
