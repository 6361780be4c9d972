-- ===== src/Text/Prefix.antt =====
-- A search in the front of a text finds what the search in the whole text finds, or nothing.
use multi_threaded_proxy_ser.Base.{
  ℕ, zero, suc, ◌+◌, ◌≤◌, true, false, Option, none, some, [], ◌∷◌, length, take, shift, Bytes, ◌≡◌,
  ◌≢◌, refl, ap, sym, ◌∙◌, arith, Bool-cases, inl, inr, length-take, some-injective,
}
use multi_threaded_proxy_ser.Text.{is_prefix, find}
use multi_threaded_proxy_ser.Text.Find.{find-le}

is_prefix-take : (n s : Bytes) (k : ℕ) → is_prefix n (take k s) ≡ true → is_prefix n s ≡ true
unfolding is_prefix
is_prefix-take [] s k h = refl
is_prefix-take (x ∷ n) s zero h = cc
is_prefix-take (x ∷ n) [] (suc k) h = cc
is_prefix-take (x ∷ n) (c ∷ s) (suc k) h = ground (arith, is_prefix-take n s k)

take-is_prefix :
    (n s : Bytes) (k : ℕ) → length n ≤ k → is_prefix n s ≡ true → is_prefix n (take k s) ≡ true
unfolding is_prefix
take-is_prefix [] s k h e = refl
take-is_prefix (x ∷ n) [] k h e = cc
take-is_prefix (x ∷ n) (c ∷ s) zero h e = absurd (omega arith)
take-is_prefix (x ∷ n) (c ∷ s) (suc k) h e =
    let step : is_prefix n (take k s) ≡ true = take-is_prefix n s k (omega arith) (ground arith) in
    ground arith

shift-some : (o : Option ℕ) (q : ℕ) → shift 1 o ≡ some q → (p : ℕ) × (o ≡ some p) × (q ≡ 1 + p)
shift-some none q h = absurd (cc)
shift-some (some p) q h = (p, refl, omega (arith, some-injective h))

find-nil : (c : ℕ) (n : Bytes) (q : ℕ) → find (c ∷ n) [] ≢ some q
unfolding find is_prefix
find-nil c n q = λ e. cc

-- How one step of the search ends.
find-here : (n s : Bytes) (c : ℕ) → is_prefix n (c ∷ s) ≡ true → find n (c ∷ s) ≡ some 0
unfolding find
find-here n s c h = rw h refl

find-later :
    (n s : Bytes) (c : ℕ) → is_prefix n (c ∷ s) ≡ false → find n (c ∷ s) ≡ shift 1 (find n s)
unfolding find
find-later n s c h = rw h refl

pub find-take :
    (c : ℕ) (n s : Bytes) (k q : ℕ) → find (c ∷ n) (take k s) ≡ some q → find (c ∷ n) s ≡ some q
find-take c n s zero q h = absurd (find-nil c n q h)
find-take c n [] (suc k) q h = h
find-take c n (x ∷ s) (suc k) q h = elim (Bool-cases (is_prefix (c ∷ n) (x ∷ take k s))) [
  | inl here ↦
      find-here (c ∷ n) s x (is_prefix-take (c ∷ n) (x ∷ s) (suc k) here)
      ∙ sym (find-here (c ∷ n) (take k s) x here)
      ∙ h
  | inr later ↦
      let (p, found, e) =
        shift-some (find (c ∷ n) (take k s)) q (sym (find-later (c ∷ n) (take k s) x later) ∙ h) in
      let bound = find-le (c ∷ n) (take k s) p found in
      let still : is_prefix (c ∷ n) (x ∷ s) ≡ false =
        elim (Bool-cases (is_prefix (c ∷ n) (x ∷ s))) [
          | inr other ↦ other
          | inl early ↦
              let sooner =
                take-is_prefix (c ∷ n) (x ∷ s) (suc k) (omega (arith, bound, length-take k s))
                  early in
              absurd (let clash : false ≡ true = sym later ∙ sooner in cc)
        ] in
      find-later (c ∷ n) s x still ∙ ap (shift 1) (find-take c n s k p found) ∙ ap some (sym e)
]
