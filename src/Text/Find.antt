-- ===== src/Text/Find.antt =====
-- What the searches of `std::string` find.

use multi_threaded_proxy_ser.Base.{
  ℕ, ◌+◌, ◌≤◌, true, some, [], ◌∷◌, length, Bytes, ◌≡◌, arith, Bool-cases, Option-cases, inl, inr,
}
use multi_threaded_proxy_ser.Text.{is_prefix, find}

is_prefix-length : (needle s : Bytes) → is_prefix needle s ≡ true → length needle ≤ length s
unfolding is_prefix
is_prefix-length [] s h = omega arith
is_prefix-length (x ∷ needle) [] h = cc
is_prefix-length (x ∷ needle) (y ∷ s) h = ground (arith, is_prefix-length needle s)

-- What is found fits.
pub find-le : (needle s : Bytes) (p : ℕ) → find needle s ≡ some p → p + length needle ≤ length s
unfolding find
find-le needle [] p h = ground (arith, is_prefix-length needle [])
find-le needle (c ∷ s) p h = elim (Bool-cases (is_prefix needle (c ∷ s))) [
  | inl here ↦ ground (arith, is_prefix-length needle (c ∷ s) here)
  | inr later ↦ elim (Option-cases (find needle s)) [
    | inl miss ↦ ground arith
    | inr (q, hit) ↦ ground (arith, find-le needle s q hit)
  ]
]
