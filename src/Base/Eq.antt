-- ===== src/Base/Eq.antt =====
-- Equality of keys, which a `std::unordered_map` takes from its key type.
use Prim.Native.Nat.{ℕ}
use mathlib.Core.Path.{◌≡◌}
use mathlib.Core.Logic.{◌↔◌}
use mathlib.Core.Bool.{Bool, true}
use multi_threaded_proxy_ser.Base.Strings.{Bytes, bytes_eq, bytes_eq_iff}
use multi_threaded_proxy_ser.Base.Tests.{◌==◌, ==_iff}

pub record KeyEq {ℓ} (K : Type ℓ) : Type ℓ where
  pub same : K → K → Bool
  pub same_iff : (a b : K) → (same a b ≡ true) ↔ (a ≡ b)

instance abbrev pub bytes_key : KeyEq Bytes
bytes_key = record { same = bytes_eq; same_iff = bytes_eq_iff }

instance abbrev pub number_key : KeyEq ℕ
number_key = record { same = ◌==◌; same_iff = ==_iff }
