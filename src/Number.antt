-- ===== src/Number.antt =====
-- The number conversions of the C library that the program calls: `strtol` and `atoi` in base 10,
-- and `std::to_string`.
pub mod Digits
use multi_threaded_proxy_ser.Base.{
  ℕ, zero, suc, ◌+◌, ◌-◌, ◌*◌, ◌/◌, ◌%◌, ◌^◌, Bool, true, false, ◌&&◌, ◌||◌, [], ◌∷◌, ◌++◌, ◌==◌,
  leb, ltb, if◌then◌else◌, Bytes,
}
use multi_threaded_proxy_ser.Base.Int.{ℤ, pos, negsuc, to_int}

-- `std::isdigit`.
abbrev pub is_digit : ℕ → Bool
is_digit c = leb b'0' c && leb c b'9'

-- `std::isspace` in the C locale.
abbrev pub is_space : ℕ → Bool
is_space c = c == b' ' || leb 9 c && leb c 13

-- The bytes in front of the first NUL, which is where a C string ends.
unfoldable pub c_str : Bytes → Bytes
c_str [] = []
c_str (c ∷ s) = if c == 0 then [] else c ∷ c_str s

unfoldable pub skip_space : Bytes → Bytes
skip_space [] = []
skip_space (c ∷ s) = if is_space c then skip_space s else c ∷ s

-- The value of the digits at the front, behind digits with the value `acc`.
unfoldable pub decimal : ℕ → Bytes → ℕ
decimal acc [] = acc
decimal acc (c ∷ s) =
    let rest = decimal (acc * 10 + (c - b'0')) s in if is_digit c then rest else acc

unfoldable pub after_digits : Bytes → Bytes
after_digits [] = []
after_digits (c ∷ s) = if is_digit c then after_digits s else c ∷ s

-- What `strtol` returns, what `*end` and the bytes behind it are, and whether it sets `errno`.
pub record Parsed : Type 0 where
  pub value : ℤ
  pub rest : Bytes
  pub overflow : Bool

abbrev pub long_max : ℕ
long_max = 2 ^ 63 - 1

-- An integer out of the range of `long` becomes the nearest end of the range.
abbrev pub clamp : Bool → ℕ → Bytes → Parsed
clamp false n rest =
    if leb n long_max
    then record { value = pos n; rest = rest; overflow = false }
    else record { value = pos long_max; rest = rest; overflow = true }
clamp true zero rest = record { value = pos 0; rest = rest; overflow = false }
clamp true (suc n) rest =
    if leb n long_max
    then record { value = negsuc n; rest = rest; overflow = false }
    else record { value = negsuc long_max; rest = rest; overflow = true }

-- At the first byte that is no sign: with no digit there nothing is converted, and `end` is the
-- start of the text.
abbrev pub convert : Bytes → Bool → Bytes → Parsed
convert all negative [] = record { value = pos 0; rest = all; overflow = false }
convert all negative (c ∷ s) =
    if is_digit c
    then clamp negative (decimal 0 (c ∷ s)) (after_digits (c ∷ s))
    else record { value = pos 0; rest = all; overflow = false }

abbrev pub read_sign : Bytes → Bytes → Parsed
read_sign all [] = convert all false []
read_sign all (c ∷ s) =
    if c == b'-'
    then convert all true s
    else if c == b'+'
    then convert all false s
    else convert all false (c ∷ s)

unfoldable pub strtol : Bytes → Parsed
unfolding c_str skip_space decimal after_digits
strtol s = let text = c_str s in read_sign text (skip_space text)

unfoldable pub atoi : Bytes → ℤ
unfolding strtol
atoi s = to_int (strtol s).value

-- Digits of `n`, at most `fuel` of them. A `size_t` has at most 20.
unfoldable pub print_digits : ℕ → ℕ → Bytes
print_digits zero n = []
print_digits (suc fuel) n =
    let front = print_digits fuel (n / 10) in
    if ltb n 10 then (b'0' + n) ∷ [] else front ++ (b'0' + n % 10) ∷ []

unfoldable pub to_string : ℕ → Bytes
unfolding print_digits
to_string n = print_digits 20 n
