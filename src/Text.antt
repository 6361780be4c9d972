-- ===== src/Text.antt =====
-- http.hpp, small helpers, and the members of `std::string` that the program calls. A position is
-- a number, and `npos` is `none`.
pub mod Find
pub mod Prefix
pub mod Wildcard
mod Tests
use multi_threaded_proxy_ser.Base.{
  ℕ, suc, ◌+◌, ◌-◌, Bool, true, false, not, ◌&&◌, ◌||◌, Option, none, some, List, [], ◌∷◌, ◌++◌,
  map, length, take, drop, ◌==◌, leb, ltb, if◌then◌else◌, shift, Bytes, codes, bytes_eq, is_empty,
}

-- `s.substr(pos, n)`; the program calls it with `pos <= s.size()` only.
abbrev pub substr : Bytes → ℕ → ℕ → Bytes
substr s pos n = take n (drop pos s)

-- `s.compare(pos, n, t) == 0`.
abbrev pub compare_eq : ℕ → ℕ → Bytes → Bytes → Bool
compare_eq pos n t s = bytes_eq (substr s pos n) t

unfoldable pub is_prefix : Bytes → Bytes → Bool
is_prefix [] s = true
is_prefix (x ∷ xs) [] = false
is_prefix (x ∷ xs) (y ∷ ys) = x == y && is_prefix xs ys

-- `s.find(needle)`.
unfoldable pub find : Bytes → Bytes → Option ℕ
unfolding is_prefix
find needle [] = if is_prefix needle [] then some 0 else none
find needle (c ∷ s) = if is_prefix needle (c ∷ s) then some 0 else shift 1 (find needle s)

-- `s.find(needle, pos)`.
unfoldable pub find_from : Bytes → Bytes → ℕ → Option ℕ
unfolding find
find_from needle s pos = if leb pos (length s) then shift pos (find needle (drop pos s)) else none

abbrev pub contains : Bytes → Bytes → Bool
contains needle s = elim (find needle s) [ none ↦ false | some _ ↦ true ]

-- `s.find(c)` for one byte.
unfoldable pub find_byte : ℕ → Bytes → Option ℕ
find_byte b [] = none
find_byte b (c ∷ s) = if c == b then some 0 else shift 1 (find_byte b s)

-- `s.find(c, pos)` for one byte.
unfoldable pub find_byte_from : ℕ → Bytes → ℕ → Option ℕ
unfolding find_byte
find_byte_from b s pos = if leb pos (length s) then shift pos (find_byte b (drop pos s)) else none

-- `s.rfind(c)`.
unfoldable pub rfind_byte : ℕ → Bytes → Option ℕ
rfind_byte b [] = none
rfind_byte b (c ∷ s) = elim (rfind_byte b s) [
  | some n ↦ some (suc n)
  | none ↦ if c == b then some 0 else none
]

-- `std::tolower` in the C locale.
unfoldable pub lower_byte : ℕ → ℕ
lower_byte c = if leb b'A' c && leb c b'Z' then c + 32 else c

unfoldable pub to_lower : Bytes → Bytes
unfolding lower_byte
to_lower s = map lower_byte s

-- The bytes " \t\r\n".
abbrev pub is_blank : ℕ → Bool
is_blank c = c == b' ' || (c == 9 || (c == 13 || c == 10))

-- `s.find_first_not_of(" \t\r\n")`.
unfoldable pub find_first_not_blank : Bytes → Option ℕ
find_first_not_blank [] = none
find_first_not_blank (c ∷ s) = if is_blank c then shift 1 (find_first_not_blank s) else some 0

-- `s.find_last_not_of(" \t\r\n")`.
unfoldable pub find_last_not_blank : Bytes → Option ℕ
find_last_not_blank [] = none
find_last_not_blank (c ∷ s) = elim (find_last_not_blank s) [
  | some n ↦ some (suc n)
  | none ↦ if is_blank c then none else some 0
]

unfoldable pub trim : Bytes → Bytes
unfolding find_first_not_blank find_last_not_blank
trim s = elim (find_first_not_blank s) [
  | none ↦ []
  | some b ↦ elim (find_last_not_blank s) [ none ↦ [] | some e ↦ substr s b (e - b + 1) ]
]

-- `s.back()`, where the string is not empty.
unfoldable pub ends_with_byte : ℕ → Bytes → Bool
ends_with_byte b [] = false
ends_with_byte b (c ∷ []) = c == b
ends_with_byte b (c ∷ d ∷ s) = ends_with_byte b (d ∷ s)

-- `s.pop_back()`.
unfoldable pub pop_back : Bytes → Bytes
pop_back [] = []
pop_back (c ∷ []) = []
pop_back (c ∷ d ∷ s) = c ∷ pop_back (d ∷ s)

-- `if (!line.empty() && line.back() == '\r') line.pop_back();`
unfoldable pub strip_cr : Bytes → Bytes
unfolding ends_with_byte pop_back
strip_cr line = if ends_with_byte 13 line then pop_back line else line

-- One more byte in front of the first line.
abbrev pub cons_byte : ℕ → List Bytes → List Bytes
cons_byte c [] = (c ∷ []) ∷ []
cons_byte c (l ∷ ls) = (c ∷ l) ∷ ls

-- The lines that repeated `std::getline` calls read: a last line with no newline counts, unless it
-- is empty.
unfoldable pub get_lines : Bytes → List Bytes
get_lines [] = []
get_lines (c ∷ s) = let rest = get_lines s in if c == 10 then [] ∷ rest else cons_byte c rest

-- The test of a suffix, and of a prefix, in `wildcard_match`.
unfoldable pub ends_with : Bytes → Bytes → Bool
ends_with suffix value =
    if ltb (length value) (length suffix)
    then false
    else compare_eq (length value - length suffix) (length suffix) suffix value

unfoldable pub begins_with : Bytes → Bytes → Bool
begins_with prefix value =
    if ltb (length value) (length prefix) then false else compare_eq 0 (length prefix) prefix value

-- A pattern "*.suffix", and a pattern "prefix*".
unfoldable pub is_suffix_pattern : Bytes → Bool
is_suffix_pattern pattern = ltb 2 (length pattern) && compare_eq 0 2 (codes "*.") pattern

unfoldable pub is_prefix_pattern : Bytes → Bool
is_prefix_pattern pattern = not (is_empty pattern) && ends_with_byte b'*' pattern

unfoldable pub wildcard_match : Bytes → Bytes → Bool
wildcard_match pattern value =
    if bytes_eq pattern (codes "*")
    then true
    else if is_suffix_pattern pattern
    then ends_with (drop 1 pattern) value
    else if is_prefix_pattern pattern
    then begins_with (take (length pattern - 1) pattern) value
    else bytes_eq pattern value

-- The definitions that a run of the matcher on concrete texts computes with.
unfoldable pub matching : Unit {0}
unfolding wildcard_match is_suffix_pattern is_prefix_pattern ends_with begins_with bytes_eq
    ends_with_byte
matching = tt
