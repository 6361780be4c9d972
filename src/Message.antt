-- ===== src/Message.antt =====
-- A message of HTTP as text: a start line, header fields, a blank line and a body, as the parsers of
-- http.hpp read it and as the programs write it.
pub mod Cut
pub mod Framing
pub mod Lines
pub mod Literals
pub mod Words
use multi_threaded_proxy_ser.Base.{ℕ, ◌+◌, List, [], ◌∷◌, ◌++◌, length, All, Bytes, ◌≡◌, ◌≢◌}
use multi_threaded_proxy_ser.Text.{trim}

-- A text within a line: no carriage return and no newline.
abbrev pub IsLine : Bytes → Type 0
IsLine s = All (λ c. (c ≢ 13) × (c ≢ 10)) s

-- The byte `b` does not occur.
abbrev pub Lacks : ℕ → Bytes → Type 0
Lacks b s = All (λ c. c ≢ b) s

abbrev pub Fields : Type 0
Fields = List (Bytes × Bytes)

-- A header field as it is written: a name with no colon, and a value, with no blanks around them.
pub record IsField (f : Bytes × Bytes) : Type 0 where
  pub name_line : IsLine f.0
  pub name_ne_nil : f.0 ≢ []
  pub name_colon : Lacks b':' f.0
  pub name_trim : trim f.0 ≡ f.0
  pub value_line : IsLine f.1
  pub value_trim : trim f.1 ≡ f.1

-- What follows the start line: its line end, the fields, the blank line, and the body.
abbrev pub print_rest : Fields → Bytes → Bytes
print_rest [] body = 13 ∷ 10 ∷ 13 ∷ 10 ∷ body
print_rest (f ∷ fs) body = 13 ∷ 10 ∷ (f.0 ++ (b':' ∷ b' ' ∷ (f.1 ++ print_rest fs body)))

abbrev pub print_message : Bytes → Fields → Bytes → Bytes
print_message start fs body = start ++ print_rest fs body

-- How long the fields are.
abbrev pub fields_length : Fields → ℕ
fields_length [] = 0
fields_length (f ∷ fs) = 4 + (length f.0 + (length f.1 + fields_length fs))

-- The length of the header block.
abbrev pub head_length : Bytes → Fields → ℕ
head_length start fs = length start + fields_length fs + 4
