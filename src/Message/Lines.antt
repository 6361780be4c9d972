-- ===== src/Message/Lines.antt =====
-- The lines of a header block, as `std::getline` reads them.
use mathlib.Core.List.{append_assoc}
use multi_threaded_proxy_ser.Base.{
  ℕ, true, false, List, [], ◌∷◌, ◌++◌, All, Bytes, ◌==◌, ◌≡◌, refl, ap, sym, ◌∙◌, arith,
}
use multi_threaded_proxy_ser.Message.{IsLine, Fields, IsField, print_rest, print_message}
use multi_threaded_proxy_ser.Text.{get_lines, cons_byte, strip_cr, ends_with_byte, pop_back}

get_lines-nil : get_lines [] ≡ []
unfolding get_lines
get_lines-nil = refl

get_lines-line :
    (s t : Bytes) → IsLine s → get_lines (s ++ 13 ∷ 10 ∷ t) ≡ (s ++ 13 ∷ []) ∷ get_lines t
unfolding get_lines
get_lines-line [] t h = refl
get_lines-line (c ∷ s) t h =
    let other : (c == 10) ≡ false = ground arith in
    rw other (ap (cons_byte c) (get_lines-line s t h.1))

-- The lines behind the start line, each with its carriage return.
abbrev pub field_line : Bytes × Bytes → Bytes
field_line f = f.0 ++ (b':' ∷ b' ' ∷ f.1)

abbrev pub field_lines : Fields → List Bytes
field_lines [] = (13 ∷ []) ∷ []
field_lines (f ∷ fs) = (field_line f ++ 13 ∷ []) ∷ field_lines fs

pub IsLine-append : (s t : Bytes) → IsLine s → IsLine t → IsLine (s ++ t)
IsLine-append [] t h k = k
IsLine-append (c ∷ s) t h k = (h.0, IsLine-append s t h.1 k)

field_line-IsLine : (f : Bytes × Bytes) → IsField f → IsLine (field_line f)
field_line-IsLine f h =
    IsLine-append f.0 (b':' ∷ b' ' ∷ f.1) h.name_line
      ((omega arith, omega arith), ((omega arith, omega arith), h.value_line))

pub get_lines-print_message :
    (start : Bytes) (fs : Fields)
    → IsLine start
    → All IsField fs
    → get_lines (print_message start fs []) ≡ (start ++ 13 ∷ []) ∷ field_lines fs
get_lines-print_message start [] s h =
    get_lines-line start (13 ∷ 10 ∷ []) s
    ∙ ap (◌∷◌ (start ++ 13 ∷ [])) (get_lines-line [] [] tt ∙ ap (◌∷◌ (13 ∷ [])) get_lines-nil)
get_lines-print_message start (f ∷ fs) s h =
    get_lines-line start (f.0 ++ (b':' ∷ b' ' ∷ (f.1 ++ print_rest fs []))) s
    ∙ ap (◌∷◌ (start ++ 13 ∷ [])) (
        ap get_lines (sym (append_assoc f.0 (b':' ∷ b' ' ∷ f.1) (print_rest fs [])))
        ∙ get_lines-print_message (field_line f) fs (field_line-IsLine f h.0) h.1)

-- A carriage return at the end is taken off.
ends_with_byte-snoc : (s : Bytes) (b : ℕ) → ends_with_byte b (s ++ b ∷ []) ≡ true
unfolding ends_with_byte
ends_with_byte-snoc [] b = ground arith
ends_with_byte-snoc (c ∷ []) b = ground arith
ends_with_byte-snoc (c ∷ d ∷ s) b = ends_with_byte-snoc (d ∷ s) b

pop_back-snoc : (s : Bytes) (b : ℕ) → pop_back (s ++ b ∷ []) ≡ s
unfolding pop_back
pop_back-snoc [] b = refl
pop_back-snoc (c ∷ []) b = refl
pop_back-snoc (c ∷ d ∷ s) b = ap (◌∷◌ c) (pop_back-snoc (d ∷ s) b)

pub strip_cr-snoc : (s : Bytes) → strip_cr (s ++ 13 ∷ []) ≡ s
unfolding strip_cr
strip_cr-snoc s = rw (ends_with_byte-snoc s 13) (pop_back-snoc s 13)
