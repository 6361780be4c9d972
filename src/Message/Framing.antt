-- ===== src/Message/Framing.antt =====
-- The header block of a message ends where its blank line does.
use mathlib.Core.List.{append_assoc}
use multi_threaded_proxy_ser.Base.{
  ℕ, suc, ◌+◌, false, Option, none, some, [], ◌∷◌, ◌++◌, length, take, shift, All, Bytes, ◌==◌, ◌≡◌,
  ◌≢◌, refl, sym, ap, ◌∙◌, arith, length-append, take-length-append,
}
use multi_threaded_proxy_ser.Message.{
  IsLine, Lacks, Fields, IsField, print_rest, print_message, fields_length, head_length,
}
use multi_threaded_proxy_ser.Request.{find_header_end}
use multi_threaded_proxy_ser.Text.{find, is_prefix}

abbrev pub blank : Bytes
blank = 13 ∷ 10 ∷ 13 ∷ 10 ∷ []

pub not_here : (c b : ℕ) → c ≢ b → (b == c) ≡ false
not_here c b h = ground arith

pub shift-shift : (m n : ℕ) (o : Option ℕ) → shift m (shift n o) ≡ shift (m + n) o
shift-shift m n none = refl
shift-shift m n (some k) = ap some (omega arith)

shift-zero : (o : Option ℕ) → o ≡ shift 0 o
shift-zero none = refl
shift-zero (some k) = ap some (omega arith)

-- A text without the first byte of what is sought is passed over.
pub find-past :
    (b : ℕ) (n s t : Bytes) → Lacks b s → find (b ∷ n) (s ++ t) ≡ shift (length s) (find (b ∷ n) t)
unfolding find is_prefix
find-past b n [] t h = shift-zero (find (b ∷ n) t)
find-past b n (c ∷ s) t h = rw (not_here c b h.0) (
    ap (shift 1) (find-past b n s t h.1)
    ∙ shift-shift 1 (length s) (find (b ∷ n) t)
    ∙ ap (λ k. shift k (find (b ∷ n) t)) (omega arith))

pub IsLine-Lacks : (s : Bytes) → IsLine s → Lacks 13 s × Lacks 10 s
IsLine-Lacks [] h = (tt, tt)
IsLine-Lacks (c ∷ s) h = let (r, n) = IsLine-Lacks s h.1 in ((h.0.0, r), (h.0.1, n))

pub find-line : (s t : Bytes) → IsLine s → find blank (s ++ t) ≡ shift (length s) (find blank t)
find-line s t h = find-past 13 (10 ∷ 13 ∷ 10 ∷ []) s t (IsLine-Lacks s h).0

-- So is a line end that text follows.
find-line_end :
    (c : ℕ) (t : Bytes) → c ≢ 13 → find blank (13 ∷ 10 ∷ c ∷ t) ≡ shift 2 (find blank (c ∷ t))
unfolding find is_prefix
find-line_end c t h = rw (not_here c 13 h) (shift-shift 1 1 (shift 1 (find blank t)))

blank_found : (body : Bytes) → find blank (13 ∷ 10 ∷ 13 ∷ 10 ∷ body) ≡ some 0
unfolding find is_prefix
blank_found body = refl

pub separator : (v : Bytes) → IsLine v → IsLine (b':' ∷ b' ' ∷ v)
separator v h = ((omega arith, omega arith), ((omega arith, omega arith), h))

pub find-print_rest :
    (fs : Fields) (body : Bytes)
    → All IsField fs
    → find blank (print_rest fs body) ≡ some (fields_length fs)
find-print_rest [] body h = blank_found body
find-print_rest (([], v) ∷ fs) body h = absurd (h.0.name_ne_nil refl)
find-print_rest ((c ∷ n, v) ∷ fs) body h =
    let field = h.0 in
    find-line_end c (n ++ (b':' ∷ b' ' ∷ (v ++ print_rest fs body))) field.name_line.0.0
    ∙ ap (shift 2) (
        find-line (c ∷ n) (b':' ∷ b' ' ∷ (v ++ print_rest fs body)) field.name_line
        ∙ ap (shift (suc (length n))) (
            find-line (b':' ∷ b' ' ∷ v) (print_rest fs body) (separator v field.value_line)
            ∙ ap (shift (suc (suc (length v)))) (find-print_rest fs body h.1)))
    ∙ ap some (omega arith)

pub find_header_end-print_message :
    (start : Bytes) (fs : Fields) (body : Bytes)
    → IsLine start
    → All IsField fs
    → find_header_end (print_message start fs body) ≡ some (head_length start fs)
unfolding find_header_end
find_header_end-print_message start fs body s h =
    let found =
      find-line start (print_rest fs body) s
      ∙ ap (shift (length start)) (find-print_rest fs body h) in
    rw found (ap some (omega arith))

-- The body is what follows the head.
print_rest-body : (fs : Fields) (body : Bytes) → print_rest fs body ≡ print_rest fs [] ++ body
print_rest-body [] body = refl
print_rest-body (f ∷ fs) body =
    ap (λ t. 13 ∷ 10 ∷ t)
      (ap (λ t. f.0 ++ (b':' ∷ b' ' ∷ t))
          (ap (λ t. f.1 ++ t) (print_rest-body fs body)
            ∙ sym (append_assoc f.1 (print_rest fs []) body))
        ∙ sym (append_assoc f.0 (b':' ∷ b' ' ∷ (f.1 ++ print_rest fs [])) body))

pub print_message-body :
    (start : Bytes) (fs : Fields) (body : Bytes)
    → print_message start fs body ≡ print_message start fs [] ++ body
print_message-body start fs body =
    ap (λ t. start ++ t) (print_rest-body fs body)
    ∙ sym (append_assoc start (print_rest fs []) body)

length-print_rest : (fs : Fields) → length (print_rest fs []) ≡ fields_length fs + 4
length-print_rest [] = omega arith
length-print_rest (f ∷ fs) = omega (
  arith,
  length-append f.0 (b':' ∷ b' ' ∷ (f.1 ++ print_rest fs [])),
  length-append f.1 (print_rest fs []),
  length-print_rest fs,
)

pub length-print_message :
    (start : Bytes) (fs : Fields) (body : Bytes)
    → length (print_message start fs body) ≡ head_length start fs + length body
length-print_message start fs body = omega (
  arith,
  ap length (print_message-body start fs body),
  length-append (print_message start fs []) body,
  length-append start (print_rest fs []),
  length-print_rest fs,
)

-- The header block of a printed message.
pub take-print_message :
    (start : Bytes) (fs : Fields) (body : Bytes)
    → take (head_length start fs) (print_message start fs body) ≡ print_message start fs []
take-print_message start fs body =
    let size : head_length start fs ≡ length (print_message start fs []) =
      omega (arith, length-print_message start fs []) in
    ap (λ n. take n (print_message start fs body)) size
    ∙ ap (take (length (print_message start fs []))) (print_message-body start fs body)
    ∙ take-length-append (print_message start fs []) body
