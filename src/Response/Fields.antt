-- ===== src/Response/Fields.antt =====
-- What `parse_response_headers` reads from a message that is printed: the status and the fields.
use multi_threaded_proxy_ser.Base.{
  ℕ, ◌+◌, ◌≤◌, true, some, [], ◌∷◌, ◌++◌, length, take, shift, All, Bytes, codes, leb, ◌≡◌, refl,
  ap, ◌∙◌, arith, take-length-append, length-append,
}
use multi_threaded_proxy_ser.Base.Int.{pos, within}
use multi_threaded_proxy_ser.Message.{IsLine, Fields, IsField, Lacks, print_message, head_length}
use multi_threaded_proxy_ser.Message.Framing.{find_header_end-print_message, take-print_message}
use multi_threaded_proxy_ser.Message.Lines.{
  get_lines-print_message, field_line, field_lines, strip_cr-snoc, IsLine-append,
}
use multi_threaded_proxy_ser.Message.Literals.{lacks-Lacks, is_line-IsLine}
use multi_threaded_proxy_ser.Message.Words.{
  find_byte-first, field_line-colon, field_line-name, field_line-value, field_line-ne-empty,
  to_lower-ne-empty,
}
use multi_threaded_proxy_ser.Number.{to_string}
use multi_threaded_proxy_ser.Number.Digits.{IsDigit, to_string-IsDigit, atoi-to_string}
use multi_threaded_proxy_ser.Request.{Headers, set_header}
use multi_threaded_proxy_ser.Response.{
  Response, initial, status_code, add_response_line, read_response_headers, parse_status,
  finish_response, parse_response_headers,
}
use multi_threaded_proxy_ser.Text.{find_byte, find_byte_from, to_lower, strip_cr, get_lines}

-- The fields as a table, under their names in lower case, a repeat replacing the value.
abbrev pub stored : Headers → Fields → Headers
stored hs [] = hs
stored hs (f ∷ fs) = stored (set_header (to_lower f.0) f.1 hs) fs

add_response_line-field :
    (hs : Headers) (f : Bytes × Bytes)
    → IsField f
    → add_response_line hs (field_line f) ≡ set_header (to_lower f.0) f.1 hs
unfolding add_response_line
add_response_line-field hs f h =
    rw
      (
        field_line-colon f h,
        field_line-name f h,
        field_line-value f h,
        to_lower-ne-empty f.0 h.name_ne_nil,
        add_response_line,
      )
      refl

strip_cr-blank : strip_cr (13 ∷ []) ≡ []
strip_cr-blank = strip_cr-snoc []

read_response_headers-fields :
    (hs : Headers) (fs : Fields)
    → All IsField fs
    → read_response_headers hs (field_lines fs) ≡ stored hs fs
unfolding read_response_headers
read_response_headers-fields hs [] h = rw strip_cr-blank refl
read_response_headers-fields hs (f ∷ fs) h =
    rw (strip_cr-snoc (field_line f), field_line-ne-empty f h.0, add_response_line-field hs f h.0)
      (read_response_headers-fields (set_header (to_lower f.0) f.1 hs) fs h.1)

-- The start line of a response.
abbrev pub status_line : ℕ → Bytes → Bytes
status_line status reason = codes "HTTP/1.1 " ++ (to_string status ++ (b' ' ∷ reason))

pub digits-Lacks : (s : Bytes) → All IsDigit s → Lacks b' ' s
digits-Lacks [] h = tt
digits-Lacks (c ∷ s) h = (omega (arith, h.0.0), digits-Lacks s h.1)

first_space : (status : ℕ) (reason : Bytes) → find_byte b' ' (status_line status reason) ≡ some 8
first_space status reason =
    find_byte-first b' ' (codes "HTTP/1.1") (to_string status ++ (b' ' ∷ reason))
      (lacks-Lacks b' ' (codes "HTTP/1.1") refl)

second_space :
    (status : ℕ) (reason : Bytes)
    → find_byte_from b' ' (status_line status reason) 9 ≡ some (9 + length (to_string status))
unfolding find_byte_from
second_space status reason =
    let inside : leb 9 (length (status_line status reason)) ≡ true =
      ground (arith, length-append (codes "HTTP/1.1 ") (to_string status ++ (b' ' ∷ reason))) in
    let found : find_byte b' ' (to_string status ++ (b' ' ∷ reason))
        ≡ some (length (to_string status)) =
      find_byte-first b' ' (to_string status) reason
        (digits-Lacks (to_string status) (to_string-IsDigit status)) in
    rw (inside, find_byte_from) (ap (shift 9) found)

status_code-status_line :
    (status : ℕ) (reason : Bytes)
    → status_code (status_line status reason) ≡ some (to_string status)
unfolding status_code
status_code-status_line status reason =
    rw (first_space status reason, second_space status reason, status_code)
      (ap some (
        ap (λ n. take n (to_string status ++ (b' ' ∷ reason))) (omega arith)
        ∙ take-length-append (to_string status) (b' ' ∷ reason)))

pub digits-IsLine : (s : Bytes) → All IsDigit s → IsLine s
digits-IsLine [] h = tt
digits-IsLine (c ∷ s) h = ((omega (arith, h.0.0), omega (arith, h.0.0)), digits-IsLine s h.1)

pub status_line-IsLine :
    (status : ℕ) (reason : Bytes) → IsLine reason → IsLine (status_line status reason)
status_line-IsLine status reason h =
    IsLine-append (codes "HTTP/1.1 ") (to_string status ++ (b' ' ∷ reason))
      (is_line-IsLine (codes "HTTP/1.1 ") refl)
      (IsLine-append (to_string status) (b' ' ∷ reason)
        (digits-IsLine (to_string status) (to_string-IsDigit status))
        ((omega arith, omega arith), h))

-- What the parser has before it looks at the framing.
abbrev pub read_back : ℕ → ℕ → Fields → Response
read_back hend status fs = record initial {
  header_bytes = hend;
  status = pos status;
  headers = stored [] fs;
}

parse_status-fields :
    (hend status : ℕ) (reason : Bytes) (fs : Fields)
    → 100 ≤ status
    → status ≤ 599
    → All IsField fs
    → parse_status
        (record initial { header_bytes = hend })
        (status_line status reason)
        (field_lines fs)
      ≡ finish_response (read_back hend status fs)
unfolding parse_status
parse_status-fields hend status reason fs low high h =
    let in_range : within 100 599 (pos status) ≡ true = ground arith in
    rw
      (
        status_code-status_line status reason,
        atoi-to_string status (omega arith),
        in_range,
        read_response_headers-fields [] fs h,
        parse_status,
      )
      refl

-- A printed response is read back, up to the framing of its body.
pub parse-print_message :
    (status : ℕ) (reason : Bytes) (fs : Fields) (body : Bytes)
    → 100 ≤ status
    → status ≤ 599
    → IsLine reason
    → All IsField fs
    → parse_response_headers (print_message (status_line status reason) fs body)
      ≡ finish_response (read_back (head_length (status_line status reason) fs) status fs)
unfolding parse_response_headers
parse-print_message status reason fs body low high r h =
    let start = status_line status reason in
    let line = status_line-IsLine status reason r in
    let hend = head_length start fs in
    let text = print_message start fs body in
    let found = find_header_end-print_message start fs body line h in
    let lines : get_lines (take hend text) ≡ (start ++ 13 ∷ []) ∷ field_lines fs =
      ap get_lines (take-print_message start fs body) ∙ get_lines-print_message start fs line h in
    rw (found, lines, strip_cr-snoc start, parse_response_headers)
      (parse_status-fields hend status reason fs low high h)
