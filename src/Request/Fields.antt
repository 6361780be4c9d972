-- ===== src/Request/Fields.antt =====
-- What `parse_request` reads from a message that is printed: the request line and the fields.
use multi_threaded_proxy_ser.Base.{
  ◌+◌, ◌-◌, not, ◌||◌, none, some, List, [], ◌∷◌, ◌++◌, length, take, drop, All, Bytes, codes,
  bytes_eq, if◌then◌else◌, is_empty, ◌≡◌, ◌≢◌, refl, ap, ◌∙◌, arith, Option-cases, inl, inr,
}
use multi_threaded_proxy_ser.Message.{IsLine, Fields, IsField, Lacks, print_message, head_length}
use multi_threaded_proxy_ser.Message.Framing.{find_header_end-print_message, take-print_message}
use multi_threaded_proxy_ser.Message.Lines.{
  get_lines-print_message, field_line, field_lines, strip_cr-snoc, IsLine-append,
}
use multi_threaded_proxy_ser.Message.Literals.{is_line-IsLine}
use multi_threaded_proxy_ser.Message.Words.{
  field_line-colon, field_line-name, field_line-value, field_line-ne-empty, to_lower-ne-empty,
}
use multi_threaded_proxy_ser.Request.{
  Request, Headers, initial, header, set_header, add_header_line, read_headers, finish_request,
  fail, parse_lines, parse_request,
}
use multi_threaded_proxy_ser.Request.Line.{
  request_line, find_spaces-request_line, line_method, line_target, line_version,
}
use multi_threaded_proxy_ser.Text.{substr, compare_eq, to_lower, trim, strip_cr, get_lines}

-- One more field in the table: a repeat is appended to the value, behind a comma.
abbrev pub fold_field : Bytes → Bytes → Headers → Headers
fold_field name value hs = elim (header name hs) [
  | none ↦ set_header name value hs
  | some existing ↦ set_header name (existing ++ codes ", " ++ value) hs
]

abbrev pub folded : Headers → Fields → Headers
folded hs [] = hs
folded hs (f ∷ fs) = folded (fold_field (to_lower f.0) f.1 hs) fs

add_header_line-field :
    (hs : Headers) (f : Bytes × Bytes)
    → IsField f
    → add_header_line hs (field_line f) ≡ fold_field (to_lower f.0) f.1 hs
unfolding add_header_line
add_header_line-field hs f h =
    let colon = field_line-colon f h in
    let name = field_line-name f h in
    let value = field_line-value f h in
    let named = to_lower-ne-empty f.0 h.name_ne_nil in
    elim (Option-cases (header (to_lower f.0) hs)) [
      | inl fresh ↦
          rw (colon, name, named, fresh, name, value, add_header_line) (rw (fresh, fold_field) refl)
      | inr (v, repeat) ↦
          rw (colon, name, named, repeat, name, value, add_header_line)
            (rw (repeat, fold_field) refl)
    ]

strip_cr-blank : strip_cr (13 ∷ []) ≡ []
strip_cr-blank = strip_cr-snoc []

read_headers-fields :
    (hs : Headers) (fs : Fields) → All IsField fs → read_headers hs (field_lines fs) ≡ folded hs fs
unfolding read_headers
read_headers-fields hs [] h = rw strip_cr-blank refl
read_headers-fields hs (f ∷ fs) h =
    rw (strip_cr-snoc (field_line f), field_line-ne-empty f h.0, add_header_line-field hs f h.0)
      (read_headers-fields (fold_field (to_lower f.0) f.1 hs) fs h.1)

-- What `parse_lines` does with the parts.
abbrev parse_parts : Request → Bytes → Bytes → Bytes → List Bytes → Request
parse_parts r method target version lines =
    let r1 = record r { method = method; target = target; version = version } in
    if is_empty r1.method || is_empty r1.target
    then fail r1 (codes "malformed request line")
    else if not (compare_eq 0 5 (codes "HTTP/") r1.version)
    then fail r1 (codes "unsupported version")
    else finish_request (record r1 { headers = read_headers [] lines })

abbrev pub read_back : Request → Bytes → Bytes → Fields → Request
read_back r method target fs = record r {
  method = method;
  target = target;
  version = codes "HTTP/1.1";
  headers = folded [] fs;
}

parse_parts-finish :
    (r : Request) (method target : Bytes) (fs : Fields)
    → method ≢ []
    → target ≢ []
    → All IsField fs
    → parse_parts r method target (codes "HTTP/1.1") (field_lines fs)
      ≡ finish_request (read_back r method target fs)
unfolding bytes_eq
parse_parts-finish r [] target fs m t h = absurd (m refl)
parse_parts-finish r (a ∷ method) [] fs m t h = absurd (t refl)
parse_parts-finish r (a ∷ method) (b ∷ target) fs m t h = rw (read_headers-fields [] fs h) refl

parse_lines-fields :
    (r : Request) (method target : Bytes) (fs : Fields)
    → Lacks b' ' method
    → Lacks b' ' target
    → method ≢ []
    → target ≢ []
    → All IsField fs
    → parse_lines r (request_line method target) (field_lines fs)
      ≡ finish_request (read_back r method target fs)
unfolding parse_lines
parse_lines-fields r method target fs m t m' t' h =
    let line = request_line method target in
    let parts : parse_lines r line (field_lines fs)
        ≡ parse_parts r (take (length method) line)
            (substr line (length method + 1)
              (length method + 1 + length target - length method - 1))
            (trim (drop (length method + 1 + length target + 1) line)) (field_lines fs) =
      rw (find_spaces-request_line method target m t, parse_lines) refl in
    parts
    ∙ ap
        (λ x.
          parse_parts r x
            (substr line (length method + 1)
              (length method + 1 + length target - length method - 1))
            (trim (drop (length method + 1 + length target + 1) line)) (field_lines fs))
        (line_method method target m t)
    ∙ ap
        (λ x.
          parse_parts r method x (trim (drop (length method + 1 + length target + 1) line))
            (field_lines fs))
        (line_target method target m t)
    ∙ ap (λ x. parse_parts r method target x (field_lines fs)) (line_version method target m t)
    ∙ parse_parts-finish r method target fs m' t' h

request_line-IsLine :
    (method target : Bytes) → IsLine method → IsLine target → IsLine (request_line method target)
request_line-IsLine method target m t =
    IsLine-append method (b' ' ∷ (target ++ (b' ' ∷ codes "HTTP/1.1"))) m (
      (omega arith, omega arith),
      IsLine-append target (b' ' ∷ codes "HTTP/1.1") t
          (is_line-IsLine (b' ' ∷ codes "HTTP/1.1") refl),
    )

-- A word of a request line: not empty, and with no space and no line end.
pub record IsWord (s : Bytes) : Type 0 where
  pub word_line : IsLine s
  pub word_space : Lacks b' ' s
  pub word_ne_nil : s ≢ []

-- A printed request is read back, up to the routing of its target.
pub parse-print_request :
    (method target : Bytes) (fs : Fields) (body : Bytes)
    → IsWord method
    → IsWord target
    → All IsField fs
    → let raw = print_message (request_line method target) fs body in
      parse_request raw
      ≡ finish_request (
          read_back
            (record (initial raw) { header_bytes = head_length (request_line method target) fs })
            method
            target
            fs)
unfolding parse_request
parse-print_request method target fs body m t h =
    let start = request_line method target in
    let line = request_line-IsLine method target m.word_line t.word_line in
    let text = print_message start fs body in
    let hend = head_length start fs in
    let found = find_header_end-print_message start fs body line h in
    let lines : get_lines (take hend text) ≡ (start ++ 13 ∷ []) ∷ field_lines fs =
      ap get_lines (take-print_message start fs body) ∙ get_lines-print_message start fs line h in
    rw (found, lines, strip_cr-snoc start, parse_request)
      (parse_lines-fields (record (initial text) { header_bytes = hend }) method target fs
        m.word_space t.word_space m.word_ne_nil t.word_ne_nil h)
