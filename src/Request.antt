-- ===== src/Request.antt =====
-- http.hpp, Request: `find_header_end`, `parse_request` and `expected_request_bytes`.
pub mod Errors
pub mod Fields
pub mod Line
pub mod Shape
pub mod Valid
mod Tests
use multi_threaded_proxy_ser.Base.{
  ℕ, ◌+◌, ◌-◌, Bool, true, false, not, ◌&&◌, ◌||◌, Option, none, some, List, [], ◌∷◌, ◌++◌, length,
  take, drop, if◌then◌else◌, Bytes, codes, bytes_eq, is_empty, shift, ◌==◌,
}
use multi_threaded_proxy_ser.Base.Int.{ℤ, pos, negsuc, is_nonneg, is_positive, to_size}
use multi_threaded_proxy_ser.Number.{strtol}
use multi_threaded_proxy_ser.Text.{
  substr, compare_eq, find, contains, find_byte, find_byte_from, to_lower, trim, strip_cr,
  get_lines,
}

-- `std::unordered_map<std::string, std::string>` with distinct keys; its order is never used.
abbrev pub Headers : Type 0
Headers = List (Bytes × Bytes)

-- `headers.find(name)`.
unfoldable pub header : Bytes → Headers → Option Bytes
unfolding bytes_eq
header name [] = none
header name ((k, v) ∷ hs) = if bytes_eq k name then some v else header name hs

-- `headers[name] = value`.
unfoldable pub set_header : Bytes → Bytes → Headers → Headers
unfolding bytes_eq
set_header name value [] = (name, value) ∷ []
set_header name value ((k, v) ∷ hs) =
    if bytes_eq k name then (k, value) ∷ hs else (k, v) ∷ set_header name value hs

pub record Request : Type 0 where
  pub method : Bytes
  pub target : Bytes
  pub version : Bytes
  pub path : Bytes
  pub host : Bytes
  pub headers : Headers
  pub raw : Bytes
  pub header_bytes : ℕ
  pub content_length : ℤ
  pub keep_alive : Bool
  pub valid : Bool
  pub parse_error : Bytes

-- The members' initialisers, and `r.raw = raw`.
abbrev pub initial : Bytes → Request
initial raw = record {
  method = [];
  target = [];
  version = [];
  path = [];
  host = [];
  headers = [];
  raw = raw;
  header_bytes = 0;
  content_length = negsuc 0;
  keep_alive = true;
  valid = false;
  parse_error = [];
}

-- `else` of an `Option`.
abbrev pub or_else : Option ℕ → Option ℕ → Option ℕ
or_else (some n) o = some n
or_else none o = o

abbrev pub crlf : Bytes
crlf = 13 ∷ 10 ∷ []

-- The offset just past the end of the header block.
unfoldable pub find_header_end : Bytes → Option ℕ
unfolding find
find_header_end buf =
    or_else (shift 4 (find (13 ∷ 10 ∷ 13 ∷ 10 ∷ []) buf)) (shift 2 (find (10 ∷ 10 ∷ []) buf))

abbrev pub fail : Request → Bytes → Request
fail r error = record r { parse_error = error }

-- The two spaces of the request line, `sp1` and `sp2`.
unfoldable pub find_spaces : Bytes → Option (ℕ × ℕ)
find_spaces line = elim (find_byte b' ' line) [
  | none ↦ none
  | some sp1 ↦ elim (find_byte_from b' ' line (sp1 + 1)) [
    | none ↦ none
    | some sp2 ↦ some (sp1, sp2)
  ]
]

-- What a header line, its `\r` gone, adds: repeats are folded.
unfoldable pub add_header_line : Headers → Bytes → Headers
add_header_line hs line = elim (find_byte b':' line) [
  | none ↦ hs
  | some colon ↦
      (let name = to_lower (trim (take colon line)) in
        let value = trim (drop (colon + 1) line) in
        if is_empty name then hs else elim (header name hs) [
          | none ↦ set_header name value hs
          | some existing ↦ set_header name (existing ++ codes ", " ++ value) hs
        ])
]

-- The header loop, which ends at the blank line.
unfoldable pub read_headers : Headers → List Bytes → Headers
read_headers hs [] = hs
read_headers hs (raw_line ∷ lines) =
    let line = strip_cr raw_line in
    let rest = read_headers (add_header_line hs line) lines in if is_empty line then hs else rest

-- `path` and `host` from the target: an absolute form is taken apart.
unfoldable pub normalise_target : Request → Request
normalise_target r =
    if compare_eq 0 7 (codes "http://") (to_lower r.target)
    then elim (find_byte_from b'/' r.target 7) [
      | none ↦ record r { host = drop 7 r.target; path = codes "/" }
      | some slash ↦ record r { host = substr r.target 7 (slash - 7); path = drop slash r.target }
    ]
    else record r { path = r.target }

unfoldable pub host_from_header : Request → Request
host_from_header r =
    if is_empty r.host
    then elim (header (codes "host") r.headers) [ none ↦ r | some h ↦ record r { host = h } ]
    else r

unfoldable pub request_length : Headers → ℤ
request_length hs = elim (header (codes "content-length") hs) [
  | none ↦ negsuc 0
  | some cl ↦
      (let v = strtol cl in
        if not v.overflow && (is_empty v.rest && is_nonneg v.value) then v.value else negsuc 0)
]

unfoldable pub wants_keep_alive : Bytes → Headers → Bool
wants_keep_alive version hs =
    let default = bytes_eq version (codes "HTTP/1.1") in
    elim (header (codes "connection") hs) [
      | none ↦ default
      | some c ↦
          if contains (codes "close") (to_lower c)
          then false
          else if contains (codes "keep-alive") (to_lower c)
          then true
          else default
    ]

-- What follows the header loop.
unfoldable pub finish_request : Request → Request
finish_request r0 =
    let r1 = host_from_header (normalise_target r0) in
    let r2 = record r1 {
      content_length = request_length r1.headers;
      keep_alive = wants_keep_alive r1.version r1.headers;
    } in
    if is_empty r2.host then fail r2 (codes "missing Host header") else record r2 { valid = true }

-- The request line, its `\r` gone, and what follows it.
unfoldable pub parse_lines : Request → Bytes → List Bytes → Request
parse_lines r line lines = elim (find_spaces line) [
  | none ↦ fail r (codes "malformed request line")
  | some (sp1, sp2) ↦
      (let r1 = record r {
        method = take sp1 line;
        target = substr line (sp1 + 1) (sp2 - sp1 - 1);
        version = trim (drop (sp2 + 1) line);
      } in
        if is_empty r1.method || is_empty r1.target
        then fail r1 (codes "malformed request line")
        else if not (compare_eq 0 5 (codes "HTTP/") r1.version)
        then fail r1 (codes "unsupported version")
        else finish_request (record r1 { headers = read_headers [] lines }))
]

abbrev pub parse_block : Request → List Bytes → Request
parse_block r [] = fail r (codes "empty request")
parse_block r (line ∷ lines) = parse_lines r (strip_cr line) lines

unfoldable pub parse_request : Bytes → Request
parse_request raw = elim (find_header_end raw) [
  | none ↦ fail (initial raw) (codes "incomplete headers")
  | some hend ↦
      parse_block (record (initial raw) { header_bytes = hend }) (get_lines (take hend raw))
]

unfoldable pub expected_request_bytes : Request → ℕ
expected_request_bytes r =
    if is_positive r.content_length
    then r.header_bytes + to_size r.content_length
    else r.header_bytes

-- The definitions that a run of the parser on a concrete text computes with.
unfoldable pub parsing : Unit {0}
unfolding find_spaces add_header_line read_headers normalise_target host_from_header request_length
    wants_keep_alive finish_request parse_lines parse_request find_header_end find_byte
    find_byte_from to_lower trim strip_cr get_lines header set_header strtol find bytes_eq
    expected_request_bytes
parsing = tt
