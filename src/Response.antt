-- ===== src/Response.antt =====
-- http.hpp, Response: `parse_response_headers`, `chunked_body_complete`, `response_complete` and
-- `is_cacheable`.
pub mod Chunks
pub mod Fields
pub mod RoundTrip
mod Tests
use multi_threaded_proxy_ser.Base.{
  ℕ, zero, suc, ◌+◌, ◌-◌, ◌*◌, ◌^◌, Bool, true, false, not, ◌&&◌, ◌||◌, Option, none, some, List,
  [], ◌∷◌, ◌++◌, length, take, drop, if◌then◌else◌, ltb, leb, Bytes, codes, bytes_eq, is_empty,
  ◌==◌,
}
use multi_threaded_proxy_ser.Base.Int.{ℤ, pos, negsuc, is_nonneg, to_size, within}
use multi_threaded_proxy_ser.Number.{strtol, atoi}
use multi_threaded_proxy_ser.Request.{Request, Headers, header, set_header, find_header_end, crlf}
use multi_threaded_proxy_ser.Text.{
  substr, find, find_from, contains, find_byte, find_byte_from, to_lower, trim, strip_cr, get_lines,
}

pub record Response : Type 0 where
  pub status : ℤ
  pub headers : Headers
  pub header_bytes : ℕ
  pub content_length : ℤ
  pub chunked : Bool
  pub close_delimited : Bool
  pub valid : Bool

-- The members' initialisers.
abbrev pub initial : Response
initial = record {
  status = pos 0;
  headers = [];
  header_bytes = 0;
  content_length = negsuc 0;
  chunked = false;
  close_delimited = false;
  valid = false;
}

-- The bytes of the status line between its first and second space.
unfoldable pub status_code : Bytes → Option Bytes
status_code line = elim (find_byte b' ' line) [
  | none ↦ none
  | some sp1 ↦ elim (find_byte_from b' ' line (sp1 + 1)) [
    | none ↦ some (drop (sp1 + 1) line)
    | some sp2 ↦ some (substr line (sp1 + 1) (sp2 - sp1 - 1))
  ]
]

-- What a header line, its `\r` gone, adds: a repeat replaces the value.
unfoldable pub add_response_line : Headers → Bytes → Headers
add_response_line hs line = elim (find_byte b':' line) [
  | none ↦ hs
  | some colon ↦
      (let name = to_lower (trim (take colon line)) in
        if is_empty name then hs else set_header name (trim (drop (colon + 1) line)) hs)
]

unfoldable pub read_response_headers : Headers → List Bytes → Headers
read_response_headers hs [] = hs
read_response_headers hs (raw_line ∷ lines) =
    let line = strip_cr raw_line in
    let rest = read_response_headers (add_response_line hs line) lines in
    if is_empty line then hs else rest

unfoldable pub is_chunked : Headers → Bool
is_chunked hs = elim (header (codes "transfer-encoding") hs) [
  | none ↦ false
  | some te ↦ contains (codes "chunked") (to_lower te)
]

-- `errno` is not looked at, so that an overflow leaves `LONG_MAX`.
unfoldable pub response_length : Headers → ℤ
response_length hs = elim (header (codes "content-length") hs) [
  | none ↦ negsuc 0
  | some cl ↦
      (let v = strtol cl in if is_empty v.rest && is_nonneg v.value then v.value else negsuc 0)
]

-- What follows the header loop: the framing of the body.
unfoldable pub finish_response : Response → Response
finish_response r0 =
    let r1 = record r0 { chunked = is_chunked r0.headers } in
    let r2 = record r1 {
      content_length = if r1.chunked then r1.content_length else response_length r1.headers;
    } in
    record r2 {
      close_delimited = not r2.chunked && not (is_nonneg r2.content_length);
      valid = true;
    }

-- The status line, its `\r` gone, and what follows it.
unfoldable pub parse_status : Response → Bytes → List Bytes → Response
parse_status r line lines = elim (status_code line) [
  | none ↦ r
  | some status_text ↦
      (let r1 = record r { status = atoi status_text } in
        if within 100 599 r1.status
        then finish_response (record r1 { headers = read_response_headers [] lines })
        else r1)
]

abbrev pub parse_block : Response → List Bytes → Response
parse_block r [] = r
parse_block r (line ∷ lines) = parse_status r (strip_cr line) lines

unfoldable pub parse_response_headers : Bytes → Response
parse_response_headers raw = elim (find_header_end raw) [
  | none ↦ initial
  | some hend ↦ parse_block (record initial { header_bytes = hend }) (get_lines (take hend raw))
]

-- The value of a hexadecimal digit.
unfoldable pub hex_value : ℕ → Option ℕ
hex_value c =
    if leb b'0' c && leb c b'9'
    then some (c - b'0')
    else if leb b'a' c && leb c b'f'
    then some (c - b'a' + 10)
    else if leb b'A' c && leb c b'F'
    then some (c - b'A' + 10)
    else none

abbrev pub max_chunk : ℕ
max_chunk = 2 ^ 40

-- The size loop over the bytes of a size field, from `chunk_size` and `any_digit`; `none` where
-- the code returns false.
unfoldable pub read_size : ℕ → Bool → Bytes → Option (ℕ × Bool)
unfolding hex_value
read_size chunk_size any_digit [] = some (chunk_size, any_digit)
read_size chunk_size any_digit (c ∷ s) = elim (hex_value c) [
  | none ↦ if c == b' ' || c == 9 then read_size chunk_size any_digit s else none
  | some v ↦
      (let size = chunk_size * 16 + v in
        let rest = read_size size true s in if ltb max_chunk size then none else rest)
]

-- `size_end`: the first `;` if it stands before the end of the line.
unfoldable pub find_size_end : Bytes → ℕ → ℕ → ℕ
find_size_end raw position line_end = elim (find_byte_from b';' raw position) [
  | none ↦ line_end
  | some semicolon ↦ if ltb line_end semicolon then line_end else semicolon
]

-- The size of the chunk whose size line is `raw[position, line_end)`; `none` where the code
-- returns false.
unfoldable pub chunk_size_at : Bytes → ℕ → ℕ → Option ℕ
chunk_size_at raw position line_end =
    elim (read_size 0 false
      (substr raw position (find_size_end raw position line_end - position))) [
        | none ↦ none
        | some (size, any_digit) ↦ if any_digit then some size else none
      ]

-- The loop over trailer lines; `none` when the fuel runs out.
unfoldable pub trailers_end : ℕ → Bytes → ℕ → Option Bool
trailers_end zero raw p = none
trailers_end (suc fuel) raw p = elim (find_from crlf raw p) [
  | none ↦ some false
  | some e ↦ (let rest = trailers_end fuel raw (e + 2) in if e == p then some true else rest)
]

-- The loop over chunks; `none` when the fuel runs out.
unfoldable pub chunks_end : ℕ → Bytes → ℕ → Option Bool
chunks_end zero raw position = none
chunks_end (suc fuel) raw position = elim (find_from crlf raw position) [
  | none ↦ some false
  | some line_end ↦ elim (chunk_size_at raw position line_end) [
    | none ↦ some false
    | some zero ↦ trailers_end (suc (length raw)) raw (line_end + 2)
    | some (suc n) ↦
        (let next = line_end + 2 + suc n + 2 in
          let rest = chunks_end fuel raw next in if ltb (length raw) next then some false else rest)
  ]
]

-- `trailers_end` and `chunks_end` never run out of the fuel given here.
unfoldable pub chunked_body_complete : Bytes → ℕ → Bool
chunked_body_complete raw body_start = elim (chunks_end (suc (length raw)) raw body_start) [
  | none ↦ false
  | some b ↦ b
]

unfoldable pub response_complete : Bytes → Response → Bool
response_complete raw resp =
    if not resp.valid
    then false
    else if resp.chunked
    then chunked_body_complete raw resp.header_bytes
    else if is_nonneg resp.content_length
    then leb (resp.header_bytes + to_size resp.content_length) (length raw)
    else false

abbrev pub is_some {ℓ} : {A : Type ℓ} → Option A → Bool
is_some none = false
is_some (some _) = true

-- `no-store`, `no-cache` or `private` in the value of `Cache-Control`.
unfoldable pub forbids_caching : Headers → Bool
forbids_caching hs = elim (header (codes "cache-control") hs) [
  | none ↦ false
  | some cc ↦
      (let v = to_lower cc in
        contains (codes "no-store") v
        || (contains (codes "no-cache") v || contains (codes "private") v))
]

unfoldable pub is_cacheable : Request → Response → Bool
is_cacheable req resp =
    if not (bytes_eq req.method (codes "GET")) && not (bytes_eq req.method (codes "HEAD"))
    then false
    else if not (within 200 200 resp.status)
    then false
    else if is_some (header (codes "authorization") req.headers)
    then false
    else if forbids_caching resp.headers
    then false
    else if is_some (header (codes "set-cookie") resp.headers)
    then false
    else true

-- The definitions that a run of the parser on a concrete text computes with.
unfoldable pub parsing : Unit {0}
unfolding status_code add_response_line read_response_headers is_chunked response_length
    finish_response parse_status parse_response_headers find_size_end chunk_size_at trailers_end
    chunks_end chunked_body_complete response_complete forbids_caching is_cacheable atoi read_size
    find_from find_header_end find_byte find_byte_from to_lower trim strip_cr get_lines header
    set_header strtol find bytes_eq
parsing = tt
