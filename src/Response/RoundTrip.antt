-- ===== src/Response/RoundTrip.antt =====
-- A response with a length that is printed and read back, and `build_response` as such a response.
use mathlib.Core.List.{append_assoc}
use mathlib.Core.Path.{ap₂}
use multi_threaded_proxy_ser.Base.{
  ℕ, ◌+◌, ◌-◌, ◌≤◌, Bool, true, false, none, some, [], ◌∷◌, ◌++◌, length, All, Bytes, codes, leb,
  if◌then◌else◌, ◌≡◌, refl, ap, sym, ◌∙◌, arith, bytes_eq,
}
use multi_threaded_proxy_ser.Base.Int.{pos}
use multi_threaded_proxy_ser.Message.{
  IsLine, Fields, IsField, print_message, print_rest, head_length,
}
use multi_threaded_proxy_ser.Message.Framing.{length-print_message}
use multi_threaded_proxy_ser.Message.Literals.{is_solid, named_field, solid_field}
use multi_threaded_proxy_ser.Number.{to_string, long_max}
use multi_threaded_proxy_ser.Number.Digits.{IsDigit, to_string-IsDigit, strtol-to_string}
use multi_threaded_proxy_ser.Proxy.State.{build_response}
use multi_threaded_proxy_ser.Request.{Headers, header, set_header}
use multi_threaded_proxy_ser.Response.{
  Response, is_chunked, response_length, finish_response, parse_response_headers, response_complete,
}
use multi_threaded_proxy_ser.Text.{trim, to_lower}
use multi_threaded_proxy_ser.Response.Fields.{stored, status_line, read_back, parse-print_message}

-- The fields give the length of a body of `n` bytes, and no other framing.
pub record IsSized (fs : Fields) (n : ℕ) : Type 0 where
  pub unchunked : header (codes "transfer-encoding") (stored [] fs) ≡ none
  pub sized : header (codes "content-length") (stored [] fs) ≡ some (to_string n)
  pub fits : n ≤ long_max

-- What the parser returns for such a response.
abbrev pub sized_response : ℕ → ℕ → Headers → ℕ → Response
sized_response hend status hs n = record {
  status = pos status;
  headers = hs;
  header_bytes = hend;
  content_length = pos n;
  chunked = false;
  close_delimited = false;
  valid = true;
}

is_chunked-none :
    (hs : Headers) → header (codes "transfer-encoding") hs ≡ none → is_chunked hs ≡ false
unfolding is_chunked
is_chunked-none hs h = rw (h, is_chunked) refl

response_length-sized :
    (hs : Headers) (n : ℕ)
    → header (codes "content-length") hs ≡ some (to_string n)
    → n ≤ long_max
    → response_length hs ≡ pos n
unfolding response_length
response_length-sized hs n h fits = rw (h, strtol-to_string n fits, response_length) refl

finish_response-sized :
    (hend status n : ℕ) (fs : Fields)
    → IsSized fs n
    → finish_response (read_back hend status fs) ≡ sized_response hend status (stored [] fs) n
unfolding finish_response
finish_response-sized hend status n fs h =
    rw
      (
        is_chunked-none (stored [] fs) h.unchunked,
        response_length-sized (stored [] fs) n h.sized h.fits,
      )
      refl

-- A printed response with the length of its body is read back, status, fields and length.
pub parse-sized :
    (status : ℕ) (reason : Bytes) (fs : Fields) (n : ℕ) (body : Bytes)
    → 100 ≤ status
    → status ≤ 599
    → IsLine reason
    → All IsField fs
    → IsSized fs n
    → parse_response_headers (print_message (status_line status reason) fs body)
      ≡ sized_response (head_length (status_line status reason) fs) status (stored [] fs) n
parse-sized status reason fs n body low high r h sized =
    parse-print_message status reason fs body low high r h
    ∙ finish_response-sized (head_length (status_line status reason) fs) status n fs sized

pub response_complete-sized :
    (raw : Bytes) (hend status : ℕ) (hs : Headers) (n : ℕ)
    → response_complete raw (sized_response hend status hs n) ≡ leb (hend + n) (length raw)
unfolding response_complete
response_complete-sized raw hend status hs n = refl

-- The fields of the program's own responses.
abbrev pub connection_text : Bool → Bytes
connection_text keep_alive = if keep_alive then codes "keep-alive" else codes "close"

abbrev response_fields : Bytes → Bool → Bytes → Fields
response_fields body keep_alive content_type =
    (codes "Content-Type", content_type)
    ∷ (codes "Content-Length", to_string (length body))
    ∷ (codes "Connection", connection_text keep_alive)
    ∷ []

build_response-print_message :
    (status : ℕ) (reason body : Bytes) (keep_alive : Bool) (content_type : Bytes)
    → build_response status reason body keep_alive content_type
      ≡ print_message
          (status_line status reason)
          (response_fields body keep_alive content_type)
          body
unfolding build_response
build_response-print_message status reason body keep_alive content_type =
    let rest = print_rest (response_fields body keep_alive content_type) body in
    ap (λ t. codes "HTTP/1.1 " ++ t) (sym (append_assoc (to_string status) (b' ' ∷ reason) rest))

digits-solid : (s : Bytes) → All IsDigit s → is_solid s ≡ true
digits-solid [] h = refl
digits-solid (c ∷ s) h = ground (arith, h.0.0, h.0.1, digits-solid s h.1)

pub length_field : (n : ℕ) → IsField (codes "Content-Length", to_string n)
length_field n =
    solid_field (codes "Content-Length") (to_string n) refl
      (digits-solid (to_string n) (to_string-IsDigit n))

pub connection_field :
    (keep_alive : Bool) → IsField (codes "Connection", connection_text keep_alive)
connection_field true = solid_field (codes "Connection") (codes "keep-alive") refl refl
connection_field false = solid_field (codes "Connection") (codes "close") refl refl

response_fields-All :
    (body : Bytes) (keep_alive : Bool) (content_type : Bytes)
    → IsLine content_type
    → trim content_type ≡ content_type
    → All IsField (response_fields body keep_alive content_type)
response_fields-All body keep_alive content_type line trimmed = (
  named_field (codes "Content-Type") content_type refl line trimmed,
  (length_field (length body), (connection_field keep_alive, tt)),
)

response_fields-IsSized :
    (body : Bytes) (keep_alive : Bool) (content_type : Bytes)
    → length body ≤ long_max
    → IsSized (response_fields body keep_alive content_type) (length body)
unfolding header set_header bytes_eq to_lower
response_fields-IsSized body keep_alive content_type fits = record {
  unchunked = refl;
  sized = refl;
  fits = fits;
}

response_fields-stored :
    (body : Bytes) (keep_alive : Bool) (content_type : Bytes)
    → stored [] (response_fields body keep_alive content_type)
      ≡ (codes "content-type", content_type)
        ∷ (codes "content-length", to_string (length body))
        ∷ (codes "connection", connection_text keep_alive)
        ∷ []
unfolding set_header bytes_eq to_lower
response_fields-stored body keep_alive content_type = refl

-- A response that `build_response` prints, with a status from 100 to 599, a reason and a content
-- type within a line, the content type trimmed, and a body of at most 2 ^ 63 - 1 bytes, is read
-- back by `parse_response_headers` as valid, with this status, its three fields, the length of its
-- head and of its body and no other framing, and `response_complete` accepts it.
pub parse-build_response :
    (status : ℕ) (reason body : Bytes) (keep_alive : Bool) (content_type : Bytes)
    → 100 ≤ status
    → status ≤ 599
    → IsLine reason
    → IsLine content_type
    → trim content_type ≡ content_type
    → length body ≤ long_max
    → let raw = build_response status reason body keep_alive content_type in
      (parse_response_headers raw ≡ record {
        status = pos status;
        headers =
            (codes "content-type", content_type)
            ∷ (codes "content-length", to_string (length body))
            ∷ (codes "connection", if keep_alive then codes "keep-alive" else codes "close")
            ∷ [];
        header_bytes = length raw - length body;
        content_length = pos (length body);
        chunked = false;
        close_delimited = false;
        valid = true;
      })
      × (response_complete raw (parse_response_headers raw) ≡ true)
parse-build_response status reason body keep_alive content_type low high r line trimmed fits =
    let start = status_line status reason in
    let fs = response_fields body keep_alive content_type in
    let raw = build_response status reason body keep_alive content_type in
    let printed = build_response-print_message status reason body keep_alive content_type in
    let size : length raw ≡ head_length start fs + length body =
      ap length printed ∙ length-print_message start fs body in
    let read : parse_response_headers raw
        ≡ sized_response (head_length start fs) status (stored [] fs) (length body) =
      ap parse_response_headers printed
      ∙ parse-sized status reason fs (length body) body low high r
          (response_fields-All body keep_alive content_type line trimmed)
          (response_fields-IsSized body keep_alive content_type fits) in
    let shape = response_fields-stored body keep_alive content_type in
    let head : head_length start fs ≡ length raw - length body = omega (arith, size) in
    let whole : response_complete raw (parse_response_headers raw) ≡ true =
      ap (response_complete raw) read
      ∙ response_complete-sized raw (head_length start fs) status (stored [] fs) (length body)
      ∙ ground (arith, size) in
    (read ∙ ap₂ (λ h hs. sized_response h status hs (length body)) head shape, whole)
