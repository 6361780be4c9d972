-- ===== src/Benchmark/Requests.antt =====
-- The requests of the load generator, as the proxy parses them.
use mathlib.Core.List.{append_assoc}
use multi_threaded_proxy_ser.Base.{
  ℕ, Bool, true, false, [], ◌∷◌, ◌++◌, length, All, Bytes, codes, bytes_eq, ◌≡◌, ◌≢◌, refl, sym, ap,
  ◌∙◌, arith,
}
use multi_threaded_proxy_ser.Base.Int.{negsuc}
use multi_threaded_proxy_ser.Benchmark.{make_request}
use multi_threaded_proxy_ser.Message.{IsLine, Lacks, Fields, IsField, print_message, head_length}
use multi_threaded_proxy_ser.Message.Framing.{length-print_message}
use multi_threaded_proxy_ser.Message.Lines.{IsLine-append}
use multi_threaded_proxy_ser.Message.Literals.{named_field, is_line-IsLine, lacks-Lacks}
use multi_threaded_proxy_ser.Number.{to_string}
use multi_threaded_proxy_ser.Number.Digits.{to_string-IsDigit}
use multi_threaded_proxy_ser.Request.{
  Request, initial, header, set_header, finish_request, normalise_target, host_from_header,
  request_length, wants_keep_alive, parse_request,
}
use multi_threaded_proxy_ser.Request.Line.{request_line}
use multi_threaded_proxy_ser.Request.Fields.{IsWord, read_back, parse-print_request}
use multi_threaded_proxy_ser.Response.Fields.{digits-IsLine, digits-Lacks}
use multi_threaded_proxy_ser.Response.RoundTrip.{connection_text, connection_field}
use multi_threaded_proxy_ser.Text.{to_lower, trim, find}

abbrev pub resource : ℕ → Bytes
resource url_id = codes "/resource/" ++ to_string url_id

abbrev request_fields : Bytes → Bool → Fields
request_fields host keep_alive =
    (codes "Host", host) ∷ (codes "Connection", connection_text keep_alive) ∷ []

make_request-print_message :
    (host : Bytes) (keep_alive : Bool) (url_id : ℕ)
    → make_request host keep_alive url_id
      ≡ print_message
          (request_line (codes "GET") (resource url_id))
          (request_fields host keep_alive)
          []
unfolding make_request
make_request-print_message host true url_id =
    ap (λ t. codes "GET /resource/" ++ t)
      (sym (append_assoc (to_string url_id) (codes " HTTP/1.1") _))
make_request-print_message host false url_id =
    ap (λ t. codes "GET /resource/" ++ t)
      (sym (append_assoc (to_string url_id) (codes " HTTP/1.1") _))

Lacks-append : (b : ℕ) (s t : Bytes) → Lacks b s → Lacks b t → Lacks b (s ++ t)
Lacks-append b [] t h k = k
Lacks-append b (c ∷ s) t h k = (h.0, Lacks-append b s t h.1 k)

resource-IsWord : (url_id : ℕ) → IsWord (resource url_id)
resource-IsWord url_id =
    let digits = to_string-IsDigit url_id in
    record {
      word_line =
          IsLine-append (codes "/resource/") (to_string url_id)
            (is_line-IsLine (codes "/resource/") refl) (digits-IsLine (to_string url_id) digits);
      word_space =
          Lacks-append b' ' (codes "/resource/") (to_string url_id)
            (lacks-Lacks b' ' (codes "/resource/") refl) (digits-Lacks (to_string url_id) digits);
      word_ne_nil = λ e. cc;
    }

get-IsWord : IsWord (codes "GET")
get-IsWord = record {
  word_line = is_line-IsLine (codes "GET") refl;
  word_space = lacks-Lacks b' ' (codes "GET") refl;
  word_ne_nil = λ e. cc;
}

-- What the parser returns for the request.
abbrev pub parsed_request : Bytes → Bool → ℕ → Request
parsed_request host keep_alive url_id =
    let raw = make_request host keep_alive url_id in
    record {
      method = codes "GET";
      target = resource url_id;
      version = codes "HTTP/1.1";
      path = resource url_id;
      host = host;
      headers = (codes "host", host) ∷ (codes "connection", connection_text keep_alive) ∷ [];
      raw = raw;
      header_bytes = length raw;
      content_length = negsuc 0;
      keep_alive = keep_alive;
      valid = true;
      parse_error = [];
    }

finish_request-fields :
    (raw host : Bytes) (hend : ℕ) (keep_alive : Bool) (url_id : ℕ)
    → host ≢ []
    → finish_request (
        read_back
          (record (initial raw) { header_bytes = hend })
          (codes "GET")
          (resource url_id)
          (request_fields host keep_alive))
      ≡ record (parsed_request host keep_alive url_id) { raw = raw; header_bytes = hend }
unfolding finish_request normalise_target host_from_header request_length wants_keep_alive header
    set_header bytes_eq to_lower find
finish_request-fields raw [] hend keep_alive url_id h = absurd (h refl)
finish_request-fields raw (c ∷ host) hend true url_id h = refl
finish_request-fields raw (c ∷ host) hend false url_id h = refl

-- The request that the load generator prints, for a host that is not empty, trimmed and within a
-- line, is parsed by `parse_request` as valid: a GET of the path "/resource/" and the number, with
-- this host, kept alive exactly if it was asked for, no body, and a header block that is the whole
-- text.
pub parse-make_request :
    (host : Bytes) (keep_alive : Bool) (url_id : ℕ)
    → IsLine host
    → trim host ≡ host
    → host ≢ []
    → parse_request (make_request host keep_alive url_id) ≡ parsed_request host keep_alive url_id
parse-make_request host keep_alive url_id line trimmed ne =
    let fs = request_fields host keep_alive in
    let start = request_line (codes "GET") (resource url_id) in
    let raw = print_message start fs [] in
    let fields : All IsField fs =
      (named_field (codes "Host") host refl line trimmed, (connection_field keep_alive, tt)) in
    let printed = make_request-print_message host keep_alive url_id in
    let size : head_length start fs ≡ length raw =
      omega (arith, length-print_message start fs []) in
    ap parse_request printed
    ∙ parse-print_request (codes "GET") (resource url_id) fs [] get-IsWord (resource-IsWord url_id)
        fields
    ∙ finish_request-fields raw host (head_length start fs) keep_alive url_id ne
    ∙ ap (λ n. record (parsed_request host keep_alive url_id) { raw = raw; header_bytes = n }) size
    ∙ ap (λ t. record (parsed_request host keep_alive url_id) { raw = t; header_bytes = length t })
        (sym printed)
