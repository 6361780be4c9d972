-- ===== src/Origin/Answer.antt =====
-- The answers of the origin: the body has the size asked for, and the proxy fetches the answer whole.
use mathlib.Core.List.{append_assoc, append-nil}
use multi_threaded_proxy_ser.Base.{
  ℕ, zero, suc, ◌+◌, ◌-◌, ◌≤◌, Bool, true, false, none, List, [], ◌∷◌, ◌++◌, length, take, ltb,
  if◌then◌else◌, All, Bytes, codes, bytes_eq, bytes_eq_iff, ◌≡◌, refl, sym, ap, ◌∙◌, arith,
  Bool-cases, inl, inr, length-append, length-take,
}
use multi_threaded_proxy_ser.Base.Int.{pos}
use multi_threaded_proxy_ser.Message.{Fields, IsField, print_message, head_length}
use multi_threaded_proxy_ser.Message.Framing.{length-print_message}
use multi_threaded_proxy_ser.Message.Literals.{is_line-IsLine, solid_field}
use multi_threaded_proxy_ser.Number.{to_string, long_max}
use multi_threaded_proxy_ser.Origin.{Config, fill, zeros, resize, make_body, make_answer}
use multi_threaded_proxy_ser.Proxy.Fetch.{Recv, Link, fetch_upstream}
use multi_threaded_proxy_ser.Proxy.Fetch.Delivery.{Delivers, fetch_upstream-answer}
use multi_threaded_proxy_ser.Proxy.Fetch.Framing.{received}
use multi_threaded_proxy_ser.Proxy.Fetch.Sized.{sized-IsAnswer}
use multi_threaded_proxy_ser.Proxy.State.{Options}
use multi_threaded_proxy_ser.Request.{Request, Headers, header, set_header}
use multi_threaded_proxy_ser.Response.{is_cacheable, forbids_caching, parse_response_headers}
use multi_threaded_proxy_ser.Response.Fields.{stored, status_line}
use multi_threaded_proxy_ser.Response.RoundTrip.{
  IsSized, sized_response, parse-sized, length_field, connection_field,
}
use multi_threaded_proxy_ser.Text.{to_lower, find}

abbrev pub xs : ℕ → Bytes
xs zero = []
xs (suc n) = b'x' ∷ xs n

no_padding :
    (size : ℕ) (body : Bytes) → size - length body ≡ 0 → body ≡ body ++ xs (size - length body)
no_padding size body h = sym (ap (λ n. body ++ xs n) h ∙ append-nil body)

fill-xs :
    (fuel size : ℕ) (body : Bytes)
    → size - length body ≤ fuel
    → fill fuel size body ≡ body ++ xs (size - length body)
unfolding fill
fill-xs zero size body h = no_padding size body (omega arith)
fill-xs (suc fuel) size body h = elim (Bool-cases (ltb (length body) size)) [
  | inl e ↦
      let longer = length-append body (b'x' ∷ []) in
      let one : size - length body ≡ suc (size - length (body ++ b'x' ∷ [])) =
        ground (arith, longer) in
      rw e (
        fill-xs fuel size (body ++ b'x' ∷ []) (ground (arith, longer))
        ∙ append_assoc body (b'x' ∷ []) (xs (size - length (body ++ b'x' ∷ [])))
        ∙ ap (λ n. body ++ xs n) (sym one))
  | inr e ↦ rw e (no_padding size body (ground arith))
]

length-xs : (n : ℕ) → length (xs n) ≡ n
length-xs zero = refl
length-xs (suc n) = omega (arith, length-xs n)

no_zeros : (size : ℕ) (body : Bytes) → size ≤ length body → resize size body ≡ take size body
no_zeros size body h =
    let e : size - length body ≡ 0 = omega arith in
    ap (λ n. take size body ++ zeros n) e ∙ append-nil (take size body)

abbrev pub body_text : Bytes → Bytes
body_text path = codes "origin-response path=" ++ (path ++ codes " ")

-- The body has the size asked for: the text with the path and then the padding, cut at that size.
pub make_body-shape :
    (cfg : Config) (path : Bytes)
    → (length (make_body cfg path) ≡ cfg.body_size)
      × (make_body cfg path
          ≡ take cfg.body_size (body_text path ++ xs (cfg.body_size - length (body_text path))))
unfolding make_body
make_body-shape cfg path =
    let size = cfg.body_size in
    let text = body_text path in
    let padding = xs (size - length text) in
    let enough : size ≤ length (text ++ padding) =
      omega (arith, length-append text padding, length-xs (size - length text)) in
    let shape : make_body cfg path ≡ take size (text ++ padding) =
      ap (resize size) (fill-xs size size text (omega arith))
      ∙ no_zeros size (text ++ padding) enough in
    (ap length shape ∙ omega (arith, length-take size (text ++ padding), enough), shape)

-- The answer as a message.
abbrev pub answer_fields : Bytes → Bool → Fields
answer_fields body keep =
    (codes "Content-Type", codes "text/plain")
    ∷ (codes "Content-Length", to_string (length body))
    ∷ (codes "Cache-Control", codes "max-age=60")
    ∷ (codes "Connection", if keep then codes "keep-alive" else codes "close")
    ∷ []

pub make_answer-print_message :
    (body : Bytes) (keep : Bool)
    → make_answer body keep
      ≡ print_message (status_line 200 (codes "OK")) (answer_fields body keep) body
unfolding make_answer to_string
make_answer-print_message body keep = refl

pub answer_fields-All : (body : Bytes) (keep : Bool) → All IsField (answer_fields body keep)
answer_fields-All body keep = (
  solid_field (codes "Content-Type") (codes "text/plain") refl refl,
  (
    length_field (length body),
    (
      solid_field (codes "Cache-Control") (codes "max-age=60") refl refl,
      (connection_field keep, tt),
    ),
  ),
)

answer_fields-IsSized :
    (body : Bytes) (keep : Bool)
    → length body ≤ long_max
    → IsSized (answer_fields body keep) (length body)
unfolding header set_header bytes_eq to_lower
answer_fields-IsSized body keep fits = record { unchunked = refl; sized = refl; fits = fits }

-- The length of the head.
abbrev pub answer_head_length : Bytes → Bool → ℕ
answer_head_length body keep = head_length (status_line 200 (codes "OK")) (answer_fields body keep)

-- An answer of the origin, with a body of at most 2 ^ 63 - 1 bytes, a head within the limit on
-- headers and a length within the limit on bodies, is what `fetch_upstream` returns, with the
-- status 200 and no error, if the calls in front of the reading loop succeed and the answer is
-- delivered by `recv` in any pieces that are not empty, with signals between them, whatever
-- follows.
pub fetch_upstream-make_answer :
    (opts : Options) (body : Bytes) (keep : Bool) (link : Link) (pieces later : List Recv)
    → length body ≤ long_max
    → length (make_answer body keep) ≤ opts.max_header_bytes + length body
    → length (make_answer body keep) ≤ opts.max_body_bytes
    → link.resolve_error ≡ none
    → link.socket_error ≡ none
    → link.connect_error ≡ none
    → link.send_error ≡ none
    → link.recvs ≡ pieces ++ later
    → Delivers pieces
    → received pieces ≡ make_answer body keep
    → fetch_upstream opts link
      ≡ record { raw = make_answer body keep; status = pos 200; ok = true; error = [] }
fetch_upstream-make_answer opts body keep link pieces later small head_fits fits no_resolve
      no_socket no_connect no_send calls d e =
    let start = status_line 200 (codes "OK") in
    let fs = answer_fields body keep in
    let printed = make_answer-print_message body keep in
    let size : length (make_answer body keep) ≡ answer_head_length body keep + length body =
      ap length printed ∙ length-print_message start fs body in
    let answer =
      sized-IsAnswer opts 200 (codes "OK") fs body (omega arith) (omega arith)
        (is_line-IsLine (codes "OK") refl) (answer_fields-All body keep)
        (answer_fields-IsSized body keep small) (omega (arith, head_fits, size))
        (omega (arith, fits, size)) in
    fetch_upstream-answer opts (print_message start fs body) (answer_head_length body keep)
      (sized_response (answer_head_length body keep) 200 (stored [] fs) (length body)) link pieces
      later answer no_resolve no_socket no_connect no_send calls d (e ∙ printed)
    ∙ ap (λ t. record { raw = t; status = pos 200; ok = true; error = [] }) (sym printed)

cacheable_plain :
    (req : Request) (head n : ℕ) (hs : Headers)
    → req.method ≡ codes "GET"
    → header (codes "authorization") req.headers ≡ none
    → forbids_caching hs ≡ false
    → header (codes "set-cookie") hs ≡ none
    → is_cacheable req (sized_response head 200 hs n) ≡ true
unfolding is_cacheable
cacheable_plain req head n hs get open_request allowed no_cookie =
    let get' : bytes_eq req.method (codes "GET") ≡ true =
      (bytes_eq_iff req.method (codes "GET")).1 get in
    rw (get', open_request, allowed, no_cookie, is_cacheable) refl

cacheable_fields :
    (req : Request) (body : Bytes) (keep : Bool) (head : ℕ)
    → req.method ≡ codes "GET"
    → header (codes "authorization") req.headers ≡ none
    → is_cacheable req (sized_response head 200 (stored [] (answer_fields body keep)) (length body))
      ≡ true
unfolding set_header header to_lower bytes_eq forbids_caching find
cacheable_fields req body keep head get open_request =
    cacheable_plain req head (length body) (stored [] (answer_fields body keep)) get open_request
      refl refl

-- The proxy may cache the answer to a GET without `Authorization`.
pub make_answer-is_cacheable :
    (req : Request) (body : Bytes) (keep : Bool)
    → req.method ≡ codes "GET"
    → header (codes "authorization") req.headers ≡ none
    → length body ≤ long_max
    → is_cacheable req (parse_response_headers (make_answer body keep)) ≡ true
make_answer-is_cacheable req body keep get open_request small =
    let fs = answer_fields body keep in
    let head = answer_head_length body keep in
    ap (λ t. is_cacheable req (parse_response_headers t)) (make_answer-print_message body keep)
    ∙ ap (is_cacheable req) (
        parse-sized 200 (codes "OK") fs (length body) body (omega arith) (omega arith)
          (is_line-IsLine (codes "OK") refl) (answer_fields-All body keep)
          (answer_fields-IsSized body keep small))
    ∙ cacheable_fields req body keep head get open_request
