-- ===== src/Benchmark/Through.antt =====
-- A request of the load generator through the proxy to the origin and back.
use multi_threaded_proxy_ser.Base.{
  ℕ, ◌+◌, ◌≤◌, Bool, true, none, some, List, [], ◌∷◌, ◌++◌, length, Bytes, codes, bytes_eq, ◌≡◌,
  ◌≢◌, refl, sym, ap, subst, ◌∙◌, arith, take,
}
use multi_threaded_proxy_ser.Base.Eq.{bytes_key}
use multi_threaded_proxy_ser.Base.Int.{pos}
use multi_threaded_proxy_ser.Acl.{allow, check}
use multi_threaded_proxy_ser.Benchmark.{make_request}
use multi_threaded_proxy_ser.Benchmark.Requests.{parsed_request, parse-make_request}
use multi_threaded_proxy_ser.Lru.Sharded.Laws.{IsSound, stored, get_sharded-stored}
use multi_threaded_proxy_ser.Message.{IsLine}
use multi_threaded_proxy_ser.Number.{long_max}
use multi_threaded_proxy_ser.Origin.{make_answer}
use multi_threaded_proxy_ser.Origin.Answer.{fetch_upstream-make_answer, make_answer-is_cacheable}
use multi_threaded_proxy_ser.Proxy.Fetch.{Recv, Link, fetch_upstream}
use multi_threaded_proxy_ser.Proxy.Fetch.Delivery.{Delivers}
use multi_threaded_proxy_ser.Proxy.Fetch.Framing.{received}
use multi_threaded_proxy_ser.Proxy.Serve.{
  Env, cache_key, cacheable_request, serve_one_request, serve_allowed, forward, serve_answer,
  finish,
}
use multi_threaded_proxy_ser.Proxy.Serve.Caching.{upstream_result, serve_one_request-stores}
use multi_threaded_proxy_ser.Proxy.State.{Options, Server, Conn}
use multi_threaded_proxy_ser.Request.{Request, header, parse_request, expected_request_bytes}
use multi_threaded_proxy_ser.Routing.{resolve}
use multi_threaded_proxy_ser.Text.Wildcard.{take_of_length}
use multi_threaded_proxy_ser.Response.{parse_response_headers, is_cacheable}
use multi_threaded_proxy_ser.Text.{trim}

-- The calls of a link succeed, and `recv` delivers the text in pieces.
pub record Carries (text : Bytes) (link : Link) : Type 0 where
  pub resolves : link.resolve_error ≡ none
  pub opens : link.socket_error ≡ none
  pub connects : link.connect_error ≡ none
  pub sends : link.send_error ≡ none
  pub pieces : List Recv
  pub later : List Recv
  pub calls : link.recvs ≡ pieces ++ later
  pub in_pieces : Delivers pieces
  pub whole : received pieces ≡ text

may_cache : (host : Bytes) (k : Bool) (id : ℕ) → cacheable_request (parsed_request host k id) ≡ true
unfolding cacheable_request bytes_eq header
may_cache host k id = refl

no_authorization :
    (host : Bytes) (k : Bool) (id : ℕ)
    → header (codes "authorization") (parsed_request host k id).headers ≡ none
unfolding header bytes_eq
no_authorization host k id = refl

-- A missed request whose upstream answers: the client is sent the answer.
serve_one_request-sends :
    (env : Env) (opts : Options) (s : Server) (c : Conn) (req : Request) (consumed : ℕ)
    → IsSound s.cache
    → (check s.acl req).decision ≡ allow
    → cacheable_request req ≡ true
    → stored env.hasher s.cache (cache_key req) ≡ none
    → (upstream_result env opts s req consumed).ok ≡ true
    → is_cacheable req (parse_response_headers (upstream_result env opts s req consumed).raw) ≡ true
    → (serve_one_request env opts s c req consumed).0.sent
      ≡ s.sent ++ (upstream_result env opts s req consumed).raw ∷ []
unfolding serve_one_request serve_allowed forward serve_answer finish
serve_one_request-sends env opts s c req consumed sound allowed cacheable missing ok storable =
    let found = get_sharded-stored env.hasher s.cache (cache_key req) sound ∙ missing in
    rw (allowed, cacheable, found, ok, storable, cacheable) refl

-- What the proxy does with a request: the client is sent the text, which the cache then holds.
abbrev pub Passes : Env → Options → Server → Conn → Request → Bytes → Type 0
Passes env opts s c req text =
    let served = serve_one_request env opts s c req (expected_request_bytes req) in
    (served.0.sent ≡ s.sent ++ text ∷ [])
    × (stored env.hasher served.0.cache (cache_key req) ≡ some text)

upstream_result-Passes :
    (env : Env) (opts : Options) (s : Server) (c : Conn) (req : Request) (text : Bytes)
    → IsSound s.cache
    → (check s.acl req).decision ≡ allow
    → cacheable_request req ≡ true
    → stored env.hasher s.cache (cache_key req) ≡ none
    → upstream_result env opts s req (expected_request_bytes req)
      ≡ record { raw = text; status = pos 200; ok = true; error = [] }
    → is_cacheable req (parse_response_headers text) ≡ true
    → Passes env opts s c req text
upstream_result-Passes env opts s c req text sound allowed may missing answer storable =
    let n = expected_request_bytes req in
    let ok : (upstream_result env opts s req n).ok ≡ true = ap (λ u. u.ok) answer in
    let raw : (upstream_result env opts s req n).raw ≡ text = ap (λ u. u.raw) answer in
    let storable' : is_cacheable req (parse_response_headers (upstream_result env opts s req n).raw)
        ≡ true =
      ap (λ t. is_cacheable req (parse_response_headers t)) raw ∙ storable in
    (
      serve_one_request-sends env opts s c req n sound allowed may missing ok storable'
          ∙ ap (λ t. s.sent ++ t ∷ []) raw,
      serve_one_request-stores env opts s c req n sound allowed may missing ok storable'
          ∙ ap some raw,
    )

take-make_request :
    (host : Bytes) (k : Bool) (id : ℕ)
    → take (expected_request_bytes (parsed_request host k id)) (make_request host k id)
      ≡ make_request host k id
unfolding expected_request_bytes
take-make_request host k id =
    take_of_length (length (make_request host k id)) (make_request host k id) (omega arith)

-- If the proxy's cache is sound, the access control allows the request that the load generator
-- prints for a host that is not empty, trimmed and within a line, the cache holds nothing under its
-- key, and the link to the upstream of this host, which is handed exactly the bytes of the request,
-- delivers an answer of the origin within the limits in pieces that are not empty, then
-- `serve_one_request` on the parsed request hands the client exactly this answer, and the cache
-- holds it under the key of the request.
pub make_request-Passes :
    (env : Env) (opts : Options) (s : Server) (c : Conn) (host : Bytes) (k : Bool) (id : ℕ)
    (body : Bytes) (keep : Bool)
    → IsLine host
    → trim host ≡ host
    → host ≢ []
    → length body ≤ long_max
    → length (make_answer body keep) ≤ opts.max_header_bytes + length body
    → length (make_answer body keep) ≤ opts.max_body_bytes
    → IsSound s.cache
    → (check s.acl (parsed_request host k id)).decision ≡ allow
    → stored env.hasher s.cache (cache_key (parsed_request host k id)) ≡ none
    → Carries
        (make_answer body keep)
        (env.connect (resolve s.acl.routes host) (make_request host k id))
    → Passes env opts s c (parse_request (make_request host k id)) (make_answer body keep)
make_request-Passes env opts s c host k id body keep line trimmed ne small head_fits fits sound
      allowed missing carries =
    let req = parsed_request host k id in
    let answer = make_answer body keep in
    let link = env.connect (resolve s.acl.routes host) (make_request host k id) in
    let sent : upstream_result env opts s req (expected_request_bytes req)
        ≡ fetch_upstream opts link =
      ap (λ t. fetch_upstream opts (env.connect (resolve s.acl.routes host) t))
        (take-make_request host k id) in
    let got_answer =
      fetch_upstream-make_answer opts body keep link carries.pieces carries.later small head_fits
        fits carries.resolves carries.opens carries.connects carries.sends carries.calls
        carries.in_pieces carries.whole in
    subst (λ r. Passes env opts s c r answer) (sym (parse-make_request host k id line trimmed ne))
      (upstream_result-Passes env opts s c req answer sound allowed (may_cache host k id) missing
        (sent ∙ got_answer)
        (make_answer-is_cacheable req body keep refl (no_authorization host k id) small))
