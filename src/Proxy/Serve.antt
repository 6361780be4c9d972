-- ===== src/Proxy/Serve.antt =====
-- server_phase5.cpp, `serve_one_request`.
pub mod Policy
pub mod Cacheable
pub mod Caching
pub mod Refusal
pub mod Key
mod Tests
use multi_threaded_proxy_ser.Base.{
  ℕ, Bool, true, false, not, ◌&&◌, ◌||◌, Option, none, some, List, [], ◌∷◌, ◌++◌, length, take,
  if◌then◌else◌, Bytes, codes, bytes_eq,
}
use multi_threaded_proxy_ser.Base.Eq.{bytes_key}
use multi_threaded_proxy_ser.Base.Int.{ℤ, pos}
use multi_threaded_proxy_ser.AccessLog.{Entry, blank_entry, write}
use multi_threaded_proxy_ser.Acl.{AclResult, Decision, allow, deny, check}
use multi_threaded_proxy_ser.Lru.Sharded.{get_sharded, put_sharded}
use multi_threaded_proxy_ser.Number.{to_string}
use multi_threaded_proxy_ser.Proxy.Fetch.{Link, UpstreamResult, fetch_upstream}
use multi_threaded_proxy_ser.Proxy.State.{Options, Server, Conn, bump, build_response}
use multi_threaded_proxy_ser.Request.{Request, header}
use multi_threaded_proxy_ser.Response.{parse_response_headers, is_cacheable, is_some}
use multi_threaded_proxy_ser.Routing.{Upstream, resolve}
use multi_threaded_proxy_ser.Text.{to_lower}

-- What the world around one request gives: the hash of the cache, the link to an upstream that is
-- sent the bytes, whether `send_all` to the client succeeds, and the clock.
pub record Env : Type 0 where
  pub hasher : Bytes → ℕ
  pub connect : Upstream → Bytes → Link
  pub send : Bytes → Bool
  pub format_second : ℕ → Bytes
  pub sec : ℕ
  pub nsec : ℕ
  pub duration_us : ℕ

-- The lambda `finish`, with the fields of `log` that were set before.
unfoldable pub finish : Env → Server → Entry → ℤ → ℕ → Bytes → Bool → Server × Bool
finish env s log status bytes cache_state keep_alive =
    let entry = record log {
      status = status;
      bytes = bytes;
      cache = cache_state;
      duration_us = env.duration_us;
    } in
    (record s { log = write env.format_second s.log env.sec env.nsec entry }, keep_alive)

-- `send_all(c->fd, …)`, whose result is `env.send`.
abbrev pub send_to_client : Server → Bytes → Server
send_to_client s text = record s { sent = s.sent ++ text ∷ [] }

unfoldable pub cache_key : Request → Bytes
unfolding to_lower
cache_key req = req.method ++ (codes " " ++ (to_lower req.host ++ req.path))

unfoldable pub cacheable_request : Request → Bool
cacheable_request req =
    (bytes_eq req.method (codes "GET") || bytes_eq req.method (codes "HEAD"))
    && not (is_some (header (codes "authorization") req.headers))

abbrev pub miss_or_bypass : Bool → Bytes
miss_or_bypass cacheable = if cacheable then codes "MISS" else codes "BYPASS"

-- The branch of a denied request.
unfoldable pub serve_denied : Env → Server → Request → Entry → Server × Bool
serve_denied env s req log =
    let body = codes "403 Forbidden: blocked by proxy policy\n" in
    let resp = build_response 403 (codes "Forbidden") body req.keep_alive (codes "text/plain") in
    let s1 = record s {
      stats = record s.stats { denied_requests = bump s.stats.denied_requests };
    } in
    finish env (send_to_client s1 resp) log (pos 403) (length resp) (codes "BYPASS")
      (env.send resp && req.keep_alive)

-- The branch of a cache hit.
unfoldable pub serve_hit : Env → Server → Request → Entry → Bytes → Server × Bool
serve_hit env s req log hit =
    let s1 = record s { stats = record s.stats { cache_served = bump s.stats.cache_served } } in
    finish env (send_to_client s1 hit) log (parse_response_headers hit).status (length hit)
      (codes "HIT") (env.send hit && req.keep_alive)

-- What is done with the upstream's answer.
unfoldable pub serve_answer : Env → Server → Request → Entry → UpstreamResult → Server × Bool
serve_answer env s req log ur =
    if not ur.ok
    then (let body = codes "502 Bad Gateway: " ++ (ur.error ++ codes "\n") in
        let resp = build_response 502 (codes "Bad Gateway") body false (codes "text/plain") in
        let s1 = record s {
          stats = record s.stats { upstream_errors = bump s.stats.upstream_errors };
        } in
        finish env (send_to_client s1 resp) (record log { rule = ur.error }) (pos 502) (length resp)
          (miss_or_bypass (cacheable_request req)) false)
    else (let s1 = record s {
      stats = record s.stats { forwarded_requests = bump s.stats.forwarded_requests };
    } in
        let s2 =
          if cacheable_request req && is_cacheable req (parse_response_headers ur.raw)
          then record s1 { cache = put_sharded env.hasher s1.cache (cache_key req) ur.raw }
          else s1 in
        finish env (send_to_client s2 ur.raw) log ur.status (length ur.raw)
          (miss_or_bypass (cacheable_request req)) (env.send ur.raw && req.keep_alive))

-- From the forwarding on: exactly the bytes of this request go upstream.
unfoldable pub forward : Env → Options → Server → Request → Entry → Upstream → ℕ → Server × Bool
forward env opts s req log up consumed =
    serve_answer env s req log (fetch_upstream opts (env.connect up (take consumed req.raw)))

-- From the routing on.
unfoldable pub serve_allowed : Env → Options → Server → Request → Entry → ℕ → Server × Bool
serve_allowed env opts s req log0 consumed =
    let up = resolve s.acl.routes req.host in
    let log = record log0 { upstream = up.host ++ (codes ":" ++ to_string up.port) } in
    if cacheable_request req
    then (let (cache, found) = get_sharded env.hasher s.cache (cache_key req) in
        let s1 = record s { cache = cache } in
        elim found [
          | some hit ↦ serve_hit env s1 req log hit
          | none ↦ forward env opts s1 req log up consumed
        ])
    else forward env opts s req log up consumed

abbrev pub decision_name : Decision → Bytes
decision_name allow = codes "ALLOW"
decision_name deny = codes "DENY"

abbrev pub serve_decided : Env → Options → Server → Request → Entry → ℕ → Decision → Server × Bool
serve_decided env opts s req log consumed deny = serve_denied env s req log
serve_decided env opts s req log consumed allow = serve_allowed env opts s req log consumed

-- The new state, and whether the connection should stay open for another request.
unfoldable pub serve_one_request : Env → Options → Server → Conn → Request → ℕ → Server × Bool
serve_one_request env opts s0 c req consumed =
    let s = record s0 {
      stats = record s0.stats { total_requests = bump s0.stats.total_requests };
    } in
    let result = check s.acl req in
    let log = record blank_entry {
      client_ip = c.client_ip;
      method = req.method;
      path = req.path;
      version = req.version;
      host = req.host;
      acl = decision_name result.decision;
      rule = result.matched_rule;
    } in
    serve_decided env opts s req log consumed result.decision
