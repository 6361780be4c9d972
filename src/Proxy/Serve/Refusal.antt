-- ===== src/Proxy/Serve/Refusal.antt =====
-- What `serve_one_request` does with a request that the rules of the access control deny.
use multi_threaded_proxy_ser.Base.{
  ℕ, true, Bool, [], ◌∷◌, ◌++◌, length, Bytes, codes, ◌≡◌, refl, ap, arith,
}
use multi_threaded_proxy_ser.Base.Int.{pos}
use multi_threaded_proxy_ser.Acl.{AclResult, deny}
use multi_threaded_proxy_ser.Acl.FirstMatch.{Verdict, check-Verdict}
use multi_threaded_proxy_ser.AccessLog.{Entry, blank_entry, write}
use multi_threaded_proxy_ser.Message.Literals.{is_line-IsLine, is_solid-IsSolid}
use multi_threaded_proxy_ser.Message.Words.{trim-solid}
use multi_threaded_proxy_ser.Proxy.Fetch.{Link}
use multi_threaded_proxy_ser.Proxy.State.{Options, Server, Conn, build_response}
use multi_threaded_proxy_ser.Proxy.Serve.{Env, serve_denied, serve_one_request, finish}
use multi_threaded_proxy_ser.Request.{Request}
use multi_threaded_proxy_ser.Response.{parse_response_headers, response_complete}
use multi_threaded_proxy_ser.Response.RoundTrip.{parse-build_response}
use multi_threaded_proxy_ser.Routing.{Upstream}

-- The entry of the log for a request that a rule, or the default, denies.
abbrev pub denial_entry : Env → Conn → Request → AclResult → ℕ → Entry
denial_entry env c req denial bytes = record blank_entry {
  client_ip = c.client_ip;
  method = req.method;
  path = req.path;
  version = req.version;
  host = req.host;
  status = pos 403;
  bytes = bytes;
  cache = codes "BYPASS";
  acl = codes "DENY";
  rule = denial.matched_rule;
  duration_us = env.duration_us;
}

-- The client was sent a text that reads as a whole response with the status 403; the log has a line
-- with the rule and the length of that text; the cache is as before; and the upstreams do not
-- matter.
pub record Refused (env : Env) (opts : Options) (s : Server) (c : Conn) (req : Request)
    (consumed : ℕ) (denial : AclResult) : Type 0 where
  pub text : Bytes
  pub once : (serve_one_request env opts s c req consumed).0.sent ≡ s.sent ++ text ∷ []
  pub status : (parse_response_headers text).status ≡ pos 403
  pub valid : (parse_response_headers text).valid ≡ true
  pub whole : response_complete text (parse_response_headers text) ≡ true
  pub logged :
      (serve_one_request env opts s c req consumed).0.log
      ≡ write env.format_second s.log env.sec env.nsec (denial_entry env c req denial (length text))
  pub uncached : (serve_one_request env opts s c req consumed).0.cache ≡ s.cache
  pub unrouted :
      (connect : Upstream → Bytes → Link)
      → serve_one_request (record env { connect = connect }) opts s c req consumed
        ≡ serve_one_request env opts s c req consumed

abbrev body : Bytes
body = codes "403 Forbidden: blocked by proxy policy\n"

abbrev forbidden : Bool → Bytes
forbidden keep_alive = build_response 403 (codes "Forbidden") body keep_alive (codes "text/plain")

-- If the verdict of the rules in file order on a request is a denial, then `send_all` to the client
-- is called once, with a text that `parse_response_headers` reads as valid, with the status 403,
-- and `response_complete` as whole; one line is logged, with the text of the rule that decided and
-- the length of the answer; the cache is left as it was; and the whole outcome is the same whatever
-- the upstreams would do.
pub serve_one_request-Refused :
    (env : Env) (opts : Options) (s : Server) (c : Conn) (req : Request) (consumed : ℕ)
    (denial : AclResult)
    → Verdict req s.acl.default_policy s.acl.rules denial
    → denial.decision ≡ deny
    → Refused env opts s c req consumed denial
unfolding serve_one_request serve_denied finish
serve_one_request-Refused env opts s c req consumed denial verdict denies =
    let checked = (check-Verdict s.acl req denial).1 verdict in
    let (parsed, complete) =
      parse-build_response 403 (codes "Forbidden") body req.keep_alive (codes "text/plain")
        (omega arith) (omega arith) (is_line-IsLine (codes "Forbidden") refl)
        (is_line-IsLine (codes "text/plain") refl)
        (trim-solid (codes "text/plain") (is_solid-IsSolid (codes "text/plain") refl))
        (omega arith) in
    record {
      text = forbidden req.keep_alive;
      once = rw (checked, denies) refl;
      status = ap (λ r. r.status) parsed;
      valid = ap (λ r. r.valid) parsed;
      whole = complete;
      logged = rw (checked, denies) refl;
      uncached = rw (checked, denies) refl;
      unrouted = λ connect. rw (checked, denies) refl;
    }
