-- ===== src/Proxy/Serve/Policy.antt =====
-- What `serve_one_request` counts on each of its branches: denial, cache hit, answer and failure.
use multi_threaded_proxy_ser.Base.{
  ℕ, ◌&&◌, take, Bytes, ◌≡◌, ◌⊎◌, inl, inr, refl, Bool-cases, Option-cases,
}
use multi_threaded_proxy_ser.Base.Eq.{bytes_key}
use multi_threaded_proxy_ser.Acl.{Decision, allow, deny, check}
use multi_threaded_proxy_ser.AccessLog.{Entry}
use multi_threaded_proxy_ser.Lru.Sharded.{Sharded, get_sharded}
use multi_threaded_proxy_ser.Proxy.Fetch.{UpstreamResult, fetch_upstream}
use multi_threaded_proxy_ser.Proxy.State.{Options, Stats, Server, Conn, bump}
use multi_threaded_proxy_ser.Proxy.Serve.{
  Env, cache_key, cacheable_request, serve_denied, serve_hit, serve_answer, forward, serve_allowed,
  serve_one_request, finish,
}
use multi_threaded_proxy_ser.Request.{Request}
use multi_threaded_proxy_ser.Response.{is_cacheable, parse_response_headers}
use multi_threaded_proxy_ser.Routing.{Upstream}

pub Decision-cases : (d : Decision) → (d ≡ deny) ⊎ (d ≡ allow)
Decision-cases deny = inl refl
Decision-cases allow = inr refl

-- The counters of one request: the total and one of the four outcomes.
pub data Counts (before : Stats) : Stats → Type 0 where
  denied : Counts before (record before {
    total_requests = bump before.total_requests;
    denied_requests = bump before.denied_requests;
  })
  from_cache : Counts before (record before {
    total_requests = bump before.total_requests;
    cache_served = bump before.cache_served;
  })
  forwarded : Counts before (record before {
    total_requests = bump before.total_requests;
    forwarded_requests = bump before.forwarded_requests;
  })
  failed : Counts before (record before {
    total_requests = bump before.total_requests;
    upstream_errors = bump before.upstream_errors;
  })

-- Whatever the upstream answers, a forwarded request counts once.
serve_answer-Counts :
    (env : Env) (s : Server) (req : Request) (log : Entry) (ur : UpstreamResult)
    → ((serve_answer env s req log ur).0.stats
        ≡ record s.stats { forwarded_requests = bump s.stats.forwarded_requests })
      ⊎ ((serve_answer env s req log ur).0.stats
          ≡ record s.stats { upstream_errors = bump s.stats.upstream_errors })
unfolding serve_answer finish
serve_answer-Counts env s req log ur = elim (Bool-cases ur.ok) [
  | inr e ↦ inr (rw e refl)
  | inl e ↦
      inl
        (elim (Bool-cases
          (cacheable_request req && is_cacheable req (parse_response_headers ur.raw))) [
            | inl p ↦ rw (e, p) refl
            | inr p ↦ rw (e, p) refl
          ])
]

answer-Counts :
    (s : Server) (after : Stats)
    → (after ≡ record s.stats {
      total_requests = bump s.stats.total_requests;
      forwarded_requests = bump s.stats.forwarded_requests;
    })
      ⊎ (after ≡ record s.stats {
        total_requests = bump s.stats.total_requests;
        upstream_errors = bump s.stats.upstream_errors;
      })
    → Counts s.stats after
answer-Counts s after (inl e) = rw e forwarded
answer-Counts s after (inr e) = rw e failed

-- The state on the way to the upstream: the total is counted, and the cache was perhaps read.
abbrev pub counted : Server → Sharded Bytes Bytes → Server
counted s cache = record s {
  stats = record s.stats { total_requests = bump s.stats.total_requests };
  cache = cache;
}

forward-Counts :
    (env : Env) (opts : Options) (s : Server) (cache : Sharded Bytes Bytes) (req : Request)
    (log : Entry) (up : Upstream) (consumed : ℕ)
    → Counts s.stats (forward env opts (counted s cache) req log up consumed).0.stats
unfolding forward
forward-Counts env opts s cache req log up consumed =
    answer-Counts s (forward env opts (counted s cache) req log up consumed).0.stats (
      serve_answer-Counts env (counted s cache) req log
        (fetch_upstream opts (env.connect up (take consumed req.raw))))

serve_allowed-Counts :
    (env : Env) (opts : Options) (s : Server) (req : Request) (log : Entry) (consumed : ℕ)
    → Counts s.stats (serve_allowed env opts (counted s s.cache) req log consumed).0.stats
unfolding serve_allowed serve_hit finish
serve_allowed-Counts env opts s req log consumed = elim (Bool-cases (cacheable_request req)) [
  | inr e ↦ rw e (forward-Counts env opts s s.cache req _ _ consumed)
  | inl e ↦ rw e (elim (Option-cases (get_sharded env.hasher s.cache (cache_key req)).1) [
    | inl n ↦ rw n (forward-Counts env opts s _ req _ _ consumed)
    | inr (hit, h) ↦ rw h from_cache
  ])
]

-- Every request adds one to `total_requests` and one to exactly one of `denied_requests`,
-- `cache_served`, `forwarded_requests` and `upstream_errors`, modulo 2 ^ 64, and changes no other
-- counter.
pub serve_one_request-Counts :
    (env : Env) (opts : Options) (s : Server) (c : Conn) (req : Request) (consumed : ℕ)
    → Counts s.stats (serve_one_request env opts s c req consumed).0.stats
unfolding serve_one_request serve_denied finish
serve_one_request-Counts env opts s c req consumed =
    elim (Decision-cases (check s.acl req).decision) [
      | inl e ↦ rw e denied
      | inr e ↦ rw e (serve_allowed-Counts env opts s req _ consumed)
    ]
