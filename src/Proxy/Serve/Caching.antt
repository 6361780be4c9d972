-- ===== src/Proxy/Serve/Caching.antt =====
-- How `serve_one_request` uses the cache.
use multi_threaded_proxy_ser.Base.{
  ℕ, true, false, none, some, take, [], ◌∷◌, ◌++◌, Bytes, ◌≡◌, ◌⊎◌, inl, inr, refl, Bool-cases,
  Option-cases, ◌∙◌,
}
use multi_threaded_proxy_ser.Base.Eq.{bytes_key}
use multi_threaded_proxy_ser.Acl.{allow, check}
use multi_threaded_proxy_ser.AccessLog.{Entry}
use multi_threaded_proxy_ser.Lru.Sharded.{Sharded, get_sharded, put_sharded}
use multi_threaded_proxy_ser.Lru.Sharded.Laws.{
  IsSound, stored, get_sharded-IsSound, put_sharded-IsSound, get_sharded-stored, stored-put_sharded,
}
use multi_threaded_proxy_ser.Proxy.Fetch.{Link, UpstreamResult, fetch_upstream}
use multi_threaded_proxy_ser.Proxy.State.{Options, Server, Conn, bump}
use multi_threaded_proxy_ser.Proxy.Serve.{
  Env, cache_key, cacheable_request, serve_denied, serve_hit, serve_answer, forward, serve_allowed,
  serve_one_request, finish,
}
use multi_threaded_proxy_ser.Proxy.Serve.Cacheable.{MayUseCache, cacheable_request-MayUseCache}
use multi_threaded_proxy_ser.Proxy.Serve.Policy.{Decision-cases}
use multi_threaded_proxy_ser.Request.{Request}
use multi_threaded_proxy_ser.Response.{is_cacheable, parse_response_headers}
use multi_threaded_proxy_ser.Routing.{Upstream, resolve}

-- What a request does to the cache: nothing; a read; or a read and the write of an answer that came
-- whole from the upstream and that may be stored.
pub data CacheStep (hasher : Bytes → ℕ) (req : Request) (ur : UpstreamResult)
    (cache : Sharded Bytes Bytes) : Sharded Bytes Bytes → Type 0 where
  untouched : CacheStep hasher req ur cache cache
  read :
      MayUseCache req → CacheStep hasher req ur cache (get_sharded hasher cache (cache_key req)).0
  filled :
      MayUseCache req
      → (get_sharded hasher cache (cache_key req)).1 ≡ none
      → ur.ok ≡ true
      → is_cacheable req (parse_response_headers ur.raw) ≡ true
      → CacheStep hasher req ur cache
          (put_sharded hasher (get_sharded hasher cache (cache_key req)).0 (cache_key req) ur.raw)

-- An answer is stored only if the request and it may be.
serve_answer-cache :
    (env : Env) (s : Server) (req : Request) (log : Entry) (ur : UpstreamResult)
    → ((serve_answer env s req log ur).0.cache ≡ s.cache)
      ⊎ ((cacheable_request req ≡ true)
          × (ur.ok ≡ true)
          × (is_cacheable req (parse_response_headers ur.raw) ≡ true)
          × ((serve_answer env s req log ur).0.cache
              ≡ put_sharded env.hasher s.cache (cache_key req) ur.raw))
unfolding serve_answer finish
serve_answer-cache env s req log ur = elim (Bool-cases ur.ok) [
  | inr e ↦ inl (rw e refl)
  | inl e ↦ elim (Bool-cases (cacheable_request req)) [
    | inr p ↦ inl (rw (e, p) refl)
    | inl p ↦ elim (Bool-cases (is_cacheable req (parse_response_headers ur.raw))) [
      | inr q ↦ inl (rw (e, p, q) refl)
      | inl q ↦ inr (rw (e, p, q) (refl, refl, refl, refl))
    ]
  ]
]

-- What the upstream of a request gives when it is sent the request's bytes.
abbrev pub upstream_result : Env → Options → Server → Request → ℕ → UpstreamResult
upstream_result env opts s req consumed =
    fetch_upstream opts (env.connect (resolve s.acl.routes req.host) (take consumed req.raw))

-- A miss, from the cache that the read leaves.
missed-CacheStep :
    (env : Env) (opts : Options) (s : Server) (req : Request) (log : Entry) (consumed : ℕ)
    → cacheable_request req ≡ true
    → (get_sharded env.hasher s.cache (cache_key req)).1 ≡ none
    → CacheStep env.hasher req
        (upstream_result env opts s req consumed)
        s.cache
        (forward env opts
          (record s { cache = (get_sharded env.hasher s.cache (cache_key req)).0 })
          req
          log
          (resolve s.acl.routes req.host)
          consumed).0.cache
unfolding forward
missed-CacheStep env opts s req log consumed p n =
    let t = record s { cache = (get_sharded env.hasher s.cache (cache_key req)).0 } in
    elim (serve_answer-cache env t req log (upstream_result env opts s req consumed)) [
      | inl e ↦ rw e (read (cacheable_request-MayUseCache req p))
      | inr (p', o, q, e) ↦ rw e (filled (cacheable_request-MayUseCache req p) n o q)
    ]

bypassed-CacheStep :
    (env : Env) (opts : Options) (s : Server) (req : Request) (log : Entry) (consumed : ℕ)
    → cacheable_request req ≡ false
    → CacheStep env.hasher req
        (upstream_result env opts s req consumed)
        s.cache
        (forward env opts s req log (resolve s.acl.routes req.host) consumed).0.cache
unfolding forward
bypassed-CacheStep env opts s req log consumed p =
    elim (serve_answer-cache env s req log (upstream_result env opts s req consumed)) [
      | inl e ↦ rw e untouched
      | inr (p', o, q, e) ↦ absurd (cc)
    ]

serve_allowed-CacheStep :
    (env : Env) (opts : Options) (s : Server) (req : Request) (log : Entry) (consumed : ℕ)
    → CacheStep env.hasher req
        (upstream_result env opts s req consumed)
        s.cache
        (serve_allowed env opts s req log consumed).0.cache
unfolding serve_allowed serve_hit finish
serve_allowed-CacheStep env opts s req log consumed = elim (Bool-cases (cacheable_request req)) [
  | inr e ↦ rw e (bypassed-CacheStep env opts s req _ consumed e)
  | inl e ↦ rw e (elim (Option-cases (get_sharded env.hasher s.cache (cache_key req)).1) [
    | inl n ↦ rw n (missed-CacheStep env opts s req _ consumed e n)
    | inr (hit, h) ↦ rw h (read (cacheable_request-MayUseCache req e))
  ])
]

-- A request leaves the cache alone, or reads it, or reads it and stores an answer. It reads only if
-- the request has the method GET or HEAD and no field `authorization`; it stores only if that read
-- missed, `fetch_upstream` succeeded and `is_cacheable` accepts the answer, and then stores the
-- answer's bytes under the key of the request.
pub serve_one_request-CacheStep :
    (env : Env) (opts : Options) (s : Server) (c : Conn) (req : Request) (consumed : ℕ)
    → CacheStep env.hasher req
        (upstream_result env opts s req consumed)
        s.cache
        (serve_one_request env opts s c req consumed).0.cache
unfolding serve_one_request serve_denied finish
serve_one_request-CacheStep env opts s c req consumed =
    elim (Decision-cases (check s.acl req).decision) [
      | inl e ↦ rw e untouched
      | inr e ↦ rw e (
          serve_allowed-CacheStep env opts
            (record s { stats = record s.stats { total_requests = bump s.stats.total_requests } })
            req _ consumed)
    ]

CacheStep-IsSound :
    (hasher : Bytes → ℕ) (req : Request) (ur : UpstreamResult) (cache after : Sharded Bytes Bytes)
    → CacheStep hasher req ur cache after
    → IsSound cache
    → IsSound after
CacheStep-IsSound hasher req ur cache after untouched h = h
CacheStep-IsSound hasher req ur cache after (read p) h =
    get_sharded-IsSound hasher cache (cache_key req) h
CacheStep-IsSound hasher req ur cache after (filled p n o q) h =
    put_sharded-IsSound hasher (get_sharded hasher cache (cache_key req)).0 (cache_key req) ur.raw
      (get_sharded-IsSound hasher cache (cache_key req) h)

pub serve_one_request-IsSound :
    (env : Env) (opts : Options) (s : Server) (c : Conn) (req : Request) (consumed : ℕ)
    → IsSound s.cache
    → IsSound (serve_one_request env opts s c req consumed).0.cache
serve_one_request-IsSound env opts s c req consumed h =
    CacheStep-IsSound env.hasher req (upstream_result env opts s req consumed) s.cache
      (serve_one_request env opts s c req consumed).0.cache
      (serve_one_request-CacheStep env opts s c req consumed) h

-- If the cache is sound, the request is allowed and may use the cache, and the cache holds an
-- answer under its key, then `send_all` to the client is called once, with exactly that answer, and
-- the outcome is the same whatever the upstreams would do.
pub serve_one_request-hit :
    (env : Env) (opts : Options) (s : Server) (c : Conn) (req : Request) (consumed : ℕ)
    (answer : Bytes)
    → IsSound s.cache
    → (check s.acl req).decision ≡ allow
    → cacheable_request req ≡ true
    → stored env.hasher s.cache (cache_key req) ≡ some answer
    → ((serve_one_request env opts s c req consumed).0.sent ≡ s.sent ++ answer ∷ [])
      × ((connect : Upstream → Bytes → Link)
          → serve_one_request (record env { connect = connect }) opts s c req consumed
            ≡ serve_one_request env opts s c req consumed)
unfolding serve_one_request serve_allowed serve_hit finish
serve_one_request-hit env opts s c req consumed answer sound allowed cacheable held =
    let found = get_sharded-stored env.hasher s.cache (cache_key req) sound ∙ held in
    (rw (allowed, cacheable, found) refl, λ connect. rw (allowed, cacheable, found) refl)

-- If the cache is sound, the request is allowed and may use the cache, the cache holds nothing
-- under its key, the upstream's answer comes through and `is_cacheable` accepts it, then afterwards
-- the cache holds the bytes of that answer under the key.
pub serve_one_request-stores :
    (env : Env) (opts : Options) (s : Server) (c : Conn) (req : Request) (consumed : ℕ)
    → IsSound s.cache
    → (check s.acl req).decision ≡ allow
    → cacheable_request req ≡ true
    → stored env.hasher s.cache (cache_key req) ≡ none
    → (upstream_result env opts s req consumed).ok ≡ true
    → is_cacheable req (parse_response_headers (upstream_result env opts s req consumed).raw) ≡ true
    → stored env.hasher (serve_one_request env opts s c req consumed).0.cache (cache_key req)
      ≡ some (upstream_result env opts s req consumed).raw
unfolding serve_one_request serve_allowed forward serve_answer finish
serve_one_request-stores env opts s c req consumed sound allowed cacheable missing ok storable =
    let found = get_sharded-stored env.hasher s.cache (cache_key req) sound ∙ missing in
    rw (allowed, cacheable, found, ok, storable, cacheable)
      (stored-put_sharded env.hasher (get_sharded env.hasher s.cache (cache_key req)).0
        (cache_key req) (cache_key req) (upstream_result env opts s req consumed).raw
        (get_sharded-IsSound env.hasher s.cache (cache_key req) sound)).0
