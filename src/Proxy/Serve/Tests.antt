-- ===== src/Proxy/Serve/Tests.antt =====
-- `serve_one_request` on small requests.
use multi_threaded_proxy_ser.Base.{◌≡◌, refl, true, some, [], ◌∷◌, ◌++◌, codes, Bytes}
use multi_threaded_proxy_ser.Base.Eq.{bytes_key}
use multi_threaded_proxy_ser.Acl.{allow, deny, check}
use multi_threaded_proxy_ser.Lru.Refine.{lookup}
use multi_threaded_proxy_ser.Lru.Sharded.{put_sharded}
use multi_threaded_proxy_ser.Lru.Sharded.Laws.{stored, stored-put_sharded, put_sharded-IsSound}
use multi_threaded_proxy_ser.Proxy.Fetch.{Link}
use multi_threaded_proxy_ser.Proxy.Handle.{running}
use multi_threaded_proxy_ser.Proxy.Sample.{env, server, conn, cache, cache-IsSound, get_request}
use multi_threaded_proxy_ser.Proxy.Serve.{serve_one_request, cache_key, cacheable_request}
use multi_threaded_proxy_ser.Proxy.Serve.Caching.{
  CacheStep, upstream_result, serve_one_request-CacheStep, serve_one_request-hit,
  serve_one_request-stores,
}
use multi_threaded_proxy_ser.Proxy.Serve.Key.{cache_key-injective, cache_key_shared}
use multi_threaded_proxy_ser.Proxy.Serve.Policy.{Counts, serve_one_request-Counts}
use multi_threaded_proxy_ser.Proxy.Serve.Refusal.{Refused, serve_one_request-Refused}
use multi_threaded_proxy_ser.Acl.FirstMatch.{by_default}
use multi_threaded_proxy_ser.Proxy.State.{Server, default_options}
use multi_threaded_proxy_ser.Request.{Request}
use multi_threaded_proxy_ser.Routing.{Upstream}
use multi_threaded_proxy_ser.Text.{to_lower}

abbrev strict : Server
strict = record server { acl = record server.acl { default_policy = deny } }

-- No rule applies, and the default denies.
serve_one_request-Refused_example :
    Refused env default_options strict conn get_request 28
      (record { decision = deny; matched_rule = codes "default" })
serve_one_request-Refused_example =
    serve_one_request-Refused env default_options strict conn get_request 28
      (record { decision = deny; matched_rule = codes "default" }) by_default refl

serve_one_request-Counts_example :
    Counts server.stats (serve_one_request env default_options server conn get_request 28).0.stats
serve_one_request-Counts_example =
    serve_one_request-Counts env default_options server conn get_request 28

serve_one_request-CacheStep_example :
    CacheStep env.hasher get_request
      (upstream_result env default_options server get_request 28)
      server.cache
      (serve_one_request env default_options server conn get_request 28).0.cache
serve_one_request-CacheStep_example =
    serve_one_request-CacheStep env default_options server conn get_request 28

-- A proxy that holds an answer to the request.
abbrev key : Bytes
key = codes "GET x/a"

key_is : cache_key get_request ≡ key
unfolding running
key_is = refl

abbrev warm : Server
warm = record server {
  cache = put_sharded env.hasher cache (cache_key get_request) (codes "stored");
}

is_allowed : (check server.acl get_request).decision ≡ allow
unfolding running
is_allowed = refl

is_cacheable_request : cacheable_request get_request ≡ true
unfolding running
is_cacheable_request = refl

serve_one_request-hit_example :
    ((serve_one_request env default_options warm conn get_request 28).0.sent
      ≡ warm.sent ++ codes "stored" ∷ [])
    × ((connect : Upstream → Bytes → Link)
        → serve_one_request
            (record env { connect = connect })
            default_options
            warm
            conn
            get_request
            28
          ≡ serve_one_request env default_options warm conn get_request 28)
serve_one_request-hit_example =
    serve_one_request-hit env default_options warm conn get_request 28 (codes "stored")
      (put_sharded-IsSound env.hasher cache (cache_key get_request) (codes "stored") cache-IsSound)
      is_allowed is_cacheable_request
      (stored-put_sharded env.hasher cache (cache_key get_request) (cache_key get_request)
        (codes "stored") cache-IsSound).0

serve_one_request-stores_example :
    stored env.hasher
      (serve_one_request env default_options server conn get_request 28).0.cache
      (cache_key get_request)
    ≡ some (upstream_result env default_options server get_request 28).raw
unfolding running lookup
serve_one_request-stores_example =
    serve_one_request-stores env default_options server conn get_request 28 cache-IsSound refl refl
      refl refl refl

abbrev shouted : Request
shouted = record get_request { host = codes "X" }

cache_key-injective_example :
    (shouted.method ≡ get_request.method)
    × (to_lower shouted.host ≡ to_lower get_request.host)
    × (shouted.path ≡ get_request.path)
unfolding running
cache_key-injective_example =
    cache_key-injective shouted get_request (codes "a") (codes "a")
      ((λ e. cc), ((λ e. cc), ((λ e. cc), tt))) ((λ e. cc), ((λ e. cc), ((λ e. cc), tt)))
      ((λ e. cc), tt) ((λ e. cc), tt) refl refl refl

cache_key_shared_example :
    cache_key (record get_request { host = codes "a" ++ codes "B.com" })
    ≡ cache_key (record get_request {
      host = codes "a";
      path = to_lower (codes "B.com") ++ get_request.path;
    })
cache_key_shared_example = cache_key_shared get_request (codes "a") (codes "B.com")
