-- ===== src/Phases/Handler/Answers.antt =====
-- What `handle_request` answers, and what it leaves in the cache.
use multi_threaded_proxy_ser.Base.{
  ℕ, suc, ◌-◌, ◌<◌, true, Option, none, some, List, [], ◌∷◌, ◌++◌, take, Bytes, codes, bytes_eq_iff,
  ◌≡◌, ◌≢◌, refl, ap, ◌∙◌, arith, Option-cases, inl, inr,
}
use multi_threaded_proxy_ser.Base.Eq.{bytes_key}
use multi_threaded_proxy_ser.Number.{to_string}
use multi_threaded_proxy_ser.Lru as Latest
use multi_threaded_proxy_ser.Lru.Refine.{
  entries, lookup, forget, ideal_put, ideal_get, get-entries, put-entries,
}
use multi_threaded_proxy_ser.Lru.Valid.{IsValid, get-IsValid, put-IsValid}
use multi_threaded_proxy_ser.Phases.Cache.{Cache, get_around, put}
use multi_threaded_proxy_ser.Phases.Cache.Refine.{forget_evictions, get_around-get, put-put}
use multi_threaded_proxy_ser.Phases.Handler.{
  build_response, extract_path, fetch_from_upstream, find_body, handle_request,
}
use multi_threaded_proxy_ser.Proxy.State as Shared

-- The answers are what the server of phase 5 builds with status 200, for a connection kept alive.
pub build_response-keep_alive :
    (body : Bytes)
    → build_response body ≡ Shared.build_response 200 (codes "OK") body true (codes "text/plain")
unfolding build_response Shared.build_response to_string
build_response-keep_alive body = refl

-- The body for a path that the cache holds, or does not hold; and the part that is cached.
abbrev pub page : ℕ → Bytes → Option Bytes → Bytes
page now path (some cached) = cached ++ codes " [CACHE HIT]"
page now path none = fetch_from_upstream now path ++ codes " [CACHE MISS]"

abbrev pub content : ℕ → Bytes → Option Bytes → Bytes
content now path (some cached) = cached
content now path none = fetch_from_upstream now path

get_around-latest :
    (c : Latest.Cache Bytes Bytes) (k : Bytes)
    → get_around (λ d. d) (forget_evictions c) k
      ≡ (forget_evictions (Latest.get c k).0, (Latest.get c k).1)
get_around-latest c k = elim (get_around-get (λ d. d) (λ d. d) c k refl) [ inl e ↦ e | inr e ↦ e ]

lookup-front : (k v : Bytes) (l : List (Bytes × Bytes)) → lookup k ((k, v) ∷ l) ≡ some v
unfolding lookup
lookup-front k v l = let same = (bytes_eq_iff k k).1 refl in rw same refl

lookup-put :
    (cap : ℕ) (k v : Bytes) (l : List (Bytes × Bytes))
    → 0 < cap
    → lookup k (ideal_put cap k v l) ≡ some v
lookup-put cap k v l h =
    let e : cap ≡ suc (cap - 1) = omega arith in
    ap (λ n. lookup k (take n ((k, v) ∷ forget k l))) e
    ∙ lookup-front k v (take (cap - 1) (forget k l))

-- What a lookup leaves: a valid cache with the content of the path, and the page.
abbrev pub Served :
    ℕ → Latest.Cache Bytes Bytes → Bytes → Option (Cache Bytes Bytes × Bytes) → Type 0
Served now c path result =
    (c' : Latest.Cache Bytes Bytes) × IsValid c'
    × (lookup path (entries c') ≡ some (content now path (lookup path (entries c))))
    × (result ≡ some (forget_evictions c', page now path (lookup path (entries c))))

find_body-hit :
    (now : ℕ) (path v : Bytes) (d : Cache Bytes Bytes)
    → find_body now path (d, some v) ≡ some (d, page now path (some v))
unfolding find_body
find_body-hit now path v d = refl

find_body-miss :
    (now : ℕ) (path : Bytes) (d d' : Cache Bytes Bytes)
    → put d path (fetch_from_upstream now path) ≡ some d'
    → find_body now path (d, none) ≡ some (d', page now path none)
unfolding find_body
find_body-miss now path d d' e = rw (e, find_body) refl

ideal_get-hit :
    (k x : Bytes) (l : List (Bytes × Bytes))
    → lookup k l ≡ some x
    → ideal_get k l ≡ (k, x) ∷ forget k l
ideal_get-hit k x l h = rw (h, ideal_get) refl

find_body-Served :
    (now : ℕ) (c : Latest.Cache Bytes Bytes) (path : Bytes)
    → IsValid c
    → Served now c path (find_body now path (get_around (λ d. d) (forget_evictions c) path))
find_body-Served now c path v =
    let got = get-entries c path v in
    let start = get_around-latest c path in
    let c1 = (Latest.get c path).0 in
    elim (Option-cases (lookup path (entries c))) [
      | inr (x, hit) ↦
          let found : (Latest.get c path).1 ≡ some x = got.0 ∙ hit in
          rw hit (
            c1,
            get-IsValid c path v,
            ap (lookup path) (got.1 ∙ ideal_get-hit path x (entries c) hit)
                ∙ lookup-front path x (forget path (entries c)),
            ap (find_body now path) (start ∙ ap (λ o. (forget_evictions c1, o)) found)
                ∙ find_body-hit now path x (forget_evictions c1),
          )
      | inl miss ↦
          let body = fetch_from_upstream now path in
          let valid = get-IsValid c path v in
          let absent : (Latest.get c path).1 ≡ none = got.0 ∙ miss in
          let stored = put-put c1 path body valid.positive in
          rw miss (
            Latest.put c1 path body,
            put-IsValid c1 path body valid,
            ap (lookup path) (put-entries c1 path body valid)
                ∙ lookup-put c1.capacity path body (entries c1) valid.positive,
            ap (find_body now path) (start ∙ ap (λ o. (forget_evictions c1, o)) absent)
                ∙ find_body-miss now path (forget_evictions c1)
                    (forget_evictions (Latest.put c1 path body)) stored,
          )
    ]

-- On a valid cache and a request that is not empty, the handler of phase 4 answers the path with
-- the cached body and the mark of a hit, or with the fetched body and the mark of a miss, and
-- leaves a valid cache that holds that body, without the mark, under the path.
pub handle_request-answers :
    (now : ℕ) (c : Latest.Cache Bytes Bytes) (request : Bytes)
    → IsValid c
    → request ≢ []
    → let path = extract_path request in
      (c' : Latest.Cache Bytes Bytes) × IsValid c'
      × (lookup path (entries c') ≡ some (content now path (lookup path (entries c))))
      × (handle_request now (forget_evictions c) request
          ≡ some (
            forget_evictions c',
            some (build_response (page now path (lookup path (entries c)))),
          ))
unfolding handle_request
handle_request-answers now c [] v ne = absurd (ne refl)
handle_request-answers now c (b ∷ request) v ne =
    let path = extract_path (b ∷ request) in
    let (c', valid, holds, found) = find_body-Served now c path v in
    (c', valid, holds, rw (found, handle_request) refl)
