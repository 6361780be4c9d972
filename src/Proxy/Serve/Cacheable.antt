-- ===== src/Proxy/Serve/Cacheable.antt =====
-- Which requests `serve_one_request` takes to the cache.
use multi_threaded_proxy_ser.Base.{
  Bool, true, false, not, ◌&&◌, ◌||◌, [], ◌∷◌, All, Bytes, codes, bytes_eq, bytes_eq_iff, ◌≡◌, ◌≢◌,
  ◌⊎◌, inl, inr, refl, sym, ◌∙◌, Bool-cases,
}
use multi_threaded_proxy_ser.Proxy.Serve.{cacheable_request}
use multi_threaded_proxy_ser.Request.{Request, Headers, header}
use multi_threaded_proxy_ser.Response.{is_some}

-- A request that may be answered from the cache: a GET or HEAD without a field `Authorization`,
-- whose name the parser has put in lower case.
pub record MayUseCache (req : Request) : Type 0 where
  pub safe_method : (req.method ≡ codes "GET") ⊎ (req.method ≡ codes "HEAD")
  pub without_authorization : All (λ field. field.0 ≢ codes "authorization") req.headers

header-none :
    (name : Bytes) (hs : Headers)
    → is_some (header name hs) ≡ false
    → All (λ field. field.0 ≢ name) hs
unfolding header
header-none name [] h = tt
header-none name ((k, v) ∷ hs) h = elim (Bool-cases (bytes_eq k name)) [
  | inl same ↦ absurd (let f = rw (same, header) at h in cc)
  | inr differ ↦ (
    λ e. absurd (
        let same = (bytes_eq_iff k name).1 e in let clash : true ≡ false = sym same ∙ differ in cc),
    header-none name hs (rw (differ, header) at h),
  )
]

both : (a b : Bool) → (a && b) ≡ true → (a ≡ true) × (b ≡ true)
both true b h = (refl, h)
both false b h = cc

either : (a b : Bool) → (a || b) ≡ true → (a ≡ true) ⊎ (b ≡ true)
either true b h = inl refl
either false b h = inr h

negated : (b : Bool) → not b ≡ true → b ≡ false
negated true h = cc
negated false h = refl

pub cacheable_request-MayUseCache : (req : Request) → cacheable_request req ≡ true → MayUseCache req
unfolding cacheable_request
cacheable_request-MayUseCache req h =
    let (method, field) =
      both (bytes_eq req.method (codes "GET") || bytes_eq req.method (codes "HEAD"))
        (not (is_some (header (codes "authorization") req.headers))) h in
    record {
      safe_method =
          elim (either (bytes_eq req.method (codes "GET")) (bytes_eq req.method (codes "HEAD"))
            method) [
              | inl get ↦ inl ((bytes_eq_iff req.method (codes "GET")).0 get)
              | inr head ↦ inr ((bytes_eq_iff req.method (codes "HEAD")).0 head)
            ];
      without_authorization = header-none (codes "authorization") req.headers (negated _ field);
    }
