-- ===== src/Proxy/Serve/Key.antt =====
-- Which requests share a cache key.
use mathlib.Core.List.{append_assoc}
use multi_threaded_proxy_ser.Base.{
  ℕ, [], ◌∷◌, ◌++◌, All, Bytes, codes, ◌≡◌, ◌≢◌, refl, sym, ap, ◌∙◌,
}
use multi_threaded_proxy_ser.Proxy.Serve.{cache_key}
use multi_threaded_proxy_ser.Request.{Request}
use multi_threaded_proxy_ser.Text.{to_lower, lower_byte}

-- The byte `c` does not occur.
abbrev pub Lacks : ℕ → Bytes → Type 0
Lacks c s = All (λ x. x ≢ c) s

-- What stands in front of the first `c`, and what follows it, are determined.
split_at-injective :
    (c : ℕ) (s t u v : Bytes)
    → Lacks c s
    → Lacks c t
    → s ++ (c ∷ u) ≡ t ++ (c ∷ v)
    → (s ≡ t) × (u ≡ v)
split_at-injective c [] [] u v h k e = (refl, cc)
split_at-injective c [] (y ∷ t) u v h k e = absurd (let same : c ≡ y = cc in k.0 (sym same))
split_at-injective c (x ∷ s) [] u v h k e = absurd (let same : x ≡ c = cc in h.0 same)
split_at-injective c (x ∷ s) (y ∷ t) u v h k e =
    let (front, back) = split_at-injective c s t u v h.1 k.1 (cc) in (cc, back)

-- If the methods of two requests have no space, their hosts in lower case have no "/", and their
-- paths begin with "/", then they share a cache key only if they agree on the method, on the host
-- without regard to case, and on the path.
pub cache_key-injective :
    (r q : Request) (p p' : Bytes)
    → Lacks b' ' r.method
    → Lacks b' ' q.method
    → Lacks b'/' (to_lower r.host)
    → Lacks b'/' (to_lower q.host)
    → r.path ≡ b'/' ∷ p
    → q.path ≡ b'/' ∷ p'
    → cache_key r ≡ cache_key q
    → (r.method ≡ q.method) × (to_lower r.host ≡ to_lower q.host) × (r.path ≡ q.path)
unfolding cache_key
cache_key-injective r q p p' rm qm rh qh rp qp e =
    let (methods, rest) =
      split_at-injective b' ' r.method q.method (to_lower r.host ++ r.path)
        (to_lower q.host ++ q.path) rm qm e in
    let slashed : to_lower r.host ++ (b'/' ∷ p) ≡ to_lower q.host ++ (b'/' ∷ p') =
      ap (λ x. to_lower r.host ++ x) (sym rp) ∙ rest ∙ ap (λ x. to_lower q.host ++ x) qp in
    let (hosts, paths) =
      split_at-injective b'/' (to_lower r.host) (to_lower q.host) p p' rh qh slashed in
    (methods, hosts, rp ∙ ap (◌∷◌ b'/') paths ∙ sym qp)

to_lower-append : (s t : Bytes) → to_lower (s ++ t) ≡ to_lower s ++ to_lower t
unfolding to_lower
to_lower-append [] t = refl
to_lower-append (x ∷ s) t = ap (◌∷◌ (lower_byte x)) (to_lower-append s t)

-- A request to the host `a ++ b` shares its cache key with the request to the host `a` whose path
-- is `b` in lower case followed by the path of the first, since nothing separates the host from the
-- path.
pub cache_key_shared :
    (r : Request) (a b : Bytes)
    → cache_key (record r { host = a ++ b })
      ≡ cache_key (record r { host = a; path = to_lower b ++ r.path })
unfolding cache_key to_lower
cache_key_shared r a b =
    ap (λ t. r.method ++ (codes " " ++ t))
      (ap (λ h. h ++ r.path) (to_lower-append a b) ∙ append_assoc (to_lower a) (to_lower b) r.path)
