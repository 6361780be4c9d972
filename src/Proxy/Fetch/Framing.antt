-- ===== src/Proxy/Fetch/Framing.antt =====
-- Which bytes `fetch_upstream` returns: the front of what was received, within the limits.
use mathlib.Core.List.{append_assoc}
use multi_threaded_proxy_ser.Base.{
  ◌≤◌, Bool, true, false, not, ◌&&◌, Option, none, some, List, [], ◌∷◌, ◌++◌, length, ltb,
  if◌then◌else◌, Bytes, codes, ◌≡◌, ◌≢◌, ◌⊎◌, refl, subst, arith, Bool-cases, Option-cases, inl,
  inr,
}
use multi_threaded_proxy_ser.Proxy.State.{Options}
use multi_threaded_proxy_ser.Proxy.Fetch.{
  Recv, got, interrupted, would_block, failed, Link, UpstreamResult, Reading, more, complete,
  refused, FetchEnd, done, error, check_body, after_read, read_loop, finish_fetch, fetch_upstream,
}
use multi_threaded_proxy_ser.Request.{find_header_end}
use multi_threaded_proxy_ser.Response.{Response, parse_response_headers, response_complete}

-- All the bytes that a sequence of `recv` calls reads.
abbrev pub received : List Recv → Bytes
received [] = []
received (got tmp ∷ recvs) = tmp ++ received recvs
received (interrupted ∷ recvs) = received recvs
received (would_block ∷ recvs) = received recvs
received (failed text ∷ recvs) = received recvs

abbrev pub IsWithinLimits : Options → Bytes → Type 0
IsWithinLimits opts buf = (length buf ≤ opts.max_header_bytes) ⊎ (length buf ≤ opts.max_body_bytes)

abbrev Allows : Options → Bytes → Reading → Type 0
Allows opts buf (more parsed) = IsWithinLimits opts buf
Allows opts buf (complete response) = IsWithinLimits opts buf
Allows opts buf (refused message) = message ≢ []

if_valid :
    (opts : Options) (buf : Bytes) (valid : Bool) (r q : Reading)
    → Allows opts buf r
    → Allows opts buf q
    → Allows opts buf (if valid then r else q)
if_valid opts buf true r q h k = h
if_valid opts buf false r q h k = k

check_body-Allows :
    (opts : Options) (buf : Bytes) (parsed : Response)
    → Allows opts buf (check_body opts buf parsed)
unfolding check_body
check_body-Allows opts buf parsed = elim (Bool-cases (ltb opts.max_body_bytes (length buf))) [
  | inl e ↦ rw e (λ p. cc)
  | inr n ↦ rw n (elim (Bool-cases (not parsed.close_delimited && response_complete buf parsed)) [
    | inl c ↦ rw c (inr (ground arith))
    | inr c ↦ rw c (inr (ground arith))
  ])
]

after_read-Allows :
    (opts : Options) (buf : Bytes) (parsed : Option Response)
    → Allows opts buf (after_read opts buf parsed)
unfolding after_read
after_read-Allows opts buf (some parsed) = check_body-Allows opts buf parsed
after_read-Allows opts buf none = elim (Option-cases (find_header_end buf)) [
  | inl miss ↦
      rw (miss, after_read)
        (elim (Bool-cases (ltb opts.max_header_bytes (length buf))) [
          | inl e ↦ rw e (λ p. cc)
          | inr n ↦ rw n (inl (ground arith))
        ])
  | inr (h, found) ↦
      rw (found, after_read)
        (if_valid opts buf (parse_response_headers buf).valid
          (check_body opts buf (parse_response_headers buf))
          (refused (codes "malformed upstream response"))
          (check_body-Allows opts buf (parse_response_headers buf)) (λ e. cc))
]

-- Where the loop ends with bytes, they are the front of `all` and within the limits.
abbrev EndsWithin : Options → Bytes → FetchEnd → Type 0
EndsWithin opts all (done buf parsed) =
    ((rest : Bytes) × (buf ++ rest ≡ all)) × IsWithinLimits opts buf
EndsWithin opts all (error message) = message ≢ []

Reading-cases :
    (r : Reading)
    → ((p : Option Response) × (r ≡ more p))
      ⊎ ((p : Response) × (r ≡ complete p))
      ⊎ ((m : Bytes) × (r ≡ refused m))
Reading-cases (more p) = inl (p, refl)
Reading-cases (complete p) = inr (inl (p, refl))
Reading-cases (refused m) = inr (inr (m, refl))

read_loop-EndsWithin :
    (opts : Options) (buf : Bytes) (parsed : Option Response) (recvs : List Recv)
    → IsWithinLimits opts buf
    → EndsWithin opts (buf ++ received recvs) (read_loop opts buf parsed recvs)
unfolding read_loop
read_loop-EndsWithin opts buf parsed [] h = λ e. cc
read_loop-EndsWithin opts buf parsed (got [] ∷ recvs) h = ((received recvs, refl), h)
read_loop-EndsWithin opts buf parsed (got (b ∷ tmp) ∷ recvs) h =
    let longer = buf ++ (b ∷ tmp) in
    let joined : longer ++ received recvs ≡ buf ++ ((b ∷ tmp) ++ received recvs) =
      append_assoc buf (b ∷ tmp) (received recvs) in
    let allowed = after_read-Allows opts longer parsed in
    elim (Reading-cases (after_read opts longer parsed)) [
      | inl (p, e) ↦
          rw (e, read_loop)
            (subst (λ all. EndsWithin opts all (read_loop opts longer p recvs)) joined
              (read_loop-EndsWithin opts longer p recvs (rw e at allowed)))
      | inr (inl (p, e)) ↦ rw (e, read_loop) ((received recvs, joined), rw e at allowed)
      | inr (inr (m, e)) ↦ rw (e, read_loop) (rw e at allowed)
    ]
read_loop-EndsWithin opts buf parsed (interrupted ∷ recvs) h =
    read_loop-EndsWithin opts buf parsed recvs h
read_loop-EndsWithin opts buf parsed (would_block ∷ recvs) h = λ e. cc
read_loop-EndsWithin opts buf parsed (failed text ∷ recvs) h = λ e. cc

-- A result is a failure, with an error and no bytes; or bytes that are the front of what was
-- received, at least one, and within the limits.
pub data Fetched (opts : Options) (all : Bytes) (r : UpstreamResult) : Type 0 where
  failing : r.ok ≡ false → r.raw ≡ [] → r.error ≢ [] → Fetched opts all r
  fetched :
      (rest : Bytes)
      → r.ok ≡ true
      → r.raw ≢ []
      → r.raw ++ rest ≡ all
      → IsWithinLimits opts r.raw
      → Fetched opts all r

finish_fetch-Fetched :
    (opts : Options) (all : Bytes) (f : FetchEnd)
    → EndsWithin opts all f
    → Fetched opts all (finish_fetch f)
unfolding finish_fetch
finish_fetch-Fetched opts all (error message) h = failing refl refl h
finish_fetch-Fetched opts all (done [] parsed) h = failing refl refl (λ e. cc)
finish_fetch-Fetched opts all (done (b ∷ buf) (some parsed)) h =
    fetched h.0.0 refl (λ e. cc) h.0.1 h.1
finish_fetch-Fetched opts all (done (b ∷ buf) none) h =
    elim (Bool-cases (parse_response_headers (b ∷ buf)).valid) [
      | inl v ↦ rw v (fetched h.0.0 refl (λ e. cc) h.0.1 h.1)
      | inr n ↦ rw n (failing refl refl (λ e. cc))
    ]

-- Whatever the resolver and the socket calls return, the result of `fetch_upstream` is either a
-- failure with an error text and no bytes, or a success whose bytes are the front of all that
-- `recv` can read, are not empty, and are within the limit on headers or the limit on bodies.
pub fetch_upstream-Fetched :
    (opts : Options) (link : Link) → Fetched opts (received link.recvs) (fetch_upstream opts link)
unfolding fetch_upstream
fetch_upstream-Fetched opts link = elim (Option-cases link.resolve_error) [
  | inr (m, e) ↦ rw (e, fetch_upstream) (failing refl refl (λ p. cc))
  | inl a ↦ elim (Option-cases link.socket_error) [
    | inr (m, e) ↦ rw (a, e, fetch_upstream) (failing refl refl (λ p. cc))
    | inl b ↦ elim (Option-cases link.connect_error) [
      | inr (m, e) ↦ rw (a, b, e, fetch_upstream) (failing refl refl (λ p. cc))
      | inl c ↦ elim (Option-cases link.send_error) [
        | inr (m, e) ↦ rw (a, b, c, e, fetch_upstream) (failing refl refl (λ p. cc))
        | inl d ↦
            rw (a, b, c, d, fetch_upstream)
              (finish_fetch-Fetched opts (received link.recvs) (read_loop opts [] none link.recvs)
                (read_loop-EndsWithin opts [] none link.recvs (inl (omega arith))))
      ]
    ]
  ]
]
