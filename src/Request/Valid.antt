-- ===== src/Request/Valid.antt =====
-- What `parse_request` guarantees of a request that it calls valid.
use multi_threaded_proxy_ser.Base.{
  ◌+◌, ◌-◌, true, false, List, [], ◌∷◌, take, drop, Bytes, codes, is_empty, ◌≡◌, ◌≢◌, refl, arith,
  Bool-cases, Option-cases, inl, inr, ◌∙◌,
}
use multi_threaded_proxy_ser.Text.{
  substr, compare_eq, trim, get_lines, strip_cr, to_lower, find_byte_from,
}
use multi_threaded_proxy_ser.Request.{
  Request, initial, header, find_header_end, find_spaces, read_headers, normalise_target,
  host_from_header, finish_request, parse_lines, parse_block, parse_request,
}

-- The request line has its three parts, the host is known, and no error is recorded.
pub record IsRequest (r : Request) : Type 0 where
  pub has_method : r.method ≢ []
  pub has_target : r.target ≢ []
  pub has_version : compare_eq 0 5 (codes "HTTP/") r.version ≡ true
  pub has_host : r.host ≢ []
  pub no_error : r.parse_error ≡ []

not_empty : (s : Bytes) → is_empty s ≡ false → s ≢ []
not_empty [] h = cc
not_empty (c ∷ s) h = λ e. cc

-- Routing the target and the `Host` header leave the request line and the error as they are.
abbrev pub SameLine : Request → Request → Type 0
SameLine r q =
    (q.method ≡ r.method)
    × (q.target ≡ r.target)
    × (q.version ≡ r.version)
    × (q.parse_error ≡ r.parse_error)

pub normalise_target-SameLine : (r : Request) → SameLine r (normalise_target r)
unfolding normalise_target
normalise_target-SameLine r =
    elim (Bool-cases (compare_eq 0 7 (codes "http://") (to_lower r.target))) [
      | inr n ↦ rw n (refl, refl, refl, refl)
      | inl e ↦ rw e (elim (Option-cases (find_byte_from b'/' r.target 7)) [
        | inl m ↦ rw m (refl, refl, refl, refl)
        | inr (slash, m) ↦ rw m (refl, refl, refl, refl)
      ])
    ]

pub host_from_header-SameLine : (r : Request) → SameLine r (host_from_header r)
unfolding host_from_header
host_from_header-SameLine r = elim (Bool-cases (is_empty r.host)) [
  | inr n ↦ rw n (refl, refl, refl, refl)
  | inl e ↦ rw e (elim (Option-cases (header (codes "host") r.headers)) [
    | inl m ↦ rw m (refl, refl, refl, refl)
    | inr (h, m) ↦ rw m (refl, refl, refl, refl)
  ])
]

-- The request line of a request with no error.
record HasLine (r : Request) : Type 0 where
  has_method : r.method ≢ []
  has_target : r.target ≢ []
  has_version : compare_eq 0 5 (codes "HTTP/") r.version ≡ true
  no_error : r.parse_error ≡ []
  not_yet : r.valid ≡ false

SameLine-HasLine : (r q : Request) → SameLine r q → q.valid ≡ r.valid → HasLine r → HasLine q
SameLine-HasLine r q (m, t, v, p) w h = record {
  has_method = rw m h.has_method;
  has_target = rw t h.has_target;
  has_version = rw v h.has_version;
  no_error = rw p h.no_error;
  not_yet = w ∙ h.not_yet;
}

pub normalise_target-valid : (r : Request) → (normalise_target r).valid ≡ r.valid
unfolding normalise_target
normalise_target-valid r = ground arith

pub host_from_header-valid : (r : Request) → (host_from_header r).valid ≡ r.valid
unfolding host_from_header
host_from_header-valid r = ground arith

finish_request-IsRequest :
    (r : Request) → HasLine r → (finish_request r).valid ≡ true → IsRequest (finish_request r)
unfolding finish_request
finish_request-IsRequest r h =
    let n = normalise_target r in
    let q = host_from_header n in
    let kept =
      SameLine-HasLine n q (host_from_header-SameLine n) (host_from_header-valid n)
        (SameLine-HasLine r n (normalise_target-SameLine r) (normalise_target-valid r) h) in
    elim (Bool-cases (is_empty q.host)) [
      | inl e ↦ rw e (λ v. absurd (let never = kept.not_yet in cc))
      | inr named ↦ rw named (λ v. record {
        has_method = kept.has_method;
        has_target = kept.has_target;
        has_version = kept.has_version;
        has_host = not_empty q.host named;
        no_error = kept.no_error;
      })
    ]

parse_lines-IsRequest :
    (r : Request) (line : Bytes) (lines : List Bytes)
    → r.valid ≡ false
    → r.parse_error ≡ []
    → (parse_lines r line lines).valid ≡ true
    → IsRequest (parse_lines r line lines)
unfolding parse_lines
parse_lines-IsRequest r line lines fresh clean = elim (Option-cases (find_spaces line)) [
  | inl miss ↦ rw (miss, parse_lines) (λ v. absurd (cc))
  | inr (sp, found) ↦
      let method = take sp.0 line in
      let target = substr line (sp.0 + 1) (sp.1 - sp.0 - 1) in
      let version = trim (drop (sp.1 + 1) line) in
      rw (found, parse_lines)
        (elim (Bool-cases (is_empty method)) [
          | inl e ↦ rw e (λ v. absurd (cc))
          | inr m ↦ rw m (elim (Bool-cases (is_empty target)) [
            | inl e ↦ rw e (λ v. absurd (cc))
            | inr t ↦ rw t (elim (Bool-cases (compare_eq 0 5 (codes "HTTP/") version)) [
              | inr n ↦ rw n (λ v. absurd (cc))
              | inl p ↦ rw p (
                  finish_request-IsRequest
                    (record r {
                      method = method;
                      target = target;
                      version = version;
                      headers = read_headers [] lines;
                    })
                    (record {
                      has_method = not_empty method m;
                      has_target = not_empty target t;
                      has_version = p;
                      no_error = clean;
                      not_yet = fresh;
                    }))
            ])
          ])
        ])
]

parse_block-IsRequest :
    (r : Request) (lines : List Bytes)
    → r.valid ≡ false
    → r.parse_error ≡ []
    → (parse_block r lines).valid ≡ true
    → IsRequest (parse_block r lines)
parse_block-IsRequest r [] fresh clean v = absurd (cc)
parse_block-IsRequest r (line ∷ lines) fresh clean v =
    parse_lines-IsRequest r (strip_cr line) lines fresh clean v

-- A request that `parse_request` calls valid has a method, a target and a host that are not empty,
-- a version that begins with "HTTP/", and no error text.
pub parse_request-IsRequest :
    (raw : Bytes) → (parse_request raw).valid ≡ true → IsRequest (parse_request raw)
unfolding parse_request
parse_request-IsRequest raw = elim (Option-cases (find_header_end raw)) [
  | inl miss ↦ rw (miss, parse_request) (λ v. absurd (cc))
  | inr (h, found) ↦
      rw (found, parse_request)
        (parse_block-IsRequest (record (initial raw) { header_bytes = h }) (get_lines (take h raw))
          refl refl)
]
