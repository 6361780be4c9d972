-- ===== src/Request/Errors.antt =====
-- The errors that `parse_request` reports, each with its cause.
use multi_threaded_proxy_ser.Base.{
  ℕ, ◌+◌, ◌-◌, ◌≤◌, true, false, none, some, List, [], ◌∷◌, length, take, drop, Bytes, codes,
  is_empty, ◌==◌, ◌≡◌, ◌≢◌, ◌⊎◌, refl, ◌∙◌, arith, Bool-cases, Option-cases, inl, inr, length-take,
}
use multi_threaded_proxy_ser.Request.{
  Request, initial, find_header_end, find_spaces, read_headers, normalise_target, host_from_header,
  finish_request, parse_lines, parse_request,
}
use multi_threaded_proxy_ser.Request.Shape.{find_header_end_bounds}
use multi_threaded_proxy_ser.Request.Valid.{
  normalise_target-SameLine, host_from_header-SameLine, normalise_target-valid,
  host_from_header-valid,
}
use multi_threaded_proxy_ser.Text.{substr, compare_eq, trim, get_lines, cons_byte, strip_cr}

-- What `parse_request` says of `raw`. No other error text exists: "empty request" is never reported.
pub data Diagnosed (raw : Bytes) (r : Request) : Type 0 where
  accepted : r.valid ≡ true → r.parse_error ≡ [] → Diagnosed raw r
  incomplete :
      find_header_end raw ≡ none
      → r.valid ≡ false
      → r.parse_error ≡ codes "incomplete headers"
      → Diagnosed raw r
  bad_line :
      (hend : ℕ) (line : Bytes) (lines : List Bytes)
      → find_header_end raw ≡ some hend
      → get_lines (take hend raw) ≡ line ∷ lines
      → (find_spaces (strip_cr line) ≡ none) ⊎ (r.method ≡ []) ⊎ (r.target ≡ [])
      → r.valid ≡ false
      → r.parse_error ≡ codes "malformed request line"
      → Diagnosed raw r
  bad_version :
      compare_eq 0 5 (codes "HTTP/") r.version ≡ false
      → r.valid ≡ false
      → r.parse_error ≡ codes "unsupported version"
      → Diagnosed raw r
  no_host :
      r.host ≡ [] → r.valid ≡ false → r.parse_error ≡ codes "missing Host header" → Diagnosed raw r

empty : (s : Bytes) → is_empty s ≡ true → s ≡ []
empty [] h = refl
empty (c ∷ s) h = cc

finish_request-Diagnosed :
    (raw : Bytes) (r : Request)
    → r.valid ≡ false
    → r.parse_error ≡ []
    → Diagnosed raw (finish_request r)
unfolding finish_request
finish_request-Diagnosed raw r fresh clean =
    let n = normalise_target r in
    let q = host_from_header n in
    let kept : q.parse_error ≡ [] =
      (host_from_header-SameLine n).3 ∙ (normalise_target-SameLine r).3 ∙ clean in
    let still : q.valid ≡ false = host_from_header-valid n ∙ normalise_target-valid r ∙ fresh in
    elim (Bool-cases (is_empty q.host)) [
      | inl e ↦ rw e (no_host (empty q.host e) still refl)
      | inr named ↦ rw named (accepted refl kept)
    ]

parse_lines-Diagnosed :
    (raw : Bytes) (hend : ℕ) (r : Request) (line : Bytes) (lines : List Bytes)
    → find_header_end raw ≡ some hend
    → get_lines (take hend raw) ≡ line ∷ lines
    → r.valid ≡ false
    → r.parse_error ≡ []
    → Diagnosed raw (parse_lines r (strip_cr line) lines)
unfolding parse_lines
parse_lines-Diagnosed raw hend r line lines found shown fresh clean =
    elim (Option-cases (find_spaces (strip_cr line))) [
      | inl miss ↦
          rw (miss, parse_lines) (bad_line hend line lines found shown (inl miss) fresh refl)
      | inr (sp, spaces) ↦
          let method = take sp.0 (strip_cr line) in
          let target = substr (strip_cr line) (sp.0 + 1) (sp.1 - sp.0 - 1) in
          let version = trim (drop (sp.1 + 1) (strip_cr line)) in
          rw (spaces, parse_lines)
            (elim (Bool-cases (is_empty method)) [
              | inl e ↦
                  rw e
                    (bad_line hend line lines found shown (inr (inl (empty method e))) fresh refl)
              | inr m ↦ rw m (elim (Bool-cases (is_empty target)) [
                | inl e ↦
                    rw e
                      (bad_line hend line lines found shown (inr (inr (empty target e))) fresh refl)
                | inr t ↦ rw t (elim (Bool-cases (compare_eq 0 5 (codes "HTTP/") version)) [
                  | inr n ↦ rw n (bad_version n fresh refl)
                  | inl p ↦ rw p (
                      finish_request-Diagnosed raw
                        (record r {
                          method = method;
                          target = target;
                          version = version;
                          headers = read_headers [] lines;
                        })
                        fresh clean)
                ])
              ])
            ])
    ]

-- A header block has a first line.
cons_byte-ne-nil : (c : ℕ) (ls : List Bytes) → cons_byte c ls ≢ []
cons_byte-ne-nil c [] = λ e. cc
cons_byte-ne-nil c (l ∷ ls) = λ e. cc

get_lines-ne-nil : (s : Bytes) → 1 ≤ length s → get_lines s ≢ []
unfolding get_lines
get_lines-ne-nil [] h = absurd (omega arith)
get_lines-ne-nil (c ∷ s) h = elim (Bool-cases (c == 10)) [
  | inl e ↦ rw e (λ p. cc)
  | inr e ↦ rw e (cons_byte-ne-nil c (get_lines s))
]

List-cases : (ls : List Bytes) → (ls ≡ []) ⊎ ((l : Bytes) × (rest : List Bytes) × (ls ≡ l ∷ rest))
List-cases [] = inl refl
List-cases (l ∷ ls) = inr (l, ls, refl)

-- On every text `parse_request` accepts with no error text, or refuses with one of four error
-- texts, whose cause holds: the header block is incomplete; the first line of the block lacks a
-- second space, a method or a target; the version does not begin with "HTTP/"; or no host is known.
-- The error "empty request" is never reported.
pub parse_request-Diagnosed : (raw : Bytes) → Diagnosed raw (parse_request raw)
unfolding parse_request
parse_request-Diagnosed raw = elim (Option-cases (find_header_end raw)) [
  | inl miss ↦ rw (miss, parse_request) (incomplete miss refl refl)
  | inr (hend, found) ↦
      let bounds = find_header_end_bounds raw hend found in
      elim (List-cases (get_lines (take hend raw))) [
        | inl nothing ↦
            absurd (
              get_lines-ne-nil (take hend raw) (omega (arith, bounds, length-take hend raw))
                nothing)
        | inr (line, lines, shown) ↦
            rw (found, shown, parse_request)
              (parse_lines-Diagnosed raw hend (record (initial raw) { header_bytes = hend }) line
                lines found shown refl refl)
      ]
]
