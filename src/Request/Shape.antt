-- ===== src/Request/Shape.antt =====
-- What `parse_request` says of the buffer: how long the header block is, what is kept of the input.
use multi_threaded_proxy_ser.Base.{
  ℕ, ◌≤◌, some, List, [], ◌∷◌, length, Bytes, ◌≡◌, take, ◌∙◌, refl, arith, Option-cases, inl, inr,
}
use multi_threaded_proxy_ser.Request.{
  Request, initial, find_header_end, normalise_target, host_from_header, finish_request,
  parse_lines, parse_block, parse_request, expected_request_bytes,
}
use multi_threaded_proxy_ser.Text.Find.{find-le}
use multi_threaded_proxy_ser.Text.{find, strip_cr, get_lines}

-- A header block that is found is at least two bytes long and lies in the buffer.
pub find_header_end_bounds :
    (buf : Bytes) (hend : ℕ) → find_header_end buf ≡ some hend → (2 ≤ hend) × (hend ≤ length buf)
unfolding find_header_end
find_header_end_bounds buf hend h = elim (Option-cases (find (13 ∷ 10 ∷ 13 ∷ 10 ∷ []) buf)) [
  | inr (p, hit) ↦ ground (arith, find-le (13 ∷ 10 ∷ 13 ∷ 10 ∷ []) buf p hit)
  | inl miss ↦ elim (Option-cases (find (10 ∷ 10 ∷ []) buf)) [
    | inr (p, hit) ↦ ground (arith, find-le (10 ∷ 10 ∷ []) buf p hit)
    | inl none_too ↦ ground arith
  ]
]

-- The fields that are set once, at the start.
abbrev Keeps : Request → Request → Type 0
Keeps r r' = (r'.raw ≡ r.raw) × (r'.header_bytes ≡ r.header_bytes)

normalise_target-Keeps : (r : Request) → Keeps r (normalise_target r)
unfolding normalise_target
normalise_target-Keeps r = ground arith

host_from_header-Keeps : (r : Request) → Keeps r (host_from_header r)
unfolding host_from_header
host_from_header-Keeps r = ground arith

finish_request-Keeps : (r : Request) → Keeps r (finish_request r)
unfolding finish_request
finish_request-Keeps r =
    ground (arith, normalise_target-Keeps r, host_from_header-Keeps (normalise_target r))

parse_lines-Keeps :
    (r : Request) (line : Bytes) (lines : List Bytes) → Keeps r (parse_lines r line lines)
unfolding parse_lines
parse_lines-Keeps r line lines = grind (arith, finish_request-Keeps)

parse_block-Keeps : (r : Request) (lines : List Bytes) → Keeps r (parse_block r lines)
parse_block-Keeps r [] = (refl, refl)
parse_block-Keeps r (line ∷ lines) = parse_lines-Keeps r (strip_cr line) lines

-- `parse_request` keeps the bytes it was given, and records the length of the header block where
-- the block is complete, whether or not the request is valid.
pub parse_request_keeps :
    (raw : Bytes)
    → ((parse_request raw).raw ≡ raw)
      × ((hend : ℕ) → find_header_end raw ≡ some hend → (parse_request raw).header_bytes ≡ hend)
unfolding parse_request
parse_request_keeps raw = elim (Option-cases (find_header_end raw)) [
  | inl miss ↦ rw (miss, parse_request) (refl, λ hend e. cc)
  | inr (h, found) ↦
      let kept =
        parse_block-Keeps (record (initial raw) { header_bytes = h }) (get_lines (take h raw)) in
      rw (found, parse_request) (kept.0, λ hend e. kept.1 ∙ ground arith)
]

-- A request takes at least its header block, so at least two bytes of the buffer.
pub expected_request_bytes-le : (r : Request) → r.header_bytes ≤ expected_request_bytes r
unfolding expected_request_bytes
expected_request_bytes-le r = ground arith
