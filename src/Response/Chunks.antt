-- ===== src/Response/Chunks.antt =====
-- The loops of `chunked_body_complete` end before their fuel does.
use multi_threaded_proxy_ser.Base.{
  ℕ, zero, suc, ◌+◌, ◌≤◌, ◌<◌, Bool, Option, none, some, length, drop, ltb, leb, ◌==◌, Bytes, ◌≡◌,
  ◌≢◌, ◌⊎◌, refl, arith, Bool-cases, Option-cases, inl, inr, length-drop, some-injective,
}
use multi_threaded_proxy_ser.Request.{crlf}
use multi_threaded_proxy_ser.Text.{find, find_from}
use multi_threaded_proxy_ser.Text.Find.{find-le}
use multi_threaded_proxy_ser.Response.{
  trailers_end, chunks_end, chunk_size_at, chunked_body_complete,
}

size_cases : (o : Option ℕ) → (o ≡ none) ⊎ (o ≡ some 0) ⊎ ((n : ℕ) × (o ≡ some (suc n)))
size_cases none = inl refl
size_cases (some zero) = inr (inl refl)
size_cases (some (suc n)) = inr (inr (n, refl))

-- A line end that is found lies at or behind the start of the search, and within the text.
find_from-crlf :
    (raw : Bytes) (p e : ℕ) → find_from crlf raw p ≡ some e → (p ≤ e) × (e + 2 ≤ length raw)
unfolding find_from
find_from-crlf raw p e h = elim (Bool-cases (leb p (length raw))) [
  | inr out ↦ absurd (let none_there = rw out at h in cc)
  | inl within ↦ elim (Option-cases (find crlf (drop p raw))) [
    | inl miss ↦ absurd (let none_there = rw (within, miss) at h in cc)
    | inr (q, hit) ↦
        let there : some (p + q) ≡ some e = rw (within, hit) at h in
        let bound = find-le crlf (drop p raw) q hit in
        omega (arith, some-injective there, length-drop p raw, bound)
  ]
]

-- Each trailer line takes two bytes at least.
trailers_end-ne-none :
    (fuel : ℕ) (raw : Bytes) (p : ℕ)
    → length raw < p + fuel
    → 0 < fuel
    → trailers_end fuel raw p ≢ none
unfolding trailers_end
trailers_end-ne-none zero raw p h m = elim m [ ]
trailers_end-ne-none (suc fuel) raw p h m = elim (Option-cases (find_from crlf raw p)) [
  | inl miss ↦ rw (miss, trailers_end) (λ e. cc)
  | inr (q, hit) ↦
      let (behind, inside) = find_from-crlf raw p q hit in
      rw (hit, trailers_end)
        (elim (Bool-cases (q == p)) [
          | inl done ↦ rw done (λ e. cc)
          | inr more ↦ rw more (
              trailers_end-ne-none fuel raw (q + 2) (omega (arith, behind))
                (omega (arith, behind, inside)))
        ])
]

-- Each chunk takes five bytes at least.
chunks_end-ne-none :
    (fuel : ℕ) (raw : Bytes) (position : ℕ)
    → length raw < position + fuel
    → 0 < fuel
    → chunks_end fuel raw position ≢ none
unfolding chunks_end
chunks_end-ne-none zero raw position h m = elim m [ ]
chunks_end-ne-none (suc fuel) raw position h m = elim (Option-cases (find_from crlf raw position)) [
  | inl miss ↦ rw (miss, chunks_end) (λ e. cc)
  | inr (line_end, hit) ↦
      let (behind, inside) = find_from-crlf raw position line_end hit in
      rw (hit, chunks_end)
        (elim (size_cases (chunk_size_at raw position line_end)) [
          | inl bad ↦ rw bad (λ e. cc)
          | inr (inl last) ↦ rw last (
              trailers_end-ne-none (suc (length raw)) raw (line_end + 2) (omega arith)
                (omega arith))
          | inr (inr (n, size)) ↦
              rw size (elim (Bool-cases (ltb (length raw) (line_end + 2 + suc n + 2))) [
                | inl short ↦ rw short (λ e. cc)
                | inr long ↦ rw long (
                    chunks_end-ne-none fuel raw (line_end + 2 + suc n + 2) (omega (arith, behind))
                      (omega (arith, behind, inside)))
              ])
        ])
]

-- On every text and from every start the loops over chunks and trailers return an answer within one
-- more round than the text has bytes, and `chunked_body_complete` returns that answer.
pub chunked_body_complete-answers :
    (raw : Bytes) (body_start : ℕ)
    → (answer : Bool) × (chunks_end (suc (length raw)) raw body_start ≡ some answer)
      × (chunked_body_complete raw body_start ≡ answer)
unfolding chunked_body_complete
chunked_body_complete-answers raw body_start =
    elim (Option-cases (chunks_end (suc (length raw)) raw body_start)) [
      | inl out ↦
          absurd
            (chunks_end-ne-none (suc (length raw)) raw body_start (omega arith) (omega arith) out)
      | inr (answer, e) ↦ (answer, e, rw (e, chunked_body_complete) refl)
    ]
