-- ===== src/Proxy/Fetch/Delivery.antt =====
-- An answer that says its length is fetched whole, however `recv` cuts it into pieces.
use mathlib.Core.List.{append_assoc}
use multi_threaded_proxy_ser.Base.{
  ℕ, ◌+◌, ◌≤◌, ◌<◌, Bool, true, false, Option, none, some, List, [], ◌∷◌, ◌++◌, length, take, drop,
  ltb, leb, if◌then◌else◌, Bytes, ◌≡◌, refl, sym, ap, ◌∙◌, arith, Bool-cases, inl, inr,
  length-append, length-take, length-drop, take-append-drop, take-length-append, drop-length-append,
}
use multi_threaded_proxy_ser.Proxy.Fetch.{
  Recv, got, interrupted, would_block, failed, Link, Reading, more, complete, done, check_body,
  after_read, read_loop, finish_fetch, fetch_upstream,
}
use multi_threaded_proxy_ser.Proxy.Fetch.Framing.{received}
use multi_threaded_proxy_ser.Proxy.State.{Options}
use multi_threaded_proxy_ser.Request.{find_header_end}
use multi_threaded_proxy_ser.Response.{Response, parse_response_headers, response_complete}
use multi_threaded_proxy_ser.Text.Wildcard.{take_of_length}

-- What the reading loop relies on: the head of `msg` is found from its end on and not before, reads
-- as `resp`, which frames `msg`, and both are within the limits.
pub record IsAnswer (opts : Options) (msg : Bytes) (head : ℕ) (resp : Response) : Type 0 where
  pub early : (k : ℕ) → k < head → find_header_end (take k msg) ≡ none
  pub found : (k : ℕ) → head ≤ k → find_header_end (take k msg) ≡ some head
  pub reads : (k : ℕ) → head ≤ k → parse_response_headers (take k msg) ≡ resp
  pub frames : (buf : Bytes) → response_complete buf resp ≡ leb (length msg) (length buf)
  pub valid : resp.valid ≡ true
  pub framed : resp.close_delimited ≡ false
  pub nonempty : 0 < head
  pub inside : head ≤ length msg
  pub head_fits : head ≤ opts.max_header_bytes
  pub fits : length msg ≤ opts.max_body_bytes

-- Calls of `recv` that read bytes or are interrupted by a signal.
abbrev pub Delivers : List Recv → Type 0
Delivers [] = Unit
Delivers (got [] ∷ recvs) = ⊥
Delivers (got (b ∷ tmp) ∷ recvs) = Delivers recvs
Delivers (interrupted ∷ recvs) = Delivers recvs
Delivers (would_block ∷ recvs) = ⊥
Delivers (failed text ∷ recvs) = ⊥

loop-more :
    (opts : Options) (buf : Bytes) (parsed p : Option Response) (b : ℕ) (tmp : Bytes)
    (recvs : List Recv)
    → after_read opts (buf ++ (b ∷ tmp)) parsed ≡ more p
    → read_loop opts buf parsed (got (b ∷ tmp) ∷ recvs) ≡ read_loop opts (buf ++ (b ∷ tmp)) p recvs
unfolding read_loop
loop-more opts buf parsed p b tmp recvs e = rw (e, read_loop) refl

loop-complete :
    (opts : Options) (buf : Bytes) (parsed : Option Response) (p : Response) (b : ℕ) (tmp : Bytes)
    (recvs : List Recv)
    → after_read opts (buf ++ (b ∷ tmp)) parsed ≡ complete p
    → read_loop opts buf parsed (got (b ∷ tmp) ∷ recvs) ≡ done (buf ++ (b ∷ tmp)) (some p)
unfolding read_loop
loop-complete opts buf parsed p b tmp recvs e = rw (e, read_loop) refl

loop-interrupted :
    (opts : Options) (buf : Bytes) (parsed : Option Response) (recvs : List Recv)
    → read_loop opts buf parsed (interrupted ∷ recvs) ≡ read_loop opts buf parsed recvs
unfolding read_loop
loop-interrupted opts buf parsed recvs = refl

-- The pieces put together.
pub joined :
    (msg : Bytes) (k : ℕ) (piece rest : Bytes)
    → k ≤ length msg
    → piece ++ rest ≡ drop k msg
    → (take k msg ++ piece ≡ take (k + length piece) msg)
      × (rest ≡ drop (k + length piece) msg)
      × (k + length piece ≤ length msg)
joined msg k piece rest le e =
    let front = take k msg ++ piece in
    let size : length front ≡ k + length piece =
      omega (arith, length-append (take k msg) piece, length-take k msg) in
    let whole : front ++ rest ≡ msg =
      append_assoc (take k msg) piece rest ∙ ap (λ t. take k msg ++ t) e ∙ take-append-drop k msg in
    (
      sym (
          ap (λ n. take n msg) (sym size)
          ∙ ap (take (length front)) (sym whole)
          ∙ take-length-append front rest),
      sym (
          ap (λ n. drop n msg) (sym size)
          ∙ ap (drop (length front)) (sym whole)
          ∙ drop-length-append front rest),
      omega (arith, size, length-append front rest, ap length whole),
    )

module _ (opts : Options) (msg : Bytes) (head : ℕ) (resp : Response)
    (h : IsAnswer opts msg head resp) where
  -- `parsed` once `k` bytes are there.
  abbrev known : ℕ → Option Response
  known k = if ltb k head then none else some resp

  verdict : Bool → Reading
  verdict whole = if whole then complete resp else more (some resp)

  check_body-verdict :
      (buf : Bytes)
      → length buf ≤ length msg
      → check_body opts buf resp ≡ verdict (leb (length msg) (length buf))
  unfolding check_body verdict
  check_body-verdict buf le =
      let small : ltb opts.max_body_bytes (length buf) ≡ false = ground (arith, h.fits) in
      rw (small, h.frames buf, h.framed) refl

  after_read-before : (k : ℕ) → k < head → after_read opts (take k msg) none ≡ more none
  unfolding after_read
  after_read-before k lt =
      let small : ltb opts.max_header_bytes (length (take k msg)) ≡ false =
        ground (arith, h.head_fits, length-take k msg) in
      rw (h.early k lt, small, after_read) refl

  after_read-first :
      (k : ℕ) → head ≤ k → after_read opts (take k msg) none ≡ check_body opts (take k msg) resp
  unfolding after_read
  after_read-first k le = rw (h.found k le, h.reads k le, h.valid, after_read) refl

  -- What follows a read that leaves `k` bytes, where the head is there.
  after_read-known :
      (j k : ℕ)
      → head ≤ k
      → k ≤ length msg
      → after_read opts (take k msg) (known j) ≡ verdict (leb (length msg) k)
  unfolding after_read
  after_read-known j k le inside =
      let size : length (take k msg) ≡ k = omega (arith, length-take k msg) in
      let checked : check_body opts (take k msg) resp ≡ verdict (leb (length msg) k) =
        check_body-verdict (take k msg) (omega (arith, size))
        ∙ ap (λ n. verdict (leb (length msg) n)) size in
      elim (Bool-cases (ltb j head)) [
        | inl e ↦ rw e (after_read-first k le ∙ checked)
        | inr e ↦ rw e checked
      ]

  unfinished : (k : ℕ) → k < length msg → verdict (leb (length msg) k) ≡ more (some resp)
  unfolding verdict
  unfinished k lt = let e : leb (length msg) k ≡ false = ground arith in rw e refl

  finished : verdict (leb (length msg) (length msg)) ≡ complete resp
  unfolding verdict
  finished = let e : leb (length msg) (length msg) ≡ true = ground arith in rw e refl

  after_read-more :
      (j k : ℕ) → j ≤ k → k < length msg → after_read opts (take k msg) (known j) ≡ more (known k)
  after_read-more j k le lt = elim (Bool-cases (ltb k head)) [
    | inl e ↦
        let before : ltb j head ≡ true = ground arith in
        rw (e, before) (after_read-before k (ground arith))
    | inr e ↦ rw e (after_read-known j k (ground arith) (omega arith) ∙ unfinished k lt)
  ]

  read_loop-delivers :
      (k : ℕ) (pieces later : List Recv)
      → k < length msg
      → Delivers pieces
      → received pieces ≡ drop k msg
      → read_loop opts (take k msg) (known k) (pieces ++ later) ≡ done msg (some resp)
  read_loop-delivers k [] later lt d e = absurd (omega (arith, ap length e, length-drop k msg))
  read_loop-delivers k (got [] ∷ recvs) later lt d e = elim d [ ]
  read_loop-delivers k (got (b ∷ tmp) ∷ recvs) later lt d e =
      let piece = b ∷ tmp in
      let n = k + length piece in
      let (grown, left, le) = joined msg k piece (received recvs) (omega arith) e in
      elim (Bool-cases (ltb n (length msg))) [
        | inl part ↦
            let lt' : n < length msg = ground arith in
            loop-more opts (take k msg) (known k) (known n) b tmp (recvs ++ later)
              (ap (λ t. after_read opts t (known k)) grown ∙ after_read-more k n (omega arith) lt')
            ∙ ap (λ t. read_loop opts t (known n) (recvs ++ later)) grown
            ∙ read_loop-delivers n recvs later lt' d left
        | inr full ↦
            let size : n ≡ length msg = ground (arith, le) in
            let all : take k msg ++ piece ≡ msg =
              grown ∙ take_of_length n msg (omega (arith, size)) in
            loop-complete opts (take k msg) (known k) resp b tmp (recvs ++ later) (
              ap (λ t. after_read opts t (known k)) grown
              ∙ after_read-known k n (omega (arith, size, h.inside)) le
              ∙ ap (λ m. verdict (leb (length msg) m)) size
              ∙ finished)
            ∙ ap (λ t. done t (some resp)) all
      ]
  read_loop-delivers k (interrupted ∷ recvs) later lt d e =
      loop-interrupted opts (take k msg) (known k) (recvs ++ later)
      ∙ read_loop-delivers k recvs later lt d e
  read_loop-delivers k (would_block ∷ recvs) later lt d e = elim d [ ]
  read_loop-delivers k (failed text ∷ recvs) later lt d e = elim d [ ]

  read_loop-all :
      (pieces later : List Recv)
      → Delivers pieces
      → received pieces ≡ msg
      → read_loop opts [] none (pieces ++ later) ≡ done msg (some resp)
  read_loop-all pieces later d e =
      let first : known 0 ≡ none =
        (let e' : ltb 0 head ≡ true = ground (arith, h.nonempty) in rw e' refl) in
      ap (λ p. read_loop opts [] p (pieces ++ later)) (sym first)
      ∙ read_loop-delivers 0 pieces later (omega (arith, h.nonempty, h.inside)) d e

finish-done :
    (msg : Bytes) (resp : Response)
    → 0 < length msg
    → finish_fetch (done msg (some resp))
      ≡ record { raw = msg; status = resp.status; ok = true; error = [] }
unfolding finish_fetch
finish-done [] resp h = absurd (omega arith)
finish-done (b ∷ msg) resp h = refl

-- An answer within the limits is fetched whole, whatever pieces `recv` delivers it in.
pub fetch_upstream-answer :
    (opts : Options) (msg : Bytes) (head : ℕ) (resp : Response) (link : Link)
    (pieces later : List Recv)
    → IsAnswer opts msg head resp
    → link.resolve_error ≡ none
    → link.socket_error ≡ none
    → link.connect_error ≡ none
    → link.send_error ≡ none
    → link.recvs ≡ pieces ++ later
    → Delivers pieces
    → received pieces ≡ msg
    → fetch_upstream opts link ≡ record { raw = msg; status = resp.status; ok = true; error = [] }
unfolding fetch_upstream
fetch_upstream-answer opts msg head resp link pieces later h no_resolve no_socket no_connect no_send
      calls d e =
    let some_byte : 0 < length msg = omega (arith, h.nonempty, h.inside) in
    let loop : read_loop opts [] none link.recvs ≡ done msg (some resp) =
      ap (read_loop opts [] none) calls ∙ read_loop-all opts msg head resp h pieces later d e in
    rw (no_resolve, no_socket, no_connect, no_send, fetch_upstream)
      (ap finish_fetch loop ∙ finish-done msg resp some_byte)
