-- ===== src/Proxy/Handle/Total.antt =====
-- `handle_ready` always ends: each round that serves a request takes bytes out of the buffer.
use multi_threaded_proxy_ser.Base.{
  ℕ, zero, suc, ◌+◌, ◌≤◌, ◌<◌, Bool, true, false, some, List, [], ◌∷◌, ◌++◌, length, ltb, Bytes,
  ◌≡◌, ◌≢◌, ◌⊎◌, refl, arith, Bool-cases, Option-cases, inl, inr, length-append, length-drop,
}
use multi_threaded_proxy_ser.Proxy.Fetch.{Recv, got, interrupted, would_block, failed}
use multi_threaded_proxy_ser.Proxy.Handle.{
  out_of_fuel, Drained, drained, too_large, broken, drain, Served, waiting, ended, no_fuel,
  serve_parsed, serve_buffer, handle_loop, handle_ready, pending,
}
use multi_threaded_proxy_ser.Proxy.Serve.{Env}
use multi_threaded_proxy_ser.Proxy.State.{Options, Server, Conn}
use multi_threaded_proxy_ser.Request.Shape.{
  find_header_end_bounds, parse_request_keeps, expected_request_bytes-le,
}
use multi_threaded_proxy_ser.Request.{find_header_end, parse_request, expected_request_bytes}

-- What `drain` moves into the buffer is no longer pending.
drain-pending :
    (opts : Options) (inbuf : Bytes) (recvs : List Recv) (inbuf' : Bytes) (peer : Bool)
    (rest : List Recv)
    → drain opts inbuf recvs ≡ drained inbuf' peer rest
    → length inbuf' + pending rest ≤ length inbuf + pending recvs
unfolding drain pending
drain-pending opts inbuf [] inbuf' peer rest h = ground arith
drain-pending opts inbuf (got [] ∷ recvs) inbuf' peer rest h = ground arith
drain-pending opts inbuf (got (b ∷ tmp) ∷ recvs) inbuf' peer rest h = ground (
  arith,
  drain-pending opts (inbuf ++ (b ∷ tmp)) recvs inbuf' peer rest,
  length-append inbuf (b ∷ tmp),
)
drain-pending opts inbuf (interrupted ∷ recvs) inbuf' peer rest h =
    drain-pending opts inbuf recvs inbuf' peer rest h
drain-pending opts inbuf (would_block ∷ recvs) inbuf' peer rest h = ground arith
drain-pending opts inbuf (failed text ∷ recvs) inbuf' peer rest h = cc

-- A round that serves a request leaves a shorter buffer.
serve_parsed-shorter :
    (env : Env) (opts : Options) (s s' : Server) (c c' : Conn) (hend : ℕ) (keep : Bool)
    → find_header_end c.inbuf ≡ some hend
    → serve_parsed env opts s c (parse_request c.inbuf) ≡ some (s', c', keep)
    → length c'.inbuf < length c.inbuf
unfolding serve_parsed
serve_parsed-shorter env opts s s' c c' hend keep found h =
    let req = parse_request c.inbuf in
    ground (
      arith,
      find_header_end_bounds c.inbuf hend found,
      (parse_request_keeps c.inbuf).1 hend found,
      expected_request_bytes-le req,
      length-drop (expected_request_bytes req) c.inbuf,
    )

-- The result of the loop over the buffer: never out of fuel, never a longer buffer, and a shorter
-- one if a request was served.
abbrev Shrinks : ℕ → Bool → Served → Type 0
Shrinks n before (waiting s c served_any) =
    (length c.inbuf ≤ n) × (served_any ≡ true → (before ≡ true) ⊎ (length c.inbuf < n))
Shrinks n before (ended s) = Unit
Shrinks n before no_fuel = ⊥

Shrinks-more :
    (m n : ℕ) (before : Bool) (r : Served) → m < n → Shrinks m true r → Shrinks n before r
Shrinks-more m n before (waiting s c served_any) h k =
    (omega (arith, k.0), λ e. inr (omega (arith, k.0)))
Shrinks-more m n before (ended s) h k = tt
Shrinks-more m n before no_fuel h k = k

serve_buffer-Shrinks :
    (fuel : ℕ) (envs : ℕ → Env) (opts : Options) (s : Server) (c : Conn) (before : Bool)
    → length c.inbuf < fuel
    → Shrinks (length c.inbuf) before (serve_buffer fuel envs opts s c before)
unfolding serve_buffer
serve_buffer-Shrinks zero envs opts s c before h = elim h [ ]
serve_buffer-Shrinks (suc fuel) envs opts s c before h =
    let req = parse_request c.inbuf in
    let env = envs c.requests_served in
    let kept : Shrinks (length c.inbuf) before (waiting s c before) = (omega arith, λ e. inl e) in
    elim (Option-cases (find_header_end c.inbuf)) [
      | inl miss ↦
          rw (miss, serve_buffer)
            (elim (Bool-cases (ltb opts.max_header_bytes (length c.inbuf))) [
              | inl big ↦ rw big tt
              | inr small ↦ rw small kept
            ])
      | inr (hend, found) ↦
          rw (found, serve_buffer)
            (elim (Option-cases (serve_parsed env opts s c req)) [
              | inl wait ↦
                  rw wait
                    (elim (Bool-cases req.valid) [ inr bad ↦ rw bad tt | inl good ↦ rw good kept ])
              | inr (r, went) ↦
                  let shorter = serve_parsed-shorter env opts s r.0 c r.1 hend r.2 found went in
                  let rest =
                    Shrinks-more (length r.1.inbuf) (length c.inbuf) before
                      (serve_buffer fuel envs opts r.0 r.1 true) shorter
                      (serve_buffer-Shrinks fuel envs opts r.0 r.1 true (omega (arith, shorter))) in
                  rw went (elim (Bool-cases req.valid) [
                    | inr bad ↦ rw bad tt
                    | inl good ↦
                        rw good (elim (Bool-cases r.2) [
                          | inr stop ↦ rw stop tt
                          | inl keep ↦ rw keep rest
                        ])
                  ])
            ])
    ]

-- The cases of what draining and serving give, with the equation kept.
pub Drained-cases :
    (d : Drained)
    → (d ≡ too_large)
      ⊎ (d ≡ broken)
      ⊎ ((b : Bytes) × (p : Bool) × (r : List Recv) × (d ≡ drained b p r))
Drained-cases too_large = inl refl
Drained-cases broken = inr (inl refl)
Drained-cases (drained b p r) = inr (inr (b, p, r, refl))

pub Served-cases :
    (d : Served)
    → (d ≡ no_fuel)
      ⊎ ((s : Server) × (d ≡ ended s))
      ⊎ ((s : Server) × (c : Conn) × (b : Bool) × (d ≡ waiting s c b))
Served-cases no_fuel = inl refl
Served-cases (ended s) = inr (inl (s, refl))
Served-cases (waiting s c b) = inr (inr (s, c, b, refl))

handle_loop-ne-out_of_fuel :
    (fuel : ℕ) (envs : ℕ → Env) (opts : Options) (rearm : Bool) (s : Server) (c : Conn)
    (recvs : List Recv)
    → length c.inbuf + pending recvs < fuel
    → handle_loop fuel envs opts rearm s c recvs ≢ out_of_fuel
unfolding handle_loop
handle_loop-ne-out_of_fuel zero envs opts rearm s c recvs h = elim h [ ]
handle_loop-ne-out_of_fuel (suc fuel) envs opts rearm s c recvs h =
    elim (Drained-cases (drain opts c.inbuf recvs)) [
      | inl e ↦ rw (e, handle_loop) (λ p. cc)
      | inr (inl e) ↦ rw (e, handle_loop) (λ p. cc)
      | inr (inr (inbuf, peer, rest, e)) ↦
          let c1 : Conn = record c { inbuf = inbuf } in
          let moved = drain-pending opts c.inbuf recvs inbuf peer rest e in
          let shrinks =
            serve_buffer-Shrinks (suc (length inbuf)) envs opts s c1 false (omega arith) in
          rw (e, handle_loop)
            (elim (Served-cases (serve_buffer (suc (length inbuf)) envs opts s c1 false)) [
              | inl bad ↦ absurd (rw bad at shrinks)
              | inr (inl (s1, stop)) ↦ rw stop (λ p. cc)
              | inr (inr (s1, c2, any, more)) ↦
                  let shorter : Shrinks (length inbuf) false (waiting s1 c2 any) =
                    rw more at shrinks in
                  rw more (elim (Bool-cases peer) [
                    | inl gone ↦ rw gone (λ p. cc)
                    | inr alive ↦ rw alive (elim (Bool-cases any) [
                      | inl yes_any ↦ rw yes_any (
                          handle_loop-ne-out_of_fuel fuel envs opts rearm s1 c2 rest
                            (ground (arith, shorter.1 yes_any)))
                      | inr none_served ↦ rw none_served (elim (Bool-cases rearm) [
                        | inl armed ↦ rw armed (λ p. cc)
                        | inr lost ↦ rw lost (λ p. cc)
                      ])
                    ])
                  ])
            ])
    ]

-- `handle_ready` ends on every input: one more round than there are bytes in the buffer and in the
-- `recv` results is always enough for its loops.
pub handle_ready-ne-out_of_fuel :
    (envs : ℕ → Env) (opts : Options) (rearm : Bool) (s : Server) (c : Conn) (recvs : List Recv)
    → handle_ready envs opts rearm s c recvs ≢ out_of_fuel
unfolding handle_ready
handle_ready-ne-out_of_fuel envs opts rearm s c recvs =
    handle_loop-ne-out_of_fuel (suc (length c.inbuf + pending recvs)) envs opts rearm s c recvs
      (omega arith)
