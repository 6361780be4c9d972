-- ===== src/Proxy/Handle/Connection.antt =====
-- How a connection leaves the shared state: the count of open connections, and a sound cache.
use multi_threaded_proxy_ser.Base.{
  ℕ, zero, suc, ◌+◌, Bool, true, false, some, List, length, ltb, if◌then◌else◌, ◌≡◌, ◌≢◌, refl,
  Bool-cases, Option-cases, inl, inr, ◌∙◌, ap,
}
use multi_threaded_proxy_ser.Base.Eq.{bytes_key}
use multi_threaded_proxy_ser.Lru.Sharded.Laws.{IsSound}
use multi_threaded_proxy_ser.Proxy.Fetch.{Recv}
use multi_threaded_proxy_ser.Proxy.Handle.{
  Outcome, rearmed, closed, out_of_fuel, drain, Served, waiting, ended, no_fuel, serve_parsed,
  serve_buffer, handle_loop, handle_ready, pending, close_conn, reply_400, reply_431, reply_413,
}
use multi_threaded_proxy_ser.Proxy.Handle.Total.{
  Drained-cases, Served-cases, handle_ready-ne-out_of_fuel,
}
use multi_threaded_proxy_ser.Proxy.Serve.{Env, serve_one_request}
use multi_threaded_proxy_ser.Proxy.Serve.Policy.{
  Counts, denied, from_cache, forwarded, failed, serve_one_request-Counts,
}
use multi_threaded_proxy_ser.Proxy.Serve.Caching.{serve_one_request-IsSound}
use multi_threaded_proxy_ser.Proxy.State.{Options, Stats, Server, Conn, drop_one}
use multi_threaded_proxy_ser.Request.{
  Request, find_header_end, parse_request, expected_request_bytes,
}

-- The connection still counts as open, and a cache that was sound is sound.
pub record Continues (s t : Server) : Type 0 where
  pub active : t.stats.active_connections ≡ s.stats.active_connections
  pub sound : IsSound s.cache → IsSound t.cache

-- The connection is no longer counted, and a cache that was sound is sound.
pub record Ends (s t : Server) : Type 0 where
  pub active : t.stats.active_connections ≡ drop_one s.stats.active_connections
  pub sound : IsSound s.cache → IsSound t.cache

same_state : (s : Server) → Continues s s
same_state s = record { active = refl; sound = λ h. h }

Continues-trans : (s t u : Server) → Continues s t → Continues t u → Continues s u
Continues-trans s t u h k = record {
  active = k.active ∙ h.active;
  sound = λ p. k.sound (h.sound p);
}

Continues-Ends : (s t u : Server) → Continues s t → Ends t u → Ends s u
Continues-Ends s t u h k = record {
  active = k.active ∙ ap drop_one h.active;
  sound = λ p. k.sound (h.sound p);
}

close_conn-Ends : (s : Server) → Ends s (close_conn s)
unfolding close_conn
close_conn-Ends s = record { active = refl; sound = λ h. h }

reply_413-Ends : (s : Server) → Ends s (reply_413 s)
unfolding reply_413 close_conn
reply_413-Ends s = record { active = refl; sound = λ h. h }

reply_431-Ends : (s : Server) → Ends s (reply_431 s)
unfolding reply_431 close_conn
reply_431-Ends s = record { active = refl; sound = λ h. h }

reply_400-Ends :
    (env : Env) (s : Server) (c : Conn) (req : Request) → Ends s (reply_400 env s c req)
unfolding reply_400 close_conn
reply_400-Ends env s c req = record { active = refl; sound = λ h. h }

Counts-active :
    (before after : Stats)
    → Counts before after
    → after.active_connections ≡ before.active_connections
Counts-active before after denied = refl
Counts-active before after from_cache = refl
Counts-active before after forwarded = refl
Counts-active before after failed = refl

serve_one_request-Continues :
    (env : Env) (opts : Options) (s : Server) (c : Conn) (req : Request) (consumed : ℕ)
    → Continues s (serve_one_request env opts s c req consumed).0
serve_one_request-Continues env opts s c req consumed = record {
  active =
      Counts-active s.stats (serve_one_request env opts s c req consumed).0.stats
        (serve_one_request-Counts env opts s c req consumed);
  sound = serve_one_request-IsSound env opts s c req consumed;
}

serve_parsed-Continues :
    (env : Env) (opts : Options) (s s' : Server) (c c' : Conn) (req : Request) (keep : Bool)
    → serve_parsed env opts s c req ≡ some (s', c', keep)
    → Continues s s'
unfolding serve_parsed
serve_parsed-Continues env opts s s' c c' req keep h =
    let need = expected_request_bytes req in
    elim (Bool-cases (ltb (length c.inbuf) need)) [
      | inl short ↦ absurd (let e = rw short at h in cc)
      | inr whole ↦
          let e = rw whole at h in
          let same : (serve_one_request env opts s c req need).0 ≡ s' = cc in
          rw same at (serve_one_request-Continues env opts s c req need)
    ]

abbrev ServedWell : Server → Served → Type 0
ServedWell s (waiting t c served_any) = Continues s t
ServedWell s (ended t) = Ends s t
ServedWell s no_fuel = Unit

ServedWell-trans : (s t : Server) (r : Served) → Continues s t → ServedWell t r → ServedWell s r
ServedWell-trans s t (waiting u c served_any) h k = Continues-trans s t u h k
ServedWell-trans s t (ended u) h k = Continues-Ends s t u h k
ServedWell-trans s t no_fuel h k = tt

-- A test that either goes on or ends the connection.
unless_invalid :
    (s t : Server) (valid : Bool) (round : Served)
    → ServedWell s round
    → Ends s t
    → ServedWell s (if valid then round else ended t)
unless_invalid s t true round h k = h
unless_invalid s t false round h k = k

serve_buffer-ServedWell :
    (fuel : ℕ) (envs : ℕ → Env) (opts : Options) (s : Server) (c : Conn) (before : Bool)
    → ServedWell s (serve_buffer fuel envs opts s c before)
unfolding serve_buffer
serve_buffer-ServedWell zero envs opts s c before = tt
serve_buffer-ServedWell (suc fuel) envs opts s c before =
    let req = parse_request c.inbuf in
    let env = envs c.requests_served in
    elim (Option-cases (find_header_end c.inbuf)) [
      | inl miss ↦
          rw (miss, serve_buffer)
            (elim (Bool-cases (ltb opts.max_header_bytes (length c.inbuf))) [
              | inl big ↦ rw big (reply_431-Ends s)
              | inr small ↦ rw small (same_state s)
            ])
      | inr (hend, found) ↦
          rw (found, serve_buffer)
            (elim (Option-cases (serve_parsed env opts s c req)) [
              | inl wait ↦ rw wait (
                  unless_invalid s (reply_400 env s c req) req.valid (waiting s c before)
                    (same_state s) (reply_400-Ends env s c req))
              | inr (r, went) ↦
                  let step = serve_parsed-Continues env opts s r.0 c r.1 req r.2 went in
                  let on = serve_buffer fuel envs opts r.0 r.1 true in
                  rw went (
                    unless_invalid s (reply_400 env s c req) req.valid
                      (if r.2 then on else ended (close_conn r.0))
                      (unless_invalid s (close_conn r.0) r.2 on
                        (ServedWell-trans s r.0 on step
                          (serve_buffer-ServedWell fuel envs opts r.0 r.1 true))
                        (Continues-Ends s r.0 (close_conn r.0) step (close_conn-Ends r.0)))
                      (reply_400-Ends env s c req))
            ])
    ]

-- What a run of the loop leaves, if its fuel lasts.
abbrev MayLeave : Server → Outcome → Type 0
MayLeave s (rearmed t c) = Continues s t
MayLeave s (closed t) = Ends s t
MayLeave s out_of_fuel = Unit

MayLeave-trans : (s t : Server) (o : Outcome) → Continues s t → MayLeave t o → MayLeave s o
MayLeave-trans s t (rearmed u c) h k = Continues-trans s t u h k
MayLeave-trans s t (closed u) h k = Continues-Ends s t u h k
MayLeave-trans s t out_of_fuel h k = tt

handle_loop-MayLeave :
    (fuel : ℕ) (envs : ℕ → Env) (opts : Options) (rearm : Bool) (s : Server) (c : Conn)
    (recvs : List Recv)
    → MayLeave s (handle_loop fuel envs opts rearm s c recvs)
unfolding handle_loop
handle_loop-MayLeave zero envs opts rearm s c recvs = tt
handle_loop-MayLeave (suc fuel) envs opts rearm s c recvs =
    elim (Drained-cases (drain opts c.inbuf recvs)) [
      | inl e ↦ rw (e, handle_loop) (reply_413-Ends s)
      | inr (inl e) ↦ rw (e, handle_loop) (close_conn-Ends s)
      | inr (inr (inbuf, peer, rest, e)) ↦
          let c1 : Conn = record c { inbuf = inbuf } in
          let served = serve_buffer-ServedWell (suc (length inbuf)) envs opts s c1 false in
          rw (e, handle_loop)
            (elim (Served-cases (serve_buffer (suc (length inbuf)) envs opts s c1 false)) [
              | inl bad ↦ rw bad tt
              | inr (inl (s1, stop)) ↦ rw stop (rw stop at served)
              | inr (inr (s1, c2, any, more)) ↦
                  let step : ServedWell s (waiting s1 c2 any) = rw more at served in
                  let gone = Continues-Ends s s1 (close_conn s1) step (close_conn-Ends s1) in
                  rw more (elim (Bool-cases peer) [
                    | inl left ↦ rw left gone
                    | inr alive ↦ rw alive (elim (Bool-cases any) [
                      | inl again ↦ rw again (
                          MayLeave-trans s s1 (handle_loop fuel envs opts rearm s1 c2 rest) step
                            (handle_loop-MayLeave fuel envs opts rearm s1 c2 rest))
                      | inr none_served ↦ rw none_served (elim (Bool-cases rearm) [
                        | inl armed ↦ rw armed step
                        | inr lost ↦ rw lost gone
                      ])
                    ])
                  ])
            ])
    ]

handle_ready-MayLeave :
    (envs : ℕ → Env) (opts : Options) (rearm : Bool) (s : Server) (c : Conn) (recvs : List Recv)
    → MayLeave s (handle_ready envs opts rearm s c recvs)
unfolding handle_ready
handle_ready-MayLeave envs opts rearm s c recvs =
    handle_loop-MayLeave (suc (length c.inbuf + pending recvs)) envs opts rearm s c recvs

-- What `handle_ready` leaves: an open connection counted as before, or a closed one counted off once.
abbrev pub LeavesWell : Server → Outcome → Type 0
LeavesWell s (rearmed t c) = Continues s t
LeavesWell s (closed t) = Ends s t
LeavesWell s out_of_fuel = ⊥

MayLeave-LeavesWell : (s : Server) (o : Outcome) → o ≢ out_of_fuel → MayLeave s o → LeavesWell s o
MayLeave-LeavesWell s (rearmed t c) ends h = h
MayLeave-LeavesWell s (closed t) ends h = h
MayLeave-LeavesWell s out_of_fuel ends h = ends refl

-- Whatever a client sends, in whatever pieces, and whatever upstreams do: where `handle_ready`
-- re-arms a connection, the count of open connections is as before; where it closes it, the count
-- is one less, modulo 2 ^ 64, on every path; and if the cache was sound before, it is sound
-- afterwards.
pub handle_ready-LeavesWell :
    (envs : ℕ → Env) (opts : Options) (rearm : Bool) (s : Server) (c : Conn) (recvs : List Recv)
    → LeavesWell s (handle_ready envs opts rearm s c recvs)
handle_ready-LeavesWell envs opts rearm s c recvs =
    MayLeave-LeavesWell s (handle_ready envs opts rearm s c recvs)
      (handle_ready-ne-out_of_fuel envs opts rearm s c recvs)
      (handle_ready-MayLeave envs opts rearm s c recvs)
