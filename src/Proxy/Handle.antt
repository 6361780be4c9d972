-- ===== src/Proxy/Handle.antt =====
-- server_phase5.cpp, `handle_ready`: drain the socket, serve every complete request, re-arm or
-- close.
pub mod Total
pub mod Connection
mod Tests
use multi_threaded_proxy_ser.Base.{
  ℕ, zero, suc, ◌+◌, Bool, true, false, not, ◌&&◌, ◌||◌, Option, none, some, List, [], ◌∷◌, ◌++◌,
  length, drop, ltb, if◌then◌else◌, Bytes, codes, is_empty,
}
use multi_threaded_proxy_ser.Base.Int.{pos}
use multi_threaded_proxy_ser.AccessLog.{blank_entry, write}
use multi_threaded_proxy_ser.Proxy.Fetch.{
  Recv, got, interrupted, would_block, failed, fetch_upstream, read_loop, after_read, check_body,
  finish_fetch,
}
use multi_threaded_proxy_ser.Proxy.Serve.{
  Env, send_to_client, serve_one_request, serve_denied, serve_hit, serve_answer, forward,
  serve_allowed, finish, cacheable_request, cache_key,
}
use multi_threaded_proxy_ser.Proxy.State.{Options, Server, Conn, bump, drop_one, build_response}
use multi_threaded_proxy_ser.Request.{
  Request, find_header_end, parse_request, expected_request_bytes, parsing as request_parsing,
}
use multi_threaded_proxy_ser.Response.{parsing as response_parsing}
use multi_threaded_proxy_ser.Acl.{checking}
use multi_threaded_proxy_ser.Routing.{resolve, resolve_in, split_authority}
use multi_threaded_proxy_ser.Number.{to_string}
use multi_threaded_proxy_ser.Lru.{init}
use multi_threaded_proxy_ser.Lru.Sharded.{get_sharded, put_sharded, make, round_up_pow2}

-- How `handle_ready` leaves the connection: re-armed in epoll, or closed and freed.
pub data Outcome : Type 0 where
  rearmed : Server → Conn → Outcome
  closed : Server → Outcome
  out_of_fuel : Outcome

-- `close_conn`, as far as the counters go.
unfoldable pub close_conn : Server → Server
close_conn s = record s {
  stats = record s.stats { active_connections = drop_one s.stats.active_connections };
}

-- Step 1: the bytes read, whether the peer closed, and the `recv` results not yet used. Past their
-- end every `recv` would block.
pub data Drained : Type 0 where
  drained : Bytes → Bool → List Recv → Drained
  too_large : Drained
  broken : Drained

unfoldable pub drain : Options → Bytes → List Recv → Drained
drain opts inbuf [] = drained inbuf false []
drain opts inbuf (got [] ∷ recvs) = drained inbuf true recvs
drain opts inbuf (got (b ∷ tmp) ∷ recvs) =
    let longer = inbuf ++ (b ∷ tmp) in
    let rest = drain opts longer recvs in
    if ltb (opts.max_header_bytes + opts.max_body_bytes) (length longer) then too_large else rest
drain opts inbuf (interrupted ∷ recvs) = drain opts inbuf recvs
drain opts inbuf (would_block ∷ recvs) = drained inbuf false recvs
drain opts inbuf (failed text ∷ recvs) = broken

unfoldable pub reply_413 : Server → Server
reply_413 s = close_conn (
    send_to_client s (
      build_response 413 (codes "Payload Too Large") (codes "413 Payload Too Large\n") false
        (codes "text/plain")))

unfoldable pub reply_431 : Server → Server
reply_431 s0 =
    let s = send_to_client s0 (
      build_response 431 (codes "Request Header Fields Too Large") (codes "431 Header Too Large\n")
        false (codes "text/plain")) in
    close_conn (record s { stats = record s.stats { bad_requests = bump s.stats.bad_requests } })

abbrev pub or_dash : Bytes → Bytes
or_dash s = if is_empty s then codes "-" else s

unfoldable pub reply_400 : Env → Server → Conn → Request → Server
reply_400 env s0 c req =
    let body = codes "400 Bad Request: " ++ (req.parse_error ++ codes "\n") in
    let resp = build_response 400 (codes "Bad Request") body false (codes "text/plain") in
    let s =
      send_to_client
        (record s0 { stats = record s0.stats { bad_requests = bump s0.stats.bad_requests } })
        resp in
    let entry = record blank_entry {
      client_ip = c.client_ip;
      method = or_dash req.method;
      path = or_dash req.path;
      version = or_dash req.version;
      status = pos 400;
      bytes = length resp;
      acl = codes "-";
      rule = req.parse_error;
    } in
    close_conn (record s { log = write env.format_second s.log env.sec env.nsec entry })

-- Step 2: how the loop over the requests in the buffer ends.
pub data Served : Type 0 where
  waiting : Server → Conn → Bool → Served
  ended : Server → Served
  no_fuel : Served

-- What one round does with a request that was parsed: `none` when its body is still arriving.
unfoldable pub serve_parsed :
    Env → Options → Server → Conn → Request → Option (Server × Conn × Bool)
serve_parsed env opts s c req =
    let need = expected_request_bytes req in
    if ltb (length c.inbuf) need
    then none
    else (let (s1, keep) = serve_one_request env opts s c req need in
        some (
          s1,
          record c { inbuf = drop need c.inbuf; requests_served = c.requests_served + 1 },
          keep,
        ))

-- The loop; `envs` gives the world around each request of the connection.
unfoldable pub serve_buffer : ℕ → (ℕ → Env) → Options → Server → Conn → Bool → Served
serve_buffer zero envs opts s c served_any = no_fuel
serve_buffer (suc fuel) envs opts s c served_any = elim (find_header_end c.inbuf) [
  | none ↦
      if ltb opts.max_header_bytes (length c.inbuf)
      then ended (reply_431 s)
      else waiting s c served_any
  | some hend ↦
      (let req = parse_request c.inbuf in
        let env = envs c.requests_served in
        let round : Served = elim (serve_parsed env opts s c req) [
          | none ↦ waiting s c served_any
          | some (s1, c1, keep) ↦
              (let rest = serve_buffer fuel envs opts s1 c1 true in
                if keep then rest else ended (close_conn s1))
        ] in
        if req.valid then round else ended (reply_400 env s c req))
]

-- The outer loop. `rearm` is whether `epoll_ctl(EPOLL_CTL_MOD)` succeeds.
unfoldable pub handle_loop : ℕ → (ℕ → Env) → Options → Bool → Server → Conn → List Recv → Outcome
handle_loop zero envs opts rearm s c recvs = out_of_fuel
handle_loop (suc fuel) envs opts rearm s c recvs = elim (drain opts c.inbuf recvs) [
  | too_large ↦ closed (reply_413 s)
  | broken ↦ closed (close_conn s)
  | drained inbuf peer_closed rest ↦
      (let c1 = record c { inbuf = inbuf } in
        elim (serve_buffer (suc (length inbuf)) envs opts s c1 false) [
          | ended s1 ↦ closed s1
          | no_fuel ↦ out_of_fuel
          | waiting s1 c2 served_any ↦
              (let again = handle_loop fuel envs opts rearm s1 c2 rest in
                if peer_closed
                then closed (close_conn s1)
                else if served_any
                then again
                else if rearm
                then rearmed s1 c2
                else closed (close_conn s1))
        ])
]

-- The bytes that the `recv` results still hold.
unfoldable pub pending : List Recv → ℕ
pending [] = 0
pending (got tmp ∷ recvs) = length tmp + pending recvs
pending (interrupted ∷ recvs) = pending recvs
pending (would_block ∷ recvs) = pending recvs
pending (failed text ∷ recvs) = pending recvs

unfoldable pub handle_ready : (ℕ → Env) → Options → Bool → Server → Conn → List Recv → Outcome
handle_ready envs opts rearm s c recvs =
    handle_loop (suc (length c.inbuf + pending recvs)) envs opts rearm s c recvs

-- The definitions that a run on concrete bytes computes with.
unfoldable pub running : Unit {0}
unfolding close_conn reply_413 reply_431 reply_400 drain serve_parsed serve_buffer handle_loop
    pending handle_ready serve_one_request serve_denied serve_hit serve_answer forward serve_allowed
    finish cacheable_request cache_key build_response write fetch_upstream read_loop after_read
    check_body finish_fetch checking resolve resolve_in split_authority get_sharded put_sharded make
    round_up_pow2 init to_string request_parsing response_parsing
running = tt
