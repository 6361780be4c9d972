-- ===== src/Origin.antt =====
-- origin_server.cpp, the origin that the benchmarks run behind the proxy: its answers, `send_all`
-- and `handle`. What the socket calls return is a parameter.
pub mod Send
pub mod Answer
pub mod Serve
pub mod Deliver
mod Tests
use multi_threaded_proxy_ser.Base.{
  ℕ, zero, suc, ◌+◌, ◌-◌, ◌%◌, ◌^◌, Bool, true, false, not, ◌&&◌, ◌||◌, Option, none, some, List,
  [], ◌∷◌, ◌++◌, length, take, drop, ltb, ◌==◌, if◌then◌else◌, Bytes, codes,
}
use multi_threaded_proxy_ser.Number.{to_string}
use multi_threaded_proxy_ser.Proxy.Fetch.{Recv, got, interrupted, would_block, failed}
use multi_threaded_proxy_ser.Proxy.Send.{SendResult}
use multi_threaded_proxy_ser.Proxy.Send as Socket
use multi_threaded_proxy_ser.Request.{crlf}
use multi_threaded_proxy_ser.Text.{substr, find, contains, find_byte, find_byte_from, to_lower}

-- `g_body_size` and `g_keep_alive`.
pub record Config : Type 0 where
  pub body_size : ℕ
  pub keep_alive : Bool

abbrev pub default_config : Config
default_config = record { body_size = 512; keep_alive = true }

-- The request target, or "/".
unfoldable pub target_path : Bytes → Bytes
target_path head = elim (find_byte b' ' head) [
  | none ↦ codes "/"
  | some sp1 ↦ elim (find_byte_from b' ' head (sp1 + 1)) [
    | none ↦ codes "/"
    | some sp2 ↦ substr head (sp1 + 1) (sp2 - sp1 - 1)
  ]
]

unfoldable pub asks_close : Bytes → Bool
asks_close head = contains (codes "connection: close") (to_lower head)

-- `while (body.size() < g_body_size) body += "x";`; with as much fuel as the size it ends.
unfoldable pub fill : ℕ → ℕ → Bytes → Bytes
fill zero size body = body
fill (suc fuel) size body =
    if ltb (length body) size then fill fuel size (body ++ b'x' ∷ []) else body

abbrev pub zeros : ℕ → Bytes
zeros zero = []
zeros (suc n) = 0 ∷ zeros n

-- `body.resize(size)`.
abbrev pub resize : ℕ → Bytes → Bytes
resize size body = take size body ++ zeros (size - length body)

unfoldable pub make_body : Config → Bytes → Bytes
unfolding fill
make_body cfg path =
    resize cfg.body_size
      (fill cfg.body_size cfg.body_size (codes "origin-response path=" ++ (path ++ codes " ")))

unfoldable pub make_answer : Bytes → Bool → Bytes
unfolding to_string
make_answer body keep =
    codes "HTTP/1.1 200 OK"
    ++ (crlf
        ++ (codes "Content-Type: text/plain"
            ++ (crlf
                ++ (codes "Content-Length: "
                    ++ (to_string (length body)
                        ++ (crlf
                            ++ (codes "Cache-Control: max-age=60"
                                ++ (crlf
                                    ++ (codes "Connection: "
                                        ++ ((if keep then codes "keep-alive" else codes "close")
                                            ++ (crlf ++ (crlf ++ body))))))))))))

-- The result of `send_all`, the bytes that the socket took, and the results of `send` and `poll`
-- not yet used; `none` is a call that has not returned when the results end.
pub record Sent : Type 0 where
  pub result : Option Bool
  pub delivered : Bytes
  pub unused : List SendResult

-- The loop; `left` is `d + sent`, of `len - sent` bytes.
unfoldable pub send_loop : Bytes → Bytes → List SendResult → Sent
send_loop delivered [] sends = record { result = some true; delivered = delivered; unused = sends }
send_loop delivered (b ∷ left) [] = record { result = none; delivered = delivered; unused = [] }
send_loop delivered (b ∷ left) (Socket.accepted n ∷ sends) =
    let rest = send_loop (delivered ++ take n (b ∷ left)) (drop n (b ∷ left)) sends in
    if n == 0 then record { result = some false; delivered = delivered; unused = sends } else rest
send_loop delivered (b ∷ left) (Socket.would_block writable ∷ sends) =
    let rest = send_loop delivered (b ∷ left) sends in
    if writable then rest else record { result = some false; delivered = delivered; unused = sends }
send_loop delivered (b ∷ left) (Socket.interrupted ∷ sends) = send_loop delivered (b ∷ left) sends
send_loop delivered (b ∷ left) (Socket.failed ∷ sends) = record {
  result = some false;
  delivered = delivered;
  unused = sends;
}

unfoldable pub send_all : Bytes → List SendResult → Sent
unfolding send_loop
send_all text sends = send_loop [] text sends

-- What `handle` changes: the buffer of the connection, `client_wants_close`, `g_requests`, what the
-- client was sent, and the results of `send` not yet used.
pub record State : Type 0 where
  pub inbuf : Bytes
  pub wants_close : Bool
  pub requests : ℕ
  pub delivered : Bytes
  pub sends : List SendResult

-- The reading loop. Past the end of the results every `recv` would block.
pub data Drained : Type 0 where
  drained : Bytes → Bool → Drained
  broken : Drained

unfoldable pub drain : Bytes → List Recv → Drained
drain inbuf [] = drained inbuf false
drain inbuf (got [] ∷ recvs) = drained inbuf true
drain inbuf (got (b ∷ tmp) ∷ recvs) = drain (inbuf ++ (b ∷ tmp)) recvs
drain inbuf (interrupted ∷ recvs) = drain inbuf recvs
drain inbuf (would_block ∷ recvs) = drained inbuf false
drain inbuf (failed text ∷ recvs) = broken

-- How the loop over the requests ends: no request is left; the connection was closed; or a call of
-- `send` has not returned.
pub data Served : Type 0 where
  waiting : State → Served
  ended : State → Served
  sending : State → Served
  no_fuel : Served

-- One round, for a head of `hend` bytes: the state after the answer, what `send_all` returned, and
-- `keep`.
unfoldable pub answer_head : Config → State → ℕ → State × Option Bool × Bool
answer_head cfg s hend =
    let head = take hend s.inbuf in
    let wants_close = s.wants_close || asks_close head in
    let keep = cfg.keep_alive && not wants_close in
    let sent = send_all (make_answer (make_body cfg (target_path head)) keep) s.sends in
    (
      record {
        inbuf = drop (hend + 4) s.inbuf;
        wants_close = wants_close;
        requests = (s.requests + 1) % 2 ^ 64;
        delivered = s.delivered ++ sent.delivered;
        sends = sent.unused;
      },
      sent.result,
      keep,
    )

-- What a round leads to.
unfoldable pub after_answer : State → Option Bool → Bool → Served → Served
after_answer s none keep rest = sending s
after_answer s (some false) keep rest = ended s
after_answer s (some true) keep rest = if keep then rest else ended s

unfoldable pub serve : ℕ → Config → State → Served
unfolding after_answer
serve zero cfg s = no_fuel
serve (suc fuel) cfg s = elim (find (crlf ++ crlf) s.inbuf) [
  | none ↦ waiting s
  | some hend ↦
      (let (s1, result, keep) = answer_head cfg s hend in
        after_answer s1 result keep (serve fuel cfg s1))
]

-- How `handle` leaves the connection: re-armed in epoll, or closed and freed.
pub data Outcome : Type 0 where
  rearmed : State → Outcome
  closed : State → Outcome
  unreturned : State → Outcome
  out_of_fuel : Outcome

unfoldable pub finish : Bool → Bool → Served → Outcome
finish peer_closed rearm (waiting s) =
    if peer_closed then closed s else if rearm then rearmed s else closed s
finish peer_closed rearm (ended s) = closed s
finish peer_closed rearm (sending s) = unreturned s
finish peer_closed rearm no_fuel = out_of_fuel

-- `rearm` is whether `epoll_ctl(EPOLL_CTL_MOD)` succeeds, `requests` the value of `g_requests`.
unfoldable pub handle : Config → Bool → ℕ → Bytes → List Recv → List SendResult → Outcome
handle cfg rearm requests inbuf recvs sends = elim (drain inbuf recvs) [
  | broken ↦ closed (record {
    inbuf = inbuf;
    wants_close = false;
    requests = requests;
    delivered = [];
    sends = sends;
  })
  | drained longer peer_closed ↦ finish peer_closed rearm (
      serve (suc (length longer)) cfg (record {
        inbuf = longer;
        wants_close = false;
        requests = requests;
        delivered = [];
        sends = sends;
      }))
]

-- The definitions that a run on concrete bytes computes with.
unfoldable pub running : Unit {0}
unfolding target_path asks_close fill make_body make_answer send_loop send_all drain answer_head
    after_answer serve finish handle to_string find to_lower find_byte find_byte_from
running = tt
