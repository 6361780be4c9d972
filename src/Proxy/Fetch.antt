-- ===== src/Proxy/Fetch.antt =====
-- server_phase5.cpp, `fetch_upstream`. What the resolver and the socket calls return is a parameter.
pub mod Delivery
pub mod Framing
pub mod Sized
mod Tests
use multi_threaded_proxy_ser.Base.{
  ℕ, Bool, true, false, not, ◌&&◌, Option, none, some, List, [], ◌∷◌, ◌++◌, length, ltb,
  if◌then◌else◌, Bytes, codes,
}
use multi_threaded_proxy_ser.Base.Int.{ℤ, pos}
use multi_threaded_proxy_ser.Proxy.State.{Options}
use multi_threaded_proxy_ser.Request.{find_header_end}
use multi_threaded_proxy_ser.Response.{Response, parse_response_headers, response_complete}

-- A call of `recv`: the bytes that it reads, none at the end of the stream; a signal; `EAGAIN`,
-- which is a timeout on a blocking socket; or another error with its text.
pub data Recv : Type 0 where
  got : Bytes → Recv
  interrupted : Recv
  would_block : Recv
  failed : Bytes → Recv

-- What the calls in front of the reading loop return, an error with its text, and the results of
-- the `recv` calls. Past their end every `recv` times out, as `SO_RCVTIMEO` has it.
pub record Link : Type 0 where
  pub resolve_error : Option Bytes
  pub socket_error : Option Bytes
  pub connect_error : Option Bytes
  pub send_error : Option Bytes
  pub recvs : List Recv

pub record UpstreamResult : Type 0 where
  pub raw : Bytes
  pub status : ℤ
  pub ok : Bool
  pub error : Bytes

abbrev pub failure : Bytes → UpstreamResult
failure error = record { raw = []; status = pos 0; ok = false; error = error }

-- How the loop goes on after bytes were read, with `parsed` if `have_headers`; and how it ends.
pub data Reading : Type 0 where
  more : Option Response → Reading
  complete : Response → Reading
  refused : Bytes → Reading

pub data FetchEnd : Type 0 where
  done : Bytes → Option Response → FetchEnd
  error : Bytes → FetchEnd

-- `if (have_headers) { … }`.
unfoldable pub check_body : Options → Bytes → Response → Reading
check_body opts buf parsed =
    if ltb opts.max_body_bytes (length buf)
    then refused (codes "upstream body too large")
    else if not parsed.close_delimited && response_complete buf parsed
    then complete parsed
    else more (some parsed)

-- `if (!have_headers) { … }`, and then the check above; `buf` ends in what was read.
unfoldable pub after_read : Options → Bytes → Option Response → Reading
after_read opts buf (some parsed) = check_body opts buf parsed
after_read opts buf none = elim (find_header_end buf) [
  | some _ ↦
      (let parsed = parse_response_headers buf in
        if parsed.valid
        then check_body opts buf parsed
        else refused (codes "malformed upstream response"))
  | none ↦
      if ltb opts.max_header_bytes (length buf)
      then refused (codes "upstream headers too large")
      else more none
]

-- The reading loop.
unfoldable pub read_loop : Options → Bytes → Option Response → List Recv → FetchEnd
read_loop opts buf parsed [] = error (codes "upstream timeout")
read_loop opts buf parsed (got [] ∷ recvs) = done buf parsed
read_loop opts buf parsed (got (b ∷ tmp) ∷ recvs) =
    elim (after_read opts (buf ++ (b ∷ tmp)) parsed) [
      | more parsed' ↦ read_loop opts (buf ++ (b ∷ tmp)) parsed' recvs
      | complete response ↦ done (buf ++ (b ∷ tmp)) (some response)
      | refused message ↦ error message
    ]
read_loop opts buf parsed (interrupted ∷ recvs) = read_loop opts buf parsed recvs
read_loop opts buf parsed (would_block ∷ recvs) = error (codes "upstream timeout")
read_loop opts buf parsed (failed text ∷ recvs) = error (codes "recv: " ++ text)

-- What follows the loop.
unfoldable pub finish_fetch : FetchEnd → UpstreamResult
finish_fetch (error message) = failure message
finish_fetch (done [] parsed) = failure (codes "empty upstream response")
finish_fetch (done (b ∷ buf) (some parsed)) = record {
  raw = b ∷ buf;
  status = parsed.status;
  ok = true;
  error = [];
}
finish_fetch (done (b ∷ buf) none) =
    let parsed = parse_response_headers (b ∷ buf) in
    if parsed.valid
    then record { raw = b ∷ buf; status = parsed.status; ok = true; error = [] }
    else failure (codes "malformed upstream response")

unfoldable pub fetch_upstream : Options → Link → UpstreamResult
fetch_upstream opts link = elim link.resolve_error [
  | some text ↦ failure (codes "dns: " ++ text)
  | none ↦ elim link.socket_error [
    | some text ↦ failure (codes "socket: " ++ text)
    | none ↦ elim link.connect_error [
      | some text ↦ failure (codes "connect: " ++ text)
      | none ↦ elim link.send_error [
        | some text ↦ failure (codes "send: " ++ text)
        | none ↦ finish_fetch (read_loop opts [] none link.recvs)
      ]
    ]
  ]
]
