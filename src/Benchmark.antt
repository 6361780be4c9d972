-- ===== src/Benchmark.antt =====
-- benchmark.cpp, the load generator: the request it writes, `send_all`, and `read_one_response`.
-- What the socket calls return is a parameter.
pub mod Requests
pub mod Reading
pub mod Loop
pub mod Through
mod Tests
use multi_threaded_proxy_ser.Base.{
  ℕ, suc, ◌+◌, Bool, true, false, Option, none, some, List, [], ◌∷◌, ◌++◌, length, take, drop, leb,
  ◌==◌, if◌then◌else◌, Bytes, codes,
}
use multi_threaded_proxy_ser.Base.Int.{ℤ, pos, negsuc, is_nonneg, to_size}
use multi_threaded_proxy_ser.Number.{to_string, atoi, strtol}
use multi_threaded_proxy_ser.Proxy.Fetch.{Recv, got, interrupted, would_block, failed}
use multi_threaded_proxy_ser.Request.{crlf}
use multi_threaded_proxy_ser.Text.{find, find_byte, to_lower}

-- The request for the URL of a number.
unfoldable pub make_request : Bytes → Bool → ℕ → Bytes
unfolding to_string
make_request host_header keep_alive url_id =
    codes "GET /resource/"
    ++ (to_string url_id
        ++ (codes " HTTP/1.1"
            ++ (crlf
                ++ (codes "Host: "
                    ++ (host_header
                        ++ (crlf
                            ++ ((if keep_alive
                                  then codes "Connection: keep-alive"
                                  else codes "Connection: close")
                                ++ (crlf ++ crlf))))))))

-- How reading ends: with the status and the length of one response, the bytes behind it and the
-- results of `recv` not yet used; with an error text; or not, when the results end.
pub data ReadEnd : Type 0 where
  answered : ℤ → ℕ → Bytes → List Recv → ReadEnd
  failure : Bytes → ReadEnd
  unreturned : ReadEnd

-- What the buffer says: more is to be read; a response of a status and a length is there; or the
-- body ends where the stream does.
pub data Check : Type 0 where
  more : Check
  whole : ℤ → ℕ → Check
  to_end : ℤ → Check

unfoldable pub status_of : Bytes → ℤ
unfolding atoi
status_of buf = elim (find_byte b' ' buf) [ none ↦ pos 0 | some sp ↦ atoi (drop (sp + 1) buf) ]

-- `clen`: `atol` behind the first "content-length:".
unfoldable pub length_of : Bytes → ℤ
length_of head = elim (find (codes "content-length:") (to_lower head)) [
  | none ↦ negsuc 0
  | some p ↦ (strtol (drop (p + 15) head)).value
]

-- `need` is at most the length of the buffer plus 2 ^ 63, so that it is no other number in 64 bits.
unfoldable pub check : Bytes → Check
check buf = elim (find (crlf ++ crlf) buf) [
  | none ↦ more
  | some hend ↦
      (let clen = length_of (take hend buf) in
        let need = hend + 4 + to_size clen in
        if is_nonneg clen
        then if leb need (length buf) then whole (status_of buf) need else more
        else to_end (status_of buf))
]

-- Draining to the end of the stream: any result that is no byte ends it.
unfoldable pub drain_to_end : ℤ → Bytes → List Recv → ReadEnd
drain_to_end status buf [] = unreturned
drain_to_end status buf (got [] ∷ recvs) = answered status (length buf) [] recvs
drain_to_end status buf (got (b ∷ tmp) ∷ recvs) = drain_to_end status (buf ++ (b ∷ tmp)) recvs
drain_to_end status buf (interrupted ∷ recvs) = answered status (length buf) [] recvs
drain_to_end status buf (would_block ∷ recvs) = answered status (length buf) [] recvs
drain_to_end status buf (failed text ∷ recvs) = answered status (length buf) [] recvs

-- One round: the check of the buffer, or else what the next `recv` leads to.
abbrev pub after_check : Bytes → List Recv → ReadEnd → Check → ReadEnd
after_check buf recvs next more = next
after_check buf recvs next (whole status need) = answered status need (drop need buf) recvs
after_check buf recvs next (to_end status) = drain_to_end status buf recvs

-- `again` is the text of `EAGAIN`.
unfoldable pub read_one_response : Bytes → Bytes → List Recv → ReadEnd
unfolding drain_to_end check
read_one_response again buf [] = after_check buf [] unreturned (check buf)
read_one_response again buf (got [] ∷ recvs) =
    after_check buf (got [] ∷ recvs) (failure (codes "peer closed mid-response")) (check buf)
read_one_response again buf (got (b ∷ tmp) ∷ recvs) =
    let rest = read_one_response again (buf ++ (b ∷ tmp)) recvs in
    after_check buf (got (b ∷ tmp) ∷ recvs) rest (check buf)
read_one_response again buf (interrupted ∷ recvs) =
    let rest = read_one_response again buf recvs in
    after_check buf (interrupted ∷ recvs) rest (check buf)
read_one_response again buf (would_block ∷ recvs) =
    after_check buf (would_block ∷ recvs) (failure (codes "recv: " ++ again)) (check buf)
read_one_response again buf (failed text ∷ recvs) =
    after_check buf (failed text ∷ recvs) (failure (codes "recv: " ++ text)) (check buf)

-- The definitions that a run on concrete bytes computes with.
unfoldable pub running : Unit {0}
unfolding make_request status_of length_of check drain_to_end read_one_response to_string atoi
    strtol find find_byte to_lower
running = tt
