-- ===== src/Proxy/Send.antt =====
-- server_phase5.cpp, `send_all`. What the calls of `send` and `poll` return is a parameter.
pub mod Delivery
mod Tests
use multi_threaded_proxy_ser.Base.{
  ℕ, suc, ◌+◌, Bool, true, false, Option, none, some, List, [], ◌∷◌, ◌++◌, length, take, drop, ltb,
  ◌==◌, if◌then◌else◌, Bytes,
}

-- A call of `send`: it takes a number of bytes; or the buffer is full, and `poll` then says whether
-- the socket became writable; or a signal interrupts it; or it fails.
pub data SendResult : Type 0 where
  accepted : ℕ → SendResult
  would_block : Bool → SendResult
  interrupted : SendResult
  failed : SendResult

-- The result of `send_all`, and the bytes that the socket took. `none` is a call that has not
-- returned when the results end.
pub record Sent : Type 0 where
  pub result : Option Bool
  pub delivered : Bytes

-- The loop from `sent` and `spins`; `left` is `data + sent`, of `len - sent` bytes.
unfoldable pub send_loop : Bytes → ℕ → Bytes → List SendResult → Sent
send_loop delivered spins [] results = record { result = some true; delivered = delivered }
send_loop delivered spins (b ∷ left) [] = record { result = none; delivered = delivered }
send_loop delivered spins (b ∷ left) (accepted n ∷ results) =
    let rest = send_loop (delivered ++ take n (b ∷ left)) 0 (drop n (b ∷ left)) results in
    if n == 0 then record { result = some false; delivered = delivered } else rest
send_loop delivered spins (b ∷ left) (would_block writable ∷ results) =
    let rest = send_loop delivered (spins + 1) (b ∷ left) results in
    if ltb 1000 (spins + 1)
    then record { result = some false; delivered = delivered }
    else if writable
    then rest
    else record { result = some false; delivered = delivered }
send_loop delivered spins (b ∷ left) (interrupted ∷ results) =
    send_loop delivered spins (b ∷ left) results
send_loop delivered spins (b ∷ left) (failed ∷ results) = record {
  result = some false;
  delivered = delivered;
}

unfoldable pub send_all : Bytes → List SendResult → Sent
unfolding send_loop
send_all text results = send_loop [] 0 text results
