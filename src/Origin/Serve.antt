-- ===== src/Origin/Serve.antt =====
-- The loop over the requests ends: each round takes a head and its blank line out of the buffer.
use multi_threaded_proxy_ser.Base.{
  ℕ, zero, suc, ◌+◌, ◌<◌, Bool, true, false, Option, none, some, List, [], ◌++◌, length, Bytes, ◌≡◌,
  ◌≢◌, ◌⊎◌, refl, arith, Option-cases, inl, inr, length-drop,
}
use multi_threaded_proxy_ser.Origin.{
  Config, State, Served, waiting, ended, sending, no_fuel, Drained, drained, broken, drain,
  answer_head, after_answer, serve, finish, handle, out_of_fuel,
}
use multi_threaded_proxy_ser.Proxy.Fetch.{Recv}
use multi_threaded_proxy_ser.Proxy.Send.{SendResult}
use multi_threaded_proxy_ser.Request.{crlf}
use multi_threaded_proxy_ser.Text.{find}
use multi_threaded_proxy_ser.Text.Find.{find-le}

after_answer-ne-no_fuel :
    (s : State) (result : Option Bool) (keep : Bool) (rest : Served)
    → rest ≢ no_fuel
    → after_answer s result keep rest ≢ no_fuel
unfolding after_answer
after_answer-ne-no_fuel s none keep rest h = λ e. cc
after_answer-ne-no_fuel s (some false) keep rest h = λ e. cc
after_answer-ne-no_fuel s (some true) false rest h = λ e. cc
after_answer-ne-no_fuel s (some true) true rest h = h

answer_head-shorter :
    (cfg : Config) (s : State) (hend : ℕ)
    → find (crlf ++ crlf) s.inbuf ≡ some hend
    → length (answer_head cfg s hend).0.inbuf < length s.inbuf
unfolding answer_head
answer_head-shorter cfg s hend found =
    let bound = find-le (crlf ++ crlf) s.inbuf hend found in
    omega (arith, bound, length-drop (hend + 4) s.inbuf)

serve-ne-no_fuel :
    (fuel : ℕ) (cfg : Config) (s : State) → length s.inbuf < fuel → serve fuel cfg s ≢ no_fuel
unfolding serve
serve-ne-no_fuel zero cfg s h = elim h [ ]
serve-ne-no_fuel (suc fuel) cfg s h = elim (Option-cases (find (crlf ++ crlf) s.inbuf)) [
  | inl miss ↦ rw (miss, serve) (λ e. cc)
  | inr (hend, found) ↦
      let shorter = answer_head-shorter cfg s hend found in
      let round = answer_head cfg s hend in
      rw (found, serve)
        (after_answer-ne-no_fuel round.0 round.1 round.2 (serve fuel cfg round.0)
          (serve-ne-no_fuel fuel cfg round.0 (omega (arith, shorter))))
]

finish-ne-out_of_fuel :
    (peer rearm : Bool) (r : Served) → r ≢ no_fuel → finish peer rearm r ≢ out_of_fuel
unfolding finish
finish-ne-out_of_fuel true rearm (waiting s) h = λ e. cc
finish-ne-out_of_fuel false true (waiting s) h = λ e. cc
finish-ne-out_of_fuel false false (waiting s) h = λ e. cc
finish-ne-out_of_fuel peer rearm (ended s) h = λ e. cc
finish-ne-out_of_fuel peer rearm (sending s) h = λ e. cc
finish-ne-out_of_fuel peer rearm no_fuel h = absurd (h refl)

Drained-cases : (d : Drained) → (d ≡ broken) ⊎ ((b : Bytes) × (p : Bool) × (d ≡ drained b p))
Drained-cases broken = inl refl
Drained-cases (drained b p) = inr (b, p, refl)

-- One more round than there are bytes in the buffer is enough for the loop.
pub handle-ne-out_of_fuel :
    (cfg : Config) (rearm : Bool) (requests : ℕ) (inbuf : Bytes) (recvs : List Recv)
    (sends : List SendResult)
    → handle cfg rearm requests inbuf recvs sends ≢ out_of_fuel
unfolding handle
handle-ne-out_of_fuel cfg rearm requests inbuf recvs sends =
    elim (Drained-cases (drain inbuf recvs)) [
      | inl e ↦ rw (e, handle) (λ p. cc)
      | inr (b, p, e) ↦
          let s : State = record {
            inbuf = b;
            wants_close = false;
            requests = requests;
            delivered = [];
            sends = sends;
          } in
          rw (e, handle)
            (finish-ne-out_of_fuel p rearm (serve (suc (length b)) cfg s)
              (serve-ne-no_fuel (suc (length b)) cfg s (omega arith)))
    ]
