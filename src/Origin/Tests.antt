-- ===== src/Origin/Tests.antt =====
-- The origin on small inputs.
use multi_threaded_proxy_ser.Base.{List, take, drop, length, arith, All, none}
use multi_threaded_proxy_ser.Base.Int.{pos}
use multi_threaded_proxy_ser.Number.{to_string}
use multi_threaded_proxy_ser.Origin.{default_config}
use multi_threaded_proxy_ser.Origin.Answer.{fetch_upstream-make_answer}
use multi_threaded_proxy_ser.Origin.Deliver.{IsHead, Handled, handle-Handled}
use multi_threaded_proxy_ser.Proxy.Fetch as Fetch
use multi_threaded_proxy_ser.Proxy.Fetch.{Recv, Link, fetch_upstream}
use multi_threaded_proxy_ser.Proxy.Fetch.Delivery.{Delivers}
use multi_threaded_proxy_ser.Proxy.Fetch.Framing.{received}
use multi_threaded_proxy_ser.Proxy.Send.{SendResult}
use multi_threaded_proxy_ser.Proxy.State.{default_options}
use multi_threaded_proxy_ser.Request.{crlf}
use multi_threaded_proxy_ser.Text.{find}
use multi_threaded_proxy_ser.Base.{◌≡◌, refl, ◌∷◌, [], ◌++◌, codes, true, false, Bytes}
use multi_threaded_proxy_ser.Origin.{make_body, make_answer, handle, closed, running}
use multi_threaded_proxy_ser.Proxy.Fetch.{got, would_block}
use multi_threaded_proxy_ser.Proxy.Send.{accepted, interrupted}

bodies :
    (make_body (record { body_size = 25; keep_alive = true }) (codes "/")
      ≡ codes "origin-response path=/ xx")
    × (make_body (record { body_size = 3; keep_alive = true }) (codes "/") ≡ codes "ori")
unfolding running
bodies = (refl, refl)

-- Two requests, of which the second asks to close; the socket takes the second answer in two calls.
abbrev two_requests : Bytes
two_requests = codes "GET /a HTTP/1.1\r\n\r\nGET /b HTTP/1.1\r\nConnection: close\r\n\r\nGET"

two_answers :
    handle
      (record { body_size = 3; keep_alive = true })
      true
      7
      []
      (got two_requests ∷ would_block ∷ [])
      (accepted 200 ∷ accepted 5 ∷ interrupted ∷ accepted 200 ∷ [])
    ≡ closed (record {
      inbuf = codes "GET";
      wants_close = true;
      requests = 9;
      delivered = make_answer (codes "ori") true ++ make_answer (codes "ori") false;
      sends = [];
    })
unfolding running
two_answers = refl

-- An answer fetched in two pieces.
abbrev answer : Bytes
answer = make_answer (codes "ori") true

abbrev pieces : List Recv
pieces = got (take 30 answer) ∷ Fetch.interrupted ∷ got (drop 30 answer) ∷ []

abbrev link : Link
link = record {
  resolve_error = none;
  socket_error = none;
  connect_error = none;
  send_error = none;
  recvs = pieces ++ got [] ∷ [];
}

pieces-Delivers : Delivers pieces
unfolding make_answer
pieces-Delivers = tt

pieces-received : received pieces ≡ answer
unfolding make_answer to_string
pieces-received = refl

length-answer : length answer ≡ 118
unfolding make_answer to_string
length-answer = refl

fetch_upstream-make_answer_example :
    fetch_upstream default_options link
    ≡ record { raw = answer; status = pos 200; ok = true; error = [] }
fetch_upstream-make_answer_example =
    fetch_upstream-make_answer default_options (codes "ori") true link pieces (got [] ∷ [])
      (omega arith) (omega (arith, length-answer)) (omega (arith, length-answer)) refl refl refl
      refl refl pieces-Delivers pieces-received

-- The heads of the two requests.
abbrev heads : List Bytes
heads = codes "GET /a HTTP/1.1" ∷ codes "GET /b HTTP/1.1\r\nConnection: close" ∷ []

heads-All : All IsHead heads
unfolding find
heads-All = ((λ t. refl), ((λ t. refl), tt))

tail_headless : find (crlf ++ crlf) (codes "GET") ≡ none
unfolding find
tail_headless = refl

abbrev sends : List SendResult
sends = accepted 200 ∷ accepted 5 ∷ interrupted ∷ accepted 200 ∷ []

handle-Handled_example :
    Handled default_config heads
      (codes "GET")
      (handle default_config true 7 [] (got two_requests ∷ []) sends)
handle-Handled_example =
    handle-Handled default_config true 7 [] (got two_requests ∷ []) sends heads (codes "GET") tt
      refl heads-All tail_headless
