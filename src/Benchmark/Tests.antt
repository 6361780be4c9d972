-- ===== src/Benchmark/Tests.antt =====
-- The reader of the load generator on small responses.
use multi_threaded_proxy_ser.Acl.{allow, check}
use multi_threaded_proxy_ser.Base.{none}
use multi_threaded_proxy_ser.Base.Eq.{bytes_key}
use multi_threaded_proxy_ser.Benchmark.Through.{Carries, Passes, make_request-Passes}
use multi_threaded_proxy_ser.Lru.Refine.{lookup}
use multi_threaded_proxy_ser.Lru.Sharded.Laws.{stored}
use multi_threaded_proxy_ser.Proxy.Fetch.{Link}
use multi_threaded_proxy_ser.Proxy.Handle.{running as proxy_running}
use multi_threaded_proxy_ser.Proxy.Sample.{env, server, conn, cache-IsSound}
use multi_threaded_proxy_ser.Proxy.Serve.{Env, cache_key}
use multi_threaded_proxy_ser.Proxy.State.{default_options}
use multi_threaded_proxy_ser.Base.{List, take, drop, length, arith}
use multi_threaded_proxy_ser.Benchmark.{make_request}
use multi_threaded_proxy_ser.Benchmark.Loop.{read_one_response-make_answer}
use multi_threaded_proxy_ser.Benchmark.Requests.{parsed_request, parse-make_request}
use multi_threaded_proxy_ser.Message.Literals.{is_line-IsLine, is_solid-IsSolid}
use multi_threaded_proxy_ser.Message.Words.{trim-solid}
use multi_threaded_proxy_ser.Number.{to_string}
use multi_threaded_proxy_ser.Origin.{make_answer}
use multi_threaded_proxy_ser.Proxy.Fetch.{Recv, interrupted}
use multi_threaded_proxy_ser.Proxy.Fetch.Delivery.{Delivers}
use multi_threaded_proxy_ser.Proxy.Fetch.Framing.{received}
use multi_threaded_proxy_ser.Request.{parse_request}
use multi_threaded_proxy_ser.Base.{◌≡◌, refl, ◌∷◌, [], ◌++◌, codes, true, Bytes}
use multi_threaded_proxy_ser.Base.Int.{pos}
use multi_threaded_proxy_ser.Benchmark.{read_one_response, answered, running}
use multi_threaded_proxy_ser.Proxy.Fetch.{got}

-- A response in two pieces, the second with the start of the next response.
abbrev first_piece : Bytes
first_piece = codes "HTTP/1.1 404 Not Found\r\nContent-Len"

abbrev second_piece : Bytes
second_piece = codes "gth: 2\r\n\r\nabHTTP"

two_pieces :
    read_one_response [] [] (got first_piece ∷ got second_piece ∷ [])
    ≡ answered (pos 404) 47 (codes "HTTP") []
unfolding running
two_pieces = refl

-- A header whose name ends in "content-length" is taken for the length, and so is a value that
-- names it.
wrong_header :
    (read_one_response [] []
        (got (codes "HTTP/1.1 200 OK\r\nX-Content-Length: 1\r\nContent-Length: 3\r\n\r\nabc") ∷ [])
      ≡ answered (pos 200) 60 (codes "bc") [])
    × (read_one_response [] [] (
          got (codes "HTTP/1.1 200 OK\r\nX: content-length: 0\r\nContent-Length: 3\r\n\r\nabc")
          ∷ [])
        ≡ answered (pos 200) 60 (codes "abc") [])
unfolding running
wrong_header = (refl, refl)

parse-make_request_example :
    parse_request (make_request (codes "origin:19000") true 7)
    ≡ parsed_request (codes "origin:19000") true 7
parse-make_request_example =
    parse-make_request (codes "origin:19000") true 7 (is_line-IsLine (codes "origin:19000") refl)
      (trim-solid (codes "origin:19000") (is_solid-IsSolid (codes "origin:19000") refl)) (λ e. cc)

-- An answer in two pieces with a signal between them, and then the end of the stream.
abbrev answer : Bytes
answer = make_answer (codes "ori") true

abbrev pieces : List Recv
pieces = got (take 30 answer) ∷ interrupted ∷ got (drop 30 answer) ∷ []

pieces-Delivers : Delivers pieces
unfolding make_answer
pieces-Delivers = tt

pieces-received : received pieces ≡ answer
unfolding make_answer to_string
pieces-received = refl

read_one_response-make_answer_example :
    (rest : List Recv) × (received rest ≡ [])
    × (read_one_response [] [] (pieces ++ got [] ∷ [])
        ≡ answered (pos 200) (length answer) [] (rest ++ got [] ∷ []))
read_one_response-make_answer_example =
    read_one_response-make_answer [] (codes "ori") true pieces (got [] ∷ []) (omega arith)
      pieces-Delivers pieces-received

-- The proxy of the tests, whose upstream sends the answer of the origin.
abbrev upstream : Link
upstream = record {
  resolve_error = none;
  socket_error = none;
  connect_error = none;
  send_error = none;
  recvs = pieces ++ got [] ∷ [];
}

abbrev world : Env
world = record env { connect = λ up bytes. upstream }

upstream-Carries : Carries answer upstream
upstream-Carries = record {
  resolves = refl;
  opens = refl;
  connects = refl;
  sends = refl;
  pieces = pieces;
  later = got [] ∷ [];
  calls = refl;
  in_pieces = pieces-Delivers;
  whole = pieces-received;
}

length-answer : length answer ≡ 118
unfolding make_answer to_string
length-answer = refl

is_allowed : (check server.acl (parsed_request (codes "origin:19000") true 7)).decision ≡ allow
unfolding proxy_running
is_allowed = refl

not_stored :
    stored world.hasher server.cache (cache_key (parsed_request (codes "origin:19000") true 7))
    ≡ none
unfolding proxy_running lookup
not_stored = refl

make_request-Passes_example :
    Passes world default_options server conn
      (parse_request (make_request (codes "origin:19000") true 7))
      answer
make_request-Passes_example =
    make_request-Passes world default_options server conn (codes "origin:19000") true 7
      (codes "ori") true (is_line-IsLine (codes "origin:19000") refl)
      (trim-solid (codes "origin:19000") (is_solid-IsSolid (codes "origin:19000") refl)) (λ e. cc)
      (omega arith) (omega (arith, length-answer)) (omega (arith, length-answer)) cache-IsSound
      is_allowed not_stored upstream-Carries
