-- ===== src/Response/Tests.antt =====
-- The response parser of http.hpp on small responses.
use multi_threaded_proxy_ser.Base.{length, ◌-◌, ◌∷◌, [], arith}
use multi_threaded_proxy_ser.Message.Literals.{is_line-IsLine, is_solid-IsSolid}
use multi_threaded_proxy_ser.Message.Words.{trim-solid}
use multi_threaded_proxy_ser.Number.{to_string}
use multi_threaded_proxy_ser.Proxy.State.{build_response}
use multi_threaded_proxy_ser.Response.RoundTrip.{parse-build_response}
use multi_threaded_proxy_ser.Response.Chunks.{chunked_body_complete-answers}
use multi_threaded_proxy_ser.Base.{
  Bool, suc, some, ◌≡◌, refl, true, false, codes, ◌++◌, Bytes, length, take, ◌-◌,
}
use multi_threaded_proxy_ser.Base.Int.{pos}
use multi_threaded_proxy_ser.Request.{parse_request, parsing as request_parsing, crlf}
use multi_threaded_proxy_ser.Response.{
  Response, parsing, parse_response_headers, response_complete, is_cacheable, chunks_end,
  chunked_body_complete,
}

abbrev raw : Bytes
raw =
    codes "HTTP/1.1 200 OK\r\nTransfer-Encoding: chunked"
    ++ crlf
    ++ crlf
    ++ codes "5;x=1\r\n0\r\n\r\n\r\na\r\n0123456789\r\n0\r\nT: 1\r\n\r\n"

abbrev resp : Response
resp = parse_response_headers raw

cases :
    (resp.valid ≡ true)
    × (resp.status ≡ pos 200)
    × (resp.chunked ≡ true)
    × (response_complete raw resp ≡ true)
    × (response_complete (take (length raw - 1) raw) resp ≡ false)
    × (is_cacheable (parse_request (codes "GET / HTTP/1.1\nHost: a\n\n")) resp ≡ true)
unfolding parsing request_parsing
cases = (refl, refl, refl, refl, refl, refl)

chunked_body_complete-answers_example :
    (answer : Bool) × (chunks_end (suc (length raw)) raw 47 ≡ some answer)
    × (chunked_body_complete raw 47 ≡ answer)
chunked_body_complete-answers_example = chunked_body_complete-answers raw 47

parse-build_response_example :
    let raw = build_response 404 (codes "Not Found") (codes "no") false (codes "text/plain") in
    (parse_response_headers raw ≡ record {
      status = pos 404;
      headers =
          (codes "content-type", codes "text/plain")
          ∷ (codes "content-length", to_string 2)
          ∷ (codes "connection", codes "close")
          ∷ [];
      header_bytes = length raw - 2;
      content_length = pos 2;
      chunked = false;
      close_delimited = false;
      valid = true;
    })
    × (response_complete raw (parse_response_headers raw) ≡ true)
parse-build_response_example =
    parse-build_response 404 (codes "Not Found") (codes "no") false (codes "text/plain")
      (omega arith) (omega arith) (is_line-IsLine (codes "Not Found") refl)
      (is_line-IsLine (codes "text/plain") refl)
      (trim-solid (codes "text/plain") (is_solid-IsSolid (codes "text/plain") refl)) (omega arith)
