-- ===== src/Request/Tests.antt =====
-- The request parser of http.hpp on small requests.

use multi_threaded_proxy_ser.Request.Errors.{Diagnosed, parse_request-Diagnosed}
use multi_threaded_proxy_ser.Request.Valid.{IsRequest, parse_request-IsRequest}
use multi_threaded_proxy_ser.Base.{◌≡◌, refl, true, some, codes, ◌++◌, Bytes}
use multi_threaded_proxy_ser.Base.Int.{pos}
use multi_threaded_proxy_ser.Request.{
  parse_request, Request, header, parsing, crlf, expected_request_bytes,
}

abbrev raw : Bytes
raw =
    codes "POST http://Ex.com/a HTTP/1.1"
    ++ crlf
    ++ codes "X: 1"
    ++ crlf
    ++ codes "x : 2"
    ++ crlf
    ++ codes "Content-Length: 5"
    ++ crlf
    ++ crlf
    ++ codes "helloGET"

abbrev req : Request
req = parse_request raw

cases :
    (req.valid ≡ true)
    × (req.method ≡ codes "POST")
    × (req.path ≡ codes "/a")
    × (req.host ≡ codes "Ex.com")
    × (header (codes "x") req.headers ≡ some (codes "1, 2"))
    × (req.content_length ≡ pos 5)
    × (expected_request_bytes req ≡ 70)
    × ((parse_request (codes "GET / HTTP/1.1\nA: b\n\n")).parse_error ≡ codes "missing Host header")
    × ((parse_request (codes "GET /\n\n")).parse_error ≡ codes "malformed request line")
unfolding parsing
cases = (refl, refl, refl, refl, refl, refl, refl, refl, refl)

raw_valid : req.valid ≡ true
unfolding parsing
raw_valid = refl

parse_request-IsRequest_example : IsRequest (parse_request raw)
parse_request-IsRequest_example = parse_request-IsRequest raw raw_valid

-- A request with no host.
abbrev hostless : Bytes
hostless = codes "GET / HTTP/1.1\nA: b\n\n"

parse_request-Diagnosed_example : Diagnosed hostless (parse_request hostless)
parse_request-Diagnosed_example = parse_request-Diagnosed hostless
