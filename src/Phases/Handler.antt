-- ===== src/Phases/Handler.antt =====
-- server_phase4.cpp, `extract_path`, `fetch_from_upstream`, `handle_request`, and `build_response`,
-- which server_phase3.cpp has, too. The bytes that `recv` returns and the clock are parameters.
pub mod Answers
use multi_threaded_proxy_ser.Base.{
  ℕ, ◌+◌, ◌-◌, Bool, true, false, Option, none, some, [], ◌∷◌, ◌++◌, length, if◌then◌else◌, Bytes,
  codes, is_empty,
}
use multi_threaded_proxy_ser.Base.Eq.{bytes_key}
use multi_threaded_proxy_ser.Number.{to_string}
use multi_threaded_proxy_ser.Phases.Cache.{Cache, get_around, put}
use multi_threaded_proxy_ser.Request.{crlf}
use multi_threaded_proxy_ser.Text.{substr, find_byte, find_byte_from}

unfoldable pub build_response : Bytes → Bytes
unfolding to_string
build_response body =
    codes "HTTP/1.1 200 OK"
    ++ (crlf
        ++ (codes "Content-Type: text/plain"
            ++ (crlf
                ++ (codes "Content-Length: "
                    ++ (to_string (length body)
                        ++ (crlf
                            ++ (codes "Connection: keep-alive" ++ (crlf ++ (crlf ++ body)))))))))

unfoldable pub extract_path : Bytes → Bytes
extract_path request = elim (find_byte b' ' request) [
  | none ↦ codes "/"
  | some start ↦ elim (find_byte_from b' ' request (start + 1)) [
    | none ↦ codes "/"
    | some end ↦ substr request (start + 1) (end - start - 1)
  ]
]

-- The count of the clock is 0 at least.
unfoldable pub fetch_from_upstream : ℕ → Bytes → Bytes
unfolding to_string
fetch_from_upstream now path =
    codes "Response for: " ++ (path ++ (codes " (fetched at " ++ (to_string now ++ codes ")\n")))

-- What `get` and, where it misses, the fetch and `put` leave: the cache and the body.
unfoldable pub find_body :
    ℕ → Bytes → Cache Bytes Bytes × Option Bytes → Option (Cache Bytes Bytes × Bytes)
unfolding fetch_from_upstream
find_body now path (cache, some cached) = some (cache, cached ++ codes " [CACHE HIT]")
find_body now path (cache, none) =
    let body = fetch_from_upstream now path in
    elim (put cache path body) [
      | none ↦ none
      | some stored ↦ some (stored, body ++ codes " [CACHE MISS]")
    ]

-- `request` holds the bytes read, none where `recv` returns 0 or fails. The result has the text
-- handed to `send`, if any; `none` is an undefined `put`.
unfoldable pub handle_request :
    ℕ → Cache Bytes Bytes → Bytes → Option (Cache Bytes Bytes × Option Bytes)
unfolding build_response extract_path find_body
handle_request now cache [] = some (cache, none)
handle_request now cache (b ∷ request) =
    let path = extract_path (b ∷ request) in
    elim (find_body now path (get_around (λ c. c) cache path)) [
      | none ↦ none
      | some (stored, body) ↦ some (stored, some (build_response body))
    ]
