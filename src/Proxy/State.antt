-- ===== src/Proxy/State.antt =====
-- server_phase5.cpp, the state that requests share (Options, Stats, the cache, the access control,
-- the log), the state of a connection, and `build_response`.
use multi_threaded_proxy_ser.Base.{
  ℕ, ◌+◌, ◌-◌, ◌*◌, ◌%◌, ◌^◌, Bool, List, ◌++◌, length, if◌then◌else◌, Bytes, codes,
}
pub use multi_threaded_proxy_ser.Base.Int.{bump}
use multi_threaded_proxy_ser.Acl.{AccessControl}
use multi_threaded_proxy_ser.AccessLog.{AccessLog}
use multi_threaded_proxy_ser.Lru.Sharded.{Sharded}
use multi_threaded_proxy_ser.Number.{to_string}
use multi_threaded_proxy_ser.Request.{crlf}

-- The limits among the options.
pub record Options : Type 0 where
  pub max_header_bytes : ℕ
  pub max_body_bytes : ℕ

abbrev pub default_options : Options
default_options = record { max_header_bytes = 64 * 1024; max_body_bytes = 8 * 1024 * 1024 }

-- The counters of 64 bits that the request path changes.
pub record Stats : Type 0 where
  pub active_connections : ℕ
  pub total_requests : ℕ
  pub forwarded_requests : ℕ
  pub cache_served : ℕ
  pub denied_requests : ℕ
  pub bad_requests : ℕ
  pub upstream_errors : ℕ

-- `counter--` on 64 bits.
abbrev pub drop_one : ℕ → ℕ
drop_one n = (n + (2 ^ 64 - 1)) % 2 ^ 64

-- `sent` holds what was handed to `send_all` for the client, a call after the other.
pub record Server : Type 0 where
  pub acl : AccessControl
  pub cache : Sharded Bytes Bytes
  pub log : AccessLog
  pub stats : Stats
  pub sent : List Bytes

pub record Conn : Type 0 where
  pub client_ip : Bytes
  pub inbuf : Bytes
  pub requests_served : ℕ

unfoldable pub build_response : ℕ → Bytes → Bytes → Bool → Bytes → Bytes
unfolding to_string
build_response status reason body keep_alive content_type =
    codes "HTTP/1.1 "
    ++ (to_string status
        ++ (codes " "
            ++ (reason
                ++ (crlf
                    ++ (codes "Content-Type: "
                        ++ (content_type
                            ++ (crlf
                                ++ (codes "Content-Length: "
                                    ++ (to_string (length body)
                                        ++ (crlf
                                            ++ (codes "Connection: "
                                                ++ ((if keep_alive
                                                      then codes "keep-alive"
                                                      else codes "close")
                                                    ++ (crlf ++ (crlf ++ body))))))))))))))
