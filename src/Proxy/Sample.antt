-- ===== src/Proxy/Sample.antt =====
-- A small proxy for the tests: a cache of two shards, an upstream that answers, one connection.
use multi_threaded_proxy_ser.Base.{true, none, [], ◌∷◌, length, refl, Bytes, codes}
use multi_threaded_proxy_ser.Base.Eq.{bytes_key}
use multi_threaded_proxy_ser.Acl
use multi_threaded_proxy_ser.AccessLog
use multi_threaded_proxy_ser.Lru.{init}
use multi_threaded_proxy_ser.Lru.Valid.{init-IsValid}
use multi_threaded_proxy_ser.Lru.Sharded.{Sharded}
use multi_threaded_proxy_ser.Lru.Sharded.Laws.{IsSound}
use multi_threaded_proxy_ser.Proxy.Fetch.{Link, got}
use multi_threaded_proxy_ser.Proxy.Serve.{Env}
use multi_threaded_proxy_ser.Proxy.State.{Server, Conn}
use multi_threaded_proxy_ser.Request.{Request, parse_request}

abbrev pub answer : Bytes
answer = codes "HTTP/1.1 200 OK\r\nContent-Length: 2\r\n\r\nhi"

abbrev pub link : Link
link = record {
  resolve_error = none;
  socket_error = none;
  connect_error = none;
  send_error = none;
  recvs = got answer ∷ [];
}

abbrev pub env : Env
env = record {
  hasher = length;
  connect = λ up bytes. link;
  send = λ text. true;
  format_second = λ sec. codes "T";
  sec = 1;
  nsec = 5000000;
  duration_us = 3;
}

abbrev pub cache : Sharded Bytes Bytes
cache = record { shards = init 4 ∷ init 4 ∷ []; shard_mask = 1 }

abbrev pub server : Server
server = record {
  acl = Acl.initial;
  cache = cache;
  log = AccessLog.initial;
  stats = record {
    active_connections = 1;
    total_requests = 0;
    forwarded_requests = 0;
    cache_served = 0;
    denied_requests = 0;
    bad_requests = 0;
    upstream_errors = 0;
  };
  sent = [];
}

abbrev pub conn : Conn
conn = record { client_ip = codes "1.2.3.4"; inbuf = []; requests_served = 0 }

pub cache-IsSound : IsSound cache
cache-IsSound = record { covered = refl; valid = (init-IsValid 4, (init-IsValid 4, tt)) }

abbrev pub get_request : Request
get_request = parse_request (codes "GET /a HTTP/1.1\r\nHost: x\r\n\r\n")
