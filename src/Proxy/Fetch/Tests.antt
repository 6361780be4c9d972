-- ===== src/Proxy/Fetch/Tests.antt =====
-- `fetch_upstream` on small answers.
use multi_threaded_proxy_ser.Base.{◌≡◌, refl, true, [], ◌∷◌, codes, Bytes}
use multi_threaded_proxy_ser.Proxy.Fetch.{got, fetch_upstream}
use multi_threaded_proxy_ser.Proxy.Fetch.Framing.{Fetched, received, fetch_upstream-Fetched}
use multi_threaded_proxy_ser.Proxy.Handle.{running}
use multi_threaded_proxy_ser.Proxy.Sample.{link}
use multi_threaded_proxy_ser.Proxy.State.{default_options}

fetch_upstream-Fetched_example :
    Fetched default_options (received link.recvs) (fetch_upstream default_options link)
fetch_upstream-Fetched_example = fetch_upstream-Fetched default_options link

-- An answer that says it has five bytes, and a stream that ends behind the second.
abbrev cut_off : Bytes
cut_off = codes "HTTP/1.1 200 OK\r\nContent-Length: 5\r\n\r\nhe"

cut_off_ok :
    (fetch_upstream default_options (record link { recvs = got cut_off ∷ got [] ∷ [] })).ok ≡ true
unfolding running
cut_off_ok = refl
