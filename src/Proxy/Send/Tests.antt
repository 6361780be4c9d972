-- ===== src/Proxy/Send/Tests.antt =====
-- `send_all` at small runs.

use multi_threaded_proxy_ser.Base.{◌≡◌, refl, List, [], ◌∷◌, some, true, codes}
use multi_threaded_proxy_ser.Proxy.Send.{SendResult, accepted, would_block, interrupted, send_all}
use multi_threaded_proxy_ser.Proxy.Send.Delivery.{Delivers, send_all-Delivers}

abbrev results : List SendResult
results = accepted 1 ∷ would_block true ∷ interrupted ∷ accepted 9 ∷ []

send_all-Delivers_example : Delivers (codes "abc") (send_all (codes "abc") results)
send_all-Delivers_example = send_all-Delivers (codes "abc") results

send_all_example :
    send_all (codes "abc") results ≡ record { result = some true; delivered = codes "abc" }
unfolding send_all
send_all_example = refl
