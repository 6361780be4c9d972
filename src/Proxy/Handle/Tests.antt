-- ===== src/Proxy/Handle/Tests.antt =====
-- `handle_ready` on a connection that sends two requests.
use multi_threaded_proxy_ser.Base.{ℕ, true, List, [], ◌∷◌, ◌≡◌, ◌≢◌, refl, Bytes, codes}
use multi_threaded_proxy_ser.Proxy.Fetch.{Recv, got, would_block}
use multi_threaded_proxy_ser.Proxy.Serve.{Env}
use multi_threaded_proxy_ser.Proxy.State.{default_options}
use multi_threaded_proxy_ser.Proxy.Sample.{answer, env, server, conn}
use multi_threaded_proxy_ser.Proxy.Handle.{
  Outcome, rearmed, closed, out_of_fuel, handle_ready, running,
}
use multi_threaded_proxy_ser.Proxy.Handle.Connection.{LeavesWell, handle_ready-LeavesWell}
use multi_threaded_proxy_ser.Proxy.Handle.Total.{handle_ready-ne-out_of_fuel}

abbrev sent_by : Outcome → List Bytes
sent_by (rearmed s c) = s.sent
sent_by (closed s) = s.sent
sent_by out_of_fuel = []

abbrev recvs : List Recv
recvs =
    got (codes "GET /a HTTP/1.1\r\nHost: x\r\n\r\nGET /b HTTP/1.0\r\nHost: x\r\n\r\n")
    ∷ would_block
    ∷ []

abbrev envs : ℕ → Env
envs n = env

abbrev outcome : Outcome
outcome = handle_ready envs default_options true server conn recvs

two_requests : sent_by outcome ≡ answer ∷ answer ∷ []
unfolding running
two_requests = refl

handle_ready-ne-out_of_fuel_example : outcome ≢ out_of_fuel
handle_ready-ne-out_of_fuel_example =
    handle_ready-ne-out_of_fuel envs default_options true server conn recvs

handle_ready-LeavesWell_example : LeavesWell server outcome
handle_ready-LeavesWell_example =
    handle_ready-LeavesWell envs default_options true server conn recvs
