-- ===== src/Proxy/EventLoop/Tests.antt =====
-- The event loop with two connections, one of them at a worker.
use multi_threaded_proxy_ser.Base.{[], ◌∷◌, refl, arith}
use multi_threaded_proxy_ser.Proxy.EventLoop.{
  Loop, add_conn, count_accepted, LoopReach, begins, goes_on, accepts, reports, takes,
}
use multi_threaded_proxy_ser.Proxy.EventLoop.Ownership.{IsOwned, LoopReach-IsOwned}

abbrev at_work : Loop
at_work = record {
  next_conn = 2;
  armed = 1 ∷ [];
  queued = [];
  busy = 0 ∷ [];
  active_connections = 2;
  total_connections = 2;
  peak_connections = 2;
}

at_work-LoopReach : LoopReach at_work
unfolding add_conn count_accepted
at_work-LoopReach =
    goes_on
      (goes_on (goes_on (goes_on begins (accepts (omega arith))) (accepts (omega arith)))
        (reports (1 ∷ []) [] 0 refl))
      (takes 0 [] refl)

LoopReach-IsOwned_example : IsOwned at_work
LoopReach-IsOwned_example = LoopReach-IsOwned at_work-LoopReach
