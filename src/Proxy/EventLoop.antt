-- ===== src/Proxy/EventLoop.antt =====
-- server_phase5.cpp, the event loop of `main`: accepting, dispatching, and what the workers do to a
-- connection, as steps. A connection is the number it was accepted under.
pub mod Ownership
mod Tests
use multi_threaded_proxy_ser.Base.{
  ℕ, ◌+◌, ◌^◌, ◌%◌, ◌<◌, List, [], ◌∷◌, ◌++◌, length, ltb, if◌then◌else◌, ◌≡◌,
}
use multi_threaded_proxy_ser.Proxy.State.{bump, drop_one}

-- `armed` are the connections that epoll may report, `queued` those whose task waits in the queue,
-- and `busy` those whose task a worker runs.
pub record Loop : Type 0 where
  pub next_conn : ℕ
  pub armed : List ℕ
  pub queued : List ℕ
  pub busy : List ℕ
  pub active_connections : ℕ
  pub total_connections : ℕ
  pub peak_connections : ℕ

-- Before the first `epoll_wait`.
abbrev pub before_wait : Loop
before_wait = record {
  next_conn = 0;
  armed = [];
  queued = [];
  busy = [];
  active_connections = 0;
  total_connections = 0;
  peak_connections = 0;
}

-- The counters when a connection was accepted. The event loop alone raises the peak, so the loop
-- around `compare_exchange_weak` ends with the greater of the two.
unfoldable pub count_accepted : Loop → Loop
count_accepted s =
    let active = bump s.active_connections in
    record s {
      active_connections = active;
      total_connections = bump s.total_connections;
      peak_connections = if ltb s.peak_connections active then active else s.peak_connections;
    }

-- A connection that epoll takes.
unfoldable pub add_conn : Loop → Loop
unfolding count_accepted
add_conn s =
    let s1 = count_accepted s in
    record s1 { next_conn = s.next_conn + 1; armed = s.next_conn ∷ s.armed }

-- A connection that epoll refuses is closed at once.
unfoldable pub refuse_conn : Loop → Loop
unfolding count_accepted
refuse_conn s =
    let s1 = count_accepted s in
    record s1 { next_conn = s.next_conn + 1; active_connections = drop_one s1.active_connections }

-- The connections that are open.
abbrev pub open_count : Loop → ℕ
open_count s = length s.armed + (length s.queued + length s.busy)

-- The steps of the event loop and of the workers. An open connection has a descriptor, an `int`, of
-- its own, so that `accept` returns one only while fewer than 2 ^ 31 are open. Reporting a
-- connection disarms it (EPOLLONESHOT); `handle_ready` re-arms or closes it.
pub data LoopStep (s : Loop) : Loop → Type 0 where
  accepts : open_count s < 2 ^ 31 → LoopStep s (add_conn s)
  refuses : open_count s < 2 ^ 31 → LoopStep s (refuse_conn s)
  reports :
      (xs ys : List ℕ) (c : ℕ)
      → s.armed ≡ xs ++ c ∷ ys
      → LoopStep s (record s { armed = xs ++ ys; queued = s.queued ++ c ∷ [] })
  takes :
      (c : ℕ) (rest : List ℕ)
      → s.queued ≡ c ∷ rest
      → LoopStep s (record s { queued = rest; busy = c ∷ s.busy })
  rearms :
      (xs ys : List ℕ) (c : ℕ)
      → s.busy ≡ xs ++ c ∷ ys
      → LoopStep s (record s { armed = c ∷ s.armed; busy = xs ++ ys })
  closes :
      (xs ys : List ℕ) (c : ℕ)
      → s.busy ≡ xs ++ c ∷ ys
      → LoopStep s
          (record s { busy = xs ++ ys; active_connections = drop_one s.active_connections })

pub data LoopReach : Loop → Type 0 where
  begins : LoopReach before_wait
  goes_on : {s t : Loop} → LoopReach s → LoopStep s t → LoopReach t
