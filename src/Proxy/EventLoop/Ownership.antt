-- ===== src/Proxy/EventLoop/Ownership.antt =====
-- Every open connection has one place, and the counters tell how many there are.
use multi_threaded_proxy_ser.Base.{
  ℕ, suc, ◌+◌, ◌^◌, ◌<◌, ◌≤◌, List, [], ◌∷◌, ◌++◌, length, if◌then◌else◌, ◌≡◌, ◌==◌, ap, arith,
  length-append, refl,
}
use multi_threaded_proxy_ser.Proxy.EventLoop.{
  Loop, count_accepted, add_conn, refuse_conn, open_count, LoopStep, accepts, refuses, reports,
  takes, rearms, closes, LoopReach, begins, goes_on,
}

abbrev is_same : ℕ → ℕ → ℕ
is_same k c = if k == c then 1 else 0

-- How often `k` occurs.
unfoldable pub count : ℕ → List ℕ → ℕ
count k [] = 0
count k (c ∷ cs) = is_same k c + count k cs

count-append : (k : ℕ) (xs ys : List ℕ) → count k (xs ++ ys) ≡ count k xs + count k ys
unfolding count
count-append k [] ys = omega arith
count-append k (x ∷ xs) ys = omega (arith, count-append k xs ys)

abbrev pub places : Loop → ℕ → ℕ
places s k = count k s.armed + (count k s.queued + count k s.busy)

pub record IsOwned (s : Loop) : Type 0 where
  pub once : (k : ℕ) → places s k ≤ 1
  pub fresh : (k : ℕ) → s.next_conn ≤ k → places s k ≡ 0
  pub active : s.active_connections ≡ open_count s
  pub few : open_count s ≤ 2 ^ 31
  pub peak : s.active_connections ≤ s.peak_connections

add_conn-IsOwned : (s : Loop) → open_count s < 2 ^ 31 → IsOwned s → IsOwned (add_conn s)
unfolding add_conn count_accepted count
add_conn-IsOwned s few h = record {
  once = λ k. ground (arith, h.once k, h.fresh k);
  fresh = λ k le. ground (arith, h.fresh k);
  active = omega (arith, h.active);
  few = omega arith;
  peak = ground (arith, h.peak);
}

refuse_conn-IsOwned : (s : Loop) → open_count s < 2 ^ 31 → IsOwned s → IsOwned (refuse_conn s)
unfolding refuse_conn count_accepted
refuse_conn-IsOwned s few h = record {
  once = h.once;
  fresh = λ k le. h.fresh k (omega arith);
  active = omega (arith, h.active);
  few = h.few;
  peak = ground (arith, h.peak, h.active);
}

-- What taking a connection out of a list does to the counts.
count-middle :
    (k c : ℕ) (xs ys : List ℕ) → count k (xs ++ c ∷ ys) ≡ is_same k c + count k (xs ++ ys)
unfolding count
count-middle k c xs ys = omega (arith, count-append k xs (c ∷ ys), count-append k xs ys)

length-middle : (c : ℕ) (xs ys : List ℕ) → length (xs ++ c ∷ ys) ≡ suc (length (xs ++ ys))
length-middle c xs ys = omega (arith, length-append xs (c ∷ ys), length-append xs ys)

-- A step that keeps every count, the numbers given out and the number of open connections, as it
-- only moves connections.
moved-IsOwned :
    (s : Loop) (armed queued busy : List ℕ)
    → ((k : ℕ) → count k armed + (count k queued + count k busy) ≡ places s k)
    → length armed + (length queued + length busy) ≡ open_count s
    → IsOwned s
    → IsOwned (record s { armed = armed; queued = queued; busy = busy })
moved-IsOwned s armed queued busy counts lengths h = record {
  once = λ k. omega (arith, counts k, h.once k);
  fresh = λ k le. omega (arith, counts k, h.fresh k le);
  active = omega (arith, lengths, h.active);
  few = omega (arith, lengths, h.few);
  peak = h.peak;
}

LoopStep-IsOwned : {s t : Loop} → LoopStep s t → IsOwned s → IsOwned t
unfolding count
LoopStep-IsOwned {s} (accepts few) h = add_conn-IsOwned s few h
LoopStep-IsOwned {s} (refuses few) h = refuse_conn-IsOwned s few h
LoopStep-IsOwned {s} (reports xs ys c e) h =
    moved-IsOwned s (xs ++ ys) (s.queued ++ c ∷ []) s.busy
      (λ k. omega (arith, ap (count k) e, count-middle k c xs ys, count-append k s.queued (c ∷ [])))
      (omega (arith, ap length e, length-middle c xs ys, length-append s.queued (c ∷ []))) h
LoopStep-IsOwned {s} (takes c rest e) h =
    moved-IsOwned s s.armed rest (c ∷ s.busy) (λ k. omega (arith, ap (count k) e))
      (omega (arith, ap length e)) h
LoopStep-IsOwned {s} (rearms xs ys c e) h =
    moved-IsOwned s (c ∷ s.armed) s.queued (xs ++ ys)
      (λ k. omega (arith, ap (count k) e, count-middle k c xs ys))
      (omega (arith, ap length e, length-middle c xs ys)) h
LoopStep-IsOwned {s} (closes xs ys c e) h = record {
  once = λ k. omega (arith, h.once k, ap (count k) e, count-middle k c xs ys);
  fresh = λ k le. omega (arith, h.fresh k le, ap (count k) e, count-middle k c xs ys);
  active = omega (arith, h.active, h.few, ap length e, length-middle c xs ys);
  few = omega (arith, h.few, ap length e, length-middle c xs ys);
  peak = omega (arith, h.peak, h.active, h.few, ap length e, length-middle c xs ys);
}

-- In every reachable state of the event loop and its workers, each connection is armed, queued or
-- at a worker at most once in all, a number not yet given out nowhere; `active_connections` is the
-- number of open connections, at most 2 ^ 31, and at most `peak_connections`.
pub LoopReach-IsOwned : {s : Loop} → LoopReach s → IsOwned s
unfolding count
LoopReach-IsOwned begins = record {
  once = λ k. omega arith;
  fresh = λ k le. refl;
  active = refl;
  few = omega arith;
  peak = omega arith;
}
LoopReach-IsOwned (goes_on r step) = LoopStep-IsOwned step (LoopReach-IsOwned r)
