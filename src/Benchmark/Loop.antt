-- ===== src/Benchmark/Loop.antt =====
-- The loop of `read_one_response` over the pieces of an answer of the origin.
use multi_threaded_proxy_ser.Base.{
  ℕ, ◌+◌, ◌≤◌, ◌<◌, Bool, List, [], ◌∷◌, ◌++◌, length, take, drop, ltb, Bytes, ◌≡◌, refl, ap, ◌∙◌,
  arith, Bool-cases, inl, inr, length-drop,
}
use multi_threaded_proxy_ser.Base.Int.{ℤ, pos}
use multi_threaded_proxy_ser.Benchmark.{more, whole, answered, check, read_one_response}
use multi_threaded_proxy_ser.Benchmark.Reading.{check-unfinished, check-finished}
use multi_threaded_proxy_ser.Number.{long_max}
use multi_threaded_proxy_ser.Origin.{make_answer}
use multi_threaded_proxy_ser.Proxy.Fetch.{Recv, got, interrupted, would_block, failed}
use multi_threaded_proxy_ser.Proxy.Fetch.Delivery.{Delivers, joined}
use multi_threaded_proxy_ser.Proxy.Fetch.Framing.{received}
use multi_threaded_proxy_ser.Text.Wildcard.{take_of_length}

read-got :
    (again buf : Bytes) (b : ℕ) (tmp : Bytes) (recvs : List Recv)
    → check buf ≡ more
    → read_one_response again buf (got (b ∷ tmp) ∷ recvs)
      ≡ read_one_response again (buf ++ (b ∷ tmp)) recvs
unfolding read_one_response
read-got again buf b tmp recvs e = rw (e, read_one_response) refl

read-interrupted :
    (again buf : Bytes) (recvs : List Recv)
    → check buf ≡ more
    → read_one_response again buf (interrupted ∷ recvs) ≡ read_one_response again buf recvs
unfolding read_one_response
read-interrupted again buf recvs e = rw (e, read_one_response) refl

-- A response that is there is returned before any further call of `recv`.
read-whole :
    (again buf : Bytes) (recvs : List Recv) (status : ℤ) (need : ℕ)
    → check buf ≡ whole status need
    → read_one_response again buf recvs ≡ answered status need (drop need buf) recvs
unfolding read_one_response
read-whole again buf [] status need e = rw (e, read_one_response) refl
read-whole again buf (got [] ∷ recvs) status need e = rw (e, read_one_response) refl
read-whole again buf (got (b ∷ tmp) ∷ recvs) status need e = rw (e, read_one_response) refl
read-whole again buf (interrupted ∷ recvs) status need e = rw (e, read_one_response) refl
read-whole again buf (would_block ∷ recvs) status need e = rw (e, read_one_response) refl
read-whole again buf (failed text ∷ recvs) status need e = rw (e, read_one_response) refl

drop_all : (s : Bytes) → drop (length s) s ≡ []
drop_all [] = refl
drop_all (c ∷ s) = drop_all s

module _ (again body : Bytes) (keep : Bool) (small : length body ≤ long_max)
    (later : List Recv) where
  abbrev msg : Bytes
  msg = make_answer body keep

  read-pieces :
      (k : ℕ) (pieces : List Recv)
      → k < length msg
      → Delivers pieces
      → received pieces ≡ drop k msg
      → (rest : List Recv) × (received rest ≡ [])
        × (read_one_response again (take k msg) (pieces ++ later)
            ≡ answered (pos 200) (length msg) [] (rest ++ later))
  read-pieces k [] lt d e = absurd (omega (arith, ap length e, length-drop k msg))
  read-pieces k (got [] ∷ recvs) lt d e = elim d [ ]
  read-pieces k (got (b ∷ tmp) ∷ recvs) lt d e =
      let piece = b ∷ tmp in
      let n = k + length piece in
      let (grown, left, le) = joined msg k piece (received recvs) (omega arith) e in
      let next =
        read-got again (take k msg) b tmp (recvs ++ later) (check-unfinished body keep small k lt)
        ∙ ap (λ t. read_one_response again t (recvs ++ later)) grown in
      elim (Bool-cases (ltb n (length msg))) [
        | inl part ↦
            let (rest, spent, read) = read-pieces n recvs (ground arith) d left in
            (rest, spent, next ∙ read)
        | inr full ↦
            let size : n ≡ length msg = ground (arith, le) in
            let spent : received recvs ≡ [] = left ∙ ap (λ m. drop m msg) size ∙ drop_all msg in
            let all : take n msg ≡ msg = take_of_length n msg (omega (arith, size)) in
            (
              recvs,
              spent,
              next
                  ∙ ap (λ t. read_one_response again t (recvs ++ later)) all
                  ∙ read-whole again msg (recvs ++ later) (pos 200) (length msg)
                      (check-finished body keep small)
                  ∙ ap (λ t. answered (pos 200) (length msg) t (recvs ++ later)) (drop_all msg),
            )
      ]
  read-pieces k (interrupted ∷ recvs) lt d e =
      let (rest, spent, read) = read-pieces k recvs lt d e in
      (
        rest,
        spent,
        read-interrupted again (take k msg) (recvs ++ later) (check-unfinished body keep small k lt)
            ∙ read,
      )
  read-pieces k (would_block ∷ recvs) lt d e = elim d [ ]
  read-pieces k (failed text ∷ recvs) lt d e = elim d [ ]

nonempty : (body : Bytes) (keep : Bool) → 0 < length (make_answer body keep)
unfolding make_answer
nonempty body keep = omega arith

-- If `recv` delivers an answer of the origin with a body of at most 2 ^ 63 - 1 bytes, in pieces
-- that are not empty and with signals between them, `read_one_response` on an empty buffer returns
-- the status 200 and the length of the answer, leaves the buffer empty, and uses no result of
-- `recv` behind the answer.
pub read_one_response-make_answer :
    (again body : Bytes) (keep : Bool) (pieces later : List Recv)
    → length body ≤ long_max
    → Delivers pieces
    → received pieces ≡ make_answer body keep
    → (rest : List Recv) × (received rest ≡ [])
      × (read_one_response again [] (pieces ++ later)
          ≡ answered (pos 200) (length (make_answer body keep)) [] (rest ++ later))
read_one_response-make_answer again body keep pieces later small d e =
    read-pieces again body keep small later 0 pieces (nonempty body keep) d e
