-- ===== src/Origin/Deliver.antt =====
-- What the client of the origin gets: the answers to its requests, in order, or the front of them.
use mathlib.Core.List.{append_assoc, append-nil}
use multi_threaded_proxy_ser.Base.{
  ℕ, zero, suc, ◌+◌, ◌≤◌, ◌<◌, ◌%◌, ◌^◌, Bool, true, false, not, ◌&&◌, ◌||◌, Option, none, some,
  List, [], ◌∷◌, ◌++◌, length, take, drop, All, Bytes, if◌then◌else◌, ◌≡◌, refl, sym, ap, subst,
  ◌∙◌, arith, length-append,
}
use multi_threaded_proxy_ser.Origin.{
  Config, State, Served, waiting, ended, sending, no_fuel, drained, drain, target_path, asks_close,
  make_body, make_answer, send_all, answer_head, after_answer, serve, Outcome, rearmed, closed,
  unreturned, out_of_fuel, finish, handle,
}
use multi_threaded_proxy_ser.Origin.Send.{send_all-IsFront}
use multi_threaded_proxy_ser.Proxy.Fetch.{Recv, got, interrupted, would_block, failed}
use multi_threaded_proxy_ser.Proxy.Fetch.Delivery.{Delivers}
use multi_threaded_proxy_ser.Proxy.Fetch.Framing.{received}
use multi_threaded_proxy_ser.Proxy.Send.{SendResult}
use multi_threaded_proxy_ser.Request.{crlf}
use multi_threaded_proxy_ser.Text.{find}

-- The head of a request: the first blank line is the one behind it.
abbrev pub IsHead : Bytes → Type 0
IsHead h = (t : Bytes) → find (crlf ++ crlf) (h ++ (crlf ++ (crlf ++ t))) ≡ some (length h)

-- Requests one behind the other, and what follows the last.
abbrev pub pipeline : List Bytes → Bytes → Bytes
pipeline [] tail = tail
pipeline (h ∷ hs) tail = h ++ (crlf ++ (crlf ++ pipeline hs tail))

-- The answers to requests, up to one that ends the connection; `close` is whether one before them
-- asked to.
abbrev pub answers : Config → Bool → List Bytes → Bytes
answers cfg close [] = []
answers cfg close (h ∷ hs) =
    let close' = close || asks_close h in
    let keep = cfg.keep_alive && not close' in
    let rest = answers cfg close' hs in
    make_answer (make_body cfg (target_path h)) keep ++ (if keep then rest else [])

abbrev pub IsFrontOf : Bytes → Bytes → Type 0
IsFrontOf all front = (rest : Bytes) × (front ++ rest ≡ all)

abbrev Answered : Bytes → Bytes → Served → Type 0
Answered all tail (waiting s) = (s.delivered ≡ all) × (s.inbuf ≡ tail)
Answered all tail (ended s) = IsFrontOf all s.delivered
Answered all tail (sending s) = IsFrontOf all s.delivered
Answered all tail no_fuel = ⊥

-- One round: the state after it, and what was sent.
head_bytes :
    (h t : Bytes)
    → (take (length h) (h ++ (crlf ++ (crlf ++ t))) ≡ h)
      × (drop (length h + 4) (h ++ (crlf ++ (crlf ++ t))) ≡ t)
head_bytes [] t = (refl, refl)
head_bytes (c ∷ h) t =
    let step : suc (length h) + 4 ≡ suc (length h + 4) = omega arith in
    (ap (◌∷◌ c) (head_bytes h t).0, rw step (head_bytes h t).1)

-- The state after a round on a head.
abbrev after_head : Config → State → Bytes → Bytes → State × Option Bool × Bool
after_head cfg s h t =
    let close = s.wants_close || asks_close h in
    let keep = cfg.keep_alive && not close in
    let sent = send_all (make_answer (make_body cfg (target_path h)) keep) s.sends in
    (
      record {
        inbuf = t;
        wants_close = close;
        requests = (s.requests + 1) % 2 ^ 64;
        delivered = s.delivered ++ sent.delivered;
        sends = sent.unused;
      },
      sent.result,
      keep,
    )

answer_head-after :
    (cfg : Config) (s : State) (h t : Bytes)
    → s.inbuf ≡ h ++ (crlf ++ (crlf ++ t))
    → answer_head cfg s (length h) ≡ after_head cfg s h t
unfolding answer_head
answer_head-after cfg s h t e =
    let front : take (length h) s.inbuf ≡ h = ap (take (length h)) e ∙ (head_bytes h t).0 in
    let rest : drop (length h + 4) s.inbuf ≡ t = ap (drop (length h + 4)) e ∙ (head_bytes h t).1 in
    rw (front, rest) refl

module _ (s : State) (d text sent unsent : Bytes) (front : sent ++ unsent ≡ text)
    (e : s.delivered ≡ d ++ sent) where
  sent-IsFrontOf : (more : Bytes) → IsFrontOf (d ++ (text ++ more)) s.delivered
  sent-IsFrontOf more = (
    unsent ++ more,
    ap (λ t. t ++ (unsent ++ more)) e
        ∙ append_assoc d sent (unsent ++ more)
        ∙ ap (λ t. d ++ t) (sym (append_assoc sent unsent more) ∙ ap (λ t. t ++ more) front),
  )

  sent_all : unsent ≡ [] → s.delivered ≡ d ++ text
  sent_all h = e ∙ ap (λ t. d ++ t) (sym (append-nil sent) ∙ ap (λ t. sent ++ t) (sym h) ∙ front)

  -- What a round leads to, if the rest of the loop answers the rest.
  after_answer-Answered :
      (more tail : Bytes) (result : Option Bool) (keep : Bool) (rest : Served)
      → (result ≡ some true → unsent ≡ [])
      → (s.delivered ≡ d ++ text → Answered (d ++ (text ++ more)) tail rest)
      → Answered (d ++ (text ++ (if keep then more else []))) tail (after_answer s result keep rest)
  unfolding after_answer
  after_answer-Answered more tail none keep rest all next =
      sent-IsFrontOf (if keep then more else [])
  after_answer-Answered more tail (some false) keep rest all next =
      sent-IsFrontOf (if keep then more else [])
  after_answer-Answered more tail (some true) false rest all next = sent-IsFrontOf []
  after_answer-Answered more tail (some true) true rest all next = next (sent_all (all refl))

serve-nothing :
    (fuel : ℕ) (cfg : Config) (s : State)
    → find (crlf ++ crlf) s.inbuf ≡ none
    → serve (suc fuel) cfg s ≡ waiting s
unfolding serve
serve-nothing fuel cfg s h = rw (h, serve) refl

serve-head :
    (fuel : ℕ) (cfg : Config) (s : State) (h t : Bytes)
    → IsHead h
    → s.inbuf ≡ h ++ (crlf ++ (crlf ++ t))
    → let round = after_head cfg s h t in
      serve (suc fuel) cfg s ≡ after_answer round.0 round.1 round.2 (serve fuel cfg round.0)
unfolding serve
serve-head fuel cfg s h t head e =
    let found : find (crlf ++ crlf) s.inbuf ≡ some (length h) =
      ap (find (crlf ++ crlf)) e ∙ head t in
    rw (found, answer_head-after cfg s h t e, serve) refl

serve-Answered :
    (fuel : ℕ) (cfg : Config) (s : State) (hs : List Bytes) (tail : Bytes)
    → length hs < fuel
    → All IsHead hs
    → find (crlf ++ crlf) tail ≡ none
    → s.inbuf ≡ pipeline hs tail
    → Answered (s.delivered ++ answers cfg s.wants_close hs) tail (serve fuel cfg s)
serve-Answered zero cfg s hs tail h heads last e = elim h [ ]
serve-Answered (suc fuel) cfg s [] tail h heads last e =
    subst (Answered (s.delivered ++ []) tail)
      (sym (serve-nothing fuel cfg s (ap (find (crlf ++ crlf)) e ∙ last)))
      (sym (append-nil s.delivered), e)
serve-Answered (suc fuel) cfg s (x ∷ hs) tail h heads last e =
    let t = pipeline hs tail in
    let round = after_head cfg s x t in
    let text = make_answer (make_body cfg (target_path x)) round.2 in
    let sent = send_all text s.sends in
    let front = send_all-IsFront text s.sends in
    let more = answers cfg round.0.wants_close hs in
    subst (Answered (s.delivered ++ answers cfg s.wants_close (x ∷ hs)) tail)
      (sym (serve-head fuel cfg s x t heads.0 e))
      (after_answer-Answered round.0 s.delivered text sent.delivered front.unsent front.front refl
        more tail sent.result round.2 (serve fuel cfg round.0) front.all
        (λ whole.
          subst (λ all. Answered all tail (serve fuel cfg round.0))
            (ap (λ u. u ++ more) whole ∙ append_assoc s.delivered text more)
            (serve-Answered fuel cfg round.0 hs tail (omega arith) heads.1 last refl)))

drain-Delivers :
    (inbuf : Bytes) (recvs : List Recv)
    → Delivers recvs
    → drain inbuf recvs ≡ drained (inbuf ++ received recvs) false
unfolding drain
drain-Delivers inbuf [] d = ap (λ b. drained b false) (sym (append-nil inbuf))
drain-Delivers inbuf (got [] ∷ recvs) d = elim d [ ]
drain-Delivers inbuf (got (b ∷ tmp) ∷ recvs) d =
    drain-Delivers (inbuf ++ (b ∷ tmp)) recvs d
    ∙ ap (λ t. drained t false) (append_assoc inbuf (b ∷ tmp) (received recvs))
drain-Delivers inbuf (interrupted ∷ recvs) d = drain-Delivers inbuf recvs d
drain-Delivers inbuf (would_block ∷ recvs) d = elim d [ ]
drain-Delivers inbuf (failed text ∷ recvs) d = elim d [ ]

length-pipeline : (hs : List Bytes) (tail : Bytes) → length hs ≤ length (pipeline hs tail)
length-pipeline [] tail = omega arith
length-pipeline (h ∷ hs) tail =
    omega (arith, length-append h (crlf ++ (crlf ++ pipeline hs tail)), length-pipeline hs tail)

-- How `handle` ends on requests with the heads `hs`: with all answers sent and the tail kept, or
-- closed or still sending behind a front of them.
abbrev pub Handled : Config → List Bytes → Bytes → Outcome → Type 0
Handled cfg hs tail (rearmed s) = (s.delivered ≡ answers cfg false hs) × (s.inbuf ≡ tail)
Handled cfg hs tail (closed s) = IsFrontOf (answers cfg false hs) s.delivered
Handled cfg hs tail (unreturned s) = IsFrontOf (answers cfg false hs) s.delivered
Handled cfg hs tail out_of_fuel = ⊥

finish-Handled :
    (cfg : Config) (hs : List Bytes) (tail : Bytes) (rearm : Bool) (r : Served)
    → Answered (answers cfg false hs) tail r
    → Handled cfg hs tail (finish false rearm r)
unfolding finish
finish-Handled cfg hs tail true (waiting s) h = h
finish-Handled cfg hs tail false (waiting s) h = ([], append-nil s.delivered ∙ h.0)
finish-Handled cfg hs tail rearm (ended s) h = h
finish-Handled cfg hs tail rearm (sending s) h = h
finish-Handled cfg hs tail rearm no_fuel h = h

-- If `recv` delivers, in pieces that are not empty and with signals between them, the rest of
-- requests whose heads end at their first blank line and a tail without one, then whatever `send`
-- and `poll` return, `handle` re-arms the connection with the answers to all requests sent in order
-- and the tail in the buffer, or it closes it or is still sending with the front of these answers
-- sent, where an answer that ends the connection is the last.
pub handle-Handled :
    (cfg : Config) (rearm : Bool) (requests : ℕ) (inbuf : Bytes) (recvs : List Recv)
    (sends : List SendResult) (hs : List Bytes) (tail : Bytes)
    → Delivers recvs
    → inbuf ++ received recvs ≡ pipeline hs tail
    → All IsHead hs
    → find (crlf ++ crlf) tail ≡ none
    → Handled cfg hs tail (handle cfg rearm requests inbuf recvs sends)
unfolding handle
handle-Handled cfg rearm requests inbuf recvs sends hs tail d e heads last =
    let all = inbuf ++ received recvs in
    let s : State = record {
      inbuf = all;
      wants_close = false;
      requests = requests;
      delivered = [];
      sends = sends;
    } in
    let fuel : length hs < suc (length all) = omega (arith, length-pipeline hs tail, ap length e) in
    rw (drain-Delivers inbuf recvs d, handle)
      (finish-Handled cfg hs tail rearm (serve (suc (length all)) cfg s)
        (serve-Answered (suc (length all)) cfg s hs tail fuel heads last e))
