-- ===== src/Origin/Send.antt =====
-- What the origin's `send_all` delivers.
use multi_threaded_proxy_ser.Base.{
  Bool, true, false, Option, none, some, List, [], ◌∷◌, ◌++◌, take, drop, ◌==◌, Bytes, ◌≡◌, ◌≢◌,
  refl, Bool-cases, inl, inr,
}
use multi_threaded_proxy_ser.Origin.{Sent, send_loop, send_all}
use multi_threaded_proxy_ser.Proxy.Send.{SendResult, accepted, would_block, interrupted, failed}
use multi_threaded_proxy_ser.Proxy.Send.Delivery.{moved}

-- What is delivered is the front of the text, and all of it if the result is true.
pub record IsFront (text : Bytes) (s : Sent) : Type 0 where
  pub unsent : Bytes
  pub front : s.delivered ++ unsent ≡ text
  pub all : s.result ≡ some true → unsent ≡ []

stopped :
    (text delivered left : Bytes) (r : Option Bool) (unused : List SendResult)
    → delivered ++ left ≡ text
    → r ≢ some true
    → IsFront text (record { result = r; delivered = delivered; unused = unused })
stopped text delivered left r unused h n = record {
  unsent = left;
  front = h;
  all = λ e. absurd (n e);
}

send_loop-IsFront :
    (text delivered left : Bytes) (sends : List SendResult)
    → delivered ++ left ≡ text
    → IsFront text (send_loop delivered left sends)
unfolding send_loop
send_loop-IsFront text delivered [] sends h = record { unsent = []; front = h; all = λ e. refl }
send_loop-IsFront text delivered (b ∷ left) [] h =
    stopped text delivered (b ∷ left) none [] h (λ e. cc)
send_loop-IsFront text delivered (b ∷ left) (accepted n ∷ sends) h = elim (Bool-cases (n == 0)) [
  | inl z ↦ rw z (stopped text delivered (b ∷ left) (some false) sends h (λ e. cc))
  | inr p ↦ rw p (
      send_loop-IsFront text (delivered ++ take n (b ∷ left)) (drop n (b ∷ left)) sends
        (moved text delivered (b ∷ left) n h))
]
send_loop-IsFront text delivered (b ∷ left) (would_block true ∷ sends) h =
    send_loop-IsFront text delivered (b ∷ left) sends h
send_loop-IsFront text delivered (b ∷ left) (would_block false ∷ sends) h =
    stopped text delivered (b ∷ left) (some false) sends h (λ e. cc)
send_loop-IsFront text delivered (b ∷ left) (interrupted ∷ sends) h =
    send_loop-IsFront text delivered (b ∷ left) sends h
send_loop-IsFront text delivered (b ∷ left) (failed ∷ sends) h =
    stopped text delivered (b ∷ left) (some false) sends h (λ e. cc)

pub send_all-IsFront : (text : Bytes) (sends : List SendResult) → IsFront text (send_all text sends)
unfolding send_all
send_all-IsFront text sends = send_loop-IsFront text [] text sends refl
