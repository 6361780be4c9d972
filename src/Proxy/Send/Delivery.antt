-- ===== src/Proxy/Send/Delivery.antt =====
-- What `send_all` delivers, and that it returns.
use mathlib.Core.List.{append_assoc}
use multi_threaded_proxy_ser.Base.{
  ℕ, zero, suc, ◌+◌, ◌*◌, ◌≤◌, Bool, true, false, Option, none, some, List, [], ◌∷◌, ◌++◌, length,
  take, drop, ltb, ◌==◌, Bytes, ◌≡◌, ◌≢◌, refl, ap, ◌∙◌, arith, Bool-cases, inl, inr,
  take-append-drop, length-drop, All,
}
use multi_threaded_proxy_ser.Proxy.Send.{
  SendResult, accepted, would_block, interrupted, failed, Sent, send_loop, send_all,
}

-- What is delivered is the front of the text, and all of it if the result is true.
pub record Delivers (text : Bytes) (s : Sent) : Type 0 where
  pub unsent : Bytes
  pub front : s.delivered ++ unsent ≡ text
  pub all : s.result ≡ some true → unsent ≡ []

stopped :
    (text delivered left : Bytes) (r : Option Bool)
    → delivered ++ left ≡ text
    → r ≢ some true
    → Delivers text (record { result = r; delivered = delivered })
stopped text delivered left r h n = record { unsent = left; front = h; all = λ e. absurd (n e) }

pub moved :
    (text delivered left : Bytes) (n : ℕ)
    → delivered ++ left ≡ text
    → (delivered ++ take n left) ++ drop n left ≡ text
moved text delivered left n h =
    append_assoc delivered (take n left) (drop n left)
    ∙ ap (λ t. delivered ++ t) (take-append-drop n left)
    ∙ h

send_loop-Delivers :
    (text delivered : Bytes) (spins : ℕ) (left : Bytes) (results : List SendResult)
    → delivered ++ left ≡ text
    → Delivers text (send_loop delivered spins left results)
unfolding send_loop
send_loop-Delivers text delivered spins [] results h = record {
  unsent = [];
  front = h;
  all = λ e. refl;
}
send_loop-Delivers text delivered spins (b ∷ left) [] h =
    stopped text delivered (b ∷ left) none h (λ e. cc)
send_loop-Delivers text delivered spins (b ∷ left) (accepted n ∷ results) h =
    elim (Bool-cases (n == 0)) [
      | inl z ↦ rw z (stopped text delivered (b ∷ left) (some false) h (λ e. cc))
      | inr p ↦ rw p (
          send_loop-Delivers text (delivered ++ take n (b ∷ left)) 0 (drop n (b ∷ left)) results
            (moved text delivered (b ∷ left) n h))
    ]
send_loop-Delivers text delivered spins (b ∷ left) (would_block writable ∷ results) h =
    elim (Bool-cases (ltb 1000 (spins + 1))) [
      | inl z ↦ rw z (stopped text delivered (b ∷ left) (some false) h (λ e. cc))
      | inr p ↦ rw p (elim (Bool-cases writable) [
        | inl w ↦ rw w (send_loop-Delivers text delivered (spins + 1) (b ∷ left) results h)
        | inr w ↦ rw w (stopped text delivered (b ∷ left) (some false) h (λ e. cc))
      ])
    ]
send_loop-Delivers text delivered spins (b ∷ left) (interrupted ∷ results) h =
    send_loop-Delivers text delivered spins (b ∷ left) results h
send_loop-Delivers text delivered spins (b ∷ left) (failed ∷ results) h =
    stopped text delivered (b ∷ left) (some false) h (λ e. cc)

-- Whatever the calls of `send` and `poll` return, what `send_all` delivers is the front of the
-- text, in order and once; and if it returns true, it is the whole text.
pub send_all-Delivers :
    (text : Bytes) (results : List SendResult) → Delivers text (send_all text results)
unfolding send_all
send_all-Delivers text results = send_loop-Delivers text [] 0 text results refl

-- No call is interrupted by a signal.
abbrev pub Uninterrupted : List SendResult → Type 0
Uninterrupted = All (λ r. r ≢ interrupted)

send_loop-ne-none :
    (delivered : Bytes) (spins : ℕ) (left : Bytes) (results : List SendResult)
    → Uninterrupted results
    → spins ≤ 1000
    → 1001 * length left ≤ length results + spins
    → (send_loop delivered spins left results).result ≢ none
unfolding send_loop
send_loop-ne-none delivered spins [] results u h m = λ e. cc
send_loop-ne-none delivered spins (b ∷ left) [] u h m = absurd (omega arith)
send_loop-ne-none delivered spins (b ∷ left) (accepted zero ∷ results) u h m = λ e. cc
send_loop-ne-none delivered spins (b ∷ left) (accepted (suc n) ∷ results) u h m =
    let some_taken : (suc n == 0) ≡ false = ground arith in
    rw some_taken (
      send_loop-ne-none (delivered ++ take (suc n) (b ∷ left)) 0 (drop n left) results u.1
        (omega arith) (omega (arith, length-drop n left)))
send_loop-ne-none delivered spins (b ∷ left) (would_block writable ∷ results) u h m =
    elim (Bool-cases (ltb 1000 (spins + 1))) [
      | inl z ↦ rw z (λ e. cc)
      | inr p ↦ rw p (elim (Bool-cases writable) [
        | inl w ↦ rw w (
            send_loop-ne-none delivered (spins + 1) (b ∷ left) results u.1 (ground arith)
              (omega arith))
        | inr w ↦ rw w (λ e. cc)
      ])
    ]
send_loop-ne-none delivered spins (b ∷ left) (interrupted ∷ results) u h m = absurd (u.0 refl)
send_loop-ne-none delivered spins (b ∷ left) (failed ∷ results) u h m = λ e. cc

-- If no call of `send` is interrupted by a signal, then `send_all` has returned after at most 1001
-- calls of `send` for each byte of the text.
pub send_all-ne-none :
    (text : Bytes) (results : List SendResult)
    → Uninterrupted results
    → 1001 * length text ≤ length results
    → (send_all text results).result ≢ none
unfolding send_all
send_all-ne-none text results u h =
    send_loop-ne-none [] 0 text results u (omega arith) (omega arith)
