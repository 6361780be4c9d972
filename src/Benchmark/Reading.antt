-- ===== src/Benchmark/Reading.antt =====
-- The load generator reads the origin's answers exactly, however `recv` cuts them into pieces.
use mathlib.Core.List.{append_assoc}
use multi_threaded_proxy_ser.Base.{
  ℕ, ◌+◌, ◌-◌, ◌≤◌, ◌<◌, Bool, true, false, none, some, [], ◌∷◌, ◌++◌, length, take, leb, ltb,
  if◌then◌else◌, Bytes, codes, ◌≡◌, refl, sym, ap, ◌∙◌, arith, Bool-cases, inl, inr, length-append,
  length-take, take-length-append,
}
use multi_threaded_proxy_ser.Base.Int.{pos}
use multi_threaded_proxy_ser.Benchmark.{more, whole, status_of, length_of, check}
use multi_threaded_proxy_ser.Message.{IsLine, Fields, fields_length, print_message}
use multi_threaded_proxy_ser.Message.Cut.{blank-take, blank-print_message, take-body}
use multi_threaded_proxy_ser.Message.Framing.{length-print_message}
use multi_threaded_proxy_ser.Message.Literals.{is_line-IsLine}
use multi_threaded_proxy_ser.Number.{to_string, atoi, strtol, long_max}
use multi_threaded_proxy_ser.Number.Digits.{strtol-field}
use multi_threaded_proxy_ser.Origin.{make_answer}
use multi_threaded_proxy_ser.Origin.Answer.{
  answer_fields, answer_fields-All, make_answer-print_message,
}
use multi_threaded_proxy_ser.Response.Fields.{status_line, status_line-IsLine}
use multi_threaded_proxy_ser.Request.{crlf}
use multi_threaded_proxy_ser.Response.RoundTrip.{connection_text}
use multi_threaded_proxy_ser.Text.Wildcard.{take_of_length}
use multi_threaded_proxy_ser.Text.{find, find_byte, to_lower}

-- The head of an answer with a body of `n` bytes, without its blank line.
abbrev head_text : ℕ → Bool → Bytes
head_text n keep =
    codes "HTTP/1.1 200 OK\r\nContent-Type: text/plain\r\nContent-Length: "
    ++ (to_string n
        ++ (codes "\r\nCache-Control: max-age=60\r\nConnection: " ++ connection_text keep))

print_message-head_text :
    (body : Bytes) (keep : Bool) (t : Bytes)
    → print_message (status_line 200 (codes "OK")) (answer_fields body keep) t
      ≡ head_text (length body) keep ++ (crlf ++ (crlf ++ t))
unfolding to_string
print_message-head_text body true t =
    ap (λ u. codes "HTTP/1.1 200 OK\r\nContent-Type: text/plain\r\nContent-Length: " ++ u)
      (sym (
        append_assoc (to_string (length body))
          (codes "\r\nCache-Control: max-age=60\r\nConnection: keep-alive") (crlf ++ (crlf ++ t))))
print_message-head_text body false t =
    ap (λ u. codes "HTTP/1.1 200 OK\r\nContent-Type: text/plain\r\nContent-Length: " ++ u)
      (sym (
        append_assoc (to_string (length body))
          (codes "\r\nCache-Control: max-age=60\r\nConnection: close") (crlf ++ (crlf ++ t))))

found_length :
    (n : ℕ) (keep : Bool) → find (codes "content-length:") (to_lower (head_text n keep)) ≡ some 43
unfolding find to_lower
found_length n keep = refl

length_of-head_text : (n : ℕ) (keep : Bool) → n ≤ long_max → length_of (head_text n keep) ≡ pos n
unfolding length_of
length_of-head_text n keep fits =
    rw (found_length n keep, length_of)
      (strtol-field n
        (10 ∷ (codes "Cache-Control: max-age=60\r\nConnection: " ++ connection_text keep)) fits)

status_of-head_text :
    (n : ℕ) (keep : Bool) (t : Bytes) → status_of (head_text n keep ++ t) ≡ pos 200
unfolding status_of find_byte atoi strtol
status_of-head_text n keep t = refl

module _ (body : Bytes) (keep : Bool) (small : length body ≤ long_max) where
  abbrev head : Bytes
  head = head_text (length body) keep

  abbrev msg : Bytes
  msg = make_answer body keep

  check_front :
      (t : Bytes)
      → find (crlf ++ crlf) (head ++ (crlf ++ (crlf ++ t))) ≡ some (length head)
      → check (head ++ (crlf ++ (crlf ++ t))) ≡ (
          if leb (length head + 4 + length body) (length (head ++ (crlf ++ (crlf ++ t))))
          then whole (pos 200) (length head + 4 + length body)
          else more)
  unfolding check
  check_front t found =
      let text = head ++ (crlf ++ (crlf ++ t)) in
      rw
        (
          found,
          take-length-append head (crlf ++ (crlf ++ t)),
          length_of-head_text (length body) keep small,
          status_of-head_text (length body) keep (crlf ++ (crlf ++ t)),
          check,
        )
        refl

  abbrev start : Bytes
  start = status_line 200 (codes "OK")

  abbrev fields : Fields
  fields = answer_fields body keep

  start-IsLine : IsLine start
  start-IsLine = status_line-IsLine 200 (codes "OK") (is_line-IsLine (codes "OK") refl)

  head_size : length head ≡ length start + fields_length fields
  head_size = omega (
    arith,
    length-print_message start fields [],
    ap length (print_message-head_text body keep []),
    length-append head (crlf ++ (crlf ++ [])),
  )

  printed : msg ≡ print_message start fields body
  printed = make_answer-print_message body keep

  msg_size : length msg ≡ length head + 4 + length body
  msg_size = omega (arith, head_size, ap length printed, length-print_message start fields body)

  found : (t : Bytes) → find (crlf ++ crlf) (head ++ (crlf ++ (crlf ++ t))) ≡ some (length head)
  found t =
      ap (find (crlf ++ crlf)) (sym (print_message-head_text body keep t))
      ∙ blank-print_message start fields t start-IsLine (answer_fields-All body keep)
      ∙ ap some (sym head_size)

  check-early : (k : ℕ) → k < length head + 4 → check (take k msg) ≡ more
  unfolding check
  check-early k lt =
      let none_there : find (crlf ++ crlf) (take k msg) ≡ none =
        ap (λ t. find (crlf ++ crlf) (take k t)) printed
        ∙ blank-take start fields body start-IsLine (answer_fields-All body keep) k
            (omega (arith, lt, head_size)) in
      rw (none_there, check) refl

  check-late :
      (k : ℕ)
      → length head + 4 ≤ k
      → k ≤ length msg
      → check (take k msg) ≡ (if leb (length msg) k then whole (pos 200) (length msg) else more)
  check-late k le inside =
      let t = take (k - (length head + 4)) body in
      let text = head ++ (crlf ++ (crlf ++ t)) in
      let cut : take k msg ≡ text =
        ap (take k) printed
        ∙ take-body start fields body k (omega (arith, le, head_size))
        ∙ ap (λ n. print_message start fields (take (k - n) body)) (omega (arith, head_size))
        ∙ print_message-head_text body keep t in
      let size : length text ≡ k = omega (arith, ap length cut, length-take k msg, inside) in
      ap check cut
      ∙ check_front t (found t)
      ∙ ap (λ n. if leb n (length text) then whole (pos 200) n else more) (sym msg_size)
      ∙ ap (λ n. if leb (length msg) n then whole (pos 200) (length msg) else more) size

  pub check-unfinished : (k : ℕ) → k < length msg → check (take k msg) ≡ more
  check-unfinished k lt = elim (Bool-cases (ltb k (length head + 4))) [
    | inl e ↦ check-early k (ground arith)
    | inr e ↦
        let short : leb (length msg) k ≡ false = ground arith in
        check-late k (ground arith) (omega (arith, lt)) ∙ (rw short refl)
  ]

  pub check-finished : check msg ≡ whole (pos 200) (length msg)
  check-finished =
      let all : leb (length msg) (length msg) ≡ true = ground arith in
      ap check (sym (take_of_length (length msg) msg (omega arith)))
      ∙ check-late (length msg) (omega (arith, msg_size)) (omega arith)
      ∙ (rw all refl)
