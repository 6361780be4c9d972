-- ===== src/AccessLog/Buffer.antt =====
-- The buffering of the access log loses no line, changes no order, and is bounded.
use mathlib.Core.List.{append-nil, append_assoc}
use multi_threaded_proxy_ser.Base.{
  ◌<◌, true, some, List, [], ◌∷◌, ◌++◌, length, ◌≡◌, ◌⊎◌, inl, inr, refl, sym, ap, subst, ◌∙◌,
  arith, Bytes,
}
use multi_threaded_proxy_ser.AccessLog.{AccessLog, flush_bytes, append_to, flush, append_line}

-- The file is open, and its bytes and the buffer together are `text`.
pub record Holds (log : AccessLog) (text : Bytes) : Type 0 where
  pub written : Bytes
  pub is_file : log.file ≡ some written
  pub content : written ++ log.buf ≡ text

-- Between calls the buffer is below its limit, and empty if every line is to be flushed.
abbrev pub IsBounded : AccessLog → Type 0
IsBounded log = (length log.buf < flush_bytes) × (log.immediate ≡ true → log.buf ≡ [])

-- What a thread does to the log: `write` a formatted line, or `flush`.
pub data LogCall : Type 0 where
  writes : Bytes → LogCall
  flushes : LogCall

pub run : AccessLog → List LogCall → AccessLog
run log [] = log
run log (writes line ∷ calls) = run (append_line log line) calls
run log (flushes ∷ calls) = run (flush log) calls

-- The lines written, each with its newline.
pub lines_of : List LogCall → Bytes
lines_of [] = []
lines_of (writes line ∷ calls) = line ++ (10 ∷ lines_of calls)
lines_of (flushes ∷ calls) = lines_of calls

flush-Holds : (log : AccessLog) (text : Bytes) → Holds log text → Holds (flush log) text
unfolding flush
flush-Holds log text h = record {
  written = h.written ++ log.buf;
  is_file = ap (λ f. append_to f log.buf) h.is_file;
  content = append-nil (h.written ++ log.buf) ∙ h.content;
}

-- A line goes to the buffer, or with the buffer to the file.
append_line_cases :
    (log : AccessLog) (line written : Bytes)
    → log.file ≡ some written
    → (((append_line log line).file ≡ some (written ++ (log.buf ++ (line ++ 10 ∷ []))))
        × ((append_line log line).buf ≡ []))
      ⊎ (((append_line log line).file ≡ some written)
          × ((append_line log line).buf ≡ log.buf ++ (line ++ 10 ∷ [])))
unfolding append_line
append_line_cases log line written h = ground arith

append_line-Holds :
    (log : AccessLog) (text line : Bytes)
    → Holds log text
    → Holds (append_line log line) (text ++ (line ++ (10 ∷ [])))
append_line-Holds log text line h =
    let more = line ++ 10 ∷ [] in
    let joined : h.written ++ (log.buf ++ more) ≡ text ++ more =
      sym (append_assoc h.written log.buf more) ∙ ap (λ t. t ++ more) h.content in
    elim (append_line_cases log line h.written h.is_file) [
      | inl (filed, empty) ↦ record {
        written = h.written ++ (log.buf ++ more);
        is_file = filed;
        content = rw (empty, append-nil) joined;
      }
      | inr (kept, longer) ↦ record {
        written = h.written;
        is_file = kept;
        content = rw longer joined;
      }
    ]

append_line-IsBounded :
    (log : AccessLog) (line : Bytes) → IsBounded log → IsBounded (append_line log line)
unfolding append_line
append_line-IsBounded log line h = ground arith

-- After any sequence of writes and flushes by any threads, the file and the buffer hold what was
-- there before and then every line written, once and in order.
pub run-Holds :
    (calls : List LogCall) (log : AccessLog) (text : Bytes)
    → Holds log text
    → Holds (run log calls) (text ++ lines_of calls)
unfolding run lines_of
run-Holds [] log text h = rw append-nil h
run-Holds (writes line ∷ calls) log text h =
    subst (Holds (run (append_line log line) calls))
      (append_assoc text (line ++ 10 ∷ []) (lines_of calls)
        ∙ ap (λ t. text ++ t) (append_assoc line (10 ∷ []) (lines_of calls)))
      (run-Holds calls (append_line log line) (text ++ (line ++ 10 ∷ []))
        (append_line-Holds log text line h))
run-Holds (flushes ∷ calls) log text h = run-Holds calls (flush log) text (flush-Holds log text h)

-- If the file of the log is open, and it and the buffer together hold a text, then after any
-- sequence of writes and flushes and one last flush the file holds that text and then every line
-- written, once, in order, each with its newline, and the buffer is empty.
pub flush-run :
    (calls : List LogCall) (log : AccessLog) (text : Bytes)
    → Holds log text
    → ((flush (run log calls)).file ≡ some (text ++ lines_of calls))
      × ((flush (run log calls)).buf ≡ [])
unfolding flush
flush-run calls log text h =
    let after = run-Holds calls log text h in
    (ap (λ f. append_to f (run log calls).buf) after.is_file ∙ ap some after.content, refl)

flush-IsBounded : (log : AccessLog) → IsBounded (flush log)
unfolding flush
flush-IsBounded log = (omega arith, λ h. refl)

-- Any sequence of writes and flushes keeps the buffer of the log below 64 KiB between the calls,
-- and empty where the log is immediate, if it was so before.
pub run-IsBounded :
    (calls : List LogCall) (log : AccessLog) → IsBounded log → IsBounded (run log calls)
unfolding run
run-IsBounded [] log h = h
run-IsBounded (writes line ∷ calls) log h =
    run-IsBounded calls (append_line log line) (append_line-IsBounded log line h)
run-IsBounded (flushes ∷ calls) log h = run-IsBounded calls (flush log) (flush-IsBounded log)
