-- ===== src/Message/Cut.antt =====
-- The front of a message: no header block is found before its blank line is there, and from there
-- on it is the front's body that grows.

use multi_threaded_proxy_ser.Base.{
  ℕ, zero, suc, ◌+◌, ◌-◌, ◌≤◌, ◌<◌, Option, none, some, [], ◌∷◌, ◌++◌, length, take, shift, All,
  Bytes, ◌≡◌, ◌≢◌, refl, sym, ap, ◌∙◌, arith, length-take, Option-cases, inl, inr, some-injective,
}
use multi_threaded_proxy_ser.Message.{
  IsLine, Fields, IsField, print_rest, print_message, fields_length, head_length,
}
use multi_threaded_proxy_ser.Message.Framing.{
  blank, not_here, shift-shift, separator, find-past, find-line, find-print_rest, IsLine-Lacks,
  print_message-body, length-print_message,
}
use multi_threaded_proxy_ser.Request.{find_header_end}
use multi_threaded_proxy_ser.Text.{find, is_prefix}
use multi_threaded_proxy_ser.Text.Find.{find-le}
use multi_threaded_proxy_ser.Text.Prefix.{find-take}

-- Two newlines in a row.
abbrev newlines : Bytes
newlines = 10 ∷ 10 ∷ []

newlines-line_end :
    (c : ℕ) (t : Bytes) → c ≢ 10 → find newlines (13 ∷ 10 ∷ c ∷ t) ≡ shift 2 (find newlines (c ∷ t))
unfolding find is_prefix
newlines-line_end c t h = rw (not_here c 10 h) (shift-shift 1 1 (shift 1 (find newlines t)))

newlines-blank :
    (t : Bytes) → find newlines (13 ∷ 10 ∷ 13 ∷ 10 ∷ t) ≡ shift 3 (find newlines (10 ∷ t))
unfolding find is_prefix
newlines-blank t =
    shift-shift 1 1 (shift 1 (find newlines (10 ∷ t))) ∙ shift-shift 2 1 (find newlines (10 ∷ t))

newlines-print_rest :
    (fs : Fields) (body : Bytes)
    → All IsField fs
    → find newlines (print_rest fs body) ≡ shift (fields_length fs + 3) (find newlines (10 ∷ body))
newlines-print_rest [] body h = newlines-blank body
newlines-print_rest (([], v) ∷ fs) body h = absurd (h.0.name_ne_nil refl)
newlines-print_rest ((c ∷ n, v) ∷ fs) body h =
    let field = h.0 in
    let rest = print_rest fs body in
    let last = find newlines (10 ∷ body) in
    newlines-line_end c (n ++ (b':' ∷ b' ' ∷ (v ++ rest))) field.name_line.0.1
    ∙ ap (shift 2) (
        find-past 10 (10 ∷ []) (c ∷ n) (b':' ∷ b' ' ∷ (v ++ rest))
          (IsLine-Lacks (c ∷ n) field.name_line).1
        ∙ ap (shift (suc (length n))) (
            find-past 10 (10 ∷ []) (b':' ∷ b' ' ∷ v) rest
              (IsLine-Lacks (b':' ∷ b' ' ∷ v) (separator v field.value_line)).1
            ∙ ap (shift (suc (suc (length v)))) (newlines-print_rest fs body h.1)
            ∙ shift-shift (suc (suc (length v))) (fields_length fs + 3) last)
        ∙ shift-shift (suc (length n)) (suc (suc (length v)) + (fields_length fs + 3)) last)
    ∙ shift-shift 2 (suc (length n) + (suc (suc (length v)) + (fields_length fs + 3))) last
    ∙ ap (λ m. shift m last) (omega arith)

shift-le : (m p : ℕ) (o : Option ℕ) → shift m o ≡ some p → m ≤ p
shift-le m p none h = absurd cc
shift-le m p (some q) h = omega (arith, some-injective h)

module _ (start : Bytes) (fs : Fields) (body : Bytes) (line : IsLine start)
    (fields : All IsField fs) where
  abbrev text : Bytes
  text = print_message start fs body

  newlines-print_message : (p : ℕ) → find newlines text ≡ some p → head_length start fs ≤ p + 1
  newlines-print_message p h =
      let found : find newlines text
          ≡ shift (length start) (shift (fields_length fs + 3) (find newlines (10 ∷ body))) =
        find-past 10 (10 ∷ []) start (print_rest fs body) (IsLine-Lacks start line).1
        ∙ ap (shift (length start)) (newlines-print_rest fs body fields) in
      let bound = shift-le (length start + (fields_length fs + 3)) p (find newlines (10 ∷ body)) (
        sym (found ∙ shift-shift (length start) (fields_length fs + 3) (find newlines (10 ∷ body)))
        ∙ h) in
      omega (arith, bound)

  pub blank-print_message : find blank text ≡ some (length start + fields_length fs)
  blank-print_message =
      find-line start (print_rest fs body) line
      ∙ ap (shift (length start)) (find-print_rest fs body fields)

  -- Nothing is found before the end of the head.
  pub blank-take : (k : ℕ) → k < head_length start fs → find blank (take k text) ≡ none
  blank-take k h = elim (Option-cases (find blank (take k text))) [
    | inl miss ↦ miss
    | inr (p, hit) ↦
        let bound = find-le blank (take k text) p hit in
        let there : some p ≡ some (length start + fields_length fs) =
          sym (find-take 13 (10 ∷ 13 ∷ 10 ∷ []) text k p hit) ∙ blank-print_message in
        absurd (omega (arith, bound, some-injective there, length-take k text))
  ]

  newlines-take : (k : ℕ) → k < head_length start fs → find newlines (take k text) ≡ none
  newlines-take k h = elim (Option-cases (find newlines (take k text))) [
    | inl miss ↦ miss
    | inr (p, hit) ↦
        let bound = find-le newlines (take k text) p hit in
        let behind = newlines-print_message p (find-take 10 (10 ∷ []) text k p hit) in
        absurd (omega (arith, bound, behind, length-take k text))
  ]

  pub find_header_end-take :
      (k : ℕ) → k < head_length start fs → find_header_end (take k text) ≡ none
  unfolding find_header_end
  find_header_end-take k h = rw (blank-take k h, newlines-take k h, find_header_end) refl

-- A front that has the whole head is the head with the front of the body.
take-past : (s t : Bytes) (k : ℕ) → length s ≤ k → take k (s ++ t) ≡ s ++ take (k - length s) t
take-past [] t k h = ap (λ n. take n t) (omega arith)
take-past (c ∷ s) t zero h = absurd (omega arith)
take-past (c ∷ s) t (suc k) h =
    ap (◌∷◌ c) (take-past s t k (omega arith) ∙ ap (λ n. s ++ take n t) (omega arith))

pub take-body :
    (start : Bytes) (fs : Fields) (body : Bytes) (k : ℕ)
    → head_length start fs ≤ k
    → take k (print_message start fs body)
      ≡ print_message start fs (take (k - head_length start fs) body)
take-body start fs body k h =
    let head = print_message start fs [] in
    let size : length head ≡ head_length start fs =
      omega (arith, length-print_message start fs []) in
    ap (take k) (print_message-body start fs body)
    ∙ take-past head body k (omega (arith, size))
    ∙ ap (λ n. head ++ take (k - n) body) size
    ∙ sym (print_message-body start fs (take (k - head_length start fs) body))
