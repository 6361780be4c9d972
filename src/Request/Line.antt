-- ===== src/Request/Line.antt =====
-- The request line that is printed, taken apart at its spaces.
use multi_threaded_proxy_ser.Base.{
  ℕ, suc, zero, ◌+◌, ◌-◌, true, some, [], ◌∷◌, ◌++◌, length, take, drop, shift, Bytes, codes, leb,
  ◌≡◌, refl, ap, ◌∙◌, arith, take-length-append, length-append,
}
use multi_threaded_proxy_ser.Message.{Lacks}
use multi_threaded_proxy_ser.Message.Literals.{is_solid-IsSolid}
use multi_threaded_proxy_ser.Message.Words.{find_byte-first, drop-past, trim-solid}
use multi_threaded_proxy_ser.Request.{find_spaces}
use multi_threaded_proxy_ser.Text.{find_byte, find_byte_from, substr, trim}

drop-nil : (n : ℕ) → ◌≡◌ {A = Bytes} [] (drop n [])
drop-nil zero = refl
drop-nil (suc n) = refl

drop-drop : (m n : ℕ) (s : Bytes) → drop (m + n) s ≡ drop n (drop m s)
drop-drop zero n s = ap (λ k. drop k s) (omega arith)
drop-drop (suc m) n [] = let e : suc m + n ≡ suc (m + n) = omega arith in rw e (drop-nil n)
drop-drop (suc m) n (c ∷ s) =
    let e : suc m + n ≡ suc (m + n) = omega arith in rw e (drop-drop m n s)

-- The start line of a request.
abbrev pub request_line : Bytes → Bytes → Bytes
request_line method target = method ++ (b' ' ∷ (target ++ (b' ' ∷ codes "HTTP/1.1")))

find_byte_from-past :
    (s t : Bytes) (c b : ℕ)
    → find_byte_from b (s ++ c ∷ t) (length s + 1) ≡ shift (length s + 1) (find_byte b t)
unfolding find_byte_from
find_byte_from-past s t c b =
    let inside : leb (length s + 1) (length (s ++ c ∷ t)) ≡ true =
      ground (arith, length-append s (c ∷ t)) in
    rw (inside, drop-past s t c) refl

module _ (method target : Bytes) (m : Lacks b' ' method) (t : Lacks b' ' target) where
  abbrev rest : Bytes
  rest = target ++ (b' ' ∷ codes "HTTP/1.1")

  pub find_spaces-request_line :
      find_spaces (request_line method target)
      ≡ some (length method, length method + 1 + length target)
  unfolding find_spaces
  find_spaces-request_line =
      let first = find_byte-first b' ' method rest m in
      let second =
        find_byte_from-past method rest b' ' b' '
        ∙ ap (shift (length method + 1)) (find_byte-first b' ' target (codes "HTTP/1.1") t) in
      rw (first, second, find_spaces) refl

  -- The three parts of the line.
  pub line_method : take (length method) (request_line method target) ≡ method
  line_method = take-length-append method (b' ' ∷ rest)

  pub line_target :
      substr
        (request_line method target)
        (length method + 1)
        (length method + 1 + length target - length method - 1)
      ≡ target
  line_target =
      let size : length method + 1 + length target - length method - 1 ≡ length target =
        omega arith in
      ap (λ n. take n (drop (length method + 1) (request_line method target))) size
      ∙ ap (take (length target)) (drop-past method rest b' ')
      ∙ take-length-append target (b' ' ∷ codes "HTTP/1.1")

  pub line_version :
      trim (drop (length method + 1 + length target + 1) (request_line method target))
      ≡ codes "HTTP/1.1"
  line_version =
      let apart : length method + 1 + length target + 1 ≡ length method + 1 + (length target + 1) =
        omega arith in
      ap (λ n. trim (drop n (request_line method target))) apart
      ∙ ap trim (
          drop-drop (length method + 1) (length target + 1) (request_line method target)
          ∙ ap (drop (length target + 1)) (drop-past method rest b' ')
          ∙ drop-past target (codes "HTTP/1.1") b' ')
      ∙ trim-solid (codes "HTTP/1.1") (is_solid-IsSolid (codes "HTTP/1.1") refl)
