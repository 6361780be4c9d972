-- ===== src/Text/Wildcard.antt =====
-- `wildcard_match` decides a relation that says what each shape of pattern matches.

use multi_threaded_proxy_ser.Base.{
  ℕ, zero, suc, ◌-◌, ◌≤◌, ◌<◌, Bool, true, false, [], ◌∷◌, ◌++◌, length, take, drop, Bytes, codes,
  bytes_eq, bytes_eq_iff, is_empty, ◌≡◌, ◌≢◌, ◌↔◌, refl, sym, ap, ◌∙◌, arith, Bool-cases, inl, inr,
  length-append, length-drop, take-append-drop, take-length-append, drop-length-append,
}
use multi_threaded_proxy_ser.Text.{
  substr, ends_with_byte, ends_with, begins_with, is_suffix_pattern, is_prefix_pattern,
  wildcard_match,
}

-- A pattern "*.suffix" with a suffix that is not empty, and a pattern with a star at its end.
abbrev pub IsSuffixPattern : Bytes → Type 0
IsSuffixPattern pattern = (s : Bytes) × (s ≢ []) × (pattern ≡ b'*' ∷ b'.' ∷ s)

abbrev pub IsPrefixPattern : Bytes → Type 0
IsPrefixPattern pattern = (p : Bytes) × (pattern ≡ p ++ b'*' ∷ [])

-- What the patterns match: the bare star everything, "*.s" what ends in ".s", "p*" what begins
-- with "p", and any other pattern itself.
pub data Matches (pattern value : Bytes) : Type 0 where
  any : pattern ≡ codes "*" → Matches pattern value
  suffix :
      (s p : Bytes)
      → s ≢ []
      → pattern ≡ b'*' ∷ b'.' ∷ s
      → value ≡ p ++ (b'.' ∷ s)
      → Matches pattern value
  prefix :
      (p rest : Bytes)
      → ¬ IsSuffixPattern pattern
      → pattern ≡ p ++ b'*' ∷ []
      → value ≡ p ++ rest
      → Matches pattern value
  literal :
      ¬ IsSuffixPattern pattern
      → ¬ IsPrefixPattern pattern
      → pattern ≡ value
      → Matches pattern value

begins_with_iff : (t v : Bytes) → (begins_with t v ≡ true) ↔ ((rest : Bytes) × (v ≡ t ++ rest))
unfolding begins_with
begins_with_iff t v = (to, from)
  where
    to : begins_with t v ≡ true → (rest : Bytes) × (v ≡ t ++ rest)
    to h =
        let e : take (length t) v ≡ t = (bytes_eq_iff (take (length t) v) t).0 (ground arith) in
        (
          drop (length t) v,
          sym (take-append-drop (length t) v) ∙ ap (λ u. u ++ drop (length t) v) e,
        )

    from : (rest : Bytes) × (v ≡ t ++ rest) → begins_with t v ≡ true
    from (rest, e) =
        let same : take (length t) v ≡ t = ap (take (length t)) e ∙ take-length-append t rest in
        ground
          (arith, ap length e, length-append t rest, (bytes_eq_iff (take (length t) v) t).1 same)

pub take_of_length : (n : ℕ) (xs : Bytes) → length xs ≤ n → take n xs ≡ xs
take_of_length zero [] h = refl
take_of_length zero (x ∷ xs) h = absurd (omega arith)
take_of_length (suc n) [] h = refl
take_of_length (suc n) (x ∷ xs) h = ap (◌∷◌ x) (take_of_length n xs (omega arith))

ends_with_iff : (t v : Bytes) → (ends_with t v ≡ true) ↔ ((p : Bytes) × (v ≡ p ++ t))
unfolding ends_with
ends_with_iff t v = (to, from)
  where
    to : ends_with t v ≡ true → (p : Bytes) × (v ≡ p ++ t)
    to h =
        let n = length v - length t in
        let e : substr v n (length t) ≡ t =
          (bytes_eq_iff (substr v n (length t)) t).0 (ground arith) in
        let all : substr v n (length t) ≡ drop n v =
          take_of_length (length t) (drop n v) (omega (arith, length-drop n v)) in
        (take n v, sym (take-append-drop n v) ∙ ap (λ u. take n v ++ u) (sym all ∙ e))

    from : (p : Bytes) × (v ≡ p ++ t) → ends_with t v ≡ true
    from (p, e) =
        let n = length v - length t in
        let at : n ≡ length p = omega (arith, ap length e, length-append p t) in
        let rest : drop n v ≡ t =
          ap (λ k. drop k v) at ∙ ap (drop (length p)) e ∙ drop-length-append p t in
        let same : substr v n (length t) ≡ t =
          ap (take (length t)) rest ∙ take_of_length (length t) t (omega arith) in
        ground
          (arith, ap length e, length-append p t, (bytes_eq_iff (substr v n (length t)) t).1 same)

is_suffix_pattern_iff : (p : Bytes) → (is_suffix_pattern p ≡ true) ↔ IsSuffixPattern p
unfolding is_suffix_pattern bytes_eq
is_suffix_pattern_iff [] = (λ h. cc, λ h. cc)
is_suffix_pattern_iff (a ∷ []) = (λ h. cc, λ h. ground arith)
is_suffix_pattern_iff (a ∷ b ∷ []) = (λ h. cc, λ h. ground arith)
is_suffix_pattern_iff (a ∷ b ∷ c ∷ s) = (λ h. (c ∷ s, λ e. cc, ground arith), λ h. ground arith)

ends_with_byte-last : (b : ℕ) (p : Bytes) → ends_with_byte b (p ++ b ∷ []) ≡ true
unfolding ends_with_byte
ends_with_byte-last b [] = ground arith
ends_with_byte-last b (c ∷ []) = ground arith
ends_with_byte-last b (c ∷ d ∷ p) = ends_with_byte-last b (d ∷ p)

last-ends_with_byte :
    (b : ℕ) (s : Bytes) → ends_with_byte b s ≡ true → s ≡ take (length s - 1) s ++ b ∷ []
unfolding ends_with_byte
last-ends_with_byte b [] h = cc
last-ends_with_byte b (c ∷ []) h = ground arith
last-ends_with_byte b (c ∷ d ∷ s) h =
    let shorter : length (c ∷ d ∷ s) - 1 ≡ suc (length (d ∷ s) - 1) = omega arith in
    rw shorter (ap (◌∷◌ c) (last-ends_with_byte b (d ∷ s) h))

is_prefix_pattern_of :
    (s p : Bytes) → s ≡ p ++ b'*' ∷ [] → (is_prefix_pattern s ≡ true) × (take (length s - 1) s ≡ p)
unfolding is_prefix_pattern
is_prefix_pattern_of s p e =
    let n : length s - 1 ≡ length p = omega (arith, ap length e, length-append p (b'*' ∷ [])) in
    let front : take (length s - 1) s ≡ p =
      ap (λ k. take k s) n ∙ ap (take (length p)) e ∙ take-length-append p (b'*' ∷ []) in
    let last : ends_with_byte b'*' s ≡ true =
      ap (ends_with_byte b'*') e ∙ ends_with_byte-last b'*' p in
    let nonempty : is_empty s ≡ false =
      not_empty s (omega (arith, ap length e, length-append p (b'*' ∷ []))) in
    (rw (nonempty, last) refl, front)
  where
    not_empty : (t : Bytes) → 0 < length t → is_empty t ≡ false
    not_empty [] h = absurd (omega arith)
    not_empty (c ∷ t) h = refl

of_is_prefix_pattern :
    (s : Bytes) → is_prefix_pattern s ≡ true → s ≡ take (length s - 1) s ++ b'*' ∷ []
unfolding is_prefix_pattern
of_is_prefix_pattern s h = last-ends_with_byte b'*' s (ground arith)

-- A refused test refuses the shape.
refuted : {P : Type 0} {b : Bool} → (P → b ≡ true) → b ≡ false → ¬ P
refuted f h p = ground (arith, f p)

match-Matches :
    (pattern value : Bytes) → wildcard_match pattern value ≡ true → Matches pattern value
unfolding wildcard_match
match-Matches pattern value h = elim (Bool-cases (bytes_eq pattern (codes "*"))) [
  | inl star ↦ any ((bytes_eq_iff pattern (codes "*")).0 star)
  | inr other ↦ elim (Bool-cases (is_suffix_pattern pattern)) [
    | inl dotted ↦
        let (s, ne, e) = (is_suffix_pattern_iff pattern).0 dotted in
        let (p, v) = (ends_with_iff (drop 1 pattern) value).0 (ground arith) in
        suffix s p ne e (v ∙ ap (λ t. p ++ drop 1 t) e)
    | inr plain ↦
        let no_suffix = refuted (is_suffix_pattern_iff pattern).1 plain in
        elim (Bool-cases (is_prefix_pattern pattern)) [
          | inl starred ↦
              let (rest, v) =
                (begins_with_iff (take (length pattern - 1) pattern) value).0 (ground arith) in
              prefix (take (length pattern - 1) pattern) rest no_suffix
                (of_is_prefix_pattern pattern starred) v
          | inr bare ↦
              literal no_suffix
                (λ q.
                  refuted
                    (λ (r : IsPrefixPattern pattern). (is_prefix_pattern_of pattern r.0 r.1).0) bare
                    q)
                ((bytes_eq_iff pattern value).0 (ground arith))
        ]
  ]
]

Matches-match :
    (pattern value : Bytes) → Matches pattern value → wildcard_match pattern value ≡ true
unfolding wildcard_match
Matches-match pattern value (any e) = ground (arith, (bytes_eq_iff pattern (codes "*")).1 e)
Matches-match pattern value (suffix s p ne e v) =
    let dotted = (is_suffix_pattern_iff pattern).1 (s, ne, e) in
    let fits = (ends_with_iff (drop 1 pattern) value).1 (p, v ∙ ap (λ t. p ++ drop 1 t) (sym e)) in
    ground arith
Matches-match pattern value (prefix p rest no_suffix e v) =
    let (starred, front) = is_prefix_pattern_of pattern p e in
    let fits =
      (begins_with_iff (take (length pattern - 1) pattern) value).1
        (rest, v ∙ ap (λ t. t ++ rest) (sym front)) in
    elim (Bool-cases (is_suffix_pattern pattern)) [
      | inl dotted ↦ absurd (no_suffix ((is_suffix_pattern_iff pattern).0 dotted))
      | inr plain ↦ ground arith
    ]
Matches-match pattern value (literal no_suffix no_prefix e) =
    let same = (bytes_eq_iff pattern value).1 e in
    elim (Bool-cases (is_suffix_pattern pattern)) [
      | inl dotted ↦ absurd (no_suffix ((is_suffix_pattern_iff pattern).0 dotted))
      | inr plain ↦ elim (Bool-cases (is_prefix_pattern pattern)) [
        | inl starred ↦
            absurd
              (no_prefix (take (length pattern - 1) pattern, of_is_prefix_pattern pattern starred))
        | inr bare ↦ ground arith
      ]
    ]

-- `wildcard_match` accepts a value exactly where its pattern matches: "*" everything, "*.s" with
-- `s` not empty what ends in ".s", any other "p*" what begins with "p", and any other pattern
-- itself alone.
pub wildcard_match_iff :
    (pattern value : Bytes) → (wildcard_match pattern value ≡ true) ↔ Matches pattern value
wildcard_match_iff pattern value = (match-Matches pattern value, Matches-match pattern value)
