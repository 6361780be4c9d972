-- ===== src/Message/Words.antt =====
-- Names and values: where the colon stands, and what `trim` leaves.
use multi_threaded_proxy_ser.Base.{
  ℕ, suc, ◌+◌, ◌-◌, true, false, none, some, [], ◌∷◌, ◌++◌, length, take, drop, shift, All, Bytes,
  ◌==◌, ◌≡◌, ◌≢◌, refl, ap, sym, ◌∙◌, arith, Option-cases, inl, inr, take-length-append, is_empty,
}
use multi_threaded_proxy_ser.Message.{Lacks, IsField}
use multi_threaded_proxy_ser.Message.Lines.{field_line}
use multi_threaded_proxy_ser.Text.Wildcard.{take_of_length}
use multi_threaded_proxy_ser.Text.{
  find_byte, trim, to_lower, find_first_not_blank, find_last_not_blank, is_blank, substr,
}

-- The first `b` stands behind what has none.
pub find_byte-first : (b : ℕ) (s t : Bytes) → Lacks b s → find_byte b (s ++ b ∷ t) ≡ some (length s)
unfolding find_byte
find_byte-first b [] t h = let here : (b == b) ≡ true = ground arith in rw here refl
find_byte-first b (c ∷ s) t h =
    let other : (c == b) ≡ false = ground arith in
    rw other (ap (shift 1) (find_byte-first b s t h.1) ∙ ap some (omega arith))

pub find_byte-none : (b : ℕ) (s : Bytes) → Lacks b s → find_byte b s ≡ none
unfolding find_byte
find_byte-none b [] h = refl
find_byte-none b (c ∷ s) h =
    let other : (c == b) ≡ false = ground arith in rw other (ap (shift 1) (find_byte-none b s h.1))

pub drop-past : (s t : Bytes) (c : ℕ) → drop (length s + 1) (s ++ c ∷ t) ≡ t
drop-past [] t c = refl
drop-past (x ∷ s) t c =
    let step : suc (length s) + 1 ≡ suc (length s + 1) = omega arith in rw step (drop-past s t c)

-- Where the blanks end decides what `trim` leaves.
trim-blank : (s : Bytes) → find_first_not_blank s ≡ none → trim s ≡ []
unfolding trim
trim-blank s h = rw (h, trim) refl

trim-none : (s : Bytes) → find_last_not_blank s ≡ none → trim s ≡ []
unfolding trim
trim-none s h = elim (Option-cases (find_first_not_blank s)) [
  | inl blank ↦ trim-blank s blank
  | inr (b, first) ↦ rw (first, h, trim) refl
]

trim-at :
    (s : Bytes) (b e : ℕ)
    → find_first_not_blank s ≡ some b
    → find_last_not_blank s ≡ some e
    → trim s ≡ substr s b (e - b + 1)
unfolding trim
trim-at s b e h k = rw (h, k, trim) refl

first-space : (v : Bytes) → find_first_not_blank (b' ' ∷ v) ≡ shift 1 (find_first_not_blank v)
unfolding find_first_not_blank
first-space v = refl

last-space : (v : Bytes) → find_last_not_blank (b' ' ∷ v) ≡ shift 1 (find_last_not_blank v)
unfolding find_last_not_blank
last-space v = elim (Option-cases (find_last_not_blank v)) [
  | inl miss ↦ rw miss refl
  | inr (n, hit) ↦ rw hit (ap some (omega arith))
]

substr-shift :
    (v : Bytes) (b e : ℕ) → substr (b' ' ∷ v) (1 + b) (1 + e - (1 + b) + 1) ≡ substr v b (e - b + 1)
substr-shift v b e =
    let one_more : 1 + b ≡ suc b = omega arith in
    let width : 1 + e - suc b + 1 ≡ e - b + 1 = omega arith in rw (one_more, width) refl

-- A space in front makes no difference.
pub trim-space : (v : Bytes) → trim (b' ' ∷ v) ≡ trim v
trim-space v = elim (Option-cases (find_first_not_blank v)) [
  | inl blank ↦
      trim-blank (b' ' ∷ v) (first-space v ∙ ap (shift 1) blank) ∙ sym (trim-blank v blank)
  | inr (b, first) ↦ elim (Option-cases (find_last_not_blank v)) [
    | inl blank ↦ trim-none (b' ' ∷ v) (last-space v ∙ ap (shift 1) blank) ∙ sym (trim-none v blank)
    | inr (e, last) ↦
        trim-at (b' ' ∷ v) (1 + b) (1 + e) (first-space v ∙ ap (shift 1) first)
          (last-space v ∙ ap (shift 1) last)
        ∙ substr-shift v b e
        ∙ sym (trim-at v b e first last)
  ]
]

-- A text with no blanks is left as it is.
abbrev pub IsSolid : Bytes → Type 0
IsSolid s = All (λ c. is_blank c ≡ false) s

last-solid : (c : ℕ) (s : Bytes) → IsSolid (c ∷ s) → find_last_not_blank (c ∷ s) ≡ some (length s)
unfolding find_last_not_blank
last-solid c [] h = rw h.0 refl
last-solid c (d ∷ s) h = rw (last-solid d s h.1) (ap some (omega arith))

first_nil : find_first_not_blank [] ≡ none
unfolding find_first_not_blank
first_nil = refl

first-solid : (c : ℕ) (s : Bytes) → is_blank c ≡ false → find_first_not_blank (c ∷ s) ≡ some 0
unfolding find_first_not_blank
first-solid c s h = rw h refl

pub trim-solid : (s : Bytes) → IsSolid s → trim s ≡ s
trim-solid [] h = trim-blank [] first_nil
trim-solid (c ∷ s) h =
    trim-at (c ∷ s) 0 (length s) (first-solid c s h.0) (last-solid c s h)
    ∙ ap (λ n. take n (c ∷ s)) {y = suc (length s)} (omega arith)
    ∙ take_of_length (suc (length s)) (c ∷ s) (omega arith)

-- A header line taken apart at its colon.
pub field_line-colon :
    (f : Bytes × Bytes) → IsField f → find_byte b':' (field_line f) ≡ some (length f.0)
field_line-colon f h = find_byte-first b':' f.0 (b' ' ∷ f.1) h.name_colon

pub field_line-name :
    (f : Bytes × Bytes) → IsField f → trim (take (length f.0) (field_line f)) ≡ f.0
field_line-name f h = ap trim (take-length-append f.0 (b':' ∷ b' ' ∷ f.1)) ∙ h.name_trim

pub field_line-value :
    (f : Bytes × Bytes) → IsField f → trim (drop (length f.0 + 1) (field_line f)) ≡ f.1
field_line-value f h = ap trim (drop-past f.0 (b' ' ∷ f.1) b':') ∙ trim-space f.1 ∙ h.value_trim

pub field_line-ne-empty : (f : Bytes × Bytes) → IsField f → is_empty (field_line f) ≡ false
field_line-ne-empty ([], v) h = absurd (h.name_ne_nil refl)
field_line-ne-empty (c ∷ n, v) h = refl

pub to_lower-ne-empty : (s : Bytes) → s ≢ [] → is_empty (to_lower s) ≡ false
unfolding to_lower
to_lower-ne-empty [] h = absurd (h refl)
to_lower-ne-empty (c ∷ s) h = refl
