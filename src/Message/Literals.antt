-- ===== src/Message/Literals.antt =====
-- The conditions on names and lines as tests, which decide them for a text that is written out.
use multi_threaded_proxy_ser.Base.{
  ℕ, Bool, true, false, not, ◌&&◌, [], ◌∷◌, Bytes, ◌==◌, is_empty, ◌≡◌, ◌≢◌, arith,
}
use multi_threaded_proxy_ser.Message.{Lacks, IsLine, IsField}
use multi_threaded_proxy_ser.Message.Words.{IsSolid, trim-solid}
use multi_threaded_proxy_ser.Text.{is_blank, trim}

abbrev pub lacks : ℕ → Bytes → Bool
lacks b [] = true
lacks b (c ∷ s) = not (c == b) && lacks b s

pub lacks-Lacks : (b : ℕ) (s : Bytes) → lacks b s ≡ true → Lacks b s
lacks-Lacks b [] h = tt
lacks-Lacks b (c ∷ s) h = (ground arith, lacks-Lacks b s (ground arith))

abbrev pub is_line : Bytes → Bool
is_line s = lacks 13 s && lacks 10 s

pub is_line-IsLine : (s : Bytes) → is_line s ≡ true → IsLine s
is_line-IsLine [] h = tt
is_line-IsLine (c ∷ s) h = ((ground arith, ground arith), is_line-IsLine s (ground arith))

abbrev pub is_solid : Bytes → Bool
is_solid [] = true
is_solid (c ∷ s) = not (is_blank c) && is_solid s

pub is_solid-IsSolid : (s : Bytes) → is_solid s ≡ true → IsSolid s
is_solid-IsSolid [] h = tt
is_solid-IsSolid (c ∷ s) h = (ground arith, is_solid-IsSolid s (ground arith))

abbrev pub is_name : Bytes → Bool
is_name s = not (is_empty s) && (lacks b':' s && is_solid s)

solid-IsLine : (s : Bytes) → is_solid s ≡ true → IsLine s
solid-IsLine [] h = tt
solid-IsLine (c ∷ s) h = ((ground arith, ground arith), solid-IsLine s (ground arith))

nonempty : (s : Bytes) → is_empty s ≡ false → s ≢ []
nonempty [] h = cc
nonempty (c ∷ s) h = λ e. cc

-- A name without blanks and colons, and a value that is trimmed.
pub named_field :
    (name value : Bytes)
    → is_name name ≡ true
    → IsLine value
    → trim value ≡ value
    → IsField (name, value)
named_field name value h line trimmed = record {
  name_line = solid-IsLine name (ground arith);
  name_ne_nil = nonempty name (ground arith);
  name_colon = lacks-Lacks b':' name (ground arith);
  name_trim = trim-solid name (is_solid-IsSolid name (ground arith));
  value_line = line;
  value_trim = trimmed;
}

-- So too with a value without blanks.
pub solid_field :
    (name value : Bytes) → is_name name ≡ true → is_solid value ≡ true → IsField (name, value)
solid_field name value h solid =
    named_field name value h (solid-IsLine value solid)
      (trim-solid value (is_solid-IsSolid value solid))
