-- ===== src/Common/Chars.antt =====
-- What the standard library's `char` and `str` say of code points: UTF-8 lengths, character classes,
-- trimming and cutting.
use Prim.Native.Nat.{ℕ, ◌+◌, ◌<◌}
use mathlib.Core.Path.{◌≡◌}
use mathlib.Core.Bool.{Bool, true, false, ◌&&◌, ◌||◌}
use mathlib.Core.List.{List, [], ◌∷◌, ◌++◌, reverse}
use native.Mathlib.Omega.{arith}
use rusty_gasket.Common.Tests.{◌==◌, ltb, leb, if◌then◌else◌}
use rusty_gasket.Common.Text.{Text}

-- `char::len_utf8`
abbrev pub len_utf8 : ℕ → ℕ
len_utf8 c = if ltb c 128 then 1 else if ltb c 2048 then 2 else if ltb c 65536 then 3 else 4

-- `str::len`: the number of bytes.
abbrev pub byte_len : Text → ℕ
byte_len [] = 0
byte_len (c ∷ s) = len_utf8 c + byte_len s

-- `char::is_control`
abbrev pub is_control : ℕ → Bool
is_control c = ltb c 32 || leb 127 c && ltb c 160

-- `char::is_whitespace`
abbrev pub is_whitespace : ℕ → Bool
is_whitespace c =
    leb 9 c && leb c 13
    || c == 32
    || c == 133
    || c == 160
    || c == 5760
    || leb 8192 c && leb c 8202
    || c == 8232
    || c == 8233
    || c == 8239
    || c == 8287
    || c == 12288

-- `u8::is_ascii_graphic`
abbrev pub is_ascii_graphic : ℕ → Bool
is_ascii_graphic c = leb 33 c && leb c 126

abbrev pub is_ascii_alphanumeric : ℕ → Bool
is_ascii_alphanumeric c = leb 48 c && leb c 57 || leb 65 c && leb c 90 || leb 97 c && leb c 122

-- `char::to_ascii_lowercase`
abbrev pub to_ascii_lowercase : ℕ → ℕ
to_ascii_lowercase c = if leb 65 c && leb c 90 then c + 32 else c

abbrev pub lowercase : Text → Text
lowercase [] = []
lowercase (c ∷ s) = to_ascii_lowercase c ∷ lowercase s

abbrev pub trim_start : Text → Text
trim_start [] = []
trim_start (c ∷ s) = if is_whitespace c then trim_start s else c ∷ s

-- `str::trim`
abbrev pub trim : Text → Text
trim s = reverse (trim_start (reverse (trim_start s)))

abbrev pub is_empty : Text → Bool
is_empty [] = true
is_empty (c ∷ s) = false

-- `str::split` at a character: the pieces, of which there is one at least.
abbrev pub first_piece : ℕ → Text → Text
first_piece sep [] = []
first_piece sep (c ∷ s) = if c == sep then [] else c ∷ first_piece sep s

abbrev pub split_piece : ℕ → Text → Text → List Text
split_piece sep piece [] = piece ∷ []
split_piece sep piece (c ∷ s) =
    if c == sep then piece ∷ split_piece sep [] s else split_piece sep (piece ++ c ∷ []) s

abbrev pub split : ℕ → Text → List Text
split sep = split_piece sep []

-- `str::starts_with`
abbrev pub starts_with : Text → Text → Bool
starts_with [] s = true
starts_with (c ∷ p) [] = false
starts_with (c ∷ p) (d ∷ s) = c == d && starts_with p s

-- `str::contains`
abbrev pub contains_text : Text → Text → Bool
contains_text p [] = starts_with p []
contains_text p (c ∷ s) = starts_with p (c ∷ s) || contains_text p s

pub len_utf8-pos : (c : ℕ) → 0 < len_utf8 c
len_utf8-pos c = ground arith

pub byte_len-append : (s t : Text) → byte_len (s ++ t) ≡ byte_len s + byte_len t
byte_len-append [] t = ground arith
byte_len-append (c ∷ s) t = omega (arith, byte_len-append s t)
