-- ===== src/Cache/Parse.antt =====
-- Reading a cache key back: its parts, decoded. This is the specification that `CacheKey` is held
-- against; the program never decodes a key.
use mathlib.Core.List.{append-nil, append_assoc}
use rusty_gasket.Common.{
  ℕ, ◌+◌, ◌-◌, ◌*◌, ◌/◌, ◌%◌, ◌<◌, false, List, [], ◌∷◌, ◌++◌, if◌then◌else◌, leb, ◌==◌, ◌≡◌, ◌≢◌,
  ◌≤◌, refl, ap, sym, ◌∙◌, inl, inr, All, Bool-cases, arith, map,
}
use rusty_gasket.Common.Text.{Text}
use rusty_gasket.Common.Chars.{split, split_piece}
use rusty_gasket.Cache.{hex_digit, is_unreserved, encode_key_part, CacheKey, new_key, part, parts}

abbrev pub unhex : ℕ → ℕ
unhex c = if leb c 57 then c - 48 else c - 55

-- Where a decoder stands: outside an escape, after its `%`, or after its first digit.
pub data Decoder : Type 0 where
  plain escaped : Decoder
  half : ℕ → Decoder

abbrev pub decode : Decoder → Text → Text
decode d [] = []
decode plain (c ∷ s) = if c == 37 then decode escaped s else c ∷ decode plain s
decode escaped (c ∷ s) = decode (half (unhex c)) s
decode (half h) (c ∷ s) = (h * 16 + unhex c) ∷ decode plain s

abbrev pub decode_part : Text → Text
decode_part = decode plain

abbrev pub parse_key : Text → List Text
parse_key s = map decode_part (split 58 s)

abbrev pub IsBytes : Text → Type 0
IsBytes = All (λ b. b < 256)

unhex-hex_digit : (v : ℕ) → v < 16 → unhex (hex_digit v) ≡ v
unfolding hex_digit
unhex-hex_digit v h = ground arith

decode-encode_key_part : (bs : Text) → IsBytes bs → decode_part (encode_key_part bs) ≡ bs
unfolding encode_key_part
decode-encode_key_part [] h = refl
decode-encode_key_part (b ∷ bs) h = elim (Bool-cases (is_unreserved b)) [
  | inl safe ↦
      let other : (b == 37) ≡ false = ground arith in
      rw (safe, other) (ap (◌∷◌ b) (decode-encode_key_part bs h.1))
  | inr unsafe ↦
      let high : unhex (hex_digit (b / 16)) ≡ b / 16 =
        unhex-hex_digit (b / 16) (omega (arith, h.0)) in
      let low : unhex (hex_digit (b % 16)) ≡ b % 16 = unhex-hex_digit (b % 16) (omega arith) in
      let whole : b / 16 * 16 + b % 16 ≡ b = omega arith in
      rw (unsafe, high, low, whole) (ap (◌∷◌ b) (decode-encode_key_part bs h.1))
]

-- What an encoded part consists of: no separator, and nothing blank.
abbrev pub IsKeyByte : ℕ → Type 0
IsKeyByte c = (33 ≤ c) × (c < 127) × (c ≢ 58)

hex_digit-IsKeyByte : (v : ℕ) → IsKeyByte (hex_digit v)
unfolding hex_digit
hex_digit-IsKeyByte v = (ground arith, ground arith, λ h. ground arith)

pub encode_key_part-IsKeyByte : (bs : Text) → All IsKeyByte (encode_key_part bs)
unfolding encode_key_part
encode_key_part-IsKeyByte [] = tt
encode_key_part-IsKeyByte (b ∷ bs) = elim (Bool-cases (is_unreserved b)) [
  | inl safe ↦
      rw safe ((ground arith, ground arith, λ h. ground arith), encode_key_part-IsKeyByte bs)
  | inr unsafe ↦ rw unsafe (
    (omega arith, omega arith, λ h. omega arith),
    (hex_digit-IsKeyByte (b / 16), (hex_digit-IsKeyByte (b % 16), encode_key_part-IsKeyByte bs)),
  )
]

split_piece-whole : (piece s : Text) → All IsKeyByte s → split_piece 58 piece s ≡ (piece ++ s) ∷ []
split_piece-whole piece [] h = ap (λ t. t ∷ []) (sym (append-nil piece))
split_piece-whole piece (c ∷ s) h =
    let other : (c == 58) ≡ false = ground (arith, h.0) in
    rw other
      (split_piece-whole (piece ++ c ∷ []) s h.1 ∙ ap (λ t. t ∷ []) (append_assoc piece (c ∷ []) s))

split_piece-separator :
    (piece s t : Text)
    → split_piece 58 piece (s ++ 58 ∷ t) ≡ split_piece 58 piece s ++ split_piece 58 [] t
split_piece-separator piece [] t = refl
split_piece-separator piece (c ∷ s) t = elim (Bool-cases (c == 58)) [
  | inl sep ↦ rw sep (ap (◌∷◌ piece) (split_piece-separator [] s t))
  | inr other ↦ rw other (split_piece-separator (piece ++ c ∷ []) s t)
]

map-append : (f : Text → Text) (xs ys : List Text) → map f (xs ++ ys) ≡ map f xs ++ map f ys
map-append f [] ys = refl
map-append f (x ∷ xs) ys = ap (◌∷◌ (f x)) (map-append f xs ys)

parse_key-encode : (bs : Text) → IsBytes bs → parse_key (encode_key_part bs) ≡ bs ∷ []
parse_key-encode bs h =
    ap (map decode_part) (split_piece-whole [] (encode_key_part bs) (encode_key_part-IsKeyByte bs))
    ∙ ap (λ t. t ∷ []) (decode-encode_key_part bs h)

pub parse_key-separator : (s t : Text) → parse_key (s ++ 58 ∷ t) ≡ parse_key s ++ parse_key t
parse_key-separator s t =
    ap (map decode_part) (split_piece-separator [] s t)
    ∙ map-append decode_part (split 58 s) (split 58 t)

pub parse_key-prefixed :
    (bs t : Text) → IsBytes bs → parse_key (encode_key_part bs ++ 58 ∷ t) ≡ bs ∷ parse_key t
parse_key-prefixed bs t h =
    parse_key-separator (encode_key_part bs) t ∙ ap (λ l. l ++ parse_key t) (parse_key-encode bs h)

parse_key-parts :
    (k : CacheKey) (vs : List Text)
    → All IsBytes vs
    → parse_key (parts k vs).as_str ≡ parse_key k.as_str ++ vs
unfolding part
parse_key-parts k [] h = sym (append-nil (parse_key k.as_str))
parse_key-parts k (v ∷ vs) h =
    parse_key-parts (part k v) vs h.1
    ∙ ap (λ l. l ++ vs)
        (parse_key-separator k.as_str (encode_key_part v)
          ∙ ap (λ l. parse_key k.as_str ++ l) (parse_key-encode v h.0))
    ∙ append_assoc (parse_key k.as_str) (v ∷ []) vs

pub parse_key-new_key :
    (area : Text) (vs : List Text)
    → IsBytes area
    → All IsBytes vs
    → parse_key (parts (new_key area) vs).as_str ≡ area ∷ vs
unfolding new_key
parse_key-new_key area vs h hs =
    parse_key-parts (new_key area) vs hs ∙ ap (λ l. l ++ vs) (parse_key-encode area h)
