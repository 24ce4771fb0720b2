-- ===== src/Cache.antt =====
-- rusty-gasket/src/cache.rs: the keys of the object cache. A `&str` is the list of its bytes.
pub mod Parse
pub mod Keys
pub mod Objects
pub mod Flight
pub mod Responses
pub mod Amounts
use rusty_gasket.Common.{
  ℕ, zero, suc, ◌+◌, ◌-◌, ◌*◌, ◌/◌, ◌%◌, Bool, true, false, not, ◌&&◌, ◌||◌, List, [], ◌∷◌, ◌++◌,
  if◌then◌else◌, any, ltb, leb, ◌==◌, length,
}
use rusty_gasket.Common.Text.{Text}
use rusty_gasket.Common.Chars.{is_ascii_alphanumeric}

unfoldable pub hex_digit : ℕ → ℕ
hex_digit v = if ltb v 10 then 48 + v else if ltb v 16 then 65 + (v - 10) else 48

-- Letters, digits and `-_.~`.
abbrev pub is_unreserved : ℕ → Bool
is_unreserved b = is_ascii_alphanumeric b || b == 45 || b == 95 || b == 46 || b == 126

-- `byte >> 4` and `byte & 0x0f`, as a division by 16.
unfoldable pub encode_key_part : Text → Text
unfolding hex_digit
encode_key_part [] = []
encode_key_part (b ∷ bs) =
    let rest = encode_key_part bs in
    if is_unreserved b then b ∷ rest else 37 ∷ hex_digit (b / 16) ∷ hex_digit (b % 16) ∷ rest

-- `CacheKey`
pub record CacheKey : Type 0 where
  pub as_str : Text

unfoldable pub new_key : Text → CacheKey
unfolding encode_key_part
new_key area = record { as_str = encode_key_part area }

-- `CacheKey::part`, with the text of the value.
unfoldable pub part : CacheKey → Text → CacheKey
unfolding encode_key_part
part k v = record { as_str = k.as_str ++ 58 ∷ encode_key_part v }

abbrev pub parts : CacheKey → List Text → CacheKey
parts k [] = k
parts k (v ∷ vs) = parts (part k v) vs

abbrev pub max_memcached_key_bytes : ℕ
max_memcached_key_bytes = 250

pub data InvalidKey : Type 0 where
  empty : InvalidKey
  too_long : ℕ → InvalidKey
  whitespace_or_control : InvalidKey

pub data KeyResult : Type 0 where
  ok : Text → KeyResult
  err : InvalidKey → KeyResult

-- `is_ascii_whitespace` and `is_ascii_control`
abbrev pub is_blank : ℕ → Bool
is_blank b = b == 9 || b == 10 || b == 12 || b == 13 || b == 32 || ltb b 32 || b == 127

unfoldable pub validate_memcached_key : Text → KeyResult
validate_memcached_key [] = err empty
validate_memcached_key (b ∷ bs) =
    if ltb max_memcached_key_bytes (length (b ∷ bs))
    then err (too_long (length (b ∷ bs)))
    else if any is_blank (b ∷ bs)
    then err whitespace_or_control
    else ok (b ∷ bs)

unfoldable pub namespaced_key : Text → CacheKey → KeyResult
unfolding encode_key_part validate_memcached_key
namespaced_key namespace key = validate_memcached_key (encode_key_part namespace ++ 58 ∷ key.as_str)
