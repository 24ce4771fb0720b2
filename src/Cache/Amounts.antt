-- ===== src/Cache/Amounts.antt =====
-- rusty-gasket/src/cache.rs: the texts of a lifetime and of a memory budget.
pub mod RoundTrip
use rusty_gasket.Common.{
  ℕ, ◌+◌, ◌-◌, ◌*◌, ◌^◌, ◌⊎◌, inl, inr, min, Bool, true, false, not, ◌&&◌, List, [], ◌∷◌, ◌++◌,
  Option, none, some, if◌then◌else◌, leb, ltb, ◌==◌, any, keep,
}
use rusty_gasket.Common.Text.{Text, codes, text_eq}
use rusty_gasket.Common.Chars.{trim, is_empty, lowercase}
use rusty_gasket.Common.Digits.{decimal}

pub data AmountError : Type 0 where
  missing_number invalid_amount : AmountError
  unsupported_unit : Text → AmountError

abbrev pub u64_max : ℕ
u64_max = 2 ^ 64 - 1

-- `u64::saturating_mul`
abbrev pub saturating_mul : ℕ → ℕ → ℕ
saturating_mul a b = min (a * b) u64_max

-- `char::is_ascii_digit`
abbrev pub is_digit : ℕ → Bool
is_digit c = leb 48 c && leb c 57

abbrev pub digits_value : ℕ → Text → ℕ
digits_value v [] = v
digits_value v (c ∷ s) = digits_value (v * 10 + (c - 48)) s

-- `u64::from_str` of digits, of which there is one at least.
unfoldable pub parse_u64 : Text → Option ℕ
parse_u64 s = let v = digits_value 0 s in if ltb u64_max v then none else some v

abbrev pub number_of : Text → Text
number_of [] = []
number_of (c ∷ s) = if is_digit c then c ∷ number_of s else []

abbrev pub rest_of : Text → Text
rest_of [] = []
rest_of (c ∷ s) = if is_digit c then rest_of s else c ∷ s

unfoldable pub split_number_and_unit : Text → (Text × Text) ⊎ AmountError
split_number_and_unit value =
    if is_empty (number_of value)
    then inr missing_number
    else inl (number_of value, trim (rest_of value))

abbrev pub one_of : List Text → Text → Bool
one_of names unit = any (text_eq unit) names

-- The seconds of an amount of a unit.
unfoldable pub seconds_of : Text → ℕ → Option ℕ
seconds_of unit amount =
    if one_of ([] ∷ codes "s" ∷ codes "sec" ∷ codes "secs" ∷ codes "second" ∷ codes "seconds" ∷ [])
      unit
    then some amount
    else if one_of (codes "m" ∷ codes "min" ∷ codes "mins" ∷ codes "minute" ∷ codes "minutes" ∷ [])
        unit
    then some (saturating_mul amount 60)
    else if one_of (codes "h" ∷ codes "hr" ∷ codes "hrs" ∷ codes "hour" ∷ codes "hours" ∷ []) unit
    then some (saturating_mul amount (60 * 60))
    else none

abbrev pub of_unit : (Text → ℕ → Option ℕ) → Text → ℕ → ℕ ⊎ AmountError
of_unit scale unit amount = elim (scale unit amount) [
  | none ↦ inr (unsupported_unit unit)
  | some n ↦ inl n
]

abbrev pub of_number : (Text → ℕ → Option ℕ) → Text → Option ℕ → ℕ ⊎ AmountError
of_number scale unit none = inr invalid_amount
of_number scale unit (some amount) = of_unit scale unit amount

-- In seconds.
unfoldable pub parse_duration_text : Text → ℕ ⊎ AmountError
unfolding split_number_and_unit parse_u64 seconds_of
parse_duration_text value = elim (split_number_and_unit (trim value)) [
  | inr e ↦ inr e
  | inl (number, unit) ↦ of_number seconds_of (lowercase unit) (parse_u64 number)
]

abbrev pub multiplier : Text → Option ℕ
multiplier unit =
    if one_of ([] ∷ codes "b" ∷ codes "byte" ∷ codes "bytes" ∷ []) unit
    then some 1
    else if one_of (codes "k" ∷ codes "kb" ∷ []) unit
    then some 1000
    else if one_of (codes "m" ∷ codes "mb" ∷ []) unit
    then some 1000000
    else if one_of (codes "g" ∷ codes "gb" ∷ []) unit
    then some 1000000000
    else if one_of (codes "kib" ∷ []) unit
    then some 1024
    else if one_of (codes "mib" ∷ []) unit
    then some (1024 * 1024)
    else if one_of (codes "gib" ∷ []) unit
    then some (1024 * 1024 * 1024)
    else none

unfoldable pub bytes_of : Text → ℕ → Option ℕ
bytes_of unit amount = elim (multiplier unit) [
  | none ↦ none
  | some m ↦ some (saturating_mul amount m)
]

unfoldable pub parse_memory_budget : Text → ℕ ⊎ AmountError
unfolding split_number_and_unit parse_u64 bytes_of
parse_memory_budget value = elim (split_number_and_unit (trim value)) [
  | inr e ↦ inr e
  | inl (number, unit) ↦
      of_number bytes_of (keep (λ c. not (c == 32)) (lowercase unit)) (parse_u64 number)
]

-- `CacheTtl::serialize`
unfoldable pub serialize_ttl : ℕ → Text
serialize_ttl seconds = decimal seconds ++ codes "s"
