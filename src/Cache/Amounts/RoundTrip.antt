-- ===== src/Cache/Amounts/RoundTrip.antt =====
-- A lifetime of rusty-gasket/src/cache.rs, written and read back.
use mathlib.Core.List.{reverse-append, reverse-reverse}
use rusty_gasket.Common.{
  ℕ, zero, suc, ◌+◌, ◌-◌, ◌*◌, ◌/◌, ◌%◌, ◌^◌, ◌<◌, ◌≡◌, refl, sym, ap, ◌∙◌, inl, inr, true, false,
  [], ◌∷◌, ◌++◌, reverse, some, ◌==◌, ltb, arith, All, Bool-cases,
}
use rusty_gasket.Common.Text.{Text, codes}
use rusty_gasket.Common.Chars.{trim, is_whitespace, is_empty}
use rusty_gasket.Common.Digits.{digits_onto, decimal}
use rusty_gasket.Cache.Amounts.{
  u64_max, is_digit, digits_value, parse_u64, number_of, rest_of, split_number_and_unit, seconds_of,
  parse_duration_text, serialize_ttl,
}

pub digits_value-digits_onto :
    (fuel n : ℕ) (acc : Text)
    → n < 10 ^ fuel
    → digits_value 0 (digits_onto fuel n acc) ≡ digits_value n acc
digits_value-digits_onto zero n acc h =
    let none_left : n ≡ 0 = omega arith in ap (λ v. digits_value v acc) (sym none_left)
digits_value-digits_onto (suc fuel) n acc h = elim (Bool-cases (n / 10 == 0)) [
  | inl last ↦
      let whole : 0 + (48 + n % 10 - 48) ≡ n = ground arith in
      rw last (ap (λ v. digits_value v acc) whole)
  | inr more ↦
      let fewer : n / 10 < 10 ^ fuel = omega (arith, h) in
      let whole : n / 10 * 10 + (48 + n % 10 - 48) ≡ n = omega arith in
      rw more (
        digits_value-digits_onto fuel (n / 10) ((48 + n % 10) ∷ acc) fewer
        ∙ ap (λ v. digits_value v acc) whole)
]

abbrev AreDigits : Text → Type 0
AreDigits = All (λ c. is_digit c ≡ true)

digits_onto-AreDigits :
    (fuel n : ℕ) (acc : Text) → AreDigits acc → AreDigits (digits_onto fuel n acc)
digits_onto-AreDigits zero n acc h = h
digits_onto-AreDigits (suc fuel) n acc h =
    let digit : is_digit (48 + n % 10) ≡ true = ground arith in
    elim (Bool-cases (n / 10 == 0)) [
      | inl last ↦ rw last (digit, h)
      | inr more ↦ rw more (digits_onto-AreDigits fuel (n / 10) ((48 + n % 10) ∷ acc) (digit, h))
    ]

digits_onto-filled : (fuel n c : ℕ) (s : Text) → is_empty (digits_onto fuel n (c ∷ s)) ≡ false
digits_onto-filled zero n c s = refl
digits_onto-filled (suc fuel) n c s = elim (Bool-cases (n / 10 == 0)) [
  | inl last ↦ rw last refl
  | inr more ↦ rw more (digits_onto-filled fuel (n / 10) (48 + n % 10) (c ∷ s))
]

decimal-filled : (n : ℕ) → is_empty (decimal n) ≡ false
decimal-filled n = elim (Bool-cases (n / 10 == 0)) [
  | inl last ↦ rw last refl
  | inr more ↦ rw more (digits_onto-filled 19 (n / 10) (48 + n % 10) [])
]

number_of-digits :
    (ds s : Text) (c : ℕ)
    → AreDigits ds
    → is_digit c ≡ false
    → (number_of (ds ++ c ∷ s) ≡ ds) × (rest_of (ds ++ c ∷ s) ≡ c ∷ s)
number_of-digits [] s c h other = rw other (refl, refl)
number_of-digits (d ∷ ds) s c h other =
    let (number, rest) = number_of-digits ds s c h.1 other in rw (h.0) (ap (◌∷◌ d) number, rest)

trim-tight :
    (c d : ℕ) (s : Text)
    → is_whitespace c ≡ false
    → is_whitespace d ≡ false
    → trim (c ∷ s ++ d ∷ []) ≡ c ∷ s ++ d ∷ []
trim-tight c d s hc hd = rw hc (
    rw (reverse-append (c ∷ s) (d ∷ [])) (
      rw hd
        (ap reverse (sym (reverse-append (c ∷ s) (d ∷ []))) ∙ reverse-reverse (c ∷ s ++ d ∷ []))))

trim-digits :
    (ds : Text) → AreDigits ds → is_empty ds ≡ false → trim (ds ++ codes "s") ≡ ds ++ codes "s"
trim-digits [] h filled = absurd (ground arith)
trim-digits (c ∷ ds) h filled = trim-tight c 115 ds (let digit = h.0 in ground (arith, digit)) refl

split-digits :
    (ds : Text)
    → AreDigits ds
    → is_empty ds ≡ false
    → split_number_and_unit (ds ++ codes "s") ≡ inl (ds, codes "s")
unfolding split_number_and_unit
split-digits ds h filled =
    let (number, rest) = number_of-digits ds [] 115 h refl in rw (number, rest, filled) refl

parse-seconds :
    (t number : Text) (n : ℕ)
    → trim t ≡ t
    → split_number_and_unit t ≡ inl (number, codes "s")
    → parse_u64 number ≡ some n
    → parse_duration_text t ≡ inl n
unfolding parse_duration_text seconds_of
parse-seconds t number n tight halves value = rw (tight, parse_duration_text, halves, value) refl

parse_u64-small : (s : Text) (n : ℕ) → digits_value 0 s ≡ n → n < 2 ^ 64 → parse_u64 s ≡ some n
unfolding parse_u64
parse_u64-small s n value h =
    let small : ltb u64_max n ≡ false = ground (arith, h) in rw (value, parse_u64, small) refl

-- Every lifetime that fits into 64 bits is written as a text that is read back as the same number of
-- seconds.
pub parse_duration_text-serialize_ttl :
    (n : ℕ) → n < 2 ^ 64 → parse_duration_text (serialize_ttl n) ≡ inl n
unfolding serialize_ttl
parse_duration_text-serialize_ttl n h =
    let digits = digits_onto-AreDigits 20 n [] tt in
    let filled = decimal-filled n in
    let value = digits_value-digits_onto 20 n [] (omega (arith, h)) in
    parse-seconds (decimal n ++ codes "s") (decimal n) n (trim-digits (decimal n) digits filled)
      (split-digits (decimal n) digits filled) (parse_u64-small (decimal n) n value h)
