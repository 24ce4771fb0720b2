-- ===== src/RateLimit/Subject.antt =====
-- rusty-gasket/src/rate_limit.rs, `RateLimitSubject`: a subject cut to at most 256 bytes.
use rusty_gasket.Common.{
  ℕ, zero, suc, ◌+◌, ◌-◌, ◌≤◌, ◌≡◌, refl, ap, Bool, true, false, [], ◌∷◌, ◌++◌, arith, ◌==◌, ltb,
  if◌then◌else◌, inl, inr, ◌∙◌, same_of_some, Bool-cases, Option, none, some, sym,
}
use rusty_gasket.Common.Text.{Text}
use rusty_gasket.Common.Chars.{len_utf8, byte_len, len_utf8-pos, byte_len-append}
use mathlib.Core.List.{append-nil}
use mathlib.Core.Option

abbrev pub max_rate_limit_subject_len : ℕ
max_rate_limit_subject_len = 256

-- `str::is_char_boundary`
unfoldable pub is_char_boundary : Text → ℕ → Bool
is_char_boundary [] i = i == 0
is_char_boundary (c ∷ s) i =
    let later = is_char_boundary s (i - len_utf8 c) in
    if i == 0 then true else if ltb i (len_utf8 c) then false else later

-- `(0..=i).rev().find(|&i| s.is_char_boundary(i)).unwrap_or(0)`
unfoldable pub last_boundary : Text → ℕ → ℕ
unfolding is_char_boundary
last_boundary s zero = 0
last_boundary s (suc i) =
    let below = last_boundary s i in if is_char_boundary s (suc i) then suc i else below

-- `String::truncate`; `none` is its panic, on a cut inside a character.
unfoldable pub truncate : Text → ℕ → Option Text
truncate [] cut = some []
truncate (c ∷ s) cut =
    let rest = truncate s (cut - len_utf8 c) in
    if cut == 0 then some [] else if ltb cut (len_utf8 c) then none else Option.map (◌∷◌ c) rest

pub record RateLimitSubject : Type 0 where
  pub as_str : Text

-- `RateLimitSubject::new`; `none` is a panic.
unfoldable pub new_subject : Text → Option RateLimitSubject
unfolding is_char_boundary last_boundary truncate
new_subject s =
    if ltb max_rate_limit_subject_len (byte_len s)
    then Option.map (λ t. record { as_str = t })
        (truncate s (last_boundary s max_rate_limit_subject_len))
    else some (record { as_str = s })

last_boundary_bound : (s : Text) (i : ℕ) → last_boundary s i ≤ i
unfolding last_boundary
last_boundary_bound s zero = omega arith
last_boundary_bound s (suc i) = ground (arith, last_boundary_bound s i)

zero-boundary : (s : Text) → is_char_boundary s 0 ≡ true
unfolding is_char_boundary
zero-boundary [] = ground arith
zero-boundary (c ∷ s) = ground arith

last_boundary-boundary : (s : Text) (i : ℕ) → is_char_boundary s (last_boundary s i) ≡ true
unfolding last_boundary
last_boundary-boundary s zero = zero-boundary s
last_boundary-boundary s (suc i) = elim (Bool-cases (is_char_boundary s (suc i))) [
  | inl here ↦ rw here here
  | inr below ↦ rw below (last_boundary-boundary s i)
]

last_boundary-last :
    (s : Text) (i j : ℕ) → j ≤ i → is_char_boundary s j ≡ true → j ≤ last_boundary s i
unfolding last_boundary
last_boundary-last s zero j h b = omega arith
last_boundary-last s (suc i) j h b = elim (Bool-cases (j == suc i)) [
  | inl top ↦ let same : j ≡ suc i = ground arith in ground (arith, ap (is_char_boundary s) same)
  | inr lower ↦ ground (arith, last_boundary-last s i j)
]

truncate-boundary :
    (s : Text) (cut : ℕ)
    → is_char_boundary s cut ≡ true
    → (t : Text) × (rest : Text) × (truncate s cut ≡ some t) × (s ≡ t ++ rest) × (byte_len t ≡ cut)
unfolding is_char_boundary truncate
truncate-boundary [] cut b = ([], [], refl, refl, ground arith)
truncate-boundary (c ∷ s) cut b = elim (Bool-cases (cut == 0)) [
  | inl start ↦ ([], c ∷ s, rw start refl, refl, ground arith)
  | inr further ↦
      let (t, rest, e, split, size) = truncate-boundary s (cut - len_utf8 c) (ground arith) in
      let fits : ltb cut (len_utf8 c) ≡ false = ground arith in
      (c ∷ t, rest, rw (further, fits, e) refl, ap (◌∷◌ c) split, ground (arith, size))
]

prefix-boundary : (t rest : Text) → is_char_boundary (t ++ rest) (byte_len t) ≡ true
unfolding is_char_boundary
prefix-boundary [] rest = zero-boundary rest
prefix-boundary (c ∷ t) rest =
    let same : len_utf8 c + byte_len t - len_utf8 c ≡ byte_len t = omega arith in
    let later : is_char_boundary (t ++ rest) (len_utf8 c + byte_len t - len_utf8 c) ≡ true =
      rw same (prefix-boundary t rest) in
    ground (arith, later, len_utf8-pos c)

-- A subject is made without a panic from every text, and it is the longest prefix of the text that
-- fits into 256 bytes.
new_subject-cut :
    (s : Text)
    → (t : RateLimitSubject) × (rest : Text) × (new_subject s ≡ some t)
      × (s ≡ t.as_str ++ rest)
      × (byte_len t.as_str ≤ 256)
      × ((p q : Text) → s ≡ p ++ q → byte_len p ≤ 256 → byte_len p ≤ byte_len t.as_str)
unfolding new_subject
new_subject-cut s = elim (Bool-cases (ltb 256 (byte_len s))) [
  | inl long ↦
      let cut = last_boundary s 256 in
      let (t, rest, e, split, size) = truncate-boundary s cut (last_boundary-boundary s 256) in
      (
        record { as_str = t },
        rest,
        rw (long, e) refl,
        split,
        omega (arith, last_boundary_bound s 256),
        λ p q split' h.
            omega
              (arith, last_boundary-last s 256 (byte_len p) h (rw split' (prefix-boundary p q))),
      )
  | inr short ↦ (
    record { as_str = s },
    [],
    rw short refl,
    sym (append-nil s),
    ground arith,
    λ p q split' h. rw split' (omega (arith, byte_len-append p q)),
  )
]

-- `new` never panics, and the subject is a prefix of its argument of at most 256 bytes.
pub new_subject-prefix :
    (s : Text)
    → (t : RateLimitSubject) × (rest : Text) × (new_subject s ≡ some t)
      × (s ≡ t.as_str ++ rest)
      × (byte_len t.as_str ≤ 256)
new_subject-prefix s =
    let (t, rest, e, split, short, longest) = new_subject-cut s in (t, rest, e, split, short)

-- No prefix of the argument that fits into 256 bytes is longer than the subject.
pub new_subject-longest :
    (s p q : Text) (t : RateLimitSubject)
    → new_subject s ≡ some t
    → s ≡ p ++ q
    → byte_len p ≤ 256
    → byte_len p ≤ byte_len t.as_str
new_subject-longest s p q t e split short =
    let (t', rest, e', split', short', longest) = new_subject-cut s in
    let same : t' ≡ t = same_of_some (sym e' ∙ e) in rw same at (longest p q split short)
