-- ===== src/Extract/Laws.antt =====
-- What a handler may rely on when an extractor lets it run.
use native.Mathlib.Nat.{mod-eq_of_lt, le_trans, mul-le-mul_left, mul-le-mul_right}
use rusty_gasket.Common.{
  ◌-◌, ◌*◌, ◌≤◌, ◌<◌, ◌⊎◌, min, Bool, true, false, not, ◌||◌, List, Option, none, some, all, ltb,
  ◌==◌, ◌≡◌, refl, ◌↔◌, inl, inr, Bool-cases, Option-cases, same_of_some, arith, ap, sym, ◌∙◌,
}
use rusty_gasket.Common.Text.{Text}
use rusty_gasket.Common.Chars.{trim, is_empty, byte_len, is_ascii_graphic}
use rusty_gasket.Extract.{
  Extraction, extracted, rejected, ValidationError, Pagination, RawPagination, unwrap_or, offset,
  pagination, idempotency_key, validated,
}

extracted_same :
    {A Body : Type 0} (a b : A) → ◌≡◌ {A = Extraction A Body} (extracted a) (extracted b) → a ≡ b
extracted_same a b p = ap (λ e. elim e [ extracted c ↦ c | rejected r ↦ a ]) p

-- A handler that gets a pagination gets a page of at least 1 and a limit from 1 to 500.
pub pagination-bounds :
    {Body : Type 0} (cid : Text) (query : Option RawPagination) (p : Pagination)
    → pagination {Body = Body} cid query ≡ extracted p
    → (1 ≤ p.page) × (1 ≤ p.limit) × (p.limit ≤ 500)
unfolding pagination
pagination-bounds cid none p h = absurd (ground arith)
pagination-bounds cid (some query) p h =
    let page = unwrap_or query.page 1 in
    let limit = min (unwrap_or query.limit 50) 500 in
    elim (Bool-cases (page == 0)) [
      | inl none_left ↦ let out = rw (none_left, pagination) at h in absurd (ground arith)
      | inr some_page ↦ elim (Bool-cases (limit == 0)) [
        | inl no_limit ↦
            let out = rw (some_page, no_limit, pagination) at h in absurd (ground arith)
        | inr some_limit ↦
            let same = extracted_same _ p (rw (some_page, some_limit, pagination) at h) in
            let pages : page ≡ p.page = ap Pagination.page same in
            let limits : limit ≡ p.limit = ap Pagination.limit same in
            (ground arith, ground arith, omega arith)
      ]
    ]

-- Up to page 36893488147419103 the offset of a pagination that a handler gets is the exact product,
-- with no overflow in 64 bits.
pub pagination-offset :
    {Body : Type 0} (cid : Text) (query : Option RawPagination) (p : Pagination)
    → pagination {Body = Body} cid query ≡ extracted p
    → p.page ≤ 36893488147419103
    → offset p ≡ (p.page - 1) * p.limit
unfolding offset
pagination-offset cid query p h few =
    let (pages, some_limit, limits) = pagination-bounds cid query p h in
    let bound : (p.page - 1) * p.limit ≤ 36893488147419102 * 500 =
      le_trans (mul-le-mul_right p.limit (omega arith))
        (mul-le-mul_left 36893488147419102 limits) in
    mod-eq_of_lt (omega (arith, bound))

-- A pagination that a handler gets has a page of at least 1 and a limit from 1 to 500, and its offset
-- is the exact product, with no overflow in 64 bits, unless the page is above 36893488147419103.
pub pagination-safe :
    {Body : Type 0} (cid : Text) (query : Option RawPagination) (p : Pagination)
    → pagination {Body = Body} cid query ≡ extracted p
    → (1 ≤ p.page)
      × (1 ≤ p.limit)
      × (p.limit ≤ 500)
      × ((36893488147419103 < p.page) ⊎ (offset p ≡ (p.page - 1) * p.limit))
pagination-safe cid query p h =
    let (pages, some_limit, limits) = pagination-bounds cid query p h in
    (
      pages,
      some_limit,
      limits,
      elim (Bool-cases (ltb 36893488147419103 p.page)) [
        | inl far ↦ inl (ground (arith, far))
        | inr few ↦ inr (pagination-offset cid query p h (ground (arith, few)))
      ],
    )

abbrev refused : Text → Bool
refused t = is_empty t || ltb 255 (byte_len t) || not (all is_ascii_graphic t)

accepted_iff :
    (t : Text)
    → (refused t ≡ false)
      ↔ ((is_empty t ≡ false) × (byte_len t ≤ 255) × (all is_ascii_graphic t ≡ true))
accepted_iff t = ground (arith, Bool-cases (is_empty t), Bool-cases (all is_ascii_graphic t))

-- An idempotency key that a handler gets is the header's text without the blanks around it: not
-- empty, of at most 255 bytes, and of visible ASCII characters; every other header is refused.
pub idempotency_key-extracted :
    {Body : Type 0} (cid : Text) (header : Option (Option Text)) (key : Text)
    → (idempotency_key {Body = Body} cid header ≡ extracted key) ↔ (
        (value : Text) × (header ≡ some (some value))
        × (key ≡ trim value)
        × ((is_empty key ≡ false) × (byte_len key ≤ 255) × (all is_ascii_graphic key ≡ true)))
unfolding idempotency_key
idempotency_key-extracted cid none key =
    (λ h. absurd (ground arith), λ h. absurd (ground (arith, h.1)))
idempotency_key-extracted cid (some none) key =
    (λ h. absurd (ground arith), λ h. absurd (ground (arith, h.1)))
idempotency_key-extracted cid (some (some value)) key = elim (Bool-cases (refused (trim value))) [
  | inl bad ↦ (
    λ h. let out = rw (bad, idempotency_key) at h in absurd (ground arith),
    λ h.
        let same : value ≡ h.0 = same_of_some (same_of_some h.1) in
        let good : refused key ≡ false = (accepted_iff key).1 h.3 in
        let clash : refused (trim value) ≡ false =
          ap (λ v. refused (trim v)) same ∙ ap refused (sym h.2) ∙ good in
        absurd (ground arith),
  )
  | inr good ↦ (
    λ h.
        let same : trim value ≡ key =
          extracted_same (trim value) key (rw (good, idempotency_key) at h) in
        let fine = (accepted_iff (trim value)).0 good in (value, refl, sym same, rw same at fine),
    λ h.
        let same : value ≡ h.0 = same_of_some (same_of_some h.1) in
        rw (good, idempotency_key) (ap extracted (ap trim same ∙ sym h.2)),
  )
]

-- A validated value is one that was parsed and passed its own validation.
pub validated-extracted :
    {T Body : Type 0} (cid : Text) (validate : T → Option (List ValidationError)) (body : Option T)
    (value : T)
    → (validated {Body = Body} cid validate body ≡ extracted value)
      ↔ ((body ≡ some value) × (validate value ≡ none))
unfolding validated
validated-extracted cid validate none value =
    (λ h. absurd (ground arith), λ h. absurd (ground (arith, h.0)))
validated-extracted cid validate (some given) value = elim (Option-cases (validate given)) [
  | inl valid ↦
      rw (valid, validated)
        (
          λ h.
              let same = extracted_same given value h in
              (ap some same, ap validate (sym same) ∙ valid),
          λ h. ap extracted (same_of_some h.0),
        )
  | inr (errors, invalid) ↦
      rw (invalid, validated)
        (
          λ h. absurd (ground arith),
          λ h.
              let same = same_of_some h.0 in
              let ok : validate given ≡ none = ap validate same ∙ h.1 in absurd (ground arith),
        )
]
