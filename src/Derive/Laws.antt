-- ===== src/Derive/Laws.antt =====
-- What the derived implementation of rusty-gasket-macros/src/api_error.rs says of an error, and what
-- its response then shows.
use rusty_gasket.Common.{
  ℕ, ◌≤◌, ◌≡◌, refl, sym, ap, ◌∙◌, ◌⊎◌, inl, inr, Bool, true, false, ◌&&◌, List, [], ◌∷◌, Option,
  none, some, leb, ltb, ◌^◌, In, arith, Bool-cases, Option-cases, result_cases, same_of_inl,
  same_of_some,
}
use rusty_gasket.Common.Text.{Text, codes, text_eq, text_eq_iff}
use rusty_gasket.Http.{error_into_response}
use rusty_gasket.Http.Laws.{error_into_response-hidden}
use rusty_gasket.Derive.{
  Literal, str, int, bool, other_literal, Meta, Attribute, Found, nothing_found, parse_code,
  parse_status, parse_expose, parse_meta, parse_metas, both, complete, VariantAttrs, Variant,
  DeriveInput, enum, Arm, Derived, expose_or, parse_api_error_attrs, derive_variant,
  derive_variants, derive, as_api_error,
}

-- The arm of a variant has the code, the status and the exposure of the variant's attribute.
pub record IsArmOf (v : Variant) (arm : Arm) : Type 0 where
  pub attrs : VariantAttrs
  pub parsed : parse_api_error_attrs v.attrs ≡ inl (some attrs)
  pub valid : (100 ≤ attrs.status) × (attrs.status ≤ 999)
  pub arm_is : arm ≡ record {
    ident = v.ident;
    error_code = attrs.code;
    status_code = attrs.status;
    expose_details = expose_or attrs.expose attrs.status;
  }

derive_variant-IsArmOf : (v : Variant) (arm : Arm) → derive_variant v ≡ inl arm → IsArmOf v arm
unfolding derive_variant
derive_variant-IsArmOf v arm h = elim (result_cases (parse_api_error_attrs v.attrs)) [
  | inr (e, bad) ↦ let out = rw (bad, derive_variant) at h in absurd (ground arith)
  | inl (found, parsed) ↦ elim (Option-cases found) [
    | inl missing ↦ let out = rw (parsed, derive_variant, missing) at h in absurd (ground arith)
    | inr (a, there) ↦ elim (Bool-cases (leb 100 a.status && leb a.status 999)) [
      | inr invalid ↦
          let out = rw (parsed, derive_variant, there, invalid) at h in absurd (ground arith)
      | inl valid ↦ record {
        attrs = a;
        parsed = parsed ∙ ap inl there;
        valid = ground (arith, valid);
        arm_is = sym (same_of_inl (rw (parsed, derive_variant, there, valid) at h));
      }
    ]
  ]
]

-- The arms stand in the order of the variants.
data AreArms : List Variant → List Arm → Type 0 where
  no_arms : AreArms [] []
  one_more :
      {v : Variant} {arm : Arm} {vs : List Variant} {arms : List Arm}
      → IsArmOf v arm
      → AreArms vs arms
      → AreArms (v ∷ vs) (arm ∷ arms)

derive_variants-AreArms :
    (vs : List Variant) (arms : List Arm) → derive_variants vs ≡ inl arms → AreArms vs arms
unfolding derive_variants
derive_variants-AreArms [] arms h = let same = same_of_inl h in rw⁻¹ same no_arms
derive_variants-AreArms (v ∷ vs) arms h = elim (result_cases (derive_variant v)) [
  | inr (e, bad) ↦ let out = rw (bad, derive_variants) at h in absurd (ground arith)
  | inl (arm, made) ↦ elim (result_cases (derive_variants vs)) [
    | inr (e, bad) ↦ let out = rw (made, derive_variants, bad) at h in absurd (ground arith)
    | inl (others, rest) ↦
        let same : arm ∷ others ≡ arms = same_of_inl (rw (made, derive_variants, rest) at h) in
        rw⁻¹ same
          (one_more (derive_variant-IsArmOf v arm made) (derive_variants-AreArms vs others rest))
  ]
]

variant_of :
    (vs : List Variant) (arms : List Arm) (arm : Arm)
    → AreArms vs arms
    → In arm arms
    → (v : Variant) × In v vs × IsArmOf v arm
variant_of [] [] arm no_arms m = absurd m
variant_of [] (first ∷ arms) arm none_left m = elim none_left [ ]
variant_of (v ∷ vs) [] arm none_left m = absurd m
variant_of (v ∷ vs) (first ∷ arms) arm (one_more is rest) (inl e) = (v, inl refl, rw e is)
variant_of (v ∷ vs) (first ∷ arms) arm (one_more is rest) (inr m) =
    let (w, there, is_arm) = variant_of vs arms arm rest m in (w, inr there, is_arm)

derive-arms :
    (input : DeriveInput) (vs : List Variant) (d : Derived)
    → input.input_data ≡ enum vs
    → derive input ≡ inl d
    → derive_variants vs ≡ inl d.arms
unfolding derive
derive-arms input vs d shape h = elim (result_cases (derive_variants vs)) [
  | inr (e, bad) ↦ let out = rw (shape, derive, bad) at h in absurd (ground arith)
  | inl (arms, made) ↦
      let same = same_of_inl (rw (shape, derive, made) at h) in made ∙ ap inl (ap Derived.arms same)
]

expose_or-cases :
    (expose : Option Bool) (status : ℕ)
    → 500 ≤ status
    → (expose ≡ some true) ⊎ (expose_or expose status ≡ false)
expose_or-cases none status h = inr (ground arith)
expose_or-cases (some true) status h = inl refl
expose_or-cases (some false) status h = inr refl

-- The attributes say `#[api_error(.., expose = true, ..)]`.
abbrev pub SaysExpose : List Attribute → Type 0
SaysExpose attrs =
    (attr : Attribute) × (m : Meta) × In attr attrs
    × (attr.path ≡ codes "api_error")
    × In m attr.metas
    × (m.key ≡ codes "expose")
    × (m.value ≡ some (bool true))

parse_code-expose :
    (f g : Found) (v : Option Literal) → parse_code f v ≡ inl g → f.expose ≡ g.expose
parse_code-expose f g none h = absurd (ground arith)
parse_code-expose f g (some (str s)) h = ap Found.expose (same_of_inl h)
parse_code-expose f g (some (int n)) h = absurd (ground arith)
parse_code-expose f g (some (bool b)) h = absurd (ground arith)
parse_code-expose f g (some other_literal) h = absurd (ground arith)

parse_status-expose :
    (f g : Found) (v : Option Literal) → parse_status f v ≡ inl g → f.expose ≡ g.expose
parse_status-expose f g none h = absurd (ground arith)
parse_status-expose f g (some (str s)) h = absurd (ground arith)
parse_status-expose f g (some (bool b)) h = absurd (ground arith)
parse_status-expose f g (some other_literal) h = absurd (ground arith)
parse_status-expose f g (some (int n)) h = elim (Bool-cases (ltb n (2 ^ 16))) [
  | inl small ↦ ap Found.expose (same_of_inl (rw small at h))
  | inr large ↦ let out = rw large at h in absurd (ground arith)
]

parse_expose-expose :
    (f g : Found) (v : Option Literal)
    → parse_expose f v ≡ inl g
    → g.expose ≡ some true
    → v ≡ some (bool true)
parse_expose-expose f g none h e = absurd (ground arith)
parse_expose-expose f g (some (str s)) h e = absurd (ground arith)
parse_expose-expose f g (some (int n)) h e = absurd (ground arith)
parse_expose-expose f g (some other_literal) h e = absurd (ground arith)
parse_expose-expose f g (some (bool b)) h e =
    ap (λ c. some (bool c)) (same_of_some (ap Found.expose (same_of_inl h) ∙ e))

parse_meta-expose :
    (f g : Found) (m : Meta)
    → parse_meta f m ≡ inl g
    → g.expose ≡ some true
    → (f.expose ≡ some true) ⊎ ((m.key ≡ codes "expose") × (m.value ≡ some (bool true)))
unfolding parse_meta
parse_meta-expose f g m h e = elim (Bool-cases (text_eq m.key (codes "code"))) [
  | inl code ↦ inl (parse_code-expose f g m.value (rw (code, parse_meta) at h) ∙ e)
  | inr c ↦ elim (Bool-cases (text_eq m.key (codes "status"))) [
    | inl status ↦ inl (parse_status-expose f g m.value (rw (c, parse_meta, status) at h) ∙ e)
    | inr s ↦ elim (Bool-cases (text_eq m.key (codes "expose"))) [
      | inl expose ↦ inr (
        (text_eq_iff m.key (codes "expose")).0 expose,
        parse_expose-expose f g m.value (rw (c, parse_meta, s, expose) at h) e,
      )
      | inr x ↦ let out = rw (c, parse_meta, s, x) at h in absurd (ground arith)
    ]
  ]
]

parse_metas-expose :
    (f g : Found) (ms : List Meta)
    → parse_metas f ms ≡ inl g
    → g.expose ≡ some true
    → (f.expose ≡ some true)
      ⊎ ((m : Meta) × In m ms × (m.key ≡ codes "expose") × (m.value ≡ some (bool true)))
unfolding parse_metas
parse_metas-expose f g [] h e = inl (ap Found.expose (same_of_inl h) ∙ e)
parse_metas-expose f g (m ∷ ms) h e = elim (result_cases (parse_meta f m)) [
  | inr (x, bad) ↦ let out = rw (bad, parse_metas) at h in absurd (ground arith)
  | inl (k, made) ↦ elim (parse_metas-expose k g ms (rw (made, parse_metas) at h) e) [
    | inr (n, there, keyed, valued) ↦ inr (n, inr there, keyed, valued)
    | inl before ↦ elim (parse_meta-expose f k m made before) [
      | inl earlier ↦ inl earlier
      | inr (keyed, valued) ↦ inr (m, inl refl, keyed, valued)
    ]
  ]
]

both-expose :
    (code : Option Text) (status : Option ℕ) (expose : Option Bool) (a : VariantAttrs)
    → both code status expose ≡ some a
    → expose ≡ a.expose
both-expose (some c) (some n) expose a h = ap VariantAttrs.expose (same_of_some h)
both-expose (some c) none expose a h = absurd (ground arith)
both-expose none status expose a h = absurd (ground arith)

pass_on : (attr : Attribute) (attrs : List Attribute) → SaysExpose attrs → SaysExpose (attr ∷ attrs)
pass_on attr attrs (other, m, there, path, among, keyed, valued) =
    (other, m, inr there, path, among, keyed, valued)

parse_api_error_attrs-SaysExpose :
    (attrs : List Attribute) (a : VariantAttrs)
    → parse_api_error_attrs attrs ≡ inl (some a)
    → a.expose ≡ some true
    → SaysExpose attrs
unfolding parse_api_error_attrs
parse_api_error_attrs-SaysExpose [] a h e = absurd (ground arith)
parse_api_error_attrs-SaysExpose (attr ∷ attrs) a h e =
    let later : parse_api_error_attrs attrs ≡ inl (some a) → SaysExpose (attr ∷ attrs) =
      λ k. pass_on attr attrs (parse_api_error_attrs-SaysExpose attrs a k e) in
    elim (Bool-cases (text_eq attr.path (codes "api_error"))) [
      | inr other ↦ later (rw (other, parse_api_error_attrs) at h)
      | inl own ↦ elim (result_cases (parse_metas nothing_found attr.metas)) [
        | inr (x, bad) ↦
            let out = rw (own, parse_api_error_attrs, bad) at h in absurd (ground arith)
        | inl (f, made) ↦ elim (Option-cases (complete f)) [
          | inl partial ↦ later (rw (own, parse_api_error_attrs, made, partial) at h)
          | inr (b, whole) ↦
              let same : b ≡ a =
                same_of_some (same_of_inl (rw (own, parse_api_error_attrs, made, whole) at h)) in
              let shown : f.expose ≡ some true =
                both-expose f.code f.status f.expose b whole ∙ ap VariantAttrs.expose same ∙ e in
              elim (parse_metas-expose nothing_found f attr.metas made shown) [
                | inl nothing ↦ absurd (ground arith)
                | inr (m, there, keyed, valued) ↦ (
                  attr,
                  m,
                  inl refl,
                  (text_eq_iff attr.path (codes "api_error")).0 own,
                  there,
                  keyed,
                  valued,
                )
              ]
        ]
      ]
    ]

-- When an enum derives its implementation, each arm is that of a variant of its name, with the code
-- and the status that the variant's attributes give. If the status is 500 or more, the errors of the
-- variant have one response whatever their texts are, unless an `api_error` attribute of that very variant
-- says `expose = true`.
pub derive-hidden :
    {Body : Type 0} (input : DeriveInput) (vs : List Variant) (d : Derived) (arm : Arm)
    (cid s t : Text)
    → input.input_data ≡ enum vs
    → derive input ≡ inl d
    → In arm d.arms
    → 500 ≤ arm.status_code
    → (v : Variant) × In v vs
      × (v.ident ≡ arm.ident)
      × ((a : VariantAttrs) × (parse_api_error_attrs v.attrs ≡ inl (some a))
          × (a.code ≡ arm.error_code)
          × (a.status ≡ arm.status_code))
      × (SaysExpose v.attrs
          ⊎ (error_into_response {Body = Body} cid (as_api_error arm s)
              ≡ error_into_response cid (as_api_error arm t)))
derive-hidden input vs d arm cid s t shape h m severe =
    let arms = derive_variants-AreArms vs d.arms (derive-arms input vs d shape h) in
    let (v, there, is) = variant_of vs d.arms arm arms m in
    let a = is.attrs in
    let status : arm.status_code ≡ a.status = ap Arm.status_code is.arm_is in
    (
      v,
      there,
      sym (ap Arm.ident is.arm_is),
      (a, is.parsed, sym (ap Arm.error_code is.arm_is), sym status),
      elim (expose_or-cases a.expose a.status (omega (arith, status, severe))) [
        | inl written ↦ inl (parse_api_error_attrs-SaysExpose v.attrs a is.parsed written)
        | inr hidden ↦
            let quiet : arm.expose_details ≡ false = ap Arm.expose_details is.arm_is ∙ hidden in
            inr (
              error_into_response-hidden cid (as_api_error arm s) (as_api_error arm t) quiet quiet
                refl refl)
      ],
    )
