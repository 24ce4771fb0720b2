-- ===== src/Derive.antt =====
-- rusty-gasket-macros/src/api_error.rs: `#[derive(ApiError)]`, from the parsed attributes of an enum to
-- the arms of the implementation. What `syn` parses is the data here.
pub mod Laws
use rusty_gasket.Common.{
  ℕ, ◌^◌, Bool, true, false, ◌&&◌, List, [], ◌∷◌, Option, none, some, ◌⊎◌, inl, inr, leb, ltb,
  if◌then◌else◌,
}
use rusty_gasket.Common.Text.{Text, codes, text_eq}
use rusty_gasket.Http.{ApiError}

pub data Literal : Type 0 where
  str : Text → Literal
  int : ℕ → Literal
  bool : Bool → Literal
  other_literal : Literal

-- A key of an attribute, with its value where there is `= value`.
pub record Meta : Type 0 where
  pub key : Text
  pub value : Option Literal

pub record Attribute : Type 0 where
  pub path : Text
  pub metas : List Meta

pub record Variant : Type 0 where
  pub ident : Text
  pub attrs : List Attribute

pub data InputData : Type 0 where
  enum : List Variant → InputData
  struct_or_union : InputData

pub record DeriveInput : Type 0 where
  pub attrs : List Attribute
  pub input_data : InputData

pub data CompileError : Type 0 where
  no_value code_not_string status_not_integer status_too_large expose_not_bool : CompileError
  unknown_key not_an_enum : CompileError
  missing_attribute : Text → CompileError
  invalid_status : Text → ℕ → CompileError

pub record VariantAttrs : Type 0 where
  pub code : Text
  pub status : ℕ
  pub expose : Option Bool

-- The three locals of the parser.
pub record Found : Type 0 where
  pub code : Option Text
  pub status : Option ℕ
  pub expose : Option Bool

abbrev pub nothing_found : Found
nothing_found = record { code = none; status = none; expose = none }

abbrev pub parse_code : Found → Option Literal → Found ⊎ CompileError
parse_code f none = inr no_value
parse_code f (some (str s)) = inl (record f { code = some s })
parse_code f (some _) = inr code_not_string

abbrev pub parse_status : Found → Option Literal → Found ⊎ CompileError
parse_status f none = inr no_value
parse_status f (some (int i)) =
    if ltb i (2 ^ 16) then inl (record f { status = some i }) else inr status_too_large
parse_status f (some _) = inr status_not_integer

abbrev pub parse_expose : Found → Option Literal → Found ⊎ CompileError
parse_expose f none = inr no_value
parse_expose f (some (bool b)) = inl (record f { expose = some b })
parse_expose f (some _) = inr expose_not_bool

unfoldable pub parse_meta : Found → Meta → Found ⊎ CompileError
parse_meta f m =
    if text_eq m.key (codes "code")
    then parse_code f m.value
    else if text_eq m.key (codes "status")
    then parse_status f m.value
    else if text_eq m.key (codes "expose")
    then parse_expose f m.value
    else inr unknown_key

unfoldable pub parse_metas : Found → List Meta → Found ⊎ CompileError
unfolding parse_meta
parse_metas f [] = inl f
parse_metas f (m ∷ ms) = elim (parse_meta f m) [ inl g ↦ parse_metas g ms | inr e ↦ inr e ]

abbrev pub both : Option Text → Option ℕ → Option Bool → Option VariantAttrs
both (some code) (some status) expose =
    some (record { code = code; status = status; expose = expose })
both (some code) none expose = none
both none status expose = none

abbrev pub complete : Found → Option VariantAttrs
complete f = both f.code f.status f.expose

-- The first attribute that has both a code and a status.
unfoldable pub parse_api_error_attrs : List Attribute → Option VariantAttrs ⊎ CompileError
unfolding parse_metas
parse_api_error_attrs [] = inl none
parse_api_error_attrs (attr ∷ attrs) =
    let rest = parse_api_error_attrs attrs in
    if text_eq attr.path (codes "api_error")
    then elim (parse_metas nothing_found attr.metas) [
      | inr e ↦ inr e
      | inl found ↦ elim (complete found) [ some a ↦ inl (some a) | none ↦ rest ]
    ]
    else rest

abbrev pub has_skip : List Meta → Bool
has_skip [] = false
has_skip (m ∷ ms) = if text_eq m.key (codes "skip_into_response") then true else has_skip ms

-- Other keys are passed over with their values.
unfoldable pub parse_skip_into_response : List Attribute → Bool
parse_skip_into_response [] = false
parse_skip_into_response (attr ∷ attrs) =
    let rest = parse_skip_into_response attrs in
    if text_eq attr.path (codes "api_error") && has_skip attr.metas then true else rest

-- One arm of the three generated matches.
pub record Arm : Type 0 where
  pub ident : Text
  pub error_code : Text
  pub status_code : ℕ
  pub expose_details : Bool

pub record Derived : Type 0 where
  pub arms : List Arm
  pub into_response : Bool

abbrev pub expose_or : Option Bool → ℕ → Bool
expose_or none status = ltb status 500
expose_or (some b) status = b

unfoldable pub derive_variant : Variant → Arm ⊎ CompileError
unfolding parse_api_error_attrs
derive_variant variant = elim (parse_api_error_attrs variant.attrs) [
  | inr e ↦ inr e
  | inl none ↦ inr (missing_attribute variant.ident)
  | inl (some a) ↦
      if leb 100 a.status && leb a.status 999
      then inl (record {
        ident = variant.ident;
        error_code = a.code;
        status_code = a.status;
        expose_details = expose_or a.expose a.status;
      })
      else inr (invalid_status variant.ident a.status)
]

unfoldable pub derive_variants : List Variant → List Arm ⊎ CompileError
unfolding derive_variant
derive_variants [] = inl []
derive_variants (v ∷ vs) =
    let rest = derive_variants vs in
    elim (derive_variant v) [
      | inr e ↦ inr e
      | inl arm ↦ elim rest [ inr e ↦ inr e | inl arms ↦ inl (arm ∷ arms) ]
    ]

unfoldable pub derive : DeriveInput → Derived ⊎ CompileError
unfolding derive_variants parse_skip_into_response
derive input = elim input.input_data [
  | struct_or_union ↦ inr not_an_enum
  | enum variants ↦ elim (derive_variants variants) [
    | inr e ↦ inr e
    | inl arms ↦ inl (record {
      arms = arms;
      into_response = if parse_skip_into_response input.attrs then false else true;
    })
  ]
]

-- The derived implementation for a value of a variant, with its `Display` text. The generated
-- `match` takes the arm of the variant.
abbrev pub as_api_error : Arm → Text → ApiError
as_api_error arm text = record {
  error_code = arm.error_code;
  status_code = arm.status_code;
  expose_details = arm.expose_details;
  details = [];
  to_string = text;
}

abbrev pub find_arm : Text → List Arm → Option Arm
find_arm ident [] = none
find_arm ident (arm ∷ arms) = if text_eq arm.ident ident then some arm else find_arm ident arms
