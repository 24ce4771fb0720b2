-- ===== src/Examples/Derived.antt =====
-- The errors of rusty-gasket/src/error.rs that derive their implementation, and attributes that do not
-- compile.
use rusty_gasket.Common.{ℕ, ◌≡◌, refl, ◌⊎◌, inl, inr, true, false, List, [], ◌∷◌, some, In, arith}
use rusty_gasket.Common.Text.{Text, codes}
use rusty_gasket.Http.{error_into_response}
use rusty_gasket.Derive.{
  Literal, str, int, bool, Meta, Variant, enum, DeriveInput, Arm, Derived, VariantAttrs,
  parse_api_error_attrs, derive, as_api_error, missing_attribute, invalid_status, status_too_large,
}
use rusty_gasket.Derive.Laws.{SaysExpose, derive-hidden}

abbrev key_value : Text → Literal → Meta
key_value k v = record { key = k; value = some v }

abbrev variant : Text → List Meta → Variant
variant ident metas = record {
  ident = ident;
  attrs = record { path = codes "api_error"; metas = metas } ∷ [];
}

abbrev with_status : Text → ℕ → List Meta → List Meta
with_status code status more =
    key_value (codes "code") (str code) ∷ key_value (codes "status") (int status) ∷ more

-- `FrameworkError`, with the attribute of its `Display` beside.
abbrev framework_error : List Variant
framework_error =
    variant (codes "NotFound") (with_status (codes "NOT_FOUND") 404 [])
    ∷ variant (codes "MethodNotAllowed") (with_status (codes "METHOD_NOT_ALLOWED") 405 [])
    ∷ record {
      ident = codes "Internal";
      attrs =
          record { path = codes "error"; metas = [] }
          ∷ record {
            path = codes "api_error";
            metas =
                with_status (codes "INTERNAL_ERROR") 500
                  (key_value (codes "expose") (bool false) ∷ []);
          }
          ∷ [];
    }
    ∷ []

abbrev of_enum : List Variant → DeriveInput
of_enum vs = record { attrs = []; input_data = enum vs }

abbrev internal : Arm
internal = record {
  ident = codes "Internal";
  error_code = codes "INTERNAL_ERROR";
  status_code = 500;
  expose_details = false;
}

abbrev framework_derived : Derived
framework_derived = record {
  arms =
      record {
        ident = codes "NotFound";
        error_code = codes "NOT_FOUND";
        status_code = 404;
        expose_details = true;
      }
      ∷ record {
        ident = codes "MethodNotAllowed";
        error_code = codes "METHOD_NOT_ALLOWED";
        status_code = 405;
        expose_details = true;
      }
      ∷ internal
      ∷ [];
  into_response = true;
}

framework_derives : derive (of_enum framework_error) ≡ inl framework_derived
unfolding derive
framework_derives = refl

derive-hidden_example :
    (v : Variant) × In v framework_error
    × (v.ident ≡ codes "Internal")
    × ((a : VariantAttrs) × (parse_api_error_attrs v.attrs ≡ inl (some a))
        × (a.code ≡ codes "INTERNAL_ERROR")
        × (a.status ≡ 500))
    × (SaysExpose v.attrs
        ⊎ (error_into_response {Body = Text}
              (codes "id-1")
              (as_api_error internal (codes "no disk"))
            ≡ error_into_response (codes "id-1") (as_api_error internal (codes "no memory"))))
derive-hidden_example =
    derive-hidden (of_enum framework_error) framework_error framework_derived internal
      (codes "id-1") (codes "no disk") (codes "no memory") refl framework_derives
      (inr (inr (inl refl))) (omega arith)

code_only :
    derive (of_enum (variant (codes "A") (key_value (codes "code") (str (codes "X")) ∷ []) ∷ []))
    ≡ inr (missing_attribute (codes "A"))
unfolding derive
code_only = refl

status_99 :
    derive (of_enum (variant (codes "A") (with_status (codes "X") 99 []) ∷ []))
    ≡ inr (invalid_status (codes "A") 99)
unfolding derive
status_99 = refl

status_65536 :
    derive (of_enum (variant (codes "A") (with_status (codes "X") 65536 []) ∷ []))
    ≡ inr status_too_large
unfolding derive
status_65536 = refl
