-- ===== src/Http/Problems.antt =====
-- rusty-gasket/src/error.rs: `ProblemDetails`, as the members that serde writes, and the text of an
-- error with its causes.
use rusty_gasket.Common.{ℕ, ◌≡◌, refl, ◌∙◌, false, List, [], ◌∷◌, ◌++◌, Option, none, some}
use rusty_gasket.Common.Text.{Text, codes, text_eq}
use rusty_gasket.Common.Digits.{decimal}
use rusty_gasket.Json.{Json, number, string, Fields, end, entry, object, get, insert, AreMaps}
use rusty_gasket.Http.{Headers}

pub record ProblemDetails : Type 0 where
  pub problem_type : Text
  pub title : Text
  pub status : ℕ
  pub detail : Option Text
  pub instance_uri : Option Text
  pub extensions : Fields

abbrev pub new_problem : ℕ → Text → Text → ProblemDetails
new_problem status problem_type title = record {
  problem_type = problem_type;
  title = title;
  status = status;
  detail = none;
  instance_uri = none;
  extensions = end;
}

abbrev pub with_detail : Text → ProblemDetails → ProblemDetails
with_detail detail problem = record problem { detail = some detail }

abbrev pub with_instance : Text → ProblemDetails → ProblemDetails
with_instance uri problem = record problem { instance_uri = some uri }

unfoldable pub with_extension : Text → Json → ProblemDetails → ProblemDetails
unfolding insert
with_extension name value problem = record problem {
  extensions = insert name value problem.extensions;
}

-- `skip_serializing_if = "Option::is_none"`
abbrev pub optional_entry : Text → Option Text → Fields → Fields
optional_entry name none fields = fields
optional_entry name (some s) fields = entry name (string s) fields

-- The members in the order of the fields, with those of the flattened map at the end.
unfoldable pub members : ProblemDetails → Fields
members p = entry (codes "type") (string p.problem_type) (
    entry (codes "title") (string p.title) (
      entry (codes "status") (number (decimal p.status)) (
        optional_entry (codes "detail") p.detail
          (optional_entry (codes "instance") p.instance_uri p.extensions))))

pub record ProblemResponse : Type 0 where
  pub status : ℕ
  pub headers : Headers
  pub body : Json

unfoldable pub problem_response : ℕ → ProblemDetails → ProblemResponse
unfolding members
problem_response status problem = record {
  status = status;
  headers = (codes "content-type", codes "application/problem+json") ∷ [];
  body = object (members problem);
}

abbrev pub push_causes : Text → List Text → Text
push_causes msg [] = msg
push_causes msg (cause ∷ causes) = push_causes (msg ++ codes " | caused by: " ++ cause) causes

-- The texts of the error and of its sources, outermost first.
abbrev pub full_error_chain : Text → List Text → Text
full_error_chain error causes = push_causes error causes

-- The texts of all causes stand in the chain, the last one at its end.
full_error_chain-append :
    (error : Text) (causes : List Text) (cause : Text)
    → full_error_chain error (causes ++ cause ∷ [])
      ≡ full_error_chain error causes ++ codes " | caused by: " ++ cause
full_error_chain-append error [] cause = refl
full_error_chain-append error (c ∷ causes) cause =
    full_error_chain-append (error ++ codes " | caused by: " ++ c) causes cause

get-optional_entry :
    (k name : Text) (o : Option Text) (fields : Fields)
    → text_eq name k ≡ false
    → get k (optional_entry name o fields) ≡ get k fields
unfolding get
get-optional_entry k name none fields apart = refl
get-optional_entry k name (some s) fields apart = rw apart refl

optional_entry-AreMaps :
    (name : Text) (o : Option Text) (fields : Fields)
    → get name fields ≡ none
    → AreMaps fields
    → AreMaps (optional_entry name o fields)
optional_entry-AreMaps name none fields free maps = maps
optional_entry-AreMaps name (some s) fields free maps = (free, tt, maps)

-- The names that the body itself uses.
abbrev AreFree : Fields → Type 0
AreFree extensions =
    (get (codes "type") extensions ≡ none)
    × (get (codes "title") extensions ≡ none)
    × (get (codes "status") extensions ≡ none)
    × (get (codes "detail") extensions ≡ none)
    × (get (codes "instance") extensions ≡ none)

-- What stands under the other names, after the first three members.
get-optional_entries :
    (p : ProblemDetails) (k : Text)
    → text_eq (codes "detail") k ≡ false
    → text_eq (codes "instance") k ≡ false
    → get k p.extensions ≡ none
    → get k (
        optional_entry
          (codes "detail")
          p.detail
          (optional_entry (codes "instance") p.instance_uri p.extensions))
      ≡ none
get-optional_entries p k no_detail no_uri free =
    get-optional_entry k (codes "detail") p.detail
      (optional_entry (codes "instance") p.instance_uri p.extensions) no_detail
    ∙ get-optional_entry k (codes "instance") p.instance_uri p.extensions no_uri
    ∙ free

-- When no extension has the name of a standard member, the body names each member once.
members-AreMaps :
    (p : ProblemDetails) → AreMaps p.extensions → AreFree p.extensions → AreMaps (members p)
unfolding members get
members-AreMaps p maps (t, title, status, detail, uri) = (
  get-optional_entries p (codes "type") refl refl t,
  tt,
  (
    get-optional_entries p (codes "title") refl refl title,
    tt,
    (
      get-optional_entries p (codes "status") refl refl status,
      tt,
      optional_entry-AreMaps (codes "detail") p.detail
          (optional_entry (codes "instance") p.instance_uri p.extensions)
          (get-optional_entry (codes "detail") (codes "instance") p.instance_uri p.extensions refl
            ∙ detail)
          (optional_entry-AreMaps (codes "instance") p.instance_uri p.extensions uri maps),
    ),
  ),
)
