-- ===== src/Auth/Identity.antt =====
-- rusty-gasket/src/auth/identity.rs: `Identity`. The typed map `attributes` is left out; nothing of
-- the framework reads it. The set of scopes is a list without repetition.
use rusty_gasket.Common.{Bool, false, List, [], ◌∷◌, Option, none, if◌then◌else◌, any, all}
use rusty_gasket.Common.Text.{Text, text_eq}

pub record Identity : Type 0 where
  pub subject : Text
  pub auth_method : Text
  pub display_name : Option Text
  pub scopes : List Text
  pub service_account : Bool
  pub privileged : Bool

-- `HashSet::contains` and `insert`
abbrev pub contains : List Text → Text → Bool
contains scopes s = any (text_eq s) scopes

abbrev pub insert_scope : List Text → Text → List Text
insert_scope scopes s = if contains scopes s then scopes else s ∷ scopes

abbrev pub extend : List Text → List Text → List Text
extend scopes [] = scopes
extend scopes (s ∷ more) = extend (insert_scope scopes s) more

abbrev pub new_identity : Text → Text → Identity
new_identity subject auth_method = record {
  subject = subject;
  auth_method = auth_method;
  display_name = none;
  scopes = [];
  service_account = false;
  privileged = false;
}

-- The methods of `IdentityBuilder`.
abbrev pub with_scope : Identity → Text → Identity
with_scope i s = record i { scopes = insert_scope i.scopes s }

abbrev pub with_scopes : Identity → List Text → Identity
with_scopes i more = record i { scopes = extend i.scopes more }

abbrev pub has_scope : Identity → Text → Bool
has_scope i scope = contains i.scopes scope

abbrev pub has_all_scopes : Identity → List Text → Bool
has_all_scopes i = all (contains i.scopes)

abbrev pub has_any_scope : Identity → List Text → Bool
has_any_scope i = any (contains i.scopes)
