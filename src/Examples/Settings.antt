-- ===== src/Examples/Settings.antt =====
-- Concrete configurations for rusty-gasket/src/config.rs and rusty-gasket/src/db, and credentials for
-- rusty-gasket/src/auth/backends/basic_auth.rs.
use rusty_gasket.Common.{
  inr, ℕ, ◌≡◌, refl, ◌↔◌, inl, true, ◌||◌, [], ◌∷◌, Option, none, some, if◌then◌else◌,
}
use rusty_gasket.Common.Text.{Text, codes, text_eq, text_eq_iff}
use rusty_gasket.Common.Chars.{byte_len, split}
use rusty_gasket.Json.{Json, Fields, object, entry, end, string, get}
use rusty_gasket.Config.{AppConfigDefinition, AppConfig, production, deep_merge_json}
use rusty_gasket.Config.Merge.{at, of_base, deep_merge_json-at}
use rusty_gasket.Config.StringSet.{contains, extend_csv, is_listed, extend_csv-contains}
use rusty_gasket.Auth.Chain.{ok}
use rusty_gasket.Auth.Jwt.Tokens.{HeaderMap}
use rusty_gasket.Auth.Credentials.{
  BasicAuthBackend, new_basic_auth, basic_identity, authenticate_basic,
}
use rusty_gasket.Db.{redact_url_userinfo}
use rusty_gasket.Db.Transaction.{taking, new_request_transaction, handed_out, handed_out-once}

abbrev base : Fields
base =
    entry (codes "log")
      (object (
        entry (codes "level") (string (codes "debug"))
          (entry (codes "json") (string (codes "off")) end)))
      end

abbrev overrides : Fields
overrides = entry (codes "log") (object (entry (codes "level") (string (codes "info")) end)) end

-- The overlay has no `json`, so that the base's stays.
deep_merge_json-at_example :
    at (codes "log" ∷ codes "json" ∷ []) (deep_merge_json (object base) (object overrides))
    ≡ some (string (codes "off"))
unfolding get
deep_merge_json-at_example =
    deep_merge_json-at (codes "log" ∷ codes "json" ∷ []) (object base) (object overrides)
      (some (string (codes "off"))) (refl, (refl, tt, tt), tt)
      (of_base (tt, inr (_, refl, (tt, inl refl))))

abbrev definition : AppConfigDefinition
definition = record {
  name = codes "shop";
  env = some (codes "prod");
  server = record { host = codes "0.0.0.0"; port = 8443 };
  environments = entry (codes "production") (object overrides) end;
  extra = base;
}

abbrev resolved : AppConfig
resolved = record {
  name = codes "shop";
  env = production;
  server = record { host = codes "0.0.0.0"; port = 8443 };
  sections =
      entry (codes "log")
        (object (
          entry (codes "level") (string (codes "info"))
            (entry (codes "json") (string (codes "off")) end)))
        end;
}

extend_csv-contains_example :
    contains (extend_csv (codes "a, b,,") (codes "c" ∷ [])) (codes "b")
    ≡ (contains (codes "c" ∷ []) (codes "b") || is_listed (codes "b") (split 44 (codes "a, b,,")))
extend_csv-contains_example = extend_csv-contains (codes "b") (codes "a, b,,") (codes "c" ∷ [])

handed_out-once_example :
    handed_out {Tx = ℕ} (new_request_transaction 7) (taking ∷ taking ∷ []) ≡ 7 ∷ []
handed_out-once_example = handed_out-once 7 (taking ∷ taking ∷ [])

-- A password with an `@` of its own is shown from there on.
password_tail_shown :
    redact_url_userinfo (codes "mysql://me:p@ss@db/x") ≡ codes "mysql://***@ss@db/x"
unfolding redact_url_userinfo
password_tail_shown = refl

exact : (a b : Text) → byte_len a ≡ byte_len b → (text_eq a b ≡ true) ↔ (a ≡ b)
exact a b h = text_eq_iff a b

abbrev decode : Text → Option Text
decode t = if text_eq t (codes "bWU6czNjOnJldA==") then some (codes "me:s3c:ret") else none

abbrev basic : HeaderMap
basic name =
    if text_eq name (codes "authorization")
    then some (some (codes "basic bWU6czNjOnJldA=="))
    else none

abbrev me : BasicAuthBackend
me = new_basic_auth (codes "me") (codes "s3c:ret")

me_accepted : authenticate_basic decode text_eq me basic ≡ ok (some (basic_identity me))
unfolding authenticate_basic
me_accepted = refl
