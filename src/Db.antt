-- ===== src/Db.antt =====
-- rusty-gasket/src/db/config.rs: the database's configuration. `to_lowercase` and the parsers of
-- numbers are arguments; times in seconds.
pub mod Url
pub mod Transaction
use rusty_gasket.Common.{
  ℕ, zero, suc, ◌⊎◌, inl, inr, Bool, true, false, not, ◌&&◌, ◌||◌, [], ◌∷◌, ◌++◌, Option, none,
  some, ◌==◌, if◌then◌else◌, length, mem,
}
use rusty_gasket.Common.Text.{Text, codes, text_eq}
use rusty_gasket.Common.Chars.{lowercase, first_piece}
use rusty_gasket.Auth.Jwt.Tokens.{strip_prefix}

pub data DatabaseBackend : Type 0 where
  auto postgres mysql : DatabaseBackend

pub data ResolvedBackend : Type 0 where
  resolved_postgres resolved_mysql : ResolvedBackend

pub data ConfigError : Type 0 where
  missing_env_var unknown_url_scheme invalid_backend : Text → ConfigError

abbrev pub starts_with : Text → Text → Bool
starts_with prefix s = elim (strip_prefix prefix s) [ none ↦ false | some rest ↦ true ]

-- The text before and with the first `://`, and the text after it.
abbrev pub push_prefix : ℕ → Option (Text × Text) → Option (Text × Text)
push_prefix c none = none
push_prefix c (some (prefix, rest)) = some (c ∷ prefix, rest)

unfoldable pub split_scheme : Text → Option (Text × Text)
split_scheme [] = none
split_scheme (c ∷ s) =
    let later = split_scheme s in
    elim (strip_prefix (codes "://") (c ∷ s)) [
      | some rest ↦ some (codes "://", rest)
      | none ↦ push_prefix c later
    ]

-- `url.split("://").next()`
abbrev first_part : Text → Text
first_part [] = []
first_part (c ∷ s) = if starts_with (codes "://") (c ∷ s) then [] else c ∷ first_part s

unfoldable pub resolve : DatabaseBackend → Text → ResolvedBackend ⊎ ConfigError
resolve postgres url = inl resolved_postgres
resolve mysql url = inl resolved_mysql
resolve auto url =
    let lower = lowercase url in
    if starts_with (codes "postgres://") lower || starts_with (codes "postgresql://") lower
    then inl resolved_postgres
    else if starts_with (codes "mysql://") lower
    then inl resolved_mysql
    else inr (unknown_url_scheme (first_part url ++ codes "://..."))

abbrev pub drop : ℕ → Text → Text
drop zero s = s
drop (suc n) [] = []
drop (suc n) (c ∷ s) = drop n s

-- The user information ends at the first `@` before the first `/`.
abbrev pub redact_rest : Text → Text → Text → Text
redact_rest url prefix rest =
    let authority = first_piece 47 rest in
    if mem 64 authority
    then prefix ++ (codes "***" ++ drop (length (first_piece 64 authority)) rest)
    else url

unfoldable pub redact_url_userinfo : Text → Text
unfolding split_scheme
redact_url_userinfo url = elim (split_scheme url) [
  | none ↦ url
  | some (prefix, rest) ↦ redact_rest url prefix rest
]

pub record DatabaseConfig : Type 0 where
  pub url : Text
  pub backend : DatabaseBackend
  pub max_connections : ℕ
  pub min_connections : ℕ
  pub run_migrations : Bool
  pub acquire_timeout_secs : ℕ

abbrev pub default_config : DatabaseConfig
default_config = record {
  url = [];
  backend = auto;
  max_connections = 32;
  min_connections = 0;
  run_migrations = true;
  acquire_timeout_secs = 5;
}

-- `DB_BACKEND` in lower case.
abbrev pub parse_backend : Text → DatabaseBackend ⊎ ConfigError
parse_backend v =
    if text_eq v (codes "postgres") || text_eq v (codes "postgresql")
    then inl postgres
    else if text_eq v (codes "mysql")
    then inl mysql
    else if text_eq v (codes "auto")
    then inl auto
    else inr (invalid_backend v)

abbrev backend_from : (Text → Text) → Option Text → DatabaseBackend ⊎ ConfigError
backend_from to_lowercase none = inl auto
backend_from to_lowercase (some v) = parse_backend (to_lowercase v)

abbrev number_or : ℕ → (Text → Option ℕ) → Option Text → ℕ
number_or d parse none = d
number_or d parse (some v) = elim (parse v) [ none ↦ d | some n ↦ n ]

abbrev is_on : Option Text → Bool
is_on none = true
is_on (some v) = not (text_eq v (codes "false")) && not (text_eq v (codes "0"))

abbrev with_backend :
    (Text → Option ℕ)
    → (Text → Option ℕ)
    → (Text → Option Text)
    → Text
    → DatabaseBackend ⊎ ConfigError
    → DatabaseConfig ⊎ ConfigError
with_backend parse_u32 parse_u64 var url (inr e) = inr e
with_backend parse_u32 parse_u64 var url (inl backend) = inl (record {
  url = url;
  backend = backend;
  max_connections = number_or 32 parse_u32 (var (codes "DB_MAX_CONNECTIONS"));
  min_connections = number_or 0 parse_u32 (var (codes "DB_MIN_CONNECTIONS"));
  run_migrations = is_on (var (codes "DB_RUN_MIGRATIONS"));
  acquire_timeout_secs = number_or 5 parse_u64 (var (codes "DB_ACQUIRE_TIMEOUT_SECS"));
})

unfoldable pub from_env :
    (Text → Text)
    → (Text → Option ℕ)
    → (Text → Option ℕ)
    → (Text → Option Text)
    → DatabaseConfig ⊎ ConfigError
from_env to_lowercase parse_u32 parse_u64 var = elim (var (codes "DATABASE_URL")) [
  | none ↦ inr (missing_env_var (codes "DATABASE_URL"))
  | some url ↦
      with_backend parse_u32 parse_u64 var url
        (backend_from to_lowercase (var (codes "DB_BACKEND")))
]
