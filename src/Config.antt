-- ===== src/Config.antt =====
-- rusty-gasket/src/config.rs: the environments, the resolution of a configuration and the deep merge
-- of its sections. What `toml`, `serde_yaml_ng` and `serde_json` read or write of other types is not
-- modelled: a definition is the record that they give.
pub mod Merge
pub mod Resolve
pub mod StringSet
use rusty_gasket.Common.{
  Option, none, some, List, [], ◌∷◌, ◌++◌, if◌then◌else◌, ◌||◌, ◌≡◌, refl, ◌⊎◌, inl, inr, ℕ, Bool,
  true, false,
}
use mathlib.Core.Option
use rusty_gasket.Common.Text.{Text, codes, text_eq}
use rusty_gasket.Json.{Json, Fields, object, end, entry, get, insert}

pub data Environment : Type 0 where
  local dev_private development test staging production : Environment

-- `Display`
abbrev pub environment_name : Environment → Text
environment_name local = codes "local"
environment_name dev_private = codes "dev-private"
environment_name development = codes "development"
environment_name test = codes "test"
environment_name staging = codes "staging"
environment_name production = codes "production"

-- The names and aliases that the attributes give.
unfoldable pub parse_environment : Text → Option Environment
parse_environment s =
    if text_eq s (codes "local")
    then some local
    else if text_eq s (codes "dev-private") || text_eq s (codes "devprivate")
    then some dev_private
    else if text_eq s (codes "development") || text_eq s (codes "dev")
    then some development
    else if text_eq s (codes "test")
    then some test
    else if text_eq s (codes "staging")
    then some staging
    else if text_eq s (codes "production") || text_eq s (codes "prod")
    then some production
    else none

pub record ServerConfig : Type 0 where
  pub host : Text
  pub port : ℕ

-- The variables `HOST` and `PORT`; `parse` is `str::parse` into a `u16`.
abbrev pub default_host : Option Text → Text
default_host none = codes "0.0.0.0"
default_host (some host) = host

abbrev pub default_port : (Text → Option ℕ) → Option Text → ℕ
default_port parse none = 8443
default_port parse (some p) = elim (parse p) [ none ↦ 8443 | some n ↦ n ]

pub record AppConfigDefinition : Type 0 where
  pub name : Text
  pub env : Option Text
  pub server : ServerConfig
  pub environments : Fields
  pub extra : Fields

pub record AppConfig : Type 0 where
  pub name : Text
  pub env : Environment
  pub server : ServerConfig
  pub sections : Fields

-- The overlay's entries, one after the other: a value whose key the base has is merged into the
-- base's, any other is added.
unfoldable mutual
  pub deep_merge_json : Json → Json → Json
  deep_merge_json (object base) (object overlay) = object (merge_entries base base overlay)
  deep_merge_json _ overlay = overlay

  pub merge_entries : Fields → Fields → Fields → Fields
  merge_entries base merged end = merged
  merge_entries base merged (entry k v overlay) =
      merge_entries base
        (insert k (elim (get k base) [ none ↦ v | some b ↦ deep_merge_json b v ]) merged) overlay

-- The value for an overlay's key, from what the base has there.
abbrev pub merge_value : Option Json → Json → Json
merge_value none v = v
merge_value (some b) v = deep_merge_json b v

-- The loop over the overrides of the environment.
unfoldable pub apply_overrides : Fields → Fields → Fields
apply_overrides sections end = sections
apply_overrides sections (entry k v overrides) =
    apply_overrides (insert k (merge_value (get k sections) v) sections) overrides

-- The raw name before the canonical one.
abbrev pub overrides_of : Fields → Text → Environment → Option Json
overrides_of environments env_str env = elim (get env_str environments) [
  | some v ↦ some v
  | none ↦ get (environment_name env) environments
]

unfoldable pub override_sections : Fields → Option Json → Fields
unfolding apply_overrides
override_sections sections (some (object overrides)) = apply_overrides sections overrides
override_sections sections _ = sections

-- `GASKET_ENV`, the definition's own choice, or `local`.
abbrev pub chosen_environment : Option Text → Option Text → Text
chosen_environment (some v) own = v
chosen_environment none (some v) = v
chosen_environment none none = codes "local"

abbrev pub unknown_environment : Text → Text
unknown_environment env_str =
    codes "Unknown environment '"
    ++ (env_str
        ++ codes
            "'. Valid values: local, dev-private, development, dev, test, staging, production, prod")

unfoldable pub resolve : Option Text → AppConfigDefinition → AppConfig ⊎ Text
unfolding parse_environment override_sections
resolve gasket_env d =
    let env_str = chosen_environment gasket_env d.env in
    elim (parse_environment env_str) [
      | none ↦ inr (unknown_environment env_str)
      | some env ↦ inl (record {
        name = d.name;
        env = env;
        server = d.server;
        sections = override_sections d.extra (overrides_of d.environments env_str env);
      })
    ]

-- `serde_json::from_value` into the type that the caller asks for, with the text of its error.
module _ {T : Type 0} (from_value : Json → T ⊎ Text) where
  unfoldable pub section : AppConfig → Text → T ⊎ Text
  section config key = elim (get key config.sections) [
    | none ↦ inr (codes "Config section '" ++ (key ++ codes "' not found"))
    | some v ↦ from_value v
  ]

  unfoldable pub section_or_default : T → AppConfig → Text → T ⊎ Text
  section_or_default default config key = elim (get key config.sections) [
    | none ↦ inl default
    | some v ↦ elim (from_value v) [
      | inl t ↦ inl t
      | inr e ↦ inr (codes "Config section '" ++ (key ++ (codes "' is invalid: " ++ e)))
    ]
  ]

abbrev pub has_section : AppConfig → Text → Bool
has_section config key = elim (get key config.sections) [ none ↦ false | some v ↦ true ]

abbrev pub set_section : AppConfig → Text → Json → AppConfig
set_section config key v = record config { sections = insert key v config.sections }
