-- ===== src/Config/StringSet.antt =====
-- rusty-gasket/src/config.rs: `StringSet`, as a list without repetition.
use rusty_gasket.Common.{
  ◌≡◌, refl, Bool, ◌&&◌, ◌||◌, not, List, [], ◌∷◌, Option, none, some, arith, if◌then◌else◌, ◌⊎◌,
  inl, inr, any, ◌∙◌, Bool-cases,
}
use rusty_gasket.Common.Text.{Text, codes, text_eq, text_eq_iff}
use rusty_gasket.Common.Chars.{split, trim, is_empty}
use rusty_gasket.Json.{Json, Items, nil, cons, array, as_str, member}

abbrev pub StringSet : Type 0
StringSet = List Text

abbrev pub contains : StringSet → Text → Bool
contains values v = any (text_eq v) values

abbrev pub insert : Text → StringSet → StringSet
insert v values = if contains values v then values else v ∷ values

abbrev pub insert_all : List Text → StringSet → StringSet
insert_all [] values = values
insert_all (v ∷ vs) values = insert_all vs (insert v values)

abbrev pub from_values : List Text → StringSet
from_values vs = insert_all vs []

-- The loop over the pieces, trimmed and not empty.
unfoldable pub extend_pieces : List Text → StringSet → StringSet
extend_pieces [] values = values
extend_pieces (piece ∷ pieces) values =
    let value = trim piece in
    extend_pieces pieces (if not (is_empty value) then insert value values else values)

unfoldable pub extend_csv : Text → StringSet → StringSet
unfolding extend_pieces
extend_csv csv values = extend_pieces (split 44 csv) values

-- The variable, when it is set.
abbrev pub with_env_csv : Option Text → StringSet → StringSet
with_env_csv none values = values
with_env_csv (some raw) values = extend_csv raw values

-- The field or the parser's reason; the path is left out.
pub data StringSetError : Type 0 where
  io parse : Text → StringSetError
  invalid_field : Text → Text → StringSetError

-- What `read_to_string` gives.
pub data FileContents : Type 0 where
  contents : Text → FileContents
  not_found : FileContents
  io_error : Text → FileContents

unfoldable pub load_items : Text → Items → StringSet → StringSet ⊎ StringSetError
load_items field nil values = inl values
load_items field (cons item items) values = elim (as_str item) [
  | none ↦ inr (invalid_field field (codes "all sequence entries must be strings"))
  | some v ↦ load_items field items (insert v values)
]

abbrev pub as_array : Json → Option Items
as_array (array items) = some items
as_array _ = none

unfoldable pub load_field : Text → Json → StringSet ⊎ StringSetError
unfolding load_items
load_field field document = elim (member field document) [
  | none ↦ inl []
  | some value ↦ elim (as_array value) [
    | none ↦ inr (invalid_field field (codes "expected a YAML sequence of strings"))
    | some items ↦ load_items field items []
  ]
]

-- `from_str` is that of `serde_yaml_ng`, with the text of its error.
unfoldable pub load_yaml_field_optional :
    (Text → Json ⊎ Text) → FileContents → Text → StringSet ⊎ StringSetError
unfolding load_field
load_yaml_field_optional from_str not_found field = inl []
load_yaml_field_optional from_str (io_error e) field = inr (io e)
load_yaml_field_optional from_str (contents s) field = elim (from_str s) [
  | inr reason ↦ inr (parse reason)
  | inl document ↦ load_field field document
]

-- The values of a comma-separated text.
abbrev pub is_listed : Text → List Text → Bool
is_listed v pieces = any (λ p. not (is_empty (trim p)) && text_eq v (trim p)) pieces

contains-insert :
    (v w : Text) (values : StringSet)
    → contains (insert w values) v ≡ (text_eq v w || contains values v)
contains-insert v w values = elim (Bool-cases (contains values w)) [
  | inl there ↦ rw there (elim (Bool-cases (text_eq v w)) [
    | inl same ↦ rw (same, (text_eq_iff v w).0 same) there
    | inr other ↦ rw other refl
  ])
  | inr absent ↦ rw absent refl
]

extend_pieces-contains :
    (v : Text) (pieces : List Text) (values : StringSet)
    → contains (extend_pieces pieces values) v ≡ (contains values v || is_listed v pieces)
unfolding extend_pieces
extend_pieces-contains v [] values = ground arith
extend_pieces-contains v (piece ∷ pieces) values = elim (Bool-cases (is_empty (trim piece))) [
  | inl blank ↦ rw blank (extend_pieces-contains v pieces values)
  | inr filled ↦ rw filled (
      extend_pieces-contains v pieces (insert (trim piece) values)
      ∙ rw (contains-insert v (trim piece) values) (ground arith))
]

-- Extending a set by a comma-separated text adds exactly its pieces, trimmed, less the empty ones.
pub extend_csv-contains :
    (v csv : Text) (values : StringSet)
    → contains (extend_csv csv values) v ≡ (contains values v || is_listed v (split 44 csv))
unfolding extend_csv
extend_csv-contains v csv values = extend_pieces-contains v (split 44 csv) values
