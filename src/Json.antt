-- ===== src/Json.antt =====
-- `serde_json::Value` as the source reads it: an object is its entries in order, a number is its
-- literal. `get`, `insert` and `as_str` are those of `Value` and of `serde_json::Map`.
use rusty_gasket.Common.{◌≡◌, refl, Bool, Option, none, some, arith, if◌then◌else◌}
use rusty_gasket.Common.Text.{Text, text_eq, text_eq_iff}

mutual
  pub data Json : Type 0 where
    null : Json
    boolean : Bool → Json
    number string : Text → Json
    array : Items → Json
    object : Fields → Json

  pub data Items : Type 0 where
    nil : Items
    cons : Json → Items → Items

  pub data Fields : Type 0 where
    end : Fields
    entry : Text → Json → Fields → Fields

unfoldable pub get : Text → Fields → Option Json
get k end = none
get k (entry j v fields) = if text_eq j k then some v else get k fields

-- An entry keeps its place when its value is replaced.
unfoldable pub insert : Text → Json → Fields → Fields
insert k v end = entry k v end
insert k v (entry j w fields) =
    if text_eq j k then entry j v fields else entry j w (insert k v fields)

-- `Value::get`: `none` for a value that is no object.
abbrev pub member : Text → Json → Option Json
member k (object fields) = get k fields
member k _ = none

abbrev pub as_str : Json → Option Text
as_str (string s) = some s
as_str _ = none

-- `claims.get(k).and_then(|claim| claim.as_str())`
abbrev pub get_str : Text → Json → Option Text
get_str k j = elim (member k j) [ none ↦ none | some v ↦ as_str v ]

-- A key with its value stands at most once, as in a map.
abbrev mutual
  pub IsMap : Json → Type 0
  IsMap (object fields) = AreMaps fields
  IsMap _ = Unit

  pub AreMaps : Fields → Type 0
  AreMaps end = Unit
  AreMaps (entry k v fields) = (get k fields ≡ none) × IsMap v × AreMaps fields

pub get-insert :
    (k j : Text) (v : Json) (fields : Fields)
    → get j (insert k v fields) ≡ (if text_eq k j then some v else get j fields)
unfolding get insert
get-insert k j v end = refl
get-insert k j v (entry i w fields) =
    ground (arith, text_eq_iff k j, text_eq_iff i k, text_eq_iff i j, get-insert k j v fields)
