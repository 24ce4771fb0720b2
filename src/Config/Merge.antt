-- ===== src/Config/Merge.antt =====
-- rusty-gasket/src/config.rs: what a deep merge holds at each path, and that the resolution of a
-- configuration is one.
use rusty_gasket.Common.{
  ◌≡◌, refl, Option, none, some, List, [], ◌∷◌, ◌⊎◌, inl, inr, arith, Bool-cases, Option-cases,
  same_of_some, ◌∙◌, ap, sym,
}
use rusty_gasket.Common.Text.{Text, text_eq, text_eq_iff}
use rusty_gasket.Json.{
  Json, Fields, null, boolean, number, string, array, object, end, entry, get, insert, member,
  IsMap, AreMaps, get-insert,
}
use rusty_gasket.Config.{deep_merge_json, merge_entries, merge_value, apply_overrides}

-- The value of a key, from those that the base and the overlay have there.
abbrev pub merged_value : Option Json → Option Json → Option Json
merged_value b none = b
merged_value b (some v) = some (merge_value b v)

abbrev over : Option Json → Option Json → Option Json → Option Json
over b m none = m
over b m (some v) = some (merge_value b v)

over_same : (b v : Option Json) → over b b v ≡ merged_value b v
over_same b none = refl
over_same b (some v) = refl

merge_entries-entry :
    (base merged : Fields) (k : Text) (v : Json) (overlay : Fields)
    → merge_entries base merged (entry k v overlay)
      ≡ merge_entries base (insert k (merge_value (get k base) v) merged) overlay
unfolding merge_entries
merge_entries-entry base merged k v overlay = elim (Option-cases (get k base)) [
  | inl e ↦ rw e refl
  | inr (b, e) ↦ rw e refl
]

get-merge_entries :
    (j : Text) (base merged overlay : Fields)
    → AreMaps overlay
    → get j (merge_entries base merged overlay) ≡ over (get j base) (get j merged) (get j overlay)
unfolding get
get-merge_entries j base merged end h = unfold merge_entries in refl
get-merge_entries j base merged (entry k v overlay) h =
    let step =
      ap (get j) (merge_entries-entry base merged k v overlay)
      ∙ get-merge_entries j base (insert k (merge_value (get k base) v) merged) overlay h.2
      ∙ ap (λ m. over (get j base) m (get j overlay))
          (get-insert k j (merge_value (get k base) v) merged) in
    elim (Bool-cases (text_eq k j)) [
      | inl same ↦
          let e : k ≡ j = (text_eq_iff k j).0 same in
          let absent : get j overlay ≡ none = rw (← e) h.0 in
          rw same ((rw (absent, same) at step) ∙ ap (λ x. some (merge_value (get x base) v)) e)
      | inr other ↦ rw other (rw other at step)
    ]

-- The same for the loop over the overrides, where each value is merged into the section at hand.
pub get-apply_overrides :
    (j : Text) (sections overrides : Fields)
    → AreMaps overrides
    → get j (apply_overrides sections overrides) ≡ merged_value (get j sections) (get j overrides)
unfolding get apply_overrides
get-apply_overrides j sections end h = refl
get-apply_overrides j sections (entry k v overrides) h =
    let inserted = get-insert k j (merge_value (get k sections) v) sections in
    let step =
      get-apply_overrides j (insert k (merge_value (get k sections) v) sections) overrides h.2
      ∙ ap (λ m. merged_value m (get j overrides)) inserted in
    elim (Bool-cases (text_eq k j)) [
      | inl same ↦
          let e : k ≡ j = (text_eq_iff k j).0 same in
          let absent : get j overrides ≡ none = rw (← e) h.0 in
          rw same ((rw (absent, same) at step) ∙ ap (λ x. some (merge_value (get x sections) v)) e)
      | inr other ↦ rw other (rw other at step)
    ]

member-deep_merge_json :
    (k : Text) (base overlay : Fields)
    → AreMaps overlay
    → member k (deep_merge_json (object base) (object overlay))
      ≡ merged_value (get k base) (get k overlay)
unfolding deep_merge_json
member-deep_merge_json k base overlay h =
    get-merge_entries k base base overlay h ∙ over_same (get k base) (get k overlay)

abbrev pub and_then : Option Json → (Json → Option Json) → Option Json
and_then none f = none
and_then (some v) f = f v

-- The value at a path of keys.
abbrev pub at : List Text → Json → Option Json
at [] j = some j
at (k ∷ path) j = and_then (member k j) (at path)

abbrev pub IsObject : Json → Type 0
IsObject (object fields) = Unit
IsObject _ = ⊥

-- The overlay has objects along the path up to a key that it does not have.
abbrev pub Leaves : List Text → Json → Type 0
Leaves [] overlay = ⊥
Leaves (k ∷ path) overlay =
    IsObject overlay
    × ((member k overlay ≡ none) ⊎ ((v : Json) × (member k overlay ≡ some v) × Leaves path v))

-- The member of a value that may be absent.
abbrev member_of : Option Json → Text → Option Json
member_of none k = none
member_of (some b) k = member k b

-- The value at a path below one that may be absent.
abbrev at_of : List Text → Option Json → Option Json
at_of path b = and_then b (at path)

at_of-member_of :
    (k : Text) (path : List Text) (b : Option Json)
    → at_of path (member_of b k) ≡ at_of (k ∷ path) b
at_of-member_of k path none = refl
at_of-member_of k path (some b) = refl

merged_value-none : (o : Option Json) → merged_value none o ≡ o
merged_value-none none = refl
merged_value-none (some v) = refl

deep_merge_json-leaf :
    (base overlay : Json) → ¬ IsObject overlay → deep_merge_json base overlay ≡ overlay
unfolding deep_merge_json
deep_merge_json-leaf (object b) (object o) n = absurd (n tt)
deep_merge_json-leaf _ overlay n = refl

merge_value-leaf :
    (b : Option Json) (overlay : Json) → ¬ IsObject overlay → merge_value b overlay ≡ overlay
merge_value-leaf none overlay n = refl
merge_value-leaf (some b) overlay n = deep_merge_json-leaf b overlay n

deep_merge_json-whole :
    (base : Json) (o : Fields) → ¬ IsObject base → deep_merge_json base (object o) ≡ object o
unfolding deep_merge_json
deep_merge_json-whole (object b) o n = absurd (n tt)
deep_merge_json-whole _ o n = refl

member_leaf : (k : Text) (j : Json) → ¬ IsObject j → member k j ≡ none
member_leaf k (object fields) n = absurd (n tt)
member_leaf k _ n = refl

object_cases : (j : Json) → ((fields : Fields) × (j ≡ object fields)) ⊎ (¬ IsObject j)
object_cases (object fields) = inl (fields, refl)
object_cases null = inr (λ h. h)
object_cases (boolean b) = inr (λ h. h)
object_cases (number n) = inr (λ h. h)
object_cases (string s) = inr (λ h. h)
object_cases (array items) = inr (λ h. h)

member-merge_value :
    (k : Text) (b : Option Json) (o : Fields)
    → AreMaps o
    → member k (merge_value b (object o)) ≡ merged_value (member_of b k) (get k o)
member-merge_value k none o h = sym (merged_value-none (get k o))
member-merge_value k (some b) o h = elim (object_cases b) [
  | inl (fields, e) ↦ rw e (member-deep_merge_json k fields o h)
  | inr leaf ↦
      rw (member_leaf k b leaf)
        (ap (member k) (deep_merge_json-whole b o leaf) ∙ sym (merged_value-none (get k o)))
]

pub IsMap-get :
    (k : Text) (fields : Fields) (v : Json) → AreMaps fields → get k fields ≡ some v → IsMap v
unfolding get
IsMap-get k end v h e = absurd (ground arith)
IsMap-get k (entry j w fields) v h e = elim (Bool-cases (text_eq j k)) [
  | inl same ↦ let found : some w ≡ some v = rw same at e in rw (← same_of_some found) h.1
  | inr other ↦ IsMap-get k fields v h.2 (rw other at e)
]

at_leaf : (k : Text) (path : List Text) (j : Json) → ¬ IsObject j → at (k ∷ path) j ≡ none
at_leaf k path j leaf = rw (member_leaf k j leaf) refl

-- A value of the overlay that is no object replaces what the base has there.
at-merge_value :
    (path : List Text) (b : Option Json) (overlay v : Json)
    → IsMap overlay
    → at path overlay ≡ some v
    → ¬ IsObject v
    → at path (merge_value b overlay) ≡ some v
at-merge_value [] b overlay v h e leaf =
    let same : overlay ≡ v = same_of_some e in
    ap some (merge_value-leaf b overlay (rw same leaf)) ∙ e
at-merge_value (k ∷ path) b overlay v h e leaf = elim (object_cases overlay) [
  | inr other ↦ let clash = rw (at_leaf k path overlay other) at e in absurd (ground arith)
  | inl (o, shape) ↦
      let maps : AreMaps o = rw shape at h in
      elim (Option-cases (get k o)) [
        | inl absent ↦ let clash = rw (shape, absent) at e in absurd (ground arith)
        | inr (w, found) ↦
            let below : at path w ≡ some v = rw (shape, found) at e in
            rw (shape, member-merge_value k b o maps, found)
              (at-merge_value path (member_of b k) w v (IsMap-get k o w maps found) below leaf)
      ]
]

-- Where the overlay leaves the path, the base keeps its value.
at-merge_value_left :
    (path : List Text) (b : Option Json) (overlay : Json)
    → IsMap overlay
    → Leaves path overlay
    → at path (merge_value b overlay) ≡ at_of path b
at-merge_value_left [] b overlay h away = absurd away
at-merge_value_left (k ∷ path) b overlay h away = elim (object_cases overlay) [
  | inr other ↦ absurd (other away.0)
  | inl (o, shape) ↦
      let maps : AreMaps o = rw shape at h in
      rw (shape, member-merge_value k b o maps)
        (elim away.1 [
          | inl absent ↦
              let here : get k o ≡ none = rw shape at absent in rw here (at_of-member_of k path b)
          | inr (w, found, rest) ↦
              let here : get k o ≡ some w = rw shape at found in
              rw here (
                at-merge_value_left path (member_of b k) w (IsMap-get k o w maps here) rest
                ∙ at_of-member_of k path b)
        ])
]

-- What a merge has at a path: the overlay's value, where it is one that is no object, and the base's, or
-- its absence, where the overlay leaves the path.
pub data Reads (path : List Text) (base overlay : Json) : Option Json → Type 0 where
  of_overlay :
      (v : Json) → at path overlay ≡ some v → ¬ IsObject v → Reads path base overlay (some v)
  of_base : Leaves path overlay → Reads path base overlay (at path base)

-- A deep merge of an overlay that holds each key once reads, at each path of keys: the overlay's value,
-- where it is one that is no object; the base's value or its absence, where the overlay leaves the path.
pub deep_merge_json-at :
    (path : List Text) (base overlay : Json) (expected : Option Json)
    → IsMap overlay
    → Reads path base overlay expected
    → at path (deep_merge_json base overlay) ≡ expected
deep_merge_json-at path base overlay _ h (of_overlay v e leaf) =
    at-merge_value path (some base) overlay v h e leaf
deep_merge_json-at path base overlay _ h (of_base away) =
    at-merge_value_left path (some base) overlay h away
