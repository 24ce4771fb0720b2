-- ===== src/Plugin/Ordering/Names.antt =====
-- `name_to_idx`: a name is found exactly at the index of the plugin that bears it.
use Prim.Native.String.{String}
use text.Mathlib.Text.{◌==◌ as str_eq}
use text.Mathlib.TextEquality.{eq_iff}
use rusty_gasket.Common.{
  ℕ, zero, suc, ◌+◌, ◌<◌, ◌≡◌, refl, ◌⊎◌, inl, inr, List, [], ◌∷◌, none, some, arith, length,
  get_elem?, Bool-cases,
}
use rusty_gasket.Plugin.Ordering.{Declared, Names, find_name, ok, index_names}

-- The plugin at index `j` is `p`, among plugins numbered from `i` on.
pub record IsAt (plugins : List Declared) (i : ℕ) (name : String) (j : ℕ) : Type 0 where
  pub offset : ℕ
  pub plugin : Declared
  pub at : get_elem? plugins offset ≡ some plugin
  pub index : j ≡ i + offset
  pub named : plugin.name ≡ name

IsAt-cons :
    (p : Declared) (plugins : List Declared) (i : ℕ) (name : String) (j : ℕ)
    → IsAt plugins (suc i) name j
    → IsAt (p ∷ plugins) i name j
IsAt-cons p plugins i name j h = record {
  offset = suc h.offset;
  plugin = h.plugin;
  at = h.at;
  index = omega (arith, h.index);
  named = h.named;
}

module _ (m : Names) where
  index_names_step :
      (i : ℕ) (p : Declared) (plugins : List Declared) (acc : Names)
      → index_names i (p ∷ plugins) acc ≡ ok m
      → (find_name p.name acc ≡ none) × (index_names (suc i) plugins ((p.name, i) ∷ acc) ≡ ok m)
  unfolding index_names
  index_names_step i p plugins acc h = ground arith

  -- What was indexed before stays.
  index_names-keeps :
      (i : ℕ) (plugins : List Declared) (acc : Names) (name : String) (j : ℕ)
      → index_names i plugins acc ≡ ok m
      → find_name name acc ≡ some j
      → find_name name m ≡ some j
  unfolding index_names
  index_names-keeps i [] acc name j h e = ground arith
  index_names-keeps i (p ∷ plugins) acc name j h e =
      let (fresh, next) = index_names_step i p plugins acc h in
      index_names-keeps (suc i) plugins ((p.name, i) ∷ acc) name j next
        (ground (arith, eq_iff p.name name))

  index_names-finds_from :
      (i : ℕ) (plugins : List Declared) (acc : Names) (d : ℕ) (p : Declared)
      → index_names i plugins acc ≡ ok m
      → get_elem? plugins d ≡ some p
      → find_name p.name m ≡ some (i + d)
  index_names-finds_from i [] acc d p h e = absurd (ground arith)
  index_names-finds_from i (q ∷ plugins) acc zero p h e =
      let (fresh, next) = index_names_step i q plugins acc h in
      let same : i + 0 ≡ i = omega arith in
      rw same (
        index_names-keeps (suc i) plugins ((q.name, i) ∷ acc) p.name i next
          (ground (arith, eq_iff q.name p.name)))
  index_names-finds_from i (q ∷ plugins) acc (suc d) p h e =
      let (fresh, next) = index_names_step i q plugins acc h in
      let same : i + suc d ≡ suc i + d = omega arith in
      rw same (index_names-finds_from (suc i) plugins ((q.name, i) ∷ acc) d p next e)

  index_names-only_from :
      (i : ℕ) (plugins : List Declared) (acc : Names) (name : String) (j : ℕ)
      → index_names i plugins acc ≡ ok m
      → find_name name m ≡ some j
      → (find_name name acc ≡ some j) ⊎ IsAt plugins i name j
  unfolding index_names
  index_names-only_from i [] acc name j h e = inl (ground arith)
  index_names-only_from i (p ∷ plugins) acc name j h e =
      let (fresh, next) = index_names_step i p plugins acc h in
      elim (index_names-only_from (suc i) plugins ((p.name, i) ∷ acc) name j next e) [
        | inl early ↦ elim (Bool-cases (str_eq p.name name)) [
          | inl here ↦ inr (record {
            offset = 0;
            plugin = p;
            at = refl;
            index = ground arith;
            named = (eq_iff _ _).0 here;
          })
          | inr other ↦ inl (ground arith)
        ]
        | inr later ↦ inr (IsAt-cons p plugins i name j later)
      ]

pub index_names-finds :
    (plugins : List Declared) (m : Names) (d : ℕ) (p : Declared)
    → index_names 0 plugins [] ≡ ok m
    → get_elem? plugins d ≡ some p
    → find_name p.name m ≡ some d
index_names-finds plugins m d p h e =
    let same : 0 + d ≡ d = omega arith in rw same at (index_names-finds_from m 0 plugins [] d p h e)

pub index_names-only :
    (plugins : List Declared) (m : Names) (name : String) (j : ℕ)
    → index_names 0 plugins [] ≡ ok m
    → find_name name m ≡ some j
    → IsAt plugins 0 name j
index_names-only plugins m name j h e = elim (index_names-only_from m 0 plugins [] name j h e) [
  | inl early ↦ absurd (ground arith)
  | inr at ↦ at
]

pub get_elem?-lt-length {ℓ} :
    {A : Type ℓ} (xs : List A) (i : ℕ) (x : A) → get_elem? xs i ≡ some x → i < length xs
get_elem?-lt-length [] i x h = absurd (ground arith)
get_elem?-lt-length (y ∷ xs) zero x h = omega arith
get_elem?-lt-length (y ∷ xs) (suc i) x h = omega (arith, get_elem?-lt-length xs i x h)
