-- ===== src/Plugin/Ordering/Tests.antt =====
-- The sort on small inputs, by evaluation. A plugin that names itself makes it panic.
use Prim.Native.String.{String}
use rusty_gasket.Common.{◌≡◌, refl, true, false, List, [], ◌∷◌}
use rusty_gasket.Plugin.Ordering.{PluginOrdering, Declared, ok, panicked, topological_sort}

abbrev default : PluginOrdering
default = record { before = []; after = []; first = false; last = false }

abbrev plain : String → Declared
plain name = record { name = name; ordering = default }

abbrev three : List Declared
three =
    record { name = "middle"; ordering = default }
    ∷ record { name = "last"; ordering = record default { last = true } }
    ∷ record { name = "first"; ordering = record default { first = true } }
    ∷ []

first_last_ordering : topological_sort three ≡ ok (2 ∷ 0 ∷ 1 ∷ [])
unfolding topological_sort
first_last_ordering = refl

before_after_ordering :
    topological_sort (
      record { name = "auth"; ordering = record default { after = "logging" ∷ [] } }
      ∷ plain "logging"
      ∷ [])
    ≡ ok (1 ∷ 0 ∷ [])
unfolding topological_sort
before_after_ordering = refl

self_reference :
    topological_sort (record { name = "a"; ordering = record default { before = "a" ∷ [] } } ∷ [])
    ≡ panicked
unfolding topological_sort
self_reference = refl
