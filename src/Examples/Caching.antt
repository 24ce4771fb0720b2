-- ===== src/Examples/Caching.antt =====
-- A concrete cache for rusty-gasket/src/cache.rs: texts by key, in an association list without expiry.
use rusty_gasket.Common.{
  ◌≡◌, ◌+◌, ◌≤◌, refl, sym, List, [], ◌∷◌, Option, none, some, if◌then◌else◌, inl, inr, arith,
}
use rusty_gasket.Common.Text.{Text, codes, text_eq, text_eq_iff}
use rusty_gasket.Cache.{CacheKey, new_key, namespaced_key}
use rusty_gasket.Cache.Objects.{done, ObjectCache, get, set_for, get_or_load_without_single_flight}
use rusty_gasket.Cache.Objects.Loading.{IsSound}
use rusty_gasket.Cache.Amounts.{
  invalid_amount, u64_max, parse_duration_text, parse_memory_budget, serialize_ttl,
}
use rusty_gasket.Cache.Amounts.RoundTrip.{parse_duration_text-serialize_ttl}
use rusty_gasket.Cache.Flight.{
  checking, leading, returned, abandoned, cloned, waiting, Flight, lead, follow, enlist, finish,
  cancel, Reaches, here, after, start, leaders, abandonments, entries, Reaches-leaders,
}

abbrev Entries : Type 0
Entries = List (Text × Text)

abbrev lookup : Entries → Text → Option Text
lookup [] k = none
lookup (e ∷ es) k = if text_eq k e.0 then some e.1 else lookup es k

abbrev texts : ObjectCache Entries Text
texts = record {
  backend = record {
    get = λ es k. done (lookup es k);
    set = λ es k bytes ttl. ((k, bytes) ∷ es, done tt);
    delete = λ es k. (es, done tt);
  };
  namespace = codes "app";
  default_ttl = 60;
  to_vec = some;
  from_slice = some;
}

texts-IsSound : IsSound texts
texts-IsSound = record {
  stored = λ es k bytes ttl kept. let same = (text_eq_iff k k).1 refl in rw same refl;
  inverse = λ value bytes encoded. sym encoded;
}

abbrev key : CacheKey
key = new_key (codes "users")

stored_once : (set_for texts [] key 60 (codes "alice")).1 ≡ done tt
unfolding set_for namespaced_key new_key
stored_once = refl

nothing_yet : get texts [] key ≡ done none
unfolding get namespaced_key new_key
nothing_yet = refl

loaded_once :
    (get_or_load_without_single_flight texts [] key 60 (done (codes "alice"))).result
    ≡ done (codes "alice")
unfolding get_or_load_without_single_flight set_for namespaced_key new_key
loaded_once = refl

abbrev one_leads : Flight
one_leads = record { in_flight = some 0; next = 1; calls = leading ∷ checking ∷ [] }

one_leads_reached : Reaches (start 2) one_leads
one_leads_reached = after here (lead [] (checking ∷ []))

-- The caller of the leader goes away while the loader runs.
abbrev leader_gone : Flight
leader_gone = record { in_flight = some 0; next = 1; calls = abandoned ∷ checking ∷ [] }

leader_gone_reached : Reaches (start 2) leader_gone
leader_gone_reached = after one_leads_reached (cancel leading [] (checking ∷ []))

-- Then the second call waits for ever: for the `Notify` of the entry that stays.
abbrev waits_for_ever : Flight
waits_for_ever = record { in_flight = some 0; next = 1; calls = abandoned ∷ waiting 0 ∷ [] }

waits_for_ever_reached : Reaches leader_gone waits_for_ever
waits_for_ever_reached =
    after (after here (follow 0 (abandoned ∷ []) [])) (enlist 0 (abandoned ∷ []) [])

Reaches-leaders_example :
    (leaders waits_for_ever.calls + abandonments waits_for_ever.calls ≡ entries (some 0))
    × (leaders waits_for_ever.calls + abandonments leader_gone.calls ≤ 1)
Reaches-leaders_example =
    Reaches-leaders 2 leader_gone waits_for_ever leader_gone_reached waits_for_ever_reached

-- The second call finds the `Notify` of the first, the first finishes, and then the second waits for a
-- `Notify` that nobody holds any more.
lost_wakeup :
    Reaches (start 2) (record { in_flight = none; next = 1; calls = returned ∷ waiting 0 ∷ [] })
lost_wakeup =
    after
      (after (after one_leads_reached (follow 0 (leading ∷ []) [])) (finish 0 [] (cloned 0 ∷ [])))
      (enlist 0 (returned ∷ []) [])

parse_duration_text-serialize_ttl_example : parse_duration_text (serialize_ttl 90) ≡ inl 90
parse_duration_text-serialize_ttl_example = parse_duration_text-serialize_ttl 90 (omega arith)

five_minutes : parse_duration_text (codes " 5 Min ") ≡ inl 300
unfolding parse_duration_text
five_minutes = refl

binary_budget : parse_memory_budget (codes "128 MiB") ≡ inl 134217728
unfolding parse_memory_budget
binary_budget = refl

huge_budget : parse_memory_budget (codes "18446744073709551615 kb") ≡ inl u64_max
unfolding parse_memory_budget
huge_budget = refl

too_long_number : parse_duration_text (codes "18446744073709551616") ≡ inr invalid_amount
unfolding parse_duration_text
too_long_number = refl
