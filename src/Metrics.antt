-- ===== src/Metrics.antt =====
-- observability.py: trace ids and `InMemoryMetrics`. A label is a name and a value; a call's
-- labels come in the order that sorting gives them. Observations are numbers, in microseconds
-- where they are times.
use a2a_events_python.Common.{
  ℕ, ◌+◌, Bool, true, false, ◌&&◌, Option, none, some, List, [], ◌∷◌, ◌++◌, if◌then◌else◌, Text,
  text, text_eq, ◌==◌,
}

-- s.removeprefix(prefix)
unfoldable pub remove_prefix : Text → Text → Option Text
remove_prefix [] s = some s
remove_prefix (c ∷ cs) [] = none
remove_prefix (c ∷ cs) (d ∷ ds) = if c == d then remove_prefix cs ds else none

unfoldable pub trace_id_for : Text → Text
unfolding remove_prefix
trace_id_for event_id =
    text "tr_" ++ (elim (remove_prefix (text "evt_") event_id) [ none ↦ event_id | some s ↦ s ])

abbrev pub Labels : Type 0
Labels = List (Text × Text)

unfoldable pub labels_eq : Labels → Labels → Bool
labels_eq [] [] = true
labels_eq [] (_ ∷ _) = false
labels_eq (_ ∷ _) [] = false
labels_eq ((k, v) ∷ ls) ((k', v') ∷ ls') = text_eq k k' && (text_eq v v' && labels_eq ls ls')

abbrev pub Series : Type 0
Series = Text × Labels

abbrev same_series : Series → Series → Bool
same_series a b = text_eq a.0 b.0 && labels_eq a.1 b.1

pub record Metrics : Type 0 where
  pub counters : List (Series × ℕ)
  pub observations : List (Series × List ℕ)

-- counters[key] += value, of a `defaultdict(int)`
unfoldable pub add_to : Series → ℕ → List (Series × ℕ) → List (Series × ℕ)
add_to key value [] = (key, value) ∷ []
add_to key value ((k, n) ∷ rest) =
    if same_series k key then (k, n + value) ∷ rest else (k, n) ∷ add_to key value rest

unfoldable pub append_to : Series → ℕ → List (Series × List ℕ) → List (Series × List ℕ)
append_to key value [] = (key, value ∷ []) ∷ []
append_to key value ((k, vs) ∷ rest) =
    if same_series k key then (k, vs ++ value ∷ []) ∷ rest else (k, vs) ∷ append_to key value rest

unfoldable pub incr : Text → ℕ → Labels → Metrics → Metrics
unfolding add_to
incr name value labels m = record m { counters = add_to (name, labels) value m.counters }

unfoldable pub observe : Text → ℕ → Labels → Metrics → Metrics
unfolding append_to
observe name value labels m = record m {
  observations = append_to (name, labels) value m.observations;
}

unfoldable pub counter : Series → List (Series × ℕ) → ℕ
counter key [] = 0
counter key ((k, n) ∷ rest) = if same_series k key then n else counter key rest

unfoldable pub get_counter : Text → Labels → Metrics → ℕ
unfolding counter
get_counter name labels m = counter (name, labels) m.counters

unfoldable pub total_of : Text → List (Series × ℕ) → ℕ
total_of name [] = 0
total_of name ((k, n) ∷ rest) = (if text_eq k.0 name then n else 0) + total_of name rest

unfoldable pub total : Text → Metrics → ℕ
unfolding total_of
total name m = total_of name m.counters

unfoldable pub observations_of : Text → List (Series × List ℕ) → List ℕ
observations_of name [] = []
observations_of name ((k, vs) ∷ rest) =
    (if text_eq k.0 name then vs else []) ++ observations_of name rest

unfoldable pub observations_for : Text → Metrics → List ℕ
unfolding observations_of
observations_for name m = observations_of name m.observations
