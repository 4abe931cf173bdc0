-- ===== src/Selectors/Validation.antt =====
-- What validation asks of a selector.
use a2a_events_python.Common.{
  ◌≡◌, ◌≢◌, true, some, List, [], ◌∷◌, Text, Dict, All, Bool-cases, inl, inr,
}
use a2a_events_python.Json.{Json}
use a2a_events_python.Errors.{ok}
use a2a_events_python.Models.{FieldFilterSelector, field_filter, Topic, selector_type}
use a2a_events_python.Selectors.{check_fields, check_filter, member, validate_selector}

in_bounds :
    (fields : List Text) (conditions : Dict (List Json))
    → check_fields fields conditions ≡ ok tt
    → All (λ c. member fields c.0 ≡ true) conditions
unfolding check_fields
in_bounds fields [] h = tt
in_bounds fields ((path, declared) ∷ conditions) h = elim (Bool-cases (member fields path)) [
  | inl listed ↦ (listed, in_bounds fields conditions (rw listed at h))
  | inr other ↦ absurd (let h' = rw other at h in cc)
]

filter_checked :
    (fields : List Text) (conditions : Dict (List Json))
    → check_filter (some fields) conditions ≡ ok tt
    → (conditions ≢ []) × All (λ c. member fields c.0 ≡ true) conditions
unfolding check_filter
filter_checked fields [] h = absurd (cc)
filter_checked fields (c ∷ cs) h = ((λ e. cc), in_bounds fields (c ∷ cs) h)

-- On a topic that lists its filterable fields, a field filter is accepted only if the topic
-- supports field filters, the filter has a condition, and each of its paths is listed.
pub validate_selector_bounds :
    (sel : FieldFilterSelector) (topic : Topic) (fields : List Text)
    → topic.filterable_fields ≡ some fields
    → validate_selector (some (field_filter sel)) topic ≡ ok tt
    → (member topic.selector_types (selector_type (field_filter sel)) ≡ true)
      × (sel.conditions ≢ [])
      × All (λ c. member fields c.0 ≡ true) sel.conditions
unfolding validate_selector
validate_selector_bounds sel topic fields listed h =
    elim (Bool-cases (member topic.selector_types (selector_type (field_filter sel)))) [
      | inl supported ↦
          let (filled, bounded) =
            filter_checked fields sel.conditions (rw listed at (rw supported at h)) in
          (supported, filled, bounded)
      | inr other ↦ absurd (let h' = rw other at h in cc)
    ]
