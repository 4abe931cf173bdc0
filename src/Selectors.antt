-- ===== src/Selectors.antt =====
-- selectors.py: the normative matching of selectors against events. `str.lower` is the parameter
-- `lower`: its Unicode tables are not modelled. Where a generator stops early in Python, the rest
-- is not evaluated here either, so that its errors do not count.
pub mod Equality
pub mod Matching
pub mod Validation
use a2a_events_python.Common.{
  Bool, true, false, not, ◌&&◌, ◌||◌, Option, none, some, List, [], ◌∷◌, ◌++◌, ◌==◌, if◌then◌else◌,
  all_by, any_by, Text, text_eq, Dict,
}
use a2a_events_python.Json.{Json, bool, str, arr, obj, Fields, get_field, to_list, scalar_eq}
use a2a_events_python.Errors.{
  Result, ok, raise, protocol, invalid_selector, selector_not_supported, ◌>>=◌,
}
use a2a_events_python.Models.{
  Selector, field_filter, keyword_search, KeywordSearchSelector, MatchMode, all, any, Topic,
  selector_type,
}

abbrev pub is_scalar : Json → Bool
is_scalar (arr _) = false
is_scalar (obj _) = false
is_scalar _ = true

-- path.split(".")
unfoldable pub split_dots : Text → Text → List Text
split_dots segment [] = segment ∷ []
split_dots segment (c ∷ cs) =
    let next = split_dots [] cs in
    let more = split_dots (segment ++ c ∷ []) cs in if c == 46 then segment ∷ next else more

-- current[segment], where `current` is a dict that has it
abbrev pub child : Text → Json → Option Json
child segment (obj fs) = get_field segment fs
child segment _ = none

-- the loop of `resolve_path`; `none` is ABSENT
unfoldable pub walk : List Text → Json → Option Json
walk [] current = some current
walk (segment ∷ segments) current = elim (child segment current) [
  | none ↦ none
  | some next ↦ walk segments next
]

-- the tests after the loop
unfoldable pub checked : Json → Result (Option Json)
checked (obj fs) = raise (protocol invalid_selector)
checked (arr xs) =
    if all_by is_scalar (to_list xs) then ok (some (arr xs)) else raise (protocol invalid_selector)
checked value = ok (some value)

unfoldable pub resolve_path : Fields → Text → Result (Option Json)
unfolding split_dots walk checked
resolve_path root path = elim (walk (split_dots [] path) (obj root)) [
  | none ↦ ok none
  | some value ↦ checked value
]

abbrev is_bool : Json → Bool
is_bool (bool _) = true
is_bool _ = false

abbrev same_bool : Bool → Bool → Bool
same_bool true b = b
same_bool false b = not b

-- for a scalar `a`; a declared value may be anything
unfoldable pub typed_eq : Json → Json → Bool
typed_eq a b = if not (same_bool (is_bool a) (is_bool b)) then false else scalar_eq a b

unfoldable pub field_matches : Option Json → List Json → Bool
unfolding typed_eq
field_matches none declared = false
field_matches (some (arr xs)) declared =
    any_by (λ ev. any_by (λ dv. typed_eq ev dv) declared) (to_list xs)
field_matches (some value) declared = any_by (λ dv. typed_eq value dv) declared

unfoldable pub match_conditions : Dict (List Json) → Fields → Result Bool
unfolding resolve_path field_matches
match_conditions [] event = ok true
match_conditions ((path, declared) ∷ conditions) event =
    let rest = match_conditions conditions event in
    do value ← resolve_path event path; if field_matches value declared then rest else ok false

abbrev strings : List Json → List Text
strings [] = []
strings (str s ∷ xs) = s ∷ strings xs
strings (_ ∷ xs) = strings xs

abbrev text_of : Option Json → List Text
text_of (some (str s)) = s ∷ []
text_of (some (arr xs)) = strings (to_list xs)
text_of _ = []

unfoldable pub collect_text : Fields → List Text → Result (List Text)
unfolding resolve_path
collect_text event [] = ok []
collect_text event (path ∷ paths) =
    let rest = collect_text event paths in
    do value ← resolve_path event path; texts ← rest; ok (text_of value ++ texts)

-- separator.join(texts)
unfoldable pub join : Text → List Text → Text
join separator [] = []
join separator (t ∷ []) = t
join separator (t ∷ u ∷ ts) = t ++ (separator ++ join separator (u ∷ ts))

unfoldable pub starts_with : Text → Text → Bool
starts_with [] s = true
starts_with (c ∷ cs) [] = false
starts_with (c ∷ cs) (d ∷ ds) = c == d && starts_with cs ds

-- needle in haystack
unfoldable pub contains : Text → Text → Bool
unfolding starts_with
contains needle [] = starts_with needle []
contains needle (d ∷ ds) = starts_with needle (d ∷ ds) || contains needle ds

abbrev pub separator : Text
separator = 32 ∷ 10 ∷ 32 ∷ []

abbrev search_fields : Option (List Text) → List Text → List Text
search_fields (some fields) default = fields
search_fields none default = default

abbrev combine : MatchMode → (Text → Bool) → List Text → Bool
combine all hit keywords = all_by hit keywords
combine any hit keywords = any_by hit keywords

unfoldable pub match_keyword_search :
    (Text → Text) → KeywordSearchSelector → Fields → List Text → Result Bool
unfolding collect_text join contains
match_keyword_search lower sel event default_fields = do
  texts ← collect_text event (search_fields sel.fields default_fields)
  ok (combine sel.match (λ kw. contains (lower kw) (lower (join separator texts))) sel.keywords)

-- default_search_fields or []
abbrev or_empty : Option (List Text) → List Text
or_empty none = []
or_empty (some fields) = fields

unfoldable pub matches : (Text → Text) → Option Selector → Fields → Option (List Text) → Result Bool
unfolding match_conditions match_keyword_search
matches lower none event default = ok true
matches lower (some (field_filter sel)) event default = match_conditions sel.conditions event
matches lower (some (keyword_search sel)) event default =
    match_keyword_search lower sel event (or_empty default)

abbrev pub member : List Text → Text → Bool
member names name = any_by (λ n. text_eq n name) names

unfoldable pub check_fields : List Text → Dict (List Json) → Result (Unit {0})
check_fields filterable [] = ok tt
check_fields filterable ((path, _) ∷ conditions) =
    let rest = check_fields filterable conditions in
    if member filterable path then rest else raise (protocol selector_not_supported)

unfoldable pub check_filter : Option (List Text) → Dict (List Json) → Result (Unit {0})
unfolding check_fields
check_filter filterable [] = raise (protocol invalid_selector)
check_filter none (c ∷ cs) = ok tt
check_filter (some fields) (c ∷ cs) = check_fields fields (c ∷ cs)

abbrev check_keywords : List Text → Result (Unit {0})
check_keywords [] = raise (protocol invalid_selector)
check_keywords (k ∷ ks) = ok tt

abbrev check_body : Selector → Topic → Result (Unit {0})
check_body (field_filter sel) topic = check_filter topic.filterable_fields sel.conditions
check_body (keyword_search sel) topic = check_keywords sel.keywords

unfoldable pub validate_selector : Option Selector → Topic → Result (Unit {0})
unfolding check_filter
validate_selector none topic = ok tt
validate_selector (some sel) topic =
    if not (member topic.selector_types (selector_type sel))
    then raise (protocol selector_not_supported)
    else check_body sel topic
