-- ===== src/Examples/Rows.antt =====
-- The Postgres subscription store, with selectors and deliveries dumped as JSON lists.
use mathlib.Core.List.{reverse}
use mathlib.Core.List.Permᴰ
use a2a_events_python.Common.{
  ◌≡◌, refl, arith, text, text_eq, put, true, false, Option, none, some, List, [], ◌∷◌, Text, get,
  Dict,
}
use a2a_events_python.Json.{
  Json, null, bool, str, arr, obj, Items, nil, cons, Fields, field, end, to_list, truthy,
}
use a2a_events_python.Errors.{Result, ok, raise, value_error}
use a2a_events_python.Models.{
  DeliveryMode, webhook, a2a_message, ResolvedDelivery, Selector, field_filter, keyword_search,
  MatchMode, all, any,
}
use a2a_events_python.Cursor.{text_lt}
use a2a_events_python.SubscriptionStore
use a2a_events_python.SubscriptionStore.{SubscriptionStore, DeliveryAttempt, dead_letter, init}
use a2a_events_python.Postgres.Sorting.{Apart}
use a2a_events_python.Postgres.Subscriptions
use a2a_events_python.Postgres.Subscriptions.{Outside, IsSound, Tables}
use a2a_events_python.Postgres.Subscriptions.Represents.{
  Represents, Write, adding, attempting, on_tables, in_memory,
}
use a2a_events_python.Postgres.Subscriptions.Writes.{on_tables-in_memory}
use a2a_events_python.Postgres.Subscriptions.Reads.{reads_agree}
use a2a_events_python.Examples.{sub, sub_id, orders}

abbrev items_of : List Json → Items
items_of [] = nil
items_of (v ∷ vs) = cons v (items_of vs)

to_list-items_of : (vs : List Json) → to_list (items_of vs) ≡ vs
to_list-items_of [] = refl
to_list-items_of (v ∷ vs) = rw (to_list-items_of vs)

abbrev texts : List Text → Items
texts [] = nil
texts (t ∷ ts) = cons (str t) (texts ts)

abbrev load_texts : Items → List Text
load_texts nil = []
load_texts (cons (str t) ts) = t ∷ load_texts ts
load_texts (cons _ ts) = load_texts ts

load_texts-texts : (ts : List Text) → load_texts (texts ts) ≡ ts
load_texts-texts [] = refl
load_texts-texts (t ∷ ts) = rw (load_texts-texts ts)

abbrev dump_conditions : Dict (List Json) → Fields
dump_conditions [] = end
dump_conditions ((k, vs) ∷ d) = field k (arr (items_of vs)) (dump_conditions d)

abbrev load_conditions : Fields → Dict (List Json)
load_conditions end = []
load_conditions (field k (arr vs) fs) = (k, to_list vs) ∷ load_conditions fs
load_conditions (field k _ fs) = load_conditions fs

load-dump_conditions : (d : Dict (List Json)) → load_conditions (dump_conditions d) ≡ d
load-dump_conditions [] = refl
load-dump_conditions ((k, vs) ∷ d) = rw (to_list-items_of vs, load-dump_conditions d)

abbrev dump_match : MatchMode → Json
dump_match all = bool true
dump_match any = bool false

abbrev load_match : Json → MatchMode
load_match (bool true) = all
load_match _ = any

load-dump_match : (m : MatchMode) → load_match (dump_match m) ≡ m
load-dump_match all = refl
load-dump_match any = refl

abbrev dump_fields : Option (List Text) → Json
dump_fields none = null
dump_fields (some ts) = arr (texts ts)

abbrev load_fields : Json → Option (List Text)
load_fields (arr ts) = some (load_texts ts)
load_fields _ = none

load-dump_fields : (f : Option (List Text)) → load_fields (dump_fields f) ≡ f
load-dump_fields none = refl
load-dump_fields (some ts) = rw (load_texts-texts ts)

abbrev dump_selector : Selector → Json
dump_selector (field_filter f) = arr (cons (obj (dump_conditions f.conditions)) nil)
dump_selector (keyword_search k) =
    arr
      (cons (arr (texts k.keywords)) (cons (dump_match k.match) (cons (dump_fields k.fields) nil)))

abbrev load_selector : Json → Result Selector
load_selector (arr (cons (obj fs) nil)) =
    ok (field_filter (record { conditions = load_conditions fs }))
load_selector (arr (cons (arr ks) (cons m (cons fs nil)))) = ok (
    keyword_search
      (record { keywords = load_texts ks; match = load_match m; fields = load_fields fs }))
load_selector _ = raise value_error

selectors-load : (s : Selector) → load_selector (dump_selector s) ≡ ok s
selectors-load (field_filter f) = rw (load-dump_conditions f.conditions)
selectors-load (keyword_search k) =
    rw (load_texts-texts k.keywords, load-dump_match k.match, load-dump_fields k.fields)

selectors-truthy : (s : Selector) → truthy (dump_selector s) ≡ true
unfolding truthy
selectors-truthy (field_filter f) = refl
selectors-truthy (keyword_search k) = refl

abbrev dump_text : Option Text → Json
dump_text none = null
dump_text (some t) = str t

abbrev load_text : Json → Option Text
load_text (str t) = some t
load_text _ = none

load-dump_text : (t : Option Text) → load_text (dump_text t) ≡ t
load-dump_text none = refl
load-dump_text (some t) = refl

abbrev dump_mode : DeliveryMode → Json
dump_mode webhook = bool true
dump_mode a2a_message = bool false

abbrev load_mode : Json → DeliveryMode
load_mode (bool true) = webhook
load_mode _ = a2a_message

load-dump_mode : (m : DeliveryMode) → load_mode (dump_mode m) ≡ m
load-dump_mode webhook = refl
load-dump_mode a2a_message = refl

abbrev load_delivery : Json → Result ResolvedDelivery
load_delivery (arr (cons m (cons url (cons endpoint nil)))) = ok (record {
  mode = load_mode m;
  resolved_url = load_text url;
  resolved_endpoint = load_text endpoint;
})
load_delivery _ = raise value_error

abbrev out : Outside
out = record {
  dump_selector = dump_selector;
  load_selector = load_selector;
  dump_delivery = λ d. arr (
      cons (dump_mode d.mode)
        (cons (dump_text d.resolved_url) (cons (dump_text d.resolved_endpoint) nil)));
  load_delivery = load_delivery;
  before = text_lt;
}

out-IsSound : IsSound out
out-IsSound = record {
  selectors = selectors-load;
  not_empty = selectors-truthy;
  deliveries = λ d.
      rw (load-dump_mode d.mode, load-dump_text d.resolved_url, load-dump_text d.resolved_endpoint);
}

abbrev no_rows : Tables
no_rows = record { subscriptions = []; attempts = []; acks = [] }

no_rows-Represents : Represents out no_rows init
unfolding get init
no_rows-Represents = record {
  stored = λ id s found. absurd (cc);
  absent = λ id missing. (refl, refl);
  attempts = refl;
  rising = tt;
  acks = refl;
}

not_there : get sub_id init.subs ≡ none
unfolding get init
not_there = refl

abbrev add_sub : Write
add_sub = adding sub ((orders, 0) ∷ [])

on_tables-in_memory_example :
    ((on_tables out add_sub no_rows).0 ≡ ok tt)
    × Represents out (on_tables out add_sub no_rows).1 (in_memory add_sub init)
on_tables-in_memory_example =
    on_tables-in_memory out add_sub no_rows init out-IsSound no_rows-Represents not_there

abbrev attempt_of : Text → DeliveryAttempt
attempt_of id = record {
  delivery_attempt_id = id;
  subscription_id = sub_id;
  event_id = text "evt_1";
  cursor = [];
  attempt = 1;
  status = dead_letter;
  last_status_code = some 500;
  last_error = none;
}

-- a subscription with two attempts
abbrev writes : List Write
writes =
    add_sub
    ∷ attempting (attempt_of (text "att_1")) 5
    ∷ attempting (attempt_of (text "att_2")) 6
    ∷ []

abbrev run_tables : List Write → Tables → Tables
run_tables [] db = db
run_tables (w ∷ ws) db = run_tables ws (on_tables out w db).1

abbrev run_memory : List Write → SubscriptionStore → SubscriptionStore
run_memory [] s = s
run_memory (w ∷ ws) s = run_memory ws (in_memory w s)

abbrev attempted : Tables
attempted = run_tables writes no_rows

abbrev kept : SubscriptionStore
kept = run_memory writes init

attempted-Represents : Represents out attempted kept
unfolding Subscriptions.add Subscriptions.record_attempt SubscriptionStore.add
    SubscriptionStore.record_attempt get put text_eq init
attempted-Represents =
    let one =
      on_tables-in_memory out add_sub no_rows init out-IsSound no_rows-Represents not_there in
    let two =
      on_tables-in_memory out (attempting (attempt_of (text "att_1")) 5) _ _ out-IsSound one.1
        (refl, (_, refl), refl, tt) in
    let three =
      on_tables-in_memory out (attempting (attempt_of (text "att_2")) 6) _ _ out-IsSound two.1
        (refl, (_, refl), refl, (omega arith, tt)) in
    three.1

attempted-Apart : Apart (λ r. r.created_at) attempted.attempts
unfolding Subscriptions.add Subscriptions.record_attempt text_eq
attempted-Apart = (((λ e. absurd (omega arith)), tt), (tt, tt))

reads_agree_example :
    (Subscriptions.get out sub_id attempted ≡ ok (SubscriptionStore.get_sub sub_id kept))
    × (Subscriptions.high_water sub_id attempted ≡ SubscriptionStore.high_water sub_id kept)
    × (Subscriptions.delivery_attempts reverse sub_id attempted
        ≡ SubscriptionStore.delivery_attempts sub_id kept)
    × (Subscriptions.dead_letters reverse attempted ≡ SubscriptionStore.dead_letters kept)
reads_agree_example =
    reads_agree out reverse attempted kept sub_id attempted-Represents Permᴰ.reverse attempted-Apart
