-- ===== src/Examples/Parts.antt =====
-- The guards, queues and tables around the publisher.
use a2a_events_python.Common.{
  ◌≢◌, drop, ltb, ◌+◌, ◌-◌, ◌*◌, ◌≤◌, ◌≡◌, ◌↔◌, refl, ◌⊎◌, arith, true, false, none, some, [], ◌∷◌,
  All, text, text_eq, any_by,
}
use a2a_events_python.Errors.{ok}
use a2a_events_python.Json.{obj, end, str, field, Fields, get_field}
use a2a_events_python.RetryQueue.{RetryItem, RetryQueue, claimed, claim_due, due_items}
use a2a_events_python.RetryQueue.Claims.{claim_due-exclusive}
use a2a_events_python.Limits.{TokenBucket, one_token}
use a2a_events_python.Limits.Bucket.{take_all, take_all-bound}
use a2a_events_python.Pagination.{TokenCodec, encode_page_token, paginate, token_of}
use a2a_events_python.Pagination.Pages.{has_key, paginate-encode_page_token}
use a2a_events_python.Selectors.{
  matches, member as member_of, validate_selector, check_filter, check_fields,
}
use a2a_events_python.Selectors.Matching.{Holds, matches_iff}
use a2a_events_python.Selectors.Validation.{validate_selector_bounds}
use a2a_events_python.Models.{FieldFilterSelector, field_filter, Topic}
use a2a_events_python.Ssrf.{check_endpoint, screen_host, screen_ip, screen_all, ends_with}
use a2a_events_python.Ssrf.Screening.{NotLoopback, HostPasses, check_endpoint-Screened}
use a2a_events_python.Auth.{AllowlistAuthorizer, AuthIdentity}
use a2a_events_python.Examples.{orders_topic, orders, policy, public_address, shop_urls, sub_id}

abbrev item : RetryItem
item = record {
  retry_id = text "rty_1";
  subscription_id = sub_id;
  topic = orders;
  cursor = [];
  event_id = text "evt_1";
  attempt = 1;
  next_retry_at = 5;
  last_error = none;
}

abbrev queue : RetryQueue
queue = (text "rty_1", item) ∷ []

claim_due-exclusive_example :
    All
      (λ i. claimed i.retry_id (claim_due 10 1 30 queue).0 ≡ false)
      (due_items 20 1 (claim_due 10 1 30 queue).1)
claim_due-exclusive_example = claim_due-exclusive 10 1 30 queue 20 1 (omega arith)

abbrev bucket : TokenBucket
bucket = record { tokens = 1_000_000; last = 0 }

take_all-bound_example :
    (take_all 1 2 (1 ∷ 2 ∷ []) bucket).0 * one_token + (take_all 1 2 (1 ∷ 2 ∷ []) bucket).1.tokens
    ≤ 1_000_000 + (2 - 0) * 1
take_all-bound_example =
    take_all-bound 1 2 2 (1 ∷ 2 ∷ []) bucket (omega arith, (omega arith, omega arith))

passes_screen : screen_ip public_address policy ≡ ok tt
unfolding screen_ip
passes_screen = refl

shop_screened : screen_host shop_urls policy (text "shop") ≡ ok tt
unfolding screen_host screen_all screen_ip
shop_screened = refl

shop_accepted : check_endpoint shop_urls policy (text "https://shop") ≡ ok tt
unfolding check_endpoint screen_host screen_all screen_ip text_eq ends_with
shop_accepted = refl

check_endpoint-Screened_example :
    ((text "https" ≡ text "http") ⊎ (text "https" ≡ text "https"))
    × ((true ≡ false) ⊎ (text "https" ≡ text "https"))
    × (¬ text "shop" ≡ [])
    × ((any_by (λ h. text_eq h (text "shop")) [] ≡ true)
        ⊎ (((policy.block_loopback ≡ false) ⊎ NotLoopback shop_urls policy (text "shop"))
            × HostPasses shop_urls policy (text "shop")))
check_endpoint-Screened_example =
    check_endpoint-Screened shop_urls policy (text "https://shop") shop_accepted

abbrev table : AllowlistAuthorizer
table = record { grants = (text "alice", orders ∷ []) ∷ []; public_topics = text "news" ∷ [] }

abbrev alice : AuthIdentity
alice = record { subject = text "alice" }

abbrev codec : TokenCodec
codec = record { dump = λ k. 116 ∷ k; load = λ t. some (str (drop 1 t)) }

none_before : has_key (λ t. t) (text "b") (text "a" ∷ []) ≡ false
unfolding text_eq
none_before = refl

paginate-encode_page_token_example :
    paginate
      (λ t. t)
      codec
      (text "a" ∷ text "b" ∷ text "c" ∷ text "d" ∷ [])
      (some (encode_page_token codec (text "b")))
      1
    ≡ ok (text "c" ∷ [], token_of (λ t. t) codec (ltb 1 2) (some (text "c")))
paginate-encode_page_token_example =
    paginate-encode_page_token (λ t. t) codec (text "b") (text "a" ∷ []) (text "c" ∷ text "d" ∷ [])
      1 (λ h. cc) refl none_before

abbrev red_orders : FieldFilterSelector
red_orders = record { conditions = (text "data.color", str (text "red") ∷ []) ∷ [] }

abbrev red_event : Fields
red_event = field (text "data") (obj (field (text "color") (str (text "red")) end)) end

matches_iff_example :
    (matches (λ s. s) (some (field_filter red_orders)) red_event none ≡ ok true)
    ↔ All (Holds red_event) red_orders.conditions
matches_iff_example = matches_iff (λ s. s) red_orders red_event none

abbrev filtered_topic : Topic
filtered_topic = record orders_topic {
  selector_types = text "field_filter" ∷ [];
  filterable_fields = some (text "data.color" ∷ []);
}

accepted_filter : validate_selector (some (field_filter red_orders)) filtered_topic ≡ ok tt
unfolding validate_selector check_filter check_fields text_eq
accepted_filter = refl

validate_selector_bounds_example :
    (member_of filtered_topic.selector_types (text "field_filter") ≡ true)
    × (red_orders.conditions ≢ [])
    × All (λ c. member_of (text "data.color" ∷ []) c.0 ≡ true) red_orders.conditions
validate_selector_bounds_example =
    validate_selector_bounds red_orders filtered_topic (text "data.color" ∷ []) refl accepted_filter

no_code : get_field (text "code") end ≡ none
unfolding get_field
no_code = refl
