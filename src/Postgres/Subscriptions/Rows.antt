-- ===== src/Postgres/Subscriptions/Rows.antt =====
-- The rows of the Postgres subscription store: lookups, loads, and their order in time.
use a2a_events_python.Common.{
  ℕ, ◌≤◌, ◌≡◌, refl, sym, ◌∙◌, ap, true, false, Option, none, some, List, [], ◌∷◌, ◌++◌, map, arith,
  any_by, All, Bool-cases, inl, inr, Text, text_eq, text_eq_iff, Dict,
}
use a2a_events_python.Json.{truthy}
use a2a_events_python.Errors.{ok, Result-cases}
use a2a_events_python.Models.{Subscription, Selector, ResolvedDelivery}
use a2a_events_python.Postgres.Subscriptions.{
  Outside, IsSound, SubscriptionRow, AttemptRow, Tables, find_row, has_row, update_rows,
  selector_of, selector_json, row_to_sub, new_row, refreshed, marked,
}

pub has_row-found :
    (id : Text) (db : Tables) (row : SubscriptionRow)
    → find_row id db.subscriptions ≡ some row
    → has_row id db ≡ true
has_row-found id db row h = go db.subscriptions h
  where
    go :
        (rs : List SubscriptionRow)
        → find_row id rs ≡ some row
        → any_by (λ r. text_eq r.subscription_id id) rs ≡ true
    go [] h = absurd (cc)
    go (r ∷ rs) h = elim (Bool-cases (text_eq r.subscription_id id)) [
      | inl same ↦ rw same
      | inr other ↦ rw other (go rs (ground (arith, other, h)))
    ]

pub has_row-absent :
    (id : Text) (db : Tables) → find_row id db.subscriptions ≡ none → has_row id db ≡ false
has_row-absent id db h = go db.subscriptions h
  where
    go :
        (rs : List SubscriptionRow)
        → find_row id rs ≡ none
        → any_by (λ r. text_eq r.subscription_id id) rs ≡ false
    go [] h = refl
    go (r ∷ rs) h = elim (Bool-cases (text_eq r.subscription_id id)) [
      | inl same ↦ absurd (ground (arith, same, h))
      | inr other ↦ rw other (go rs (ground (arith, other, h)))
    ]

module _ (id : Text) (f : SubscriptionRow → SubscriptionRow)
    (keeps : (r : SubscriptionRow) → (f r).subscription_id ≡ r.subscription_id) where
  pub update_rows-found :
      (rs : List SubscriptionRow) (row : SubscriptionRow)
      → find_row id rs ≡ some row
      → find_row id (update_rows id f rs) ≡ some (f row)
  update_rows-found [] row h = absurd (cc)
  update_rows-found (r ∷ rs) row h = elim (Bool-cases (text_eq r.subscription_id id)) [
    | inl same ↦
        let e : r ≡ row = ground (arith, same, h) in
        let same' : text_eq (f r).subscription_id id ≡ true = rw (keeps r) same in
        rw (same, same') (ap {A = SubscriptionRow} (λ x. some (f x)) e)
    | inr other ↦ rw other (rw other (update_rows-found rs row (ground (arith, other, h))))
  ]

  pub update_rows-other :
      (t : Text) (rs : List SubscriptionRow)
      → text_eq id t ≡ false
      → find_row t (update_rows id f rs) ≡ find_row t rs
  update_rows-other t [] h = refl
  update_rows-other t (r ∷ rs) h = elim (Bool-cases (text_eq r.subscription_id id)) [
    | inl same ↦
        let e : text_eq r.subscription_id t ≡ false =
          rw ((text_eq_iff r.subscription_id id).0 same) h in
        let e' : text_eq (f r).subscription_id t ≡ false = rw (keeps r) e in
        rw (same, e', e, update_rows-other t rs h)
    | inr other ↦ rw (other, update_rows-other t rs h)
  ]

pub find_row-append_other :
    (t : Text) (rs : List SubscriptionRow) (row : SubscriptionRow)
    → text_eq row.subscription_id t ≡ false
    → find_row t (rs ++ row ∷ []) ≡ find_row t rs
find_row-append_other t [] row h = rw h
find_row-append_other t (r ∷ rs) row h = rw (find_row-append_other t rs row h)

pub find_row-append_self :
    (rs : List SubscriptionRow) (row : SubscriptionRow)
    → find_row row.subscription_id rs ≡ none
    → find_row row.subscription_id (rs ++ row ∷ []) ≡ some row
find_row-append_self [] row h = ground (arith, text_eq_iff row.subscription_id row.subscription_id)
find_row-append_self (r ∷ rs) row h =
    elim (Bool-cases (text_eq r.subscription_id row.subscription_id)) [
      | inl same ↦ absurd (ground (arith, same, h))
      | inr other ↦ rw other (find_row-append_self rs row (ground (arith, other, h)))
    ]

abbrev built : SubscriptionRow → Option Selector → ResolvedDelivery → Subscription
built row selector delivery = record {
  subscription_id = row.subscription_id;
  status = row.status;
  publisher_card_url = row.publisher_card_url;
  subscriber_card_url = row.subscriber_card_url;
  topics = row.topics;
  selector = selector;
  delivery = delivery;
  created_at = row.created_at;
  lease_until = row.lease_until;
  cursors = row.cursors;
  metadata = row.metadata;
}

row_to_sub-built :
    (out : Outside) (row : SubscriptionRow) (selector : Option Selector)
    (delivery : ResolvedDelivery)
    → selector_of out row.selector ≡ ok selector
    → out.load_delivery row.delivery ≡ ok delivery
    → row_to_sub out row ≡ ok (built row selector delivery)
unfolding row_to_sub
row_to_sub-built out row selector delivery first second = rw (row_to_sub, first, second)

selector_of-json :
    (out : Outside) (selector : Option Selector)
    → IsSound out
    → selector_of out (selector_json out selector) ≡ ok selector
unfolding selector_json truthy
selector_of-json out none sound = refl
selector_of-json out (some s) sound = rw (sound.not_empty s, sound.selectors s)

-- A subscription that is dumped into a row is loaded from it.
pub row_to_sub-new_row :
    (out : Outside) (sub : Subscription) (high_water : Dict ℕ)
    → IsSound out
    → row_to_sub out (new_row out sub high_water) ≡ ok sub
unfolding new_row
row_to_sub-new_row out sub high_water sound =
    row_to_sub-built out (new_row out sub high_water) sub.selector sub.delivery
      (selector_of-json out sub.selector sound) (sound.deliveries sub.delivery)

-- The fields that an update writes are loaded as they are written.
pub row_to_sub-refreshed :
    (out : Outside) (sub old : Subscription) (row : SubscriptionRow)
    → row_to_sub out row ≡ ok old
    → row_to_sub out (refreshed sub row)
      ≡ ok
          (record old { status = sub.status; lease_until = sub.lease_until; cursors = sub.cursors })
unfolding row_to_sub
row_to_sub-refreshed out sub old row h = elim (Result-cases (selector_of out row.selector)) [
  | inr (x, fails) ↦ absurd (let h' = rw fails at h in cc)
  | inl (selector, first) ↦ elim (Result-cases (out.load_delivery row.delivery)) [
    | inr (x, fails) ↦ absurd (let h' = rw (first, fails) at h in cc)
    | inl (delivery, second) ↦
        let same : ok (built row selector delivery) ≡ ok old =
          sym (row_to_sub-built out row selector delivery first second) ∙ h in
        let e : built row selector delivery ≡ old = cc in
        row_to_sub-built out (refreshed sub row) selector delivery first second
        ∙ ap {A = Subscription}
            (λ o. ok (record o {
              status = sub.status;
              lease_until = sub.lease_until;
              cursors = sub.cursors;
            }))
            e
  ]
]

pub row_to_sub-marked :
    (out : Outside) (topic : Text) (next : ℕ) (row : SubscriptionRow)
    → row_to_sub out (marked topic next row) ≡ row_to_sub out row
unfolding row_to_sub
row_to_sub-marked out topic next row = refl

-- The times do not fall.
abbrev pub Rising : ℕ → List AttemptRow → Type 0
Rising lo [] = Unit
Rising lo (r ∷ rs) = (lo ≤ r.created_at) × Rising r.created_at rs

pub Rising-snoc :
    (lo : ℕ) (rs : List AttemptRow) (r : AttemptRow)
    → lo ≤ r.created_at
    → All (λ x. x.created_at ≤ r.created_at) rs
    → Rising lo rs
    → Rising lo (rs ++ r ∷ [])
Rising-snoc lo [] r below h rising = (below, tt)
Rising-snoc lo (x ∷ rs) r below (h, hs) (first, rising) =
    (first, Rising-snoc x.created_at rs r h hs rising)

pub attempts-fresh :
    (id : Text) (rs : List AttemptRow)
    → any_by (λ r. text_eq r.attempt.delivery_attempt_id id) rs
      ≡ any_by (λ b. text_eq b.delivery_attempt_id id) (map (λ r. r.attempt) rs)
attempts-fresh id [] = refl
attempts-fresh id (r ∷ rs) = rw (attempts-fresh id rs)

pub map-append :
    (rs : List AttemptRow) (r : AttemptRow)
    → map (λ x. x.attempt) (rs ++ r ∷ []) ≡ map (λ x. x.attempt) rs ++ r.attempt ∷ []
map-append [] r = refl
map-append (x ∷ rs) r = rw (map-append rs r)
