-- ===== src/Postgres/Subscriptions/Reads.antt =====
-- Reads of the Postgres subscription store against those of the store in memory.
use mathlib.Core.List.Permᴰ
use a2a_events_python.Common.{
  ℕ, ◌≤◌, ◌≡◌, refl, sym, ◌∙◌, ap, Bool, List, [], ◌∷◌, map, arith, filter_by, Bool-cases,
  Option-cases, inl, inr, Text, text_eq, get,
}
use a2a_events_python.Errors.{ok}
use a2a_events_python.SubscriptionStore
use a2a_events_python.SubscriptionStore.{
  SubscriptionStore, DeliveryAttempt, DeadLetter, is_dead_letter, dead_letter_of,
}
use a2a_events_python.Postgres.{order_by, insert_row}
use a2a_events_python.Postgres.Sorting.{IsScan, Apart, Apart-filter, order_by-Apart}
use a2a_events_python.Postgres.Subscriptions
use a2a_events_python.Postgres.Subscriptions.{
  Outside, AttemptRow, Tables, find_row, row_to_sub, earlier,
}
use a2a_events_python.Postgres.Subscriptions.Rows.{Rising}
use a2a_events_python.Postgres.Subscriptions.Represents.{Represents}

Rising-filter :
    (lo : ℕ) (p : AttemptRow → Bool) (rs : List AttemptRow)
    → Rising lo rs
    → Rising lo (filter_by p rs)
Rising-filter lo p [] h = tt
Rising-filter lo p (r ∷ rs) (first, rest) = elim (Bool-cases (p r)) [
  | inl keep ↦ rw keep (first, Rising-filter r.created_at p rs rest)
  | inr skip ↦ rw skip (Rising-filter lo p rs (lower lo r.created_at rs first rest))
]
  where
    lower : (lo lo' : ℕ) (rs : List AttemptRow) → lo ≤ lo' → Rising lo' rs → Rising lo rs
    lower lo lo' [] k h = tt
    lower lo lo' (r ∷ rs) k (first, rest) = (omega arith, rest)

-- ORDER BY created_at leaves rows whose times do not fall as they are.
order_by-Rising : (lo : ℕ) (rs : List AttemptRow) → Rising lo rs → order_by earlier rs ≡ rs
order_by-Rising lo [] h = refl
order_by-Rising lo (r ∷ rs) (first, rest) =
    rw (order_by-Rising r.created_at rs rest) (insert-first r rs rest)
  where
    insert-first :
        (r : AttemptRow) (rs : List AttemptRow)
        → Rising r.created_at rs
        → insert_row earlier r rs ≡ r ∷ rs
    insert-first r [] h = refl
    insert-first r (x ∷ rs) (first, rest) = ground arith

filter_by-map :
    (p : DeliveryAttempt → Bool) (rs : List AttemptRow)
    → map (λ r. r.attempt) (filter_by (λ r. p r.attempt) rs) ≡ filter_by p (map (λ r. r.attempt) rs)
filter_by-map p [] = refl
filter_by-map p (r ∷ rs) = elim (Bool-cases (p r.attempt)) [
  | inl keep ↦ rw (keep, filter_by-map p rs)
  | inr skip ↦ rw (skip, filter_by-map p rs)
]

map-map :
    (f : DeliveryAttempt → DeadLetter) (rs : List AttemptRow)
    → map (λ r. f r.attempt) rs ≡ map f (map (λ r. r.attempt) rs)
map-map f [] = refl
map-map f (r ∷ rs) = rw (map-map f rs)

-- Rows of different times come in the order of their times, however they are scanned.
order_by-scan :
    (scan : List AttemptRow → List AttemptRow) (p : AttemptRow → Bool) (rs : List AttemptRow)
    → IsScan scan
    → Rising 0 rs
    → Apart (λ r. r.created_at) rs
    → order_by earlier (scan (filter_by p rs)) ≡ filter_by p rs
order_by-scan scan p rs permutes rising apart =
    sym
      (order_by-Apart (λ r. r.created_at) (Permᴰ.symm (permutes (filter_by p rs)))
        (Apart-filter (λ r. r.created_at) p rs apart)).0
    ∙ order_by-Rising 0 (filter_by p rs) (Rising-filter 0 p rs rising)

module _ (out : Outside) (db : Tables) (s : SubscriptionStore)
    (represents : Represents out db s) where
  ordered-same :
      (scan : List AttemptRow → List AttemptRow) (p : DeliveryAttempt → Bool)
      → IsScan scan
      → Apart (λ r. r.created_at) db.attempts
      → order_by earlier (scan (filter_by (λ r. p r.attempt) db.attempts))
        ≡ filter_by (λ r. p r.attempt) db.attempts
  ordered-same scan p permutes apart =
      order_by-scan scan _ db.attempts permutes represents.rising apart

  attempts-same :
      (p : DeliveryAttempt → Bool)
      → map (λ r. r.attempt) (filter_by (λ r. p r.attempt) db.attempts) ≡ filter_by p s.attempts
  attempts-same p = filter_by-map p db.attempts ∙ ap (filter_by p) represents.attempts

  get-same : (id : Text) → Subscriptions.get out id db ≡ ok (SubscriptionStore.get_sub id s)
  unfolding Subscriptions.get SubscriptionStore.get_sub
  get-same id = elim (Option-cases (get id s.subs)) [
    | inl missing ↦ rw (Subscriptions.get, missing, (represents.absent id missing).0)
    | inr (sub, there) ↦
        let (row, found, loads, marks) = represents.stored id sub there in
        rw (Subscriptions.get, there, found, loads)
  ]

  marks-same : (id : Text) → Subscriptions.high_water id db ≡ SubscriptionStore.high_water id s
  unfolding Subscriptions.high_water SubscriptionStore.high_water
  marks-same id = elim (Option-cases (get id s.subs)) [
    | inl missing ↦
        let (lost, unmarked) = represents.absent id missing in
        rw (Subscriptions.high_water, lost) (sym unmarked)
    | inr (sub, there) ↦
        let (row, found, loads, marks) = represents.stored id sub there in
        rw (Subscriptions.high_water, found) marks
  ]

-- On tables that represent the store in memory, what is stored under an id and its marks read as
-- they do in memory; and so do its delivery attempts and the dead letters of all, in whatever order
-- the database scans the rows, where no two attempts were recorded at one time.
pub reads_agree :
    (out : Outside) (scan : List AttemptRow → List AttemptRow) (db : Tables) (s : SubscriptionStore)
    (id : Text)
    → Represents out db s
    → IsScan scan
    → Apart (λ r. r.created_at) db.attempts
    → (Subscriptions.get out id db ≡ ok (SubscriptionStore.get_sub id s))
      × (Subscriptions.high_water id db ≡ SubscriptionStore.high_water id s)
      × (Subscriptions.delivery_attempts scan id db ≡ SubscriptionStore.delivery_attempts id s)
      × (Subscriptions.dead_letters scan db ≡ SubscriptionStore.dead_letters s)
unfolding Subscriptions.delivery_attempts SubscriptionStore.delivery_attempts
    Subscriptions.dead_letters SubscriptionStore.dead_letters
reads_agree out scan db s id represents permutes apart =
    let of_id : DeliveryAttempt → Bool = λ a. text_eq a.subscription_id id in
    let dead : DeliveryAttempt → Bool = λ a. is_dead_letter a.status in
    (
      get-same out db s represents id,
      marks-same out db s represents id,
      ap (map (λ r. r.attempt)) (ordered-same out db s represents scan of_id permutes apart)
          ∙ attempts-same out db s represents of_id,
      ap (map (λ r. dead_letter_of r.attempt))
            (ordered-same out db s represents scan dead permutes apart)
          ∙ (map-map dead_letter_of _
              ∙ ap (map dead_letter_of) (attempts-same out db s represents dead)),
    )
