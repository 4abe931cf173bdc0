-- ===== src/RetryQueue.antt =====
-- runtime/memory/retry_queue.py and `RetryItem` of runtime/contracts.py. The lock makes each
-- method atomic, so a method is a function of the state. Times are microseconds.
pub mod Claims
use a2a_events_python.Common.{
  ℕ, ◌+◌, ◌*◌, Bool, Option, none, some, List, [], ◌∷◌, leb, if◌then◌else◌, filter_by, take, any_by,
  Text, text_eq, Dict, get, put, remove, values,
}

pub record RetryItem : Type 0 where
  pub retry_id : Text
  pub subscription_id : Text
  pub topic : Text
  pub cursor : Text
  pub event_id : Text
  pub attempt : ℕ
  pub next_retry_at : ℕ
  pub last_error : Option Text

abbrev pub RetryQueue : Type 0
RetryQueue = Dict RetryItem

unfoldable pub enqueue : RetryItem → RetryQueue → RetryQueue
enqueue item items = put item.retry_id item items

-- `sorted` with the key `next_retry_at`, which is stable
unfoldable pub insert_sorted : RetryItem → List RetryItem → List RetryItem
insert_sorted item [] = item ∷ []
insert_sorted item (i ∷ is) =
    if leb item.next_retry_at i.next_retry_at then item ∷ i ∷ is else i ∷ insert_sorted item is

unfoldable pub sort_items : List RetryItem → List RetryItem
unfolding insert_sorted
sort_items [] = []
sort_items (i ∷ is) = insert_sorted i (sort_items is)

abbrev pub is_due : ℕ → RetryItem → Bool
is_due now i = leb i.next_retry_at now

abbrev pub due_items : ℕ → ℕ → RetryQueue → List RetryItem
due_items now limit items = take limit (sort_items (filter_by (is_due now) (values items)))

abbrev pub claimed : Text → List RetryItem → Bool
claimed retry_id due = any_by (λ i. text_eq i.retry_id retry_id) due

-- item.next_retry_at = leased, for the objects in `due`, which the dictionary holds
unfoldable pub lease_items : ℕ → List RetryItem → RetryQueue → RetryQueue
lease_items leased due [] = []
lease_items leased due ((k, i) ∷ items) =
    (k, if claimed i.retry_id due then record i { next_retry_at = leased } else i)
    ∷ lease_items leased due items

abbrev leased_copy : ℕ → List RetryItem → List RetryItem
leased_copy leased [] = []
leased_copy leased (i ∷ due) = record i { next_retry_at = leased } ∷ leased_copy leased due

abbrev pub second : ℕ
second = 1_000_000

unfoldable pub claim_due : ℕ → ℕ → ℕ → RetryQueue → List RetryItem × RetryQueue
claim_due now limit lease_seconds items =
    let due = due_items now limit items in
    let leased = now + lease_seconds * second in
    (leased_copy leased due, lease_items leased due items)

unfoldable pub complete : Text → RetryQueue → RetryQueue
complete retry_id items = remove retry_id items

unfoldable pub reschedule : Text → ℕ → ℕ → Option Text → RetryQueue → RetryQueue
reschedule retry_id next_retry_at attempt last_error items = elim (get retry_id items) [
  | none ↦ items
  | some item ↦
      put retry_id
        (record item { next_retry_at = next_retry_at; attempt = attempt; last_error = last_error })
        items
]

unfoldable pub pending : RetryQueue → List RetryItem
pending items = values items
