-- ===== src/Postgres/Retries.antt =====
-- runtime/postgres/retry_queue.py. The table `a2a_retry_queue` has a row per item, in no order: a query
-- reads its rows as `scan` gives them, so that rows of one due time come in any order, and a
-- RETURNING gives the rows as `returned` does. A claim is one transaction, and skips no row that
-- another has locked.
pub mod Agreement
pub mod Runs
use a2a_events_python.Common.{
  ℕ, ◌+◌, ◌*◌, Bool, not, Option, List, [], ◌∷◌, ◌++◌, map, ltb, if◌then◌else◌, filter_by, take,
  Text, text_eq,
}
use a2a_events_python.Errors.{ok, raise, foreign}
use a2a_events_python.Exec.{Exec}
use a2a_events_python.RetryQueue.{RetryItem, is_due, claimed, second}
use a2a_events_python.Postgres.{order_by, in_integer, out_of_range}

abbrev pub RetryTable : Type 0
RetryTable = List RetryItem

abbrev pub sooner : RetryItem → RetryItem → Bool
sooner i j = ltb i.next_retry_at j.next_retry_at

-- INSERT ... ON CONFLICT (retry_id) DO NOTHING
unfoldable pub enqueue : RetryItem → Exec RetryTable (Unit {0})
enqueue item rows =
    if in_integer item.attempt
    then (ok tt, if claimed item.retry_id rows then rows else rows ++ item ∷ [])
    else (raise (foreign out_of_range), rows)

-- the CTE `due`
abbrev pub due_rows : (List RetryItem → List RetryItem) → ℕ → ℕ → RetryTable → List RetryItem
due_rows scan now limit rows = take limit (order_by sooner (scan (filter_by (is_due now) rows)))

abbrev pub leased_row : ℕ → List RetryItem → RetryItem → RetryItem
leased_row leased due i = if claimed i.retry_id due then record i { next_retry_at = leased } else i

unfoldable pub claim_due :
    (List RetryItem → List RetryItem)
    → (List RetryItem → List RetryItem)
    → ℕ
    → ℕ
    → ℕ
    → RetryTable
    → List RetryItem × RetryTable
claim_due scan returned now limit lease_seconds rows =
    let leased = now + lease_seconds * second in
    let due = due_rows scan now limit rows in
    let rows' = map (leased_row leased due) rows in
    (returned (filter_by (λ i. claimed i.retry_id due) rows'), rows')

unfoldable pub complete : Text → RetryTable → RetryTable
complete retry_id rows = filter_by (λ i. not (text_eq i.retry_id retry_id)) rows

abbrev pub rescheduled : Text → ℕ → ℕ → Option Text → RetryItem → RetryItem
rescheduled retry_id next_retry_at attempt last_error i =
    if text_eq i.retry_id retry_id
    then record i { next_retry_at = next_retry_at; attempt = attempt; last_error = last_error }
    else i

unfoldable pub reschedule : Text → ℕ → ℕ → Option Text → Exec RetryTable (Unit {0})
reschedule retry_id next_retry_at attempt last_error rows =
    if in_integer attempt
    then (ok tt, map (rescheduled retry_id next_retry_at attempt last_error) rows)
    else (raise (foreign out_of_range), rows)

unfoldable pub pending : (List RetryItem → List RetryItem) → RetryTable → List RetryItem
pending scan rows = order_by sooner (scan rows)
