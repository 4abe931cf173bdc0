-- ===== src/Postgres/Retries/Runs.antt =====
-- Runs of the retry queue in Postgres and in memory, and what a claim hands out.
use a2a_events_python.Common.{
  ℕ, ◌+◌, ◌*◌, ◌≡◌, refl, ◌∙◌, ap, true, false, Option, List, [], ◌∷◌, Text, values,
}
use a2a_events_python.RetryQueue
use a2a_events_python.RetryQueue.{RetryItem, RetryQueue, due_items, claimed, second}
use a2a_events_python.Errors.{ok}
use a2a_events_python.Exec.{Exec, continue}
use a2a_events_python.Postgres.{in_integer}
use a2a_events_python.Postgres.Sorting.{IsScan}
use a2a_events_python.Postgres.Retries.{RetryTable, enqueue, claim_due, complete, reschedule}
use a2a_events_python.Postgres.Retries.Agreement.{
  Keyed, Settled, lease-cong, due-same, lease-same, lease-Keyed, complete-same, complete-Keyed,
  enqueue-same, enqueue-Keyed, reschedule-same, reschedule-Keyed,
}

-- What the publisher and its worker do to a queue; a claim comes with the orders in which it finds
-- and returns the rows.
pub data Op : Type 0 where
  enqueueing : RetryItem → Op
  claiming : (List RetryItem → List RetryItem) → (List RetryItem → List RetryItem) → ℕ → ℕ → ℕ → Op
  completing : Text → Op
  rescheduling : Text → ℕ → ℕ → Option Text → Op

abbrev pub on_table : Op → Exec RetryTable (Unit {0})
on_table (enqueueing item) rows = enqueue item rows
on_table (claiming scan returned now limit lease_seconds) rows =
    (ok tt, (claim_due scan returned now limit lease_seconds rows).1)
on_table (completing id) rows = (ok tt, complete id rows)
on_table (rescheduling id next_retry_at attempt last_error) rows =
    reschedule id next_retry_at attempt last_error rows

abbrev pub in_memory : Op → RetryQueue → RetryQueue
in_memory (enqueueing item) q = RetryQueue.enqueue item q
in_memory (claiming scan returned now limit lease_seconds) q =
    (RetryQueue.claim_due now limit lease_seconds q).1
in_memory (completing id) q = RetryQueue.complete id q
in_memory (rescheduling id next_retry_at attempt last_error) q =
    RetryQueue.reschedule id next_retry_at attempt last_error q

-- A new id, an attempt that the column holds, and a claim that the order of rows cannot change.
abbrev pub IsAllowed : Op → RetryQueue → Type 0
IsAllowed (enqueueing item) q =
    (in_integer item.attempt ≡ true) × (claimed item.retry_id (values q) ≡ false)
IsAllowed (claiming scan returned now limit lease_seconds) q = IsScan scan × Settled now limit q
IsAllowed (completing id) q = Unit
IsAllowed (rescheduling id next_retry_at attempt last_error) q = in_integer attempt ≡ true

abbrev pub run_table : List Op → Exec RetryTable (Unit {0})
run_table [] rows = (ok tt, rows)
run_table (op ∷ ops) rows = continue (λ _. run_table ops) (on_table op rows)

abbrev pub run_memory : List Op → RetryQueue → RetryQueue
run_memory [] q = q
run_memory (op ∷ ops) q = run_memory ops (in_memory op q)

abbrev pub AllAllowed : List Op → RetryQueue → Type 0
AllAllowed [] q = Unit
AllAllowed (op ∷ ops) q = IsAllowed op q × AllAllowed ops (in_memory op q)

step_same :
    (op : Op) (q : RetryQueue)
    → Keyed q
    → IsAllowed op q
    → (on_table op (values q) ≡ (ok tt, values (in_memory op q))) × Keyed (in_memory op q)
unfolding enqueue claim_due RetryQueue.claim_due reschedule
step_same (enqueueing item) q h (small, new) = (
  rw (enqueue, small, new) (ap (λ rows. (ok tt, rows)) (enqueue-same item q h new)),
  enqueue-Keyed item q h new,
)
step_same (claiming scan returned now limit lease_seconds) q h (permutes, settled) =
    let leased : ℕ = now + lease_seconds * second in
    let due : List RetryItem = due_items now limit q in
    (
      ap (λ rows. (ok tt, rows))
          (lease-cong leased _ due (values q) (λ id. due-same scan id now limit q permutes settled)
            ∙ lease-same leased due q),
      lease-Keyed leased due q h,
    )
step_same (completing id) q h allowed =
    (ap (λ rows. (ok tt, rows)) (complete-same id q h), complete-Keyed id q h)
step_same (rescheduling id next_retry_at attempt last_error) q h small = (
  rw (reschedule, small)
      (ap (λ rows. (ok tt, rows)) (reschedule-same id next_retry_at attempt last_error q h)),
  reschedule-Keyed id next_retry_at attempt last_error q h,
)

-- Any sequence of enqueues of new ids, claims, completions and reschedules succeeds on the table, and
-- leaves in it the items that it leaves in the queue in memory, each under its own id, once, if it
-- starts so. Attempts stay below 2 ^ 31; at each claim, whatever the order in which the database
-- finds the rows, either no more items are due than the limit or no two that are due have one time.
pub run_table-run_memory :
    (ops : List Op) (q : RetryQueue)
    → Keyed q
    → AllAllowed ops q
    → (run_table ops (values q) ≡ (ok tt, values (run_memory ops q))) × Keyed (run_memory ops q)
run_table-run_memory [] q h allowed = (refl, h)
run_table-run_memory (op ∷ ops) q h (allowed, rest) =
    let (same, keyed) = step_same op q h allowed in
    rw same (run_table-run_memory ops (in_memory op q) keyed rest)
