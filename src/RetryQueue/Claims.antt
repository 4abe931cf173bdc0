-- ===== src/RetryQueue/Claims.antt =====
-- Claims of the retry queue, and the leases they leave.
use a2a_events_python.Common.{
  ℕ, zero, suc, ◌+◌, ◌*◌, ◌≤◌, ◌<◌, ◌≡◌, refl, arith, Bool, true, false, List, [], ◌∷◌, leb, All,
  length, take, length-take-le, filter_by, values, Text, Bool-cases, inl, inr,
}
use a2a_events_python.RetryQueue.{
  RetryItem, RetryQueue, insert_sorted, sort_items, is_due, due_items, claimed, lease_items,
  leased_copy, second, claim_due,
}

All-insert_sorted :
    (P : RetryItem → Type 0) (i : RetryItem) (is : List RetryItem)
    → P i
    → All P is
    → All P (insert_sorted i is)
unfolding insert_sorted
All-insert_sorted P i [] h hs = (h, tt)
All-insert_sorted P i (j ∷ js) h (hj, hjs) =
    elim (Bool-cases (leb i.next_retry_at j.next_retry_at)) [
      | inl before ↦ rw before (h, (hj, hjs))
      | inr after ↦ rw after (hj, All-insert_sorted P i js h hjs)
    ]

All-sort_items : (P : RetryItem → Type 0) (is : List RetryItem) → All P is → All P (sort_items is)
unfolding sort_items
All-sort_items P [] h = tt
All-sort_items P (i ∷ is) (h, hs) = All-insert_sorted P i (sort_items is) h (All-sort_items P is hs)

All-take : (P : RetryItem → Type 0) (n : ℕ) (is : List RetryItem) → All P is → All P (take n is)
All-take P zero is h = tt
All-take P (suc n) [] h = tt
All-take P (suc n) (i ∷ is) (h, hs) = (h, All-take P n is hs)

All-filter_by :
    (P Q : RetryItem → Type 0) (p : RetryItem → Bool) (is : List RetryItem)
    → ((i : RetryItem) → Q i → p i ≡ true → P i)
    → All Q is
    → All P (filter_by p is)
All-filter_by P Q p [] step h = tt
All-filter_by P Q p (i ∷ is) step (h, hs) =
    let rest = All-filter_by P Q p is step hs in
    elim (Bool-cases (p i)) [
      | inl passes ↦ rw passes (step i h passes, rest)
      | inr fails ↦ rw fails rest
    ]

All-due_items :
    (P Q : RetryItem → Type 0) (now limit : ℕ) (q : RetryQueue)
    → ((i : RetryItem) → Q i → i.next_retry_at ≤ now → P i)
    → All Q (values q)
    → All P (due_items now limit q)
All-due_items P Q now limit q step h = All-take P limit _ (
    All-sort_items P _
      (All-filter_by P Q (is_due now) (values q) (λ i hq hit. step i hq (ground arith)) h))

All-any : (is : List RetryItem) → All (λ i. Unit {0}) is
All-any [] = tt
All-any (i ∷ is) = (tt, All-any is)

length-leased_copy :
    (leased : ℕ) (due : List RetryItem) → length (leased_copy leased due) ≡ length due
length-leased_copy leased [] = refl
length-leased_copy leased (i ∷ due) = rw (length-leased_copy leased due) refl

pub claimed-leased_copy :
    (leased : ℕ) (rid : Text) (due : List RetryItem)
    → claimed rid (leased_copy leased due) ≡ claimed rid due
claimed-leased_copy leased rid [] = refl
claimed-leased_copy leased rid (i ∷ due) = rw (claimed-leased_copy leased rid due) refl

-- A claim hands out at most as many items as the limit, and takes only items whose time has come.
pub claim_due-Due :
    (now limit lease_seconds : ℕ) (q : RetryQueue)
    → (length (claim_due now limit lease_seconds q).0 ≤ limit)
      × All (λ i. i.next_retry_at ≤ now) (due_items now limit q)
unfolding claim_due
claim_due-Due now limit lease_seconds q = (
  omega (
    arith,
    length-leased_copy (now + lease_seconds * second) (due_items now limit q),
    length-take-le limit (sort_items (filter_by (is_due now) (values q))),
  ),
  All-due_items _ (λ i. Unit) now limit q (λ i u h. h) (All-any (values q)),
)

leased_at :
    (leased : ℕ) (due : List RetryItem) (q : RetryQueue)
    → All
        (λ i. claimed i.retry_id due ≡ true → i.next_retry_at ≡ leased)
        (values (lease_items leased due q))
unfolding lease_items
leased_at leased due [] = tt
leased_at leased due ((k, i) ∷ q) =
    let rest = leased_at leased due q in
    elim (Bool-cases (claimed i.retry_id due)) [
      | inl hit ↦ rw hit ((λ h. refl), rest)
      | inr miss ↦ rw miss ((λ h. absurd (cc)), rest)
    ]

-- What a claim hands out is not handed out by another claim before the lease has run out.
pub claim_due-exclusive :
    (now limit lease_seconds : ℕ) (q : RetryQueue) (now' limit' : ℕ)
    → now' < now + lease_seconds * second
    → All
        (λ i. claimed i.retry_id (claim_due now limit lease_seconds q).0 ≡ false)
        (due_items now' limit' (claim_due now limit lease_seconds q).1)
unfolding claim_due
claim_due-exclusive now limit lease_seconds q now' limit' early =
    let due = due_items now limit q in
    let leased = now + lease_seconds * second in
    All-due_items _ _ now' limit' (lease_items leased due q)
      (λ i at before. elim (Bool-cases (claimed i.retry_id due)) [
        | inl hit ↦ absurd (omega (arith, at hit))
        | inr miss ↦ rw (claimed-leased_copy leased i.retry_id due) miss
      ])
      (leased_at leased due q)
