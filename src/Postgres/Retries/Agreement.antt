-- ===== src/Postgres/Retries/Agreement.antt =====
-- The operations of the retry queue in Postgres against those in memory.
use mathlib.Core.List.Permᴰ
use a2a_events_python.Common.{
  ℕ, ◌≤◌, ◌⊎◌, length, ◌≡◌, refl, sym, ◌∙◌, ap, arith, true, false, ◌||◌, Option, List, [], ◌∷◌,
  ◌++◌, map, filter_by, take, Bool-cases, Option-cases, inl, inr, Text, text_eq, text_eq_iff, get,
  put, remove, values,
}
use a2a_events_python.RetryQueue
use a2a_events_python.RetryQueue.{
  RetryItem, RetryQueue, insert_sorted, sort_items, is_due, due_items, claimed, lease_items, second,
}
use a2a_events_python.Postgres.{insert_row, order_by}
use a2a_events_python.Postgres.Sorting.{IsScan, Apart, take-order_by, order_by-Apart}
use a2a_events_python.Postgres.Retries.{sooner, due_rows, leased_row, rescheduled, complete}

-- Each item is under its own id, and each id is there once.
abbrev pub Keyed : RetryQueue → Type 0
Keyed [] = Unit
Keyed ((k, i) ∷ q) = (k ≡ i.retry_id) × (claimed k (values q) ≡ false) × Keyed q

insert-sorted : (i : RetryItem) (is : List RetryItem) → insert_row sooner i is ≡ insert_sorted i is
unfolding insert_sorted
insert-sorted i [] = refl
insert-sorted i (j ∷ js) = ground (arith, insert-sorted i js)

order-sorted : (is : List RetryItem) → order_by sooner is ≡ sort_items is
unfolding sort_items
order-sorted [] = refl
order-sorted (i ∷ is) = rw (order-sorted is) (insert-sorted i (sort_items is))

-- Which items a claim takes does not hang on the order of the items of one due time: no more are due
-- than the limit, or no two of those that are due have one time.
abbrev pub Settled : ℕ → ℕ → RetryQueue → Type 0
Settled now limit q =
    (length (filter_by (is_due now) (values q)) ≤ limit)
    ⊎ Apart (λ i. i.next_retry_at) (filter_by (is_due now) (values q))

due-ordered :
    (now limit : ℕ) (q : RetryQueue)
    → due_items now limit q ≡ take limit (order_by sooner (filter_by (is_due now) (values q)))
due-ordered now limit q = ap (take limit) (sym (order-sorted (filter_by (is_due now) (values q))))

pub due-same :
    (scan : List RetryItem → List RetryItem) (id : Text) (now limit : ℕ) (q : RetryQueue)
    → IsScan scan
    → Settled now limit q
    → claimed id (due_rows scan now limit (values q)) ≡ claimed id (due_items now limit q)
due-same scan id now limit q permutes (inl fits) =
    let due = filter_by (is_due now) (values q) in
    take-order_by sooner (λ i. text_eq i.retry_id id) limit (permutes due) fits
    ∙ sym (
        ap (claimed id) (due-ordered now limit q)
        ∙ take-order_by sooner (λ i. text_eq i.retry_id id) limit (Permᴰ.refl due) fits)
due-same scan id now limit q permutes (inr apart) =
    let due = filter_by (is_due now) (values q) in
    ap (claimed id) (
      ap (take limit)
        (sym (order_by-Apart (λ i. i.next_retry_at) (Permᴰ.symm (permutes due)) apart).0)
      ∙ sym (due-ordered now limit q))

pub lease-cong :
    (leased : ℕ) (due due' rows : List RetryItem)
    → ((id : Text) → claimed id due ≡ claimed id due')
    → map (leased_row leased due) rows ≡ map (leased_row leased due') rows
lease-cong leased due due' [] same = refl
lease-cong leased due due' (i ∷ is) same = rw (same i.retry_id, lease-cong leased due due' is same)

pub lease-same :
    (leased : ℕ) (due : List RetryItem) (q : RetryQueue)
    → map (leased_row leased due) (values q) ≡ values (lease_items leased due q)
unfolding lease_items
lease-same leased due [] = refl
lease-same leased due ((k, i) ∷ q) = rw (lease-same leased due q)

claimed-leased :
    (k : Text) (leased : ℕ) (due : List RetryItem) (q : RetryQueue)
    → claimed k (values (lease_items leased due q)) ≡ claimed k (values q)
unfolding lease_items
claimed-leased k leased due [] = refl
claimed-leased k leased due ((j, i) ∷ q) = elim (Bool-cases (claimed i.retry_id due)) [
  | inl hit ↦ rw (hit, claimed-leased k leased due q)
  | inr miss ↦ rw (miss, claimed-leased k leased due q)
]

pub lease-Keyed :
    (leased : ℕ) (due : List RetryItem) (q : RetryQueue)
    → Keyed q
    → Keyed (lease_items leased due q)
unfolding lease_items
lease-Keyed leased due [] h = tt
lease-Keyed leased due ((k, i) ∷ q) (own, once, h) = elim (Bool-cases (claimed i.retry_id due)) [
  | inl hit ↦ rw hit (own, claimed-leased k leased due q ∙ once, lease-Keyed leased due q h)
  | inr miss ↦ rw miss (own, claimed-leased k leased due q ∙ once, lease-Keyed leased due q h)
]

pub complete-same :
    (id : Text) (q : RetryQueue)
    → Keyed q
    → complete id (values q) ≡ values (RetryQueue.complete id q)
unfolding complete RetryQueue.complete remove
complete-same id [] h = refl
complete-same id ((k, i) ∷ q) (own, once, h) = ground (arith, own, complete-same id q h)

claimed-complete :
    (k id : Text) (q : RetryQueue)
    → claimed k (values q) ≡ false
    → claimed k (values (RetryQueue.complete id q)) ≡ false
unfolding RetryQueue.complete remove
claimed-complete k id [] h = refl
claimed-complete k id ((j, i) ∷ q) h = ground (arith, h, claimed-complete k id q)

pub complete-Keyed : (id : Text) (q : RetryQueue) → Keyed q → Keyed (RetryQueue.complete id q)
unfolding RetryQueue.complete remove
complete-Keyed id [] h = tt
complete-Keyed id ((k, i) ∷ q) (own, once, h) = elim (Bool-cases (text_eq k id)) [
  | inl hit ↦ rw hit (complete-Keyed id q h)
  | inr miss ↦ rw miss (own, claimed-complete k id q once, complete-Keyed id q h)
]

pub enqueue-same :
    (item : RetryItem) (q : RetryQueue)
    → Keyed q
    → claimed item.retry_id (values q) ≡ false
    → values q ++ item ∷ [] ≡ values (RetryQueue.enqueue item q)
unfolding RetryQueue.enqueue put
enqueue-same item [] h new = refl
enqueue-same item ((k, i) ∷ q) (own, once, h) new =
    let other : text_eq k item.retry_id ≡ false = rw own (ground (arith, new)) in
    rw (other, enqueue-same item q h (ground (arith, new)))

claimed-enqueue :
    (k : Text) (item : RetryItem) (q : RetryQueue)
    → Keyed q
    → claimed item.retry_id (values q) ≡ false
    → claimed k (values (RetryQueue.enqueue item q))
      ≡ (claimed k (values q) || text_eq item.retry_id k)
claimed-enqueue k item q h new = rw (sym (enqueue-same item q h new)) (claimed-append k (values q))
  where
    claimed-append :
        (k : Text) (is : List RetryItem)
        → claimed k (is ++ item ∷ []) ≡ (claimed k is || text_eq item.retry_id k)
    claimed-append k [] = ground arith
    claimed-append k (i ∷ is) = ground (arith, claimed-append k is)

pub enqueue-Keyed :
    (item : RetryItem) (q : RetryQueue)
    → Keyed q
    → claimed item.retry_id (values q) ≡ false
    → Keyed (RetryQueue.enqueue item q)
unfolding RetryQueue.enqueue put
enqueue-Keyed item [] h new = (refl, refl, tt)
enqueue-Keyed item ((k, i) ∷ q) (own, once, h) new =
    let other : text_eq k item.retry_id ≡ false = rw own (ground (arith, new)) in
    let rest : claimed item.retry_id (values q) ≡ false = ground (arith, new) in
    rw other (
      own,
      claimed-enqueue k item q h rest
          ∙ ground (arith, once, other, text_eq_iff k item.retry_id, text_eq_iff item.retry_id k),
      enqueue-Keyed item q h rest,
    )

put-there :
    (k j : Text) (v w : RetryItem) (q : RetryQueue)
    → text_eq j k ≡ true
    → put k v ((j, w) ∷ q) ≡ (j, v) ∷ q
unfolding put
put-there k j v w q h = rw h

put-elsewhere :
    (k j : Text) (v w : RetryItem) (q : RetryQueue)
    → text_eq j k ≡ false
    → put k v ((j, w) ∷ q) ≡ (j, w) ∷ put k v q
unfolding put
put-elsewhere k j v w q h = rw h

module _ (id : Text) (next_retry_at attempt : ℕ) (last_error : Option Text) where
  abbrev moved : RetryItem → RetryItem
  moved = rescheduled id next_retry_at attempt last_error

  reschedule-miss :
      (k : Text) (i : RetryItem) (q : RetryQueue)
      → text_eq k id ≡ false
      → RetryQueue.reschedule id next_retry_at attempt last_error ((k, i) ∷ q)
        ≡ (k, i) ∷ RetryQueue.reschedule id next_retry_at attempt last_error q
  unfolding RetryQueue.reschedule get
  reschedule-miss k i q other = elim (Option-cases (get id q)) [
    | inl missing ↦ rw (RetryQueue.reschedule, get, other, missing)
    | inr (item, found) ↦
        rw (RetryQueue.reschedule, get, other, found) (put-elsewhere id k _ i q other)
  ]

  reschedule-hit :
      (k : Text) (i : RetryItem) (q : RetryQueue)
      → text_eq k id ≡ true
      → RetryQueue.reschedule id next_retry_at attempt last_error ((k, i) ∷ q)
        ≡ (
          k,
          record i { next_retry_at = next_retry_at; attempt = attempt; last_error = last_error },
        )
          ∷ q
  unfolding RetryQueue.reschedule get
  reschedule-hit k i q same = rw (RetryQueue.reschedule, get, same) (put-there id k _ i q same)

  moved-none : (is : List RetryItem) → claimed id is ≡ false → map moved is ≡ is
  moved-none [] h = refl
  moved-none (i ∷ is) h =
      let other : text_eq i.retry_id id ≡ false = ground (arith, h) in
      rw (other, moved-none is (ground (arith, h)))

  pub reschedule-same :
      (q : RetryQueue)
      → Keyed q
      → map moved (values q) ≡ values (RetryQueue.reschedule id next_retry_at attempt last_error q)
  unfolding RetryQueue.reschedule get
  reschedule-same [] h = refl
  reschedule-same ((k, i) ∷ q) (own, once, h) = elim (Bool-cases (text_eq k id)) [
    | inl hit ↦
        let mine : text_eq i.retry_id id ≡ true = rw (sym own) hit in
        let e : k ≡ id = (text_eq_iff k id).0 hit in
        let none_left : claimed id (values q) ≡ false = rw (sym e) once in
        rw (reschedule-hit k i q hit, mine, moved-none (values q) none_left)
    | inr other ↦
        let mine : text_eq i.retry_id id ≡ false = rw (sym own) other in
        rw (reschedule-miss k i q other, mine, reschedule-same q h)
  ]

  claimed-reschedule :
      (k : Text) (q : RetryQueue)
      → Keyed q
      → claimed k (values (RetryQueue.reschedule id next_retry_at attempt last_error q))
        ≡ claimed k (values q)
  claimed-reschedule k q h = rw (sym (reschedule-same q h)) (claimed-moved (values q))
    where
      claimed-moved : (is : List RetryItem) → claimed k (map moved is) ≡ claimed k is
      claimed-moved [] = refl
      claimed-moved (i ∷ is) = elim (Bool-cases (text_eq i.retry_id id)) [
        | inl hit ↦ rw (hit, claimed-moved is)
        | inr miss ↦ rw (miss, claimed-moved is)
      ]

  pub reschedule-Keyed :
      (q : RetryQueue)
      → Keyed q
      → Keyed (RetryQueue.reschedule id next_retry_at attempt last_error q)
  unfolding RetryQueue.reschedule get
  reschedule-Keyed [] h = tt
  reschedule-Keyed ((k, i) ∷ q) (own, once, h) = elim (Bool-cases (text_eq k id)) [
    | inl hit ↦ rw (reschedule-hit k i q hit) (own, once, h)
    | inr other ↦
        rw (reschedule-miss k i q other)
          (own, claimed-reschedule k q h ∙ once, reschedule-Keyed q h)
  ]
