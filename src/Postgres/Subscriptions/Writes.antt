-- ===== src/Postgres/Subscriptions/Writes.antt =====
-- Writes of the Postgres subscription store against those of the store in memory.
use mathlib.Core.Path.{subst}
use a2a_events_python.Common.{
  ℕ, ◌-◌, ◌<◌, ◌^◌, true, ◌≡◌, refl, sym, ◌∙◌, ap, false, none, some, List, [], ◌∷◌, ◌++◌, arith,
  if◌then◌else◌, any_by, Bool-cases, inl, inr, Text, text_eq, text_eq_iff, get, put, get_or, Dict,
  get-put, get-put_self,
}
use a2a_events_python.Errors.{ok}
use a2a_events_python.Models.{Subscription}
use a2a_events_python.SubscriptionStore
use a2a_events_python.SubscriptionStore.{SubscriptionStore, DeliveryAttempt, put_ack}
use a2a_events_python.Postgres.{in_integer}
use a2a_events_python.Postgres.Subscriptions
use a2a_events_python.Postgres.Subscriptions.{
  Outside, IsSound, SubscriptionRow, AttemptRow, Tables, find_row, has_row, update_rows,
  selector_of, selector_json, row_to_sub, new_row, refreshed, marked,
}
use a2a_events_python.Postgres.Subscriptions.Rows.{
  has_row-found, has_row-absent, update_rows-found, update_rows-other, find_row-append_other,
  find_row-append_self, row_to_sub-new_row, row_to_sub-refreshed, row_to_sub-marked, Rising-snoc,
  attempts-fresh, map-append,
}
use a2a_events_python.Postgres.Subscriptions.Represents.{
  IsStored, Represents, Write, on_tables, in_memory, Known, IsAllowed, adding, updating, marking,
  acking, attempting,
}

marks-other :
    (id t : Text) (v : Dict ℕ) (hw : Dict (Dict ℕ))
    → text_eq id t ≡ false
    → get_or [] t (put id v hw) ≡ get_or [] t hw
marks-other id t v hw other =
    let e : get t (put id v hw) ≡ get t hw = get-put id t v hw ∙ rw other in rw (get_or, e)

marks_self : (id : Text) (v : Dict ℕ) (hw : Dict (Dict ℕ)) → get_or [] id (put id v hw) ≡ v
marks_self id v hw = rw (get_or, get-put_self id v hw)

module _ (out : Outside) (db : Tables) (s : SubscriptionStore)
    (represents : Represents out db s) where
  -- A write of one subscription, its row and its marks.
  put-Represents :
      (id : Text) (sub : Subscription) (rows : List SubscriptionRow) (subs : Dict Subscription)
      (hw : Dict (Dict ℕ))
      → ((t : Text) → get t subs ≡ (if text_eq id t then some sub else get t s.subs))
      → ((t : Text) → text_eq id t ≡ false → get_or [] t hw ≡ get_or [] t s.hw)
      → ((t : Text) → text_eq id t ≡ false → find_row t rows ≡ find_row t db.subscriptions)
      → IsStored out id (record db { subscriptions = rows }) (record s { subs = subs; hw = hw }) sub
      → Represents out (record db { subscriptions = rows }) (record s { subs = subs; hw = hw })
  put-Represents id sub rows subs hw gets marks finds new = record {
    stored = λ t sub' found. elim (Bool-cases (text_eq id t)) [
      | inl same ↦
          let e : id ≡ t = (text_eq_iff id t).0 same in
          let f : sub ≡ sub' = ground (arith, gets t) in
          let db' : Tables = record db { subscriptions = rows } in
          let s' : SubscriptionStore = record s { subs = subs; hw = hw } in
          subst (λ x. IsStored out x db' s' sub') e (subst (IsStored out id db' s') f new)
      | inr other ↦
          let (row, f, loads, m) = represents.stored t sub' (ground (arith, gets t)) in
          (row, finds t other ∙ f, loads, m ∙ sym (marks t other))
    ];
    absent = λ t missing. elim (Bool-cases (text_eq id t)) [
      | inl same ↦ absurd (ground (arith, gets t))
      | inr other ↦
          let (lost, unmarked) = represents.absent t (ground (arith, gets t)) in
          (finds t other ∙ lost, marks t other ∙ unmarked)
    ];
    attempts = represents.attempts;
    rising = represents.rising;
    acks = represents.acks;
  }

  Agrees : Write → Type 0
  Agrees w =
      ((on_tables out w db).0 ≡ ok tt) × Represents out (on_tables out w db).1 (in_memory w s)

  add-Agrees :
      (sub : Subscription) (hw : Dict ℕ)
      → IsSound out
      → get sub.subscription_id s.subs ≡ none
      → Agrees (adding sub hw)
  unfolding Agrees Subscriptions.add SubscriptionStore.add
  add-Agrees sub hw sound new =
      let id : Text = sub.subscription_id in
      rw (Subscriptions.add, has_row-absent id db (represents.absent id new).0)
        (
          refl,
          put-Represents id sub _ _ _ (λ t. get-put id t sub s.subs)
              (λ t other. marks-other id t hw s.hw other)
              (λ t other. find_row-append_other t db.subscriptions (new_row out sub hw) other)
              (
                new_row out sub hw,
                find_row-append_self db.subscriptions (new_row out sub hw)
                    (represents.absent id new).0,
                row_to_sub-new_row out sub hw sound,
                sym (marks_self id hw s.hw),
              ),
        )

  update-Agrees : (sub : Subscription) → IsAllowed (updating sub) db s → Agrees (updating sub)
  unfolding Agrees Subscriptions.update SubscriptionStore.update
  update-Agrees sub (old, there, same) =
      let id : Text = sub.subscription_id in
      let (row, found, loads, marks) = represents.stored id old there in
      (
        refl,
        put-Represents id sub _ _ _ (λ t. get-put id t sub s.subs) (λ t other. refl)
            (λ t other. update_rows-other id (refreshed sub) (λ r. refl) t db.subscriptions other)
            (
              refreshed sub row,
              update_rows-found id (refreshed sub) (λ r. refl) db.subscriptions row found,
              row_to_sub-refreshed out sub old row loads ∙ ap ok same,
              marks,
            ),
      )

  mark-Agrees :
      (id topic : Text) (next : ℕ) → Known id s → next - 1 < 2 ^ 31 → Agrees (marking id topic next)
  unfolding Agrees Subscriptions.set_high_water SubscriptionStore.set_high_water
  mark-Agrees id topic next (sub, there) bound =
      let (row, found, loads, marks) = represents.stored id sub there in
      let small : in_integer (next - 1) ≡ true = ground arith in
      rw (Subscriptions.set_high_water, small)
        (
          refl,
          put-Represents id sub _ _ _ (λ t. unchanged t) (λ t other. marks-other id t _ s.hw other)
              (λ t other.
                update_rows-other id (marked topic next) (λ r. refl) t db.subscriptions other)
              (
                marked topic next row,
                update_rows-found id (marked topic next) (λ r. refl) db.subscriptions row found,
                row_to_sub-marked out topic next row ∙ loads,
                ap (put topic next) marks ∙ sym (marks_self id _ s.hw),
              ),
        )
    where
      unchanged : (t : Text) → get t s.subs ≡ (if text_eq id t then some sub else get t s.subs)
      unchanged t = elim (Bool-cases (text_eq id t)) [
        | inl same ↦
            rw same
              (let e : id ≡ t = (text_eq_iff id t).0 same in ap (λ x. get x s.subs) (sym e) ∙ there)
        | inr other ↦ rw other
      ]

  ack-Agrees : (id event_id cursor : Text) → Known id s → Agrees (acking id event_id cursor)
  unfolding Agrees Subscriptions.record_ack SubscriptionStore.record_ack
  ack-Agrees id event_id cursor (sub, there) =
      let (row, found, loads, marks) = represents.stored id sub there in
      rw (Subscriptions.record_ack, has_row-found id db row found)
        (
          refl,
          record {
            stored = represents.stored;
            absent = represents.absent;
            attempts = represents.attempts;
            rising = represents.rising;
            acks = ap (put_ack id event_id cursor) represents.acks;
          },
        )

  attempt-Agrees :
      (a : DeliveryAttempt) (now : ℕ)
      → IsAllowed (attempting a now) db s
      → Agrees (attempting a now)
  unfolding Agrees Subscriptions.record_attempt SubscriptionStore.record_attempt
  attempt-Agrees a now (fits, (sub, there), new, past) =
      let (row, found, loads, marks) = represents.stored a.subscription_id sub there in
      let fresh : any_by (λ r. text_eq r.attempt.delivery_attempt_id a.delivery_attempt_id)
            db.attempts
          ≡ false =
        attempts-fresh a.delivery_attempt_id db.attempts
        ∙ (ap (any_by (λ b. text_eq b.delivery_attempt_id a.delivery_attempt_id))
              represents.attempts
            ∙ new) in
      rw (Subscriptions.record_attempt, fits, fresh, has_row-found a.subscription_id db row found)
        (
          refl,
          record {
            stored = represents.stored;
            absent = represents.absent;
            attempts = map-append db.attempts _ ∙ ap (λ xs. xs ++ a ∷ []) represents.attempts;
            rising = Rising-snoc 0 db.attempts _ (omega arith) past represents.rising;
            acks = represents.acks;
          },
        )

-- A write that the publisher may make, its offsets, attempt numbers and status codes below 2 ^ 31,
-- on tables that represent the store in memory, succeeds, and the tables represent the store in
-- memory after the same write.
pub on_tables-in_memory :
    (out : Outside) (w : Write) (db : Tables) (s : SubscriptionStore)
    → IsSound out
    → Represents out db s
    → IsAllowed w db s
    → ((on_tables out w db).0 ≡ ok tt) × Represents out (on_tables out w db).1 (in_memory w s)
unfolding Agrees
on_tables-in_memory out (adding sub hw) db s sound represents allowed =
    add-Agrees out db s represents sub hw sound allowed
on_tables-in_memory out (updating sub) db s sound represents allowed =
    update-Agrees out db s represents sub allowed
on_tables-in_memory out (marking id topic next) db s sound represents (known, bound) =
    mark-Agrees out db s represents id topic next known bound
on_tables-in_memory out (acking id event_id cursor) db s sound represents allowed =
    ack-Agrees out db s represents id event_id cursor allowed
on_tables-in_memory out (attempting a now) db s sound represents allowed =
    attempt-Agrees out db s represents a now allowed
