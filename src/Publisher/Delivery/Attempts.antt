-- ===== src/Publisher/Delivery/Attempts.antt =====
-- The steps of a delivery that write: recording an attempt, advancing, and handing off.
use a2a_events_python.Common.{
  ℕ, ◌+◌, ◌≡◌, refl, inl, inr, true, some, [], ◌∷◌, arith, ltb, Bool-cases, ◌-◌, text, Text,
  text_eq_refl,
}
use a2a_events_python.Errors.{ok}
use a2a_events_python.Exec.{◌>>=◌, ◌>>◌, continue, lift}
use a2a_events_python.Models.{Subscription}
use a2a_events_python.Cursor.{offset_of}
use a2a_events_python.EventStore.{EventRecord}
use a2a_events_python.SubscriptionStore
use a2a_events_python.SubscriptionStore.{
  SubscriptionStore, DeliveryAttempt, AttemptStatus, mark, mark-set_high_water, delivered,
  dead_letter,
}
use a2a_events_python.Metrics
use a2a_events_python.HttpDelivery.{DeliveryResult}
use a2a_events_python.Publisher.{World, M, Env, Config, on_subs, on_metrics, now}
use a2a_events_python.Publisher.Delivery.{
  resolve_event_id, ack_event, record_attempt, move_cursor, raise_mark, advance, on_delivered,
  hand_off, on_terminal,
}
use a2a_events_python.Publisher.Delivery.Marks.{
  is_attempt, attempted, any_by-append, Moves, Moves-refl, Moves-trans, Does, DoesRecorded,
  DoesRecorded-bind,
}

module _ (env : Env) (cfg : Config) (sub : Subscription) (r : EventRecord) (o : ℕ)
    (decoded : offset_of r.cursor ≡ ok o) where
  abbrev pub sid : Text
  sid = sub.subscription_id

  abbrev pub Moved : SubscriptionStore → SubscriptionStore → Type 0
  Moved = Moves sid r.topic r.event_id o

  -- Recording an attempt keeps the marks, does not raise, and puts the event on record.
  pub record_attempt_lem :
      (n : ℕ) (status : AttemptStatus) (result : DeliveryResult) (w : World)
      → ((record_attempt env cfg sub r n status result w).0 ≡ ok tt)
        × Moved w.subs (record_attempt env cfg sub r n status result w).1.subs
        × (attempted sid r.event_id (record_attempt env cfg sub r n status result w).1.subs ≡ true)
  unfolding record_attempt SubscriptionStore.record_attempt mark SubscriptionStore.high_water
  record_attempt_lem n status result w = (
    refl,
    record {
      kept = λ e h. rw (any_by-append (is_attempt sid e) w.subs.attempts) (rw h refl);
      moved = inl (omega arith);
    },
    rw (any_by-append (is_attempt sid r.event_id) w.subs.attempts)
        (ground (arith, text_eq_refl sid, text_eq_refl r.event_id)),
  )

  attempts-set_high_water :
      (next : ℕ) (s : SubscriptionStore)
      → (SubscriptionStore.set_high_water sid r.topic next s).attempts ≡ s.attempts
  unfolding SubscriptionStore.set_high_water
  attempts-set_high_water next s = refl

  mark-next :
      (s : SubscriptionStore)
      → mark sid r.topic (SubscriptionStore.set_high_water sid r.topic (o + 1) s) ≡ o + 1
  mark-next s =
      rw (mark-set_high_water sid r.topic sid r.topic (o + 1) s)
        (rw (text_eq_refl sid, text_eq_refl r.topic))

  -- Moving the mark just past an event that is on record.
  set_high_water-Moved :
      (s : SubscriptionStore)
      → attempted sid r.event_id s ≡ true
      → Moved s (SubscriptionStore.set_high_water sid r.topic (o + 1) s)
  set_high_water-Moved s on = record {
    kept = λ e h. rw (attempts-set_high_water (o + 1) s) h;
    moved = inr (omega (arith, mark-next s), rw (attempts-set_high_water (o + 1) s) on);
  }

  raise_mark-Moved : DoesRecorded sid r.topic r.event_id o (raise_mark env cfg sub r.topic o)
  unfolding raise_mark
  raise_mark-Moved w on = elim (Bool-cases (ltb (mark sid r.topic w.subs) (o + 1))) [
    | inl higher ↦ rw (higher, raise_mark) (set_high_water-Moved w.subs on)
    | inr same ↦ rw (same, raise_mark) (Moves-refl sid r.topic r.event_id o w.subs)
  ]

  move_cursor-Moved : Does sid r.topic r.event_id o (move_cursor env cfg sub r.topic r.cursor)
  unfolding move_cursor SubscriptionStore.update mark SubscriptionStore.high_water
  move_cursor-Moved w = record { kept = λ e h. ground arith; moved = inl (ground arith) }

  ack-Moved :
      (e c : Text)
      → Does sid r.topic r.event_id o
          (on_subs (SubscriptionStore.record_ack sub.subscription_id e c))
  unfolding SubscriptionStore.record_ack mark SubscriptionStore.high_water
  ack-Moved e c w = record { kept = λ x h. h; moved = inl (omega arith) }

  pub hand_off-Moved : DoesRecorded sid r.topic r.event_id o (hand_off env cfg sub r)
  unfolding hand_off
  hand_off-Moved w on = rw (decoded, hand_off) (set_high_water-Moved w.subs on)

  abbrev rest_of_advance : M (Unit {0})
  rest_of_advance = do
    offset ← lift (offset_of r.cursor)
    raise_mark env cfg sub r.topic offset
    found ← resolve_event_id env cfg r.topic r.cursor (some r.event_id)
    ack_event env cfg sub r.cursor found

  rest_of_advance-Moved : DoesRecorded sid r.topic r.event_id o rest_of_advance
  rest_of_advance-Moved w on = rw decoded (
      DoesRecorded-bind sid r.topic r.event_id o (raise_mark env cfg sub r.topic o)
        (λ _. on_subs (SubscriptionStore.record_ack sub.subscription_id r.event_id r.cursor))
        raise_mark-Moved (λ _ w' on'. ack-Moved r.event_id r.cursor w') w on)

  advance-Moved :
      DoesRecorded sid r.topic r.event_id o (advance env cfg sub r.topic r.cursor (some r.event_id))
  unfolding advance
  advance-Moved =
      DoesRecorded-bind sid r.topic r.event_id o (move_cursor env cfg sub r.topic r.cursor)
        (λ _. rest_of_advance) (λ w on. move_cursor-Moved w) (λ _. rest_of_advance-Moved)

  -- After a recorded attempt, what follows it may rely on the record.
  pub recorded-then :
      {A : Type 0} (n : ℕ) (status : AttemptStatus) (result : DeliveryResult)
      (rest : Unit {0} → M A)
      → DoesRecorded sid r.topic r.event_id o (rest tt)
      → (w : World)
      → Moved w.subs ((record_attempt env cfg sub r n status result >>= rest) w).1.subs
        × (attempted sid r.event_id
              ((record_attempt env cfg sub r n status result >>= rest) w).1.subs
            ≡ true)
  recorded-then n status result rest keeps w =
      let (done, moved, on) = record_attempt_lem n status result w in
      let w' = (record_attempt env cfg sub r n status result w).1 in
      let after = keeps w' on in
      rw (done, continue)
        (
          Moves-trans sid r.topic r.event_id o w.subs w'.subs _ moved after,
          after.kept r.event_id on,
        )

  abbrev pub Delivers : {A : Type 0} → M A → Type 0
  Delivers m =
      (w : World) → Moved w.subs (m w).1.subs × (attempted sid r.event_id (m w).1.subs ≡ true)

  abbrev rest_of_delivered : M (Unit {0})
  rest_of_delivered = do
    t ← now env
    on_metrics (
        Metrics.observe (text "delivery_latency_seconds") (t - r.created_at)
          ((text "topic", r.topic) ∷ []))
    advance env cfg sub r.topic r.cursor (some r.event_id)

  rest_of_delivered-Moved : DoesRecorded sid r.topic r.event_id o rest_of_delivered
  unfolding now
  rest_of_delivered-Moved w on =
      advance-Moved
        (record w {
          ticks = w.ticks + 1;
          metrics =
              Metrics.observe (text "delivery_latency_seconds") (env.clock w.ticks - r.created_at)
                ((text "topic", r.topic) ∷ []) w.metrics;
        })
        on

  pub on_delivered-Moved :
      (n : ℕ) (result : DeliveryResult) → Delivers (on_delivered env cfg sub r n result)
  unfolding on_delivered
  on_delivered-Moved n result =
      recorded-then n delivered result (λ _. rest_of_delivered) rest_of_delivered-Moved

  pub on_terminal-Moved :
      (n : ℕ) (result : DeliveryResult) → Delivers (on_terminal env cfg sub r n result)
  unfolding on_terminal
  on_terminal-Moved n result =
      recorded-then n dead_letter result (λ _. hand_off env cfg sub r) hand_off-Moved
