-- ===== src/Publisher/Dispatch/Page.antt =====
-- One page of catch-up, event by event.
use a2a_events_python.Common.{
  ℕ, suc, ◌+◌, ◌≤◌, ◌<◌, ◌≡◌, refl, ◌⊎◌, Bool, true, false, List, [], ◌∷◌, ◌++◌, arith, ltb,
  Bool-cases, inl, inr, Text, All,
}
use a2a_events_python.Errors.{Result, ok, raise}
use a2a_events_python.Exec.{◌>>=◌, continue, pure}
use a2a_events_python.Models.{Subscription, Topic}
use a2a_events_python.Selectors.{matches}
use a2a_events_python.Cursor.{offset_of}
use a2a_events_python.EventStore.{EventRecord}
use a2a_events_python.EventStore.Log.{Sorted}
use a2a_events_python.SubscriptionStore.{SubscriptionStore, mark}
use a2a_events_python.Publisher.{World, M, Env, Config}
use a2a_events_python.Publisher.Send.{raw_event_dict}
use a2a_events_python.Publisher.Delivery.{deliver_one}
use a2a_events_python.Publisher.Delivery.Marks.{attempted, Moves, Moves-refl}
use a2a_events_python.Publisher.Delivery.Attempts.{Moved}
use a2a_events_python.Publisher.Delivery.Bound.{Ends, deliver_one-Settles}
use a2a_events_python.Publisher.Dispatch.{handle_record, handle_page, evaluated}

module _ (env : Env) (cfg : Config) (sub : Subscription) (model : Topic) where
  abbrev pub Match : EventRecord → Result Bool
  Match r = matches env.lower sub.selector (raw_event_dict r) model.filterable_fields

  module _ (enough : 0 < cfg.max_attempts) where
    module _ (r : EventRecord) (o : ℕ) (decoded : offset_of r.cursor ≡ ok o) where
      abbrev Handles : World → Result (Unit {0}) × World → Type 0
      Handles w y =
          Moved env cfg sub r o decoded w.subs y.1.subs
          × (Match r ≡ ok true → Ends env cfg sub r o decoded y.0 y.1.subs)

      abbrev delivering : M (Unit {0})
      delivering = deliver_one env cfg sub r >>= λ acked. pure tt

      delivering-Handles : (w w' : World) → w'.subs ≡ w.subs → Handles w (delivering w')
      delivering-Handles w w' e =
          let (moved, ends) = deliver_one-Settles env cfg sub r o decoded enough w' in
          go (deliver_one env cfg sub r w').0 (deliver_one env cfg sub r w').1 (rw (← e) moved) ends
        where
          go :
              (x : Result Bool) (v : World)
              → Moved env cfg sub r o decoded w.subs v.subs
              → Ends env cfg sub r o decoded x v.subs
              → Handles w (continue (λ _. pure tt) (x, v))
          go (ok b) v moved ends = (moved, λ _. ends)
          go (raise x) v moved ends = (moved, λ _. tt)

      -- One matching: a match is delivered, and is on record if nothing is raised.
      pub handle_record-Handles : (w : World) → Handles w (handle_record env cfg sub model r w)
      unfolding handle_record
      handle_record-Handles w = go (Match r) refl
        where
          stay : Moved env cfg sub r o decoded w.subs w.subs
          stay = Moves-refl sub.subscription_id r.topic r.event_id o w.subs

          go : (x : Result Bool) → Match r ≡ x → Handles w (handle_record env cfg sub model r w)
          go (raise x) e = rw (e, handle_record) (stay, λ h. tt)
          go (ok false) e = rw (e, handle_record) (stay, λ h. absurd (cc))
          go (ok true) e =
              let (moved, ends) = delivering-Handles w (evaluated true w).1 refl in
              rw (e, handle_record) (moved, λ _. ends e)

    abbrev sid : Text
    sid = sub.subscription_id

    abbrev page_from : ℕ → ℕ → List EventRecord → M (ℕ × ℕ)
    page_from = handle_page env cfg sub model

    -- What is on record stays there over a page.
    module _ (e : Text) where
      abbrev KeepsRecord : List EventRecord → Type 0
      KeepsRecord rs =
          (scan processed : ℕ) (w : World)
          → attempted sid e w.subs ≡ true
          → attempted sid e (page_from scan processed rs w).1.subs ≡ true

      kept_later :
          (rs : List EventRecord) (scan processed : ℕ) (x : Result (Unit {0})) (v : World)
          → KeepsRecord rs
          → attempted sid e v.subs ≡ true
          → attempted sid e (continue (λ _. page_from scan processed rs) (x, v)).1.subs ≡ true
      kept_later rs scan processed (ok u) v ih h = ih scan processed v h
      kept_later rs scan processed (raise x) v ih h = h

      kept_step :
          (r : EventRecord) (rs : List EventRecord) (x : Result ℕ)
          → offset_of r.cursor ≡ x
          → KeepsRecord rs
          → KeepsRecord (r ∷ rs)
      unfolding handle_page
      kept_step r rs (raise x) d ih scan processed w h = rw (d, handle_page) h
      kept_step r rs (ok o) d ih scan processed w h = elim (Bool-cases (ltb o scan)) [
        | inl skip ↦ rw (d, handle_page) (rw skip (ih scan processed w h))
        | inr after ↦
            rw (d, handle_page)
              (rw after (
                kept_later rs (o + 1) (processed + 1) (handle_record env cfg sub model r w).0
                  (handle_record env cfg sub model r w).1 ih
                  ((handle_record-Handles r o d w).0.kept e h)))
      ]

      pub handle_page_kept : (rs : List EventRecord) → KeepsRecord rs
      unfolding handle_page
      handle_page_kept [] = λ scan processed w h. h
      handle_page_kept (r ∷ rs) = kept_step r rs (offset_of r.cursor) refl (handle_page_kept rs)

    -- An event at offset `o`, which the mark has not passed and which the selector matches.
    module _ (event : EventRecord) (o : ℕ) (decoded : offset_of event.cursor ≡ ok o)
        (hit : Match event ≡ ok true) where
      before_event :
          (lo hi : ℕ) (pre post : List EventRecord) → Sorted lo hi (pre ++ event ∷ post) → lo ≤ o
      before_event lo hi [] post (p, d, l, sorted) = ground arith
      before_event lo hi (r ∷ pre) post (p, d, l, sorted) =
          omega (arith, before_event (suc p) hi pre post sorted)

      -- not passed over: the mark is still before it, or it is on record
      abbrev pub NotSkipped : SubscriptionStore → Type 0
      NotSkipped s = (mark sid event.topic s ≤ o) ⊎ (attempted sid event.event_id s ≡ true)

      abbrev pub Owed : {A : Type 0} → Result A → SubscriptionStore → Type 0
      Owed x s = NotSkipped s × Ends env cfg sub event o decoded x s

      recorded-Owed :
          {A : Type 0} (x : Result A) (s : SubscriptionStore)
          → attempted sid event.event_id s ≡ true
          → Owed x s
      recorded-Owed (ok a) s h = (inr h, h)
      recorded-Owed (raise x) s h = (inr h, tt)

      abbrev pub OwedBy : List EventRecord → Type 0
      OwedBy rs =
          (scan processed : ℕ) (w : World)
          → scan ≤ o
          → mark sid event.topic w.subs ≤ o
          → Owed (page_from scan processed rs w).0 (page_from scan processed rs w).1.subs

      -- the event's own turn
      own_turn :
          (rs : List EventRecord) (scan processed : ℕ) (x : Result (Unit {0})) (v : World)
          → NotSkipped v.subs
          → Ends env cfg sub event o decoded x v.subs
          → Owed
              (continue (λ _. page_from scan processed rs) (x, v)).0
              (continue (λ _. page_from scan processed rs) (x, v)).1.subs
      own_turn rs scan processed (ok u) v k ends =
          recorded-Owed (page_from scan processed rs v).0 (page_from scan processed rs v).1.subs
            (handle_page_kept event.event_id rs scan processed v ends)
      own_turn rs scan processed (raise x) v k ends = (k, tt)

      -- an earlier event's turn
      earlier_turn :
          (rs : List EventRecord) (scan processed : ℕ) (x : Result (Unit {0})) (v : World)
          → OwedBy rs
          → scan ≤ o
          → mark sid event.topic v.subs ≤ o
          → Owed
              (continue (λ _. page_from scan processed rs) (x, v)).0
              (continue (λ _. page_from scan processed rs) (x, v)).1.subs
      earlier_turn rs scan processed (ok u) v ih before m = ih scan processed v before m
      earlier_turn rs scan processed (raise x) v ih before m = (inl m, tt)

      owed_here : (rs : List EventRecord) → OwedBy (event ∷ rs)
      unfolding handle_page
      owed_here rs scan processed w before m =
          let (moves, ends) = handle_record-Handles event o decoded w in
          let w' = (handle_record env cfg sub model event w).1 in
          let k : NotSkipped w'.subs = elim moves.moved [
            | inl stay ↦ inl (omega arith)
            | inr moved ↦ inr moved.1
          ] in
          let after : ltb o scan ≡ false = ground arith in
          rw (decoded, handle_page)
            (rw after (
              own_turn rs (o + 1) (processed + 1) (handle_record env cfg sub model event w).0 w' k
                (ends hit)))

      mark_before :
          (r : EventRecord) (p : ℕ) (s s' : SubscriptionStore)
          → r.topic ≡ event.topic
          → p < o
          → Moves sid r.topic r.event_id p s s'
          → mark sid event.topic s ≤ o
          → mark sid event.topic s' ≤ o
      mark_before r p s s' same lt h m = rw (← same) (elim h.moved [
        | inl stay ↦ let m' = rw (← same) at m in omega arith
        | inr moved ↦ let m' = rw (← same) at m in omega (arith, moved.0)
      ])

      owed_later :
          (r : EventRecord) (rs : List EventRecord) (p : ℕ)
          → offset_of r.cursor ≡ ok p
          → p < o
          → r.topic ≡ event.topic
          → OwedBy rs
          → OwedBy (r ∷ rs)
      unfolding handle_page
      owed_later r rs p d lt same ih scan processed w before m = elim (Bool-cases (ltb p scan)) [
        | inl skip ↦ rw (d, handle_page) (rw skip (ih scan processed w before m))
        | inr after ↦
            let w' = (handle_record env cfg sub model r w).1 in
            rw (d, handle_page)
              (rw after (
                earlier_turn rs (p + 1) (processed + 1) (handle_record env cfg sub model r w).0 w'
                  ih (omega arith)
                  (mark_before r p w.subs w'.subs same lt (handle_record-Handles r p d w).0 m)))
      ]

      -- Over a page in log order that holds the event, `pre` before it and `post` after it: if the
      -- page is done without an exception an attempt of the event is on record, and if one is
      -- raised the mark has not passed the event or an attempt of it is on record.
      pub handle_page-Owed :
          (lo hi : ℕ) (pre post : List EventRecord)
          → Sorted lo hi (pre ++ event ∷ post)
          → All (λ r. r.topic ≡ event.topic) pre
          → OwedBy (pre ++ event ∷ post)
      handle_page-Owed lo hi [] post sorted same = owed_here post
      handle_page-Owed lo hi (r ∷ pre) post (p, d, l, sorted) same =
          owed_later r (pre ++ event ∷ post) p d (before_event (suc p) hi pre post sorted) same.0
            (handle_page-Owed (suc p) hi pre post sorted same.1)
