-- ===== src/Publisher/Dispatch/Complete.antt =====
-- What is on record when catch-up returns.
use a2a_events_python.Common.{
  ℕ, zero, suc, ◌≤◌, ◌<◌, ◌≡◌, ◌≢◌, refl, sym, ap, ◌∙◌, ◌⊎◌, inl, inr, true, none, some, List, [],
  ◌∷◌, ◌++◌, arith, Text, get, take, take_split, filter_by-append, All, All-filter_by,
}
use mathlib.Core.Path.{subst}
use a2a_events_python.Errors.{ok}
use a2a_events_python.Exec.{◌>>◌, bind_ok}
use a2a_events_python.Models.{Subscription, Topic}
use a2a_events_python.Selectors.{matches}
use a2a_events_python.Cursor.{offset_of}
use a2a_events_python.EventStore.{EventRecord, TopicLog, live_events, within}
use a2a_events_python.EventStore.Log.{
  IsValidLog, Sorted, Sorted-filter, Sorted-before, Sorted-append_left, Sorted-take,
  live_events-Sorted, live_events-own,
}
use a2a_events_python.EventStore.Range.{range, in_range}
use a2a_events_python.SubscriptionStore.{mark}
use a2a_events_python.Publisher.{World, M, Env, Config}
use a2a_events_python.Publisher.Send.{raw_event_dict}
use a2a_events_python.Publisher.Delivery.Marks.{attempted}
use a2a_events_python.Publisher.Dispatch.{handle_page, next_page, save_scan, round, catch_up_from}
use a2a_events_python.Publisher.Dispatch.NoSkip.{handle_page_no_skip}
use a2a_events_python.Publisher.Dispatch.Frame.{handle_page-KeepsEvents, save_scan-KeepsEvents}
use a2a_events_python.Publisher.Dispatch.Bounds.{handle_page-Bounded}
use a2a_events_python.Publisher.Dispatch.Pages.{next_page_lem}
use a2a_events_python.Publisher.Dispatch.CatchUp.{
  mark-save_scan, attempted-save_scan, catch_up_from-Kept,
}

pub All-append_left {ℓ κ} :
    {A : Type ℓ} (P : A → Type κ) (xs ys : List A) → All P (xs ++ ys) → All P xs
All-append_left P [] ys h = tt
All-append_left P (x ∷ xs) ys (h, hs) = (h, All-append_left P xs ys hs)

-- A range that starts at the event or before it holds the event where the log does.
range-append :
    (start o : ℕ) (pre post : List EventRecord) (event : EventRecord)
    → offset_of event.cursor ≡ ok o
    → start ≤ o
    → range start none (pre ++ event ∷ post) ≡ range start none pre ++ event ∷ range start none post
unfolding within
range-append start o pre post event at before =
    let there : in_range start none event ≡ true = rw at (ground arith) in
    filter_by-append (in_range start none) pre (event ∷ post) ∙ rw there refl

take-nonempty {ℓ} : {A : Type ℓ} (n : ℕ) (xs ys : List A) (x : A) → take (suc n) (xs ++ x ∷ ys) ≢ []
take-nonempty n [] ys x h = cc
take-nonempty n (y ∷ xs) ys x h = cc

module _ (env : Env) (cfg : Config) (sub : Subscription) (model : Topic) (event : EventRecord)
    (o : ℕ) (enough : 0 < cfg.max_attempts) (decoded : offset_of event.cursor ≡ ok o)
    (hit : matches env.lower sub.selector (raw_event_dict event) model.filterable_fields
      ≡ ok true) where
  abbrev topic : Text
  topic = event.topic

  abbrev sid : Text
  sid = sub.subscription_id

  abbrev Tried : World → Type 0
  Tried w = attempted sid event.event_id w.subs ≡ true

  -- what the page does to the event: it is on record, or still ahead
  abbrev Treats : World → ℕ × ℕ → World → Type 0
  Treats w y v = Tried v ⊎ ((y.0 ≤ o) × (mark sid topic v.subs ≤ o))

  page_with :
      (pre post : List EventRecord) (hi m processed : ℕ) (w v : World) (y : ℕ × ℕ)
      → Sorted 0 hi (pre ++ event ∷ post)
      → All (λ r. r.topic ≡ topic) pre
      → m ≤ o
      → mark sid topic w.subs ≤ o
      → handle_page env cfg sub model m processed (pre ++ event ∷ post) w ≡ (ok y, v)
      → Tried v
  page_with pre post hi m processed w v y sorted own below marked h =
      elim (handle_page_no_skip env cfg sub model event o 0 hi pre post m processed w enough decoded
        hit sorted own below marked) [
          | inl on ↦ rw h at on
          | inr ((e, raised), before) ↦ absurd (let raised' = rw h at raised in cc)
        ]

  page_before :
      (rs zs post : List EventRecord) (hi m processed : ℕ) (w v : World) (y : ℕ × ℕ)
      → Sorted 0 hi ((rs ++ zs) ++ event ∷ post)
      → All (λ r. r.topic ≡ topic) (rs ++ zs)
      → m ≤ o
      → mark sid topic w.subs ≤ o
      → handle_page env cfg sub model m processed rs w ≡ (ok y, v)
      → (y.0 ≤ o) × (mark sid topic v.subs ≤ o)
  page_before rs zs post hi m processed w v y sorted own below marked h =
      let before = (Sorted-before 0 hi o (rs ++ zs) post event decoded sorted).0 in
      let (forward, within, bounded) =
        handle_page-Bounded env cfg sub model enough topic rs 0 o m processed w y v
          (Sorted-append_left 0 o rs zs before) (All-append_left (λ r. r.topic ≡ topic) rs zs own)
          below marked h in
      (within, bounded)

  -- a page of a range that holds the event
  page-Treats :
      (pre post : List EventRecord) (n hi m processed : ℕ) (w v : World) (y : ℕ × ℕ)
      → Sorted 0 hi (pre ++ event ∷ post)
      → All (λ r. r.topic ≡ topic) pre
      → m ≤ o
      → mark sid topic w.subs ≤ o
      → handle_page env cfg sub model m processed (take (suc n) (pre ++ event ∷ post)) w ≡ (ok y, v)
      → Treats w y v
  page-Treats pre post n hi m processed w v y sorted own below marked h =
      elim (take_split (suc n) pre post event) [
        | inl (zs, inside) ↦ inl (
            page_with pre zs hi m processed w v y
              (rw inside at (Sorted-take (suc n) 0 hi (pre ++ event ∷ post) sorted)) own below
              marked (rw inside at h))
        | inr (zs, outside) ↦ inr (
            page_before (take (suc n) (pre ++ event ∷ post)) zs post hi m processed w v y
              (subst (λ x. Sorted 0 hi (x ++ event ∷ post)) outside sorted)
              (subst (All (λ r. r.topic ≡ topic)) outside own) below marked h)
      ]

  module _ (log : TopicLog) (valid : IsValidLog topic log) (n : ℕ) (size : cfg.page_size ≡ suc n)
      (live : (t : ℕ)
        → (pre : List EventRecord) × (post : List EventRecord) × (live_events (env.clock t) log
            ≡ pre ++ event ∷ post)) where
    below_end : o < log.next_offset
    below_end =
        let (pre, post, e) = live 0 in
        (Sorted-before 0 log.next_offset o pre post event decoded
          (rw e at (live_events-Sorted topic log valid (env.clock 0)))).1

    -- every range that catch-up reads from holds the event
    range_holds :
        (start t : ℕ)
        → start ≤ o
        → (pre : List EventRecord) × (post : List EventRecord) × (range start none
              (live_events (env.clock t) log)
            ≡ pre ++ event ∷ post)
          × Sorted 0 log.next_offset (pre ++ event ∷ post)
          × All (λ r. r.topic ≡ topic) pre
    range_holds start t before =
        let (pre, post, e) = live t in
        let p = in_range start none in
        let e' : range start none (live_events (env.clock t) log)
            ≡ range start none pre ++ event ∷ range start none post =
          ap (range start none) e ∙ range-append start o pre post event decoded before in
        let sorted =
          Sorted-filter 0 log.next_offset p (live_events (env.clock t) log)
            (live_events-Sorted topic log valid (env.clock t)) in
        let own =
          All-filter_by (λ r. r.topic ≡ topic) p (live_events (env.clock t) log)
            (live_events-own topic log valid (env.clock t)) in
        (
          range start none pre,
          range start none post,
          e',
          rw e' at sorted,
          All-append_left (λ r. r.topic ≡ topic) (range start none pre) _ (rw e' at own),
        )

    -- a state from which the event is still ahead
    abbrev Ahead : World → Type 0
    Ahead w = (get topic w.events ≡ some log) × (mark sid topic w.subs ≤ o)

    abbrev Completes : (ℕ → M ℕ) → Type 0
    Completes again =
        (processed k : ℕ) (w w' : World) → Ahead w → again processed w ≡ (ok k, w') → Tried w'

    abbrev Keeps : (ℕ → M ℕ) → Type 0
    Keeps again = (processed : ℕ) (w : World) → Tried w → Tried (again processed w).1

    after_save :
        (again : ℕ → M ℕ) (w v w' : World) (y : ℕ × ℕ) (k : ℕ)
        → Completes again
        → Keeps again
        → get topic w.events ≡ some log
        → v.events ≡ w.events
        → Treats w y v
        → (save_scan env cfg sub topic y.0 >> again y.1) v ≡ (ok k, w')
        → Tried w'
    after_save again w v w' y k completes keeps found same treats h =
        let (u, v2, saved, rest) =
          bind_ok (save_scan env cfg sub topic y.0) (λ _. again y.1) v k w' h in
        let m' = rw saved at (mark-save_scan env cfg sub topic y.0 v) in
        let e' = rw saved at (save_scan-KeepsEvents env cfg sub model topic y.0 v) in
        let a' = rw saved at (attempted-save_scan env cfg sub topic y.0 event.event_id v) in
        elim treats [
          | inl on ↦ rw rest at (keeps y.1 v2 (a' ∙ on))
          | inr (s, m) ↦
              completes y.1 k v2 w' (ap (get topic) (e' ∙ same) ∙ found, omega arith) rest
        ]

    round-Completes :
        (again : ℕ → M ℕ) (start t m processed : ℕ) (rs : List EventRecord) (w w' : World) (k : ℕ)
        → Completes again
        → Keeps again
        → Ahead w
        → start ≤ o
        → m ≤ o
        → rs ≡ take (suc n) (range start none (live_events (env.clock t) log))
        → round env cfg again sub model topic m processed rs w ≡ (ok k, w')
        → Tried w'
    round-Completes again start t m processed [] w w' k completes keeps ahead s b e h =
        let (pre, post, held, sorted, own) = range_holds start t s in
        absurd (take-nonempty n pre post event (sym (e ∙ ap (take (suc n)) held)))
    round-Completes again start t m processed (r ∷ rs) w w' k completes keeps (found, marked) s b e
          h =
        let (pre, post, held, sorted, own) = range_holds start t s in
        let page : r ∷ rs ≡ take (suc n) (pre ++ event ∷ post) = e ∙ ap (take (suc n)) held in
        let (y, v, got, rest) =
          bind_ok (handle_page env cfg sub model m processed (r ∷ rs)) _ w k w' h in
        let same = rw got at (handle_page-KeepsEvents env cfg sub model (r ∷ rs) m processed w) in
        let treats =
          page-Treats pre post n log.next_offset m processed w v y sorted own b marked
            (rw page at got) in
        after_save again w v w' y k completes keeps found same treats rest

    catch_up_from-Completes : (fuel : ℕ) → Completes (catch_up_from env cfg fuel sub model topic)
    unfolding catch_up_from
    catch_up_from-Completes zero processed k w w' ahead h = absurd (cc)
    catch_up_from-Completes (suc fuel) processed k w w' (found, marked) h =
        let m = mark sid topic w.subs in
        let again = catch_up_from env cfg fuel sub model topic in
        let (rs, v, got, rest) =
          bind_ok (next_page env cfg topic m) (round env cfg again sub model topic m processed) w k
            w' h in
        let bound = valid.bounded in
        let (start, t, read, same, subs, before, origin) =
          next_page_lem env cfg topic log valid n size w found m (omega (arith, below_end)) in
        let page : rs ≡ take (suc n) (range start none (live_events (env.clock t) log)) =
          (let r = rw got at read in cc) in
        let found' : get topic v.events ≡ some log = ap (get topic) (rw got at same) ∙ found in
        let subs' = rw got at subs in
        let marked' : mark sid topic v.subs ≤ o = rw subs' marked in
        round-Completes again start t m processed rs v w' k (catch_up_from-Completes fuel)
          (λ p. catch_up_from-Kept env cfg sub topic model enough event.event_id fuel p)
          (found', marked') (omega arith) marked page rest

    -- No matching event is passed over by catch-up. A topic's log is valid and holds, at every
    -- reading of the clock among the live events, an event that the selector matches and that the
    -- mark has not passed. With at least one attempt configured and pages of at least one event,
    -- and whatever the transport answers: when catch-up with the topic returns, an attempt of the
    -- event is on record.
    pub catch_up_from_complete :
        (fuel processed k : ℕ) (w w' : World)
        → get topic w.events ≡ some log
        → mark sid topic w.subs ≤ o
        → catch_up_from env cfg fuel sub model topic processed w ≡ (ok k, w')
        → attempted sid event.event_id w'.subs ≡ true
    catch_up_from_complete fuel processed k w w' found marked h =
        catch_up_from-Completes fuel processed k w w' (found, marked) h
