-- ===== src/Publisher/Dispatch.antt =====
-- Dispatch of `A2AEventsPublisher`: catching a subscription up with its topics, over all
-- subscriptions, and `publish`. The loop of `_catch_up` takes fuel, one unit a page.
pub mod Page
pub mod NoSkip
pub mod Frame
pub mod Bounds
pub mod Pages
pub mod CatchUp
pub mod Complete
pub mod Fuel
use a2a_events_python.Common.{
  ℕ, zero, suc, ◌+◌, ◌-◌, ◌*◌, Bool, true, false, not, ◌&&◌, ◌||◌, Option, none, some, List, [],
  ◌∷◌, ◌++◌, ◌==◌, leb, ltb, if◌then◌else◌, filter_by, any_by, Text, text, text_eq, Dict, get, put,
}
use a2a_events_python.Json.{Fields}
use a2a_events_python.Errors.{
  Result, ok, raise, protocol, Exn, out_of_fuel, ErrorCode, cursor_expired,
}
use a2a_events_python.Exec.{Exec, ◌>>=◌, ◌>>◌, pure, throw, lift, gets, modify}
use a2a_events_python.Models.{Topic, Subscription}
use a2a_events_python.Selectors.{matches}
use a2a_events_python.Cursor.{encode, offset_of}
use a2a_events_python.EventStore
use a2a_events_python.EventStore.{EventRecord, NewEvent}
use a2a_events_python.SubscriptionStore
use a2a_events_python.SubscriptionStore.{mark}
use a2a_events_python.Metrics
use a2a_events_python.Publisher.{
  World, M, Env, Config, on_subs, on_metrics, deref, get_topic, now, new_id, read, is_live,
  Authorizer,
}
use a2a_events_python.Publisher.Send.{raw_event_dict}
use a2a_events_python.Publisher.Delivery.{catching, deliver_one}

abbrev position_cursor : Text → ℕ → Option Text
position_cursor topic zero = none
position_cursor topic (suc position) = some (encode topic position)

abbrev evaluated : Bool → M (Unit {0})
evaluated hit = on_metrics (
    Metrics.incr (text "selector_evaluations") 1
      ((text "result", if hit then text "match" else text "miss") ∷ []))

module _ (env : Env) (cfg : Config) where
  -- one matching of the loop over a page: a match is delivered, a miss is only counted
  unfoldable pub handle_record : Subscription → Topic → EventRecord → M (Unit {0})
  handle_record sub topic r = do
    hit ← lift (matches env.lower sub.selector (raw_event_dict r) topic.filterable_fields)
    evaluated hit
    if hit then (do acked ← deliver_one env cfg sub r; pure tt) else pure tt

  -- the loop over the records of a page; `scan` is the next offset, `processed` the count so far
  unfoldable pub handle_page : Subscription → Topic → ℕ → ℕ → List EventRecord → M (ℕ × ℕ)
  handle_page sub topic scan processed [] = pure (scan, processed)
  handle_page sub topic scan processed (r ∷ rs) =
      let skip = handle_page sub topic scan processed rs in
      do
        offset ← lift (offset_of r.cursor)
        if ltb offset scan then skip else (do
          handle_record sub topic r
          handle_page sub topic (offset + 1) (processed + 1) rs)

  abbrev is_cursor_expired : ErrorCode → Bool
  is_cursor_expired cursor_expired = true
  is_cursor_expired _ = false

  -- the `except` of the read: after an expired position, from the oldest live event
  abbrev or_oldest : Text → Result (List EventRecord × Option Text) → M (List EventRecord)
  or_oldest topic (ok (records, _)) = pure records
  or_oldest topic (raise (protocol code)) =
      if is_cursor_expired code
      then (do (records, _) ← read env topic none none cfg.page_size; pure records)
      else throw (protocol code)
  or_oldest topic (raise e) = throw e

  unfoldable pub next_page : Text → ℕ → M (List EventRecord)
  next_page topic position = do
    answer ← catching (read env topic (position_cursor topic position) none cfg.page_size)
    or_oldest topic answer

  -- the write at the end of a page
  unfoldable pub save_scan : Subscription → Text → ℕ → M (Unit {0})
  save_scan sub topic scan = do
    current ← gets (λ w. mark sub.subscription_id topic w.subs)
    if ltb current scan
        then on_subs (SubscriptionStore.set_high_water sub.subscription_id topic scan)
        else pure tt

  -- a round of `_catch_up` after its read; `again` is the loop's next round
  abbrev pub round : (ℕ → M ℕ) → Subscription → Topic → Text → ℕ → ℕ → List EventRecord → M ℕ
  round again sub model topic position processed [] = pure processed
  round again sub model topic position processed (r ∷ rs) = do
    (scan, processed') ← handle_page sub model position processed (r ∷ rs)
    save_scan sub topic scan
    again processed'

  unfoldable pub catch_up_from : ℕ → Subscription → Topic → Text → ℕ → M ℕ
  catch_up_from zero sub model topic processed = throw out_of_fuel
  catch_up_from (suc fuel) sub model topic processed = do
    position ← gets (λ w. mark sub.subscription_id topic w.subs)
    records ← next_page topic position
    round (catch_up_from fuel sub model topic) sub model topic position processed records

  -- `_catch_up`
  unfoldable pub catch_up : ℕ → Subscription → Text → M ℕ
  catch_up fuel sub topic = do model ← get_topic topic; catch_up_from fuel sub model topic 0

  unfoldable pub catch_up_all : ℕ → Subscription → List Text → ℕ → M ℕ
  catch_up_all fuel sub [] processed = pure processed
  catch_up_all fuel sub (topic ∷ topics) processed = do
    n ← catch_up fuel sub topic
    catch_up_all fuel sub topics (processed + n)

  abbrev may_deliver : Option Authorizer → Subscription → Bool
  may_deliver none sub = true
  may_deliver (some a) sub = a.authorize_delivery sub

  abbrev topics_or : Option (List Text) → List Text → List Text
  topics_or none own = own
  topics_or (some topics) own = topics

  -- `_dispatch_subscription`; the lock of a subscription is free, as no other task runs
  unfoldable pub dispatch_subscription : ℕ → Subscription → Option (List Text) → M ℕ
  dispatch_subscription fuel sub topics = do
    active ← is_live env sub
    live ← gets (deref sub)
    if not active
        then pure 0
        else if not (may_deliver cfg.authorizer live)
        then pure 0
        else catch_up_all fuel sub (topics_or topics live.topics) 0

  -- the first exception of the calls, or the sum
  abbrev sum_of : List (Result ℕ) → Result ℕ
  sum_of [] = ok 0
  sum_of (raise e ∷ rs) = raise e
  sum_of (ok n ∷ rs) = elim (sum_of rs) [ ok m ↦ ok (n + m) | raise e ↦ raise e ]

  -- `asyncio.gather`: every call runs, also after one has raised; here one after the other
  unfoldable pub gather : ℕ → Option (List Text) → List Subscription → M (List (Result ℕ))
  gather fuel topics [] = pure []
  gather fuel topics (sub ∷ subs) = do
    r ← catching (dispatch_subscription fuel sub topics)
    rs ← gather fuel topics subs
    pure (r ∷ rs)

  abbrev has_topics : List Text → Bool
  has_topics [] = false
  has_topics (t ∷ ts) = true

  unfoldable pub dispatch_pending : ℕ → M ℕ
  dispatch_pending fuel = do
    all ← gets (λ w. SubscriptionStore.list_all w.subs)
    results ← gather fuel none (filter_by (λ s. has_topics s.topics) all)
    lift (sum_of results)

  -- `_dispatch_topic`
  unfoldable pub dispatch_topic : ℕ → Text → M (Unit {0})
  dispatch_topic fuel topic = do
    all ← gets (λ w. SubscriptionStore.list_all w.subs)
    results ←
        gather fuel (some (topic ∷ []))
          (filter_by (λ s. any_by (λ t. text_eq t topic) s.topics) all)
    lift (elim (sum_of results) [ ok _ ↦ ok tt | raise e ↦ raise e ])

  -- `self.store.append`
  unfoldable pub append_event : Text → Text → Fields → Option Text → M EventRecord
  append_event topic type payload subject = do
    hex ← new_id env
    t ← now env
    λ w.
        let (r, events) =
          EventStore.append topic t
            (record {
              event_id = text "evt_" ++ hex;
              event_type = type;
              source = cfg.source;
              payload = payload;
              subject = subject;
              content_hash = env.content_hash payload;
            })
            w.events in
        (r, record w { events = events })

  unfoldable pub publish : ℕ → Text → Text → Fields → Option Text → M EventRecord
  publish fuel topic type payload subject = do
    r ← append_event topic type payload subject
    on_metrics (Metrics.incr (text "published_events") 1 ((text "topic", topic) ∷ []))
    if cfg.deferred_dispatch then pure tt else dispatch_topic fuel topic
    pure r
