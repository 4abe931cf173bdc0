-- ===== src/Publisher/Dispatch/Fuel.antt =====
-- How many rounds catch-up takes.
use a2a_events_python.Common.{
  ℕ, zero, suc, ◌+◌, ◌≤◌, ◌<◌, ◌≡◌, refl, sym, ap, ◌∙◌, ◌⊎◌, inl, inr, none, some, List, [], ◌∷◌,
  arith, Bool-cases, Text, get, take, All, All-filter_by, All-take,
}
use mathlib.Core.Path.{subst}
use a2a_events_python.Exec.{bind_same}
use a2a_events_python.Models.{Subscription, Topic}
use a2a_events_python.EventStore.{EventRecord, TopicLog, live_events, within}
use a2a_events_python.EventStore.Log.{
  IsValidLog, Sorted, Sorted-filter, Sorted-take, live_events-Sorted, live_events-own,
}
use a2a_events_python.EventStore.Range.{range, in_range}
use a2a_events_python.SubscriptionStore.{mark}
use a2a_events_python.Publisher.{World, Env, Config}
use a2a_events_python.Publisher.Dispatch.{handle_page, next_page, save_scan, round, catch_up_from}
use a2a_events_python.Publisher.Dispatch.Frame.{handle_page-KeepsEvents, save_scan-KeepsEvents}
use a2a_events_python.Publisher.Dispatch.Bounds.{handle_page-Bounded, handle_page_advances}
use a2a_events_python.Publisher.Dispatch.Pages.{StartsAt, next_page_lem}
use a2a_events_python.Publisher.Dispatch.CatchUp.{mark-save_scan}

range-Sorted :
    (start lo hi : ℕ) (es : List EventRecord)
    → start ≤ hi
    → Sorted lo hi es
    → Sorted start hi (range start none es)
unfolding within
range-Sorted start lo hi [] b h = b
range-Sorted start lo hi (r ∷ es) b (o, d, l, h) = elim (Bool-cases (in_range start none r)) [
  | inl there ↦
      let from : start ≤ o = (let t = rw d at there in ground arith) in
      rw there (o, d, from, Sorted-filter (suc o) hi (in_range start none) es h)
  | inr before ↦ rw before (range-Sorted start (suc o) hi es b h)
]

StartsAt-Sorted :
    (m hi : ℕ) (es : List EventRecord) → StartsAt m es → Sorted 0 hi es → Sorted m hi es
StartsAt-Sorted m hi [] s h = absurd s
StartsAt-Sorted m hi (r ∷ es) s (o, d, l, h) = let from : m ≤ o = rw d at s in (o, d, from, h)

module _ (env : Env) (cfg : Config) (sub : Subscription) (model : Topic) (topic : Text)
    (log : TopicLog) (valid : IsValidLog topic log) (n : ℕ) (size : cfg.page_size ≡ suc n)
    (enough : 0 < cfg.max_attempts) (live : List EventRecord)
    (steady : (t : ℕ) → live_events (env.clock t) log ≡ live) where
  abbrev sid : Text
  sid = sub.subscription_id

  page-Sorted :
      (start t m : ℕ)
      → m ≤ log.next_offset
      → ((start ≡ m) ⊎ ((s : ℕ) × StartsAt m (live_events (env.clock s) log)))
      → Sorted m log.next_offset (take (suc n) (range start none (live_events (env.clock t) log)))
  page-Sorted start t m below (inl same) =
      let sorted = live_events-Sorted topic log valid (env.clock t) in
      rw same (
        Sorted-take (suc n) m log.next_offset (range m none (live_events (env.clock t) log))
          (range-Sorted m 0 log.next_offset (live_events (env.clock t) log) below sorted))
  page-Sorted start t m below (inr (s, late)) =
      let late' : StartsAt m (live_events (env.clock t) log) =
        subst (StartsAt m) (steady s ∙ sym (steady t)) late in
      let sorted =
        StartsAt-Sorted m log.next_offset (live_events (env.clock t) log) late'
          (live_events-Sorted topic log valid (env.clock t)) in
      Sorted-take (suc n) m log.next_offset (range start none (live_events (env.clock t) log)) (
        Sorted-filter m log.next_offset (in_range start none) (live_events (env.clock t) log)
          sorted)

  page-own :
      (start t : ℕ)
      → All (λ r. r.topic ≡ topic) (take (suc n) (range start none (live_events (env.clock t) log)))
  page-own start t =
      All-take (λ r. r.topic ≡ topic) (suc n) (range start none (live_events (env.clock t) log))
        (All-filter_by (λ r. r.topic ≡ topic) (in_range start none) (live_events (env.clock t) log)
          (live_events-own topic log valid (env.clock t)))

  -- a state within the log, from which `fuel` rounds are more than there are offsets ahead
  abbrev Room : ℕ → World → Type 0
  Room fuel w =
      (get topic w.events ≡ some log)
      × (mark sid topic w.subs ≤ log.next_offset)
      × (log.next_offset < mark sid topic w.subs + fuel)

  abbrev Agree : ℕ → ℕ → Type 0
  Agree a b =
      (processed : ℕ) (w : World)
      → Room a w
      → Room b w
      → catch_up_from env cfg a sub model topic processed w
        ≡ catch_up_from env cfg b sub model topic processed w

  round_agrees :
      (a b m processed : ℕ) (rs : List EventRecord) (w : World)
      → Agree a b
      → Room (suc a) w
      → Room (suc b) w
      → m ≡ mark sid topic w.subs
      → Sorted m log.next_offset rs
      → All (λ r. r.topic ≡ topic) rs
      → round env cfg (catch_up_from env cfg a sub model topic) sub model topic m processed rs w
        ≡ round env cfg (catch_up_from env cfg b sub model topic) sub model topic m processed rs w
  round_agrees a b m processed [] w ih ra rb e sorted own = refl
  round_agrees a b m processed (r ∷ rs) w ih (found, below, ra) (found', below', rb) e
        (o, d, l, sorted) own =
      bind_same (handle_page env cfg sub model m processed (r ∷ rs)) _ _ w (λ y v got.
        bind_same (save_scan env cfg sub topic y.0) _ _ v (λ u v' saved.
          let whole : Sorted m log.next_offset (r ∷ rs) = (o, d, l, sorted) in
          let forward =
            handle_page_advances env cfg sub model enough topic r rs m log.next_offset o m processed
              w y v d whole own l below got in
          let (back, within, bounded) =
            handle_page-Bounded env cfg sub model enough topic (r ∷ rs) m log.next_offset m
              processed w y v whole own (omega arith) below got in
          let m' = rw saved at (mark-save_scan env cfg sub topic y.0 v) in
          let e1 = rw got at (handle_page-KeepsEvents env cfg sub model (r ∷ rs) m processed w) in
          let e2 = rw saved at (save_scan-KeepsEvents env cfg sub model topic y.0 v) in
          let found2 : get topic v'.events ≡ some log = ap (get topic) (e2 ∙ e1) ∙ found in
          ih y.1 v' (found2, omega arith, omega arith) (found2, omega arith, omega arith)))

  agree : (a b : ℕ) → Agree a b
  unfolding catch_up_from
  agree zero b processed w (found, below, room) rb = absurd (omega arith)
  agree (suc a) zero processed w ra (found, below, room) = absurd (omega arith)
  agree (suc a) (suc b) processed w (found, below, ra) (found', below', rb) =
      let m = mark sid topic w.subs in
      let bound = valid.bounded in
      let (start, t, read, same, subs, before, origin) =
        next_page_lem env cfg topic log valid n size w found m (omega arith) in
      bind_same (next_page env cfg topic m)
        (round env cfg (catch_up_from env cfg a sub model topic) sub model topic m processed)
        (round env cfg (catch_up_from env cfg b sub model topic) sub model topic m processed) w
        (λ rs v got.
          let page : rs ≡ take (suc n) (range start none (live_events (env.clock t) log)) =
            (let r = rw got at read in cc) in
          let subs' = rw got at subs in
          let found2 : get topic v.events ≡ some log = ap (get topic) (rw got at same) ∙ found in
          let there : mark sid topic v.subs ≡ m = ap (mark sid topic) subs' in
          round_agrees a b m processed rs v (agree a b) (found2, omega arith, omega arith)
            (found2, omega arith, omega arith) (sym there)
            (rw page (page-Sorted start t m below origin)) (rw page (page-own start t)))

  -- Catch-up comes to an end. A topic's log is valid, its live events are the same at every reading
  -- of the clock, and the mark lies within the log. With at least one attempt configured and pages
  -- of at least one event: any two amounts of fuel that exceed the number of offsets from the mark
  -- to the end of the log give the same outcome.
  pub catch_up_from_ends :
      (fuel fuel' processed : ℕ) (w : World)
      → get topic w.events ≡ some log
      → mark sid topic w.subs ≤ log.next_offset
      → log.next_offset < mark sid topic w.subs + fuel
      → log.next_offset < mark sid topic w.subs + fuel'
      → catch_up_from env cfg fuel sub model topic processed w
        ≡ catch_up_from env cfg fuel' sub model topic processed w
  catch_up_from_ends fuel fuel' processed w found below room room' =
      agree fuel fuel' processed w (found, below, room) (found, below, room')
