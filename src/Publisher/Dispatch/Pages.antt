-- ===== src/Publisher/Dispatch/Pages.antt =====
-- The page that catch-up reads next.
use a2a_events_python.Common.{
  ℕ, zero, suc, ◌+◌, ◌≤◌, ◌<◌, ◌≡◌, refl, sym, ◌∙◌, ◌⊎◌, inl, inr, none, some, List, [], ◌∷◌, arith,
  ltb, Bool-cases, Text, text_eq_refl, get, take,
}
use mathlib.Core.Path.{subst}
use a2a_events_python.Errors.{Result, ok}
use a2a_events_python.Cursor.{encode, offset_for}
use a2a_events_python.Cursor.Decimal.{max_offset}
use a2a_events_python.Cursor.RoundTrip.{offset_for-encode}
use a2a_events_python.EventStore
use a2a_events_python.EventStore.{EventRecord, TopicLog, live_events, to_offset}
use a2a_events_python.EventStore.Log.{IsValidLog}
use a2a_events_python.EventStore.Range.{range, offset}
use a2a_events_python.EventStore.Reads.{page_of, read_all, read_after, unless_expired}
use a2a_events_python.Publisher.{World, Env, Config, now, read}
use a2a_events_python.Publisher.Dispatch.{next_page, or_oldest}

no_end : (topic : Text) → to_offset topic none ≡ ok none
unfolding to_offset
no_end topic = refl

-- the oldest event lies at `m` or later
abbrev pub StartsAt : ℕ → List EventRecord → Type 0
StartsAt m [] = ⊥
StartsAt m (r ∷ rs) = m ≤ offset r

module _ (env : Env) (cfg : Config) (topic : Text) (log : TopicLog) (valid : IsValidLog topic log)
    (n : ℕ) (size : cfg.page_size ≡ suc n) where
  abbrev pub live_at : ℕ → List EventRecord
  live_at t = live_events (env.clock t) log

  -- The page read from mark `m`: the first live events from `m`, or from the start where at some
  -- reading of the clock the oldest event was at `m` or later.
  abbrev pub Reads : ℕ → World → Result (List EventRecord) × World → Type 0
  Reads m w y =
      (start : ℕ) × (t : ℕ) × (y.0 ≡ ok (take (suc n) (range start none (live_at t))))
      × (y.1.events ≡ w.events)
      × (y.1.subs ≡ w.subs)
      × (start ≤ m)
      × ((start ≡ m) ⊎ ((s : ℕ) × StartsAt m (live_at s)))

  decoded : (p : ℕ) → p < max_offset → offset_for topic (encode topic p) ≡ ok p
  decoded p below = offset_for-encode topic topic p valid.named below ∙ rw (text_eq_refl topic) refl

  module _ (w : World) (found : get topic w.events ≡ some log) where
    oldest_page :
        (k : ℕ)
        → EventStore.read topic none none cfg.page_size (env.clock k) (env.clock (k + 1)) w.events
          ≡ page_of n (range 0 none (live_at k))
    oldest_page k = rw size (
        read_all topic w.events log found valid none none (no_end topic) n (env.clock k)
          (env.clock (k + 1)))

    page_after :
        (p : ℕ)
        → p < max_offset
        → EventStore.read topic
            (some (encode topic p))
            none
            cfg.page_size
            (env.clock w.ticks)
            (env.clock (w.ticks + 1))
            w.events
          ≡ unless_expired p
              (page_of n (range (p + 1) none (live_at w.ticks)))
              (live_at (w.ticks + 1))
    page_after p below = rw size (
        read_after topic w.events log found valid none none (no_end topic) n (env.clock w.ticks)
          (env.clock (w.ticks + 1)) (encode topic p) p (decoded p below))

    abbrev later : World
    later = record w { ticks = w.ticks + 1 + 1 }

    after_answer :
        (p : ℕ) (oldest : List EventRecord)
        → ((oldest ≡ []) ⊎ ((s : ℕ) × (live_at s ≡ oldest)))
        → Reads (suc p) w (
            or_oldest env cfg topic
              (unless_expired p (page_of n (range (p + 1) none (live_at w.ticks))) oldest)
              later)
    unfolding read now
    after_answer p [] from = (p + 1, w.ticks, refl, refl, refl, omega arith, inl (omega arith))
    after_answer p (r ∷ rs) (inl e) = absurd (cc)
    after_answer p (r ∷ rs) (inr (s, e)) = elim (Bool-cases (ltb p (offset r))) [
      | inl expired ↦ rw expired (
          rw (oldest_page (w.ticks + 1 + 1)) (
            0,
            w.ticks + 1 + 1,
            refl,
            refl,
            refl,
            omega arith,
            inr (s, subst (StartsAt (suc p)) (sym e) (ground arith)),
          ))
      | inr kept ↦ rw kept (p + 1, w.ticks, refl, refl, refl, omega arith, inl (omega arith))
    ]

    -- What the next read of catch-up returns on a valid log.
    pub next_page_lem : (m : ℕ) → m ≤ max_offset → Reads m w (next_page env cfg topic m w)
    unfolding next_page read now
    next_page_lem zero below =
        rw (oldest_page w.ticks, next_page) (0, w.ticks, refl, refl, refl, omega arith, inl refl)
    next_page_lem (suc p) below =
        rw (page_after p (omega arith), next_page)
          (after_answer p (live_at (w.ticks + 1)) (inr (w.ticks + 1, refl)))
