-- ===== src/Publisher/Dispatch/Bounds.antt =====
-- How far a page takes the scan position and the mark.
use a2a_events_python.Common.{
  ℕ, suc, ◌+◌, ◌≤◌, ◌<◌, ◌≡◌, inl, inr, false, List, [], ◌∷◌, arith, ltb, Bool-cases, Text, All,
}
use a2a_events_python.Errors.{ok}
use a2a_events_python.Exec.{◌>>◌, bind_ok}
use a2a_events_python.Models.{Subscription, Topic}
use a2a_events_python.Cursor.{offset_of}
use a2a_events_python.EventStore.{EventRecord}
use a2a_events_python.EventStore.Log.{Sorted, Sorted-le}
use a2a_events_python.SubscriptionStore.{SubscriptionStore, mark}
use a2a_events_python.Publisher.{World, Env, Config}
use a2a_events_python.Publisher.Delivery.Marks.{Moves}
use a2a_events_python.Publisher.Dispatch.{handle_record, handle_page}
use a2a_events_python.Publisher.Dispatch.Page.{handle_record-Handles}

-- A record of the topic below the bound does not take the mark past the bound.
mark_below :
    (sid topic : Text) (r : EventRecord) (o hi : ℕ) (s s' : SubscriptionStore)
    → r.topic ≡ topic
    → o < hi
    → Moves sid r.topic r.event_id o s s'
    → mark sid topic s ≤ hi
    → mark sid topic s' ≤ hi
mark_below sid topic r o hi s s' same below h m = rw (← same) (elim h.moved [
  | inl stay ↦ let m' = rw (← same) at m in omega arith
  | inr moved ↦ let m' = rw (← same) at m in omega (arith, moved.0)
])

module _ (env : Env) (cfg : Config) (sub : Subscription) (model : Topic)
    (enough : 0 < cfg.max_attempts) (topic : Text) where
  -- the page returned: its scan position does not go back, and it and the mark stay within `hi`
  abbrev pub Within : ℕ → ℕ → ℕ × ℕ → World → Type 0
  Within scan hi y w = (scan ≤ y.0) × (y.0 ≤ hi) × (mark sub.subscription_id topic w.subs ≤ hi)

  abbrev Bounded : List EventRecord → Type 0
  Bounded rs =
      (lo hi scan processed : ℕ) (w : World) (y : ℕ × ℕ) (w' : World)
      → Sorted lo hi rs
      → All (λ r. r.topic ≡ topic) rs
      → scan ≤ hi
      → mark sub.subscription_id topic w.subs ≤ hi
      → handle_page env cfg sub model scan processed rs w ≡ (ok y, w')
      → Within scan hi y w'

  taken_step :
      (r : EventRecord) (rs : List EventRecord) (o hi processed : ℕ) (w : World) (y : ℕ × ℕ)
      (w' : World)
      → offset_of r.cursor ≡ ok o
      → Sorted (suc o) hi rs
      → All (λ r. r.topic ≡ topic) (r ∷ rs)
      → mark sub.subscription_id topic w.subs ≤ hi
      → Bounded rs
      → (handle_record env cfg sub model r >> handle_page env cfg sub model (o + 1) processed rs) w
        ≡ (ok y, w')
      → Within (o + 1) hi y w'
  taken_step r rs o hi processed w y w' d sorted (same, own) m ih h =
      let (u, v, got, rest) =
        bind_ok (handle_record env cfg sub model r)
          (λ _. handle_page env cfg sub model (o + 1) processed rs) w y w' h in
      let moves = (handle_record-Handles env cfg sub model enough r o d w).0 in
      let moves' = rw got at moves in
      let below : o < hi = Sorted-le (suc o) hi rs sorted in
      ih (suc o) hi (o + 1) processed v y w' sorted own (omega arith)
        (mark_below sub.subscription_id topic r o hi w.subs v.subs same below moves' m) rest

  pub handle_page-Bounded : (rs : List EventRecord) → Bounded rs
  unfolding handle_page
  handle_page-Bounded [] lo hi scan processed w y w' sorted own s m h =
      let e : (scan, processed) ≡ y = cc in
      let e' : w ≡ w' = cc in (rw (← e) (omega arith), rw (← e) s, rw (← e') m)
  handle_page-Bounded (r ∷ rs) lo hi scan processed w y w' (o, d, l, sorted) own s m h =
      elim (Bool-cases (ltb o scan)) [
        | inl skip ↦
            let h' = rw skip at (rw d at h) in
            handle_page-Bounded rs (suc o) hi scan processed w y w' sorted own.1 s m h'
        | inr after ↦
            let h' = rw after at (rw d at h) in
            let (forward, within, bounded) =
              taken_step r rs o hi (processed + 1) w y w' d sorted own m (handle_page-Bounded rs)
                h' in
            (ground arith, within, bounded)
      ]

  -- A page whose first record the scan has not passed moves the scan position.
  pub handle_page_advances :
      (r : EventRecord) (rs : List EventRecord) (lo hi o scan processed : ℕ) (w : World) (y : ℕ × ℕ)
      (w' : World)
      → offset_of r.cursor ≡ ok o
      → Sorted lo hi (r ∷ rs)
      → All (λ r. r.topic ≡ topic) (r ∷ rs)
      → scan ≤ o
      → mark sub.subscription_id topic w.subs ≤ hi
      → handle_page env cfg sub model scan processed (r ∷ rs) w ≡ (ok y, w')
      → scan < y.0
  unfolding handle_page
  handle_page_advances r rs lo hi o scan processed w y w' at (p, d, l, sorted) own s m h =
      let same : p ≡ o = cc in
      let after : ltb p scan ≡ false = ground arith in
      let (forward, within, bounded) =
        taken_step r rs p hi (processed + 1) w y w' d sorted own m (handle_page-Bounded rs)
          (rw after at (rw d at h)) in
      omega arith
