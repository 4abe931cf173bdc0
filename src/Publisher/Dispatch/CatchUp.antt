-- ===== src/Publisher/Dispatch/CatchUp.antt =====
-- Catch-up as a whole: the pages that it reads, one after the other.
use Prim.Native.Nat.{max}
use a2a_events_python.Common.{
  ℕ, zero, suc, ◌<◌, ◌≡◌, refl, ◌∙◌, true, Option, List, [], ◌∷◌, arith, Text, text_eq_refl,
}
use a2a_events_python.Errors.{Result, ok, raise, protocol}
use a2a_events_python.Exec.{◌>>◌, continue}
use a2a_events_python.Models.{Subscription, Topic}
use a2a_events_python.EventStore.{EventRecord}
use a2a_events_python.SubscriptionStore.{mark, mark-set_high_water, set_high_water}
use a2a_events_python.Publisher.{World, M, Env, Config, read, now}
use a2a_events_python.Publisher.Delivery.Marks.{attempted}
use a2a_events_python.Publisher.Dispatch.{
  handle_page, next_page, or_oldest, save_scan, round, catch_up_from,
}
use a2a_events_python.Publisher.Dispatch.Page.{handle_page_kept}

module _ (env : Env) (cfg : Config) (sub : Subscription) (topic : Text) where
  abbrev sid : Text
  sid = sub.subscription_id

  pub mark-save_scan :
      (scan : ℕ) (w : World)
      → mark sid topic (save_scan env cfg sub topic scan w).1.subs
        ≡ max (mark sid topic w.subs) scan
  unfolding save_scan
  mark-save_scan scan w = ground (
    arith,
    mark-set_high_water sid topic sid topic scan w.subs,
    text_eq_refl sid,
    text_eq_refl topic,
  )

  pub attempted-save_scan :
      (scan : ℕ) (e : Text) (w : World)
      → attempted sid e (save_scan env cfg sub topic scan w).1.subs ≡ attempted sid e w.subs
  unfolding save_scan set_high_water
  attempted-save_scan scan e w = ground arith

  or_oldest-subs :
      (answer : Result (List EventRecord × Option Text)) (w : World)
      → (or_oldest env cfg topic answer w).1.subs ≡ w.subs
  unfolding read now
  or_oldest-subs (ok (rs, c)) w = refl
  or_oldest-subs (raise (protocol code)) w = ground arith
  or_oldest-subs (raise e) w = refl

  next_page-subs : (m : ℕ) (w : World) → (next_page env cfg topic m w).1.subs ≡ w.subs
  unfolding next_page read now
  next_page-subs m w = or_oldest-subs _ _

  module _ (model : Topic) (enough : 0 < cfg.max_attempts) where
    abbrev Kept : Text → M ℕ → Type 0
    Kept e m = (w : World) → attempted sid e w.subs ≡ true → attempted sid e (m w).1.subs ≡ true

    abbrev page_from : ℕ → ℕ → List EventRecord → M (ℕ × ℕ)
    page_from = handle_page env cfg sub model

    after_page-Kept :
        (e : Text) (again : ℕ → M ℕ) (x : Result (ℕ × ℕ)) (v : World)
        → ((p : ℕ) → Kept e (again p))
        → attempted sid e v.subs ≡ true
        → attempted sid e
            (continue (λ y. save_scan env cfg sub topic y.0 >> again y.1) (x, v)).1.subs
          ≡ true
    after_page-Kept e again (raise r) v ih h = h
    after_page-Kept e again (ok y) v ih h =
        go (save_scan env cfg sub topic y.0 v).0 (save_scan env cfg sub topic y.0 v).1
          (attempted-save_scan y.0 e v ∙ h)
      where
        go :
            (x : Result (Unit {0})) (u : World)
            → attempted sid e u.subs ≡ true
            → attempted sid e (continue (λ _. again y.1) (x, u)).1.subs ≡ true
        go (ok t) u k = ih y.1 u k
        go (raise r) u k = k

    round-Kept :
        (e : Text) (again : ℕ → M ℕ) (position processed : ℕ) (x : Result (List EventRecord))
        (v : World)
        → ((p : ℕ) → Kept e (again p))
        → attempted sid e v.subs ≡ true
        → attempted sid e
            (continue (round env cfg again sub model topic position processed) (x, v)).1.subs
          ≡ true
    round-Kept e again position processed (raise r) v ih h = h
    round-Kept e again position processed (ok []) v ih h = h
    round-Kept e again position processed (ok (r ∷ rs)) v ih h =
        after_page-Kept e again (page_from position processed (r ∷ rs) v).0
          (page_from position processed (r ∷ rs) v).1 ih
          (handle_page_kept env cfg sub model enough e (r ∷ rs) position processed v h)

    -- What is on record stays there over catch-up.
    pub catch_up_from-Kept :
        (e : Text) (fuel processed : ℕ)
        → Kept e (catch_up_from env cfg fuel sub model topic processed)
    unfolding catch_up_from
    catch_up_from-Kept e zero processed w h = h
    catch_up_from-Kept e (suc fuel) processed w h =
        let m = mark sid topic w.subs in
        round-Kept e (catch_up_from env cfg fuel sub model topic) m processed
          (next_page env cfg topic m w).0 (next_page env cfg topic m w).1
          (catch_up_from-Kept e fuel) (rw (next_page-subs m w) h)
