-- ===== src/Publisher/Delivery/Marks.antt =====
-- How the steps of a delivery move the high-water mark.
use Prim.Native.Nat.{max}
use a2a_events_python.Common.{
  ℕ, ◌+◌, ◌≤◌, ◌≡◌, refl, ◌⊎◌, inl, inr, Bool, true, ◌&&◌, ◌||◌, List, [], ◌∷◌, ◌++◌, arith, any_by,
  Text, text_eq,
}
use a2a_events_python.Errors.{Result, ok, raise}
use a2a_events_python.Exec.{◌>>=◌, continue}
use a2a_events_python.SubscriptionStore.{SubscriptionStore, DeliveryAttempt, mark}
use a2a_events_python.Publisher.{World, M}

-- an attempt of the event to the subscription is on record
abbrev pub is_attempt : Text → Text → DeliveryAttempt → Bool
is_attempt sid event_id a = text_eq a.subscription_id sid && text_eq a.event_id event_id

abbrev pub attempted : Text → Text → SubscriptionStore → Bool
attempted sid event_id s = any_by (is_attempt sid event_id) s.attempts

pub any_by-append {ℓ} :
    {A : Type ℓ} (p : A → Bool) (xs ys : List A) → any_by p (xs ++ ys) ≡ any_by p xs || any_by p ys
any_by-append p [] ys = refl
any_by-append p (x ∷ xs) ys = ground (arith, any_by-append p xs ys)

module _ (sid topic event_id : Text) (o : ℕ) where
  -- From `s` to `s'` the recorded attempts stay on record, and the mark of the topic stays, or
  -- an attempt of the event is on record and the mark is at most just past the event.
  pub record Moves (s s' : SubscriptionStore) : Type 0 where
    pub kept : (e : Text) → attempted sid e s ≡ true → attempted sid e s' ≡ true
    pub moved :
        (mark sid topic s' ≤ mark sid topic s)
        ⊎ ((mark sid topic s' ≤ max (mark sid topic s) (o + 1))
            × (attempted sid event_id s' ≡ true))

  pub Moves-refl : (s : SubscriptionStore) → Moves s s
  Moves-refl s = record { kept = λ e h. h; moved = inl (omega arith) }

  pub Moves-trans : (a b c : SubscriptionStore) → Moves a b → Moves b c → Moves a c
  Moves-trans a b c h k = record {
    kept = λ e x. k.kept e (h.kept e x);
    moved = elim k.moved [
      | inl stay ↦ elim h.moved [
        | inl stay' ↦ inl (omega arith)
        | inr moved' ↦ inr (omega (arith, moved'.0), k.kept event_id moved'.1)
      ]
      | inr moved ↦ elim h.moved [
        | inl stay' ↦ inr (omega (arith, moved.0), moved.1)
        | inr moved' ↦ inr (omega (arith, moved.0, moved'.0), moved.1)
      ]
    ];
  }

  -- An action that only makes such moves, from any state, or where the event is on record.
  abbrev pub Does : {A : Type 0} → M A → Type 0
  Does m = (w : World) → Moves w.subs (m w).1.subs

  abbrev pub DoesRecorded : {A : Type 0} → M A → Type 0
  DoesRecorded m = (w : World) → attempted sid event_id w.subs ≡ true → Moves w.subs (m w).1.subs

  pub Does-same : {A : Type 0} (m : M A) → ((w : World) → (m w).1.subs ≡ w.subs) → Does m
  Does-same m h w = rw h (Moves-refl w.subs)

  continue-Moves :
      {A B : Type 0} (f : A → M B) (r : Result A) (s : SubscriptionStore) (w : World)
      → Moves s w.subs
      → ((a : A) → r ≡ ok a → Moves w.subs (f a w).1.subs)
      → Moves s (continue f (r, w)).1.subs
  continue-Moves f (ok a) s w h k = Moves-trans s w.subs _ h (k a refl)
  continue-Moves f (raise e) s w h k = h

  pub Does-bind :
      {A B : Type 0} (m : M A) (f : A → M B) → Does m → ((a : A) → Does (f a)) → Does (m >>= f)
  Does-bind m f h k w = continue-Moves f (m w).0 w.subs (m w).1 (h w) (λ a e. k a (m w).1)

  pub DoesRecorded-bind :
      {A B : Type 0} (m : M A) (f : A → M B)
      → DoesRecorded m
      → ((a : A) → DoesRecorded (f a))
      → DoesRecorded (m >>= f)
  DoesRecorded-bind m f h k w on =
      continue-Moves f (m w).0 w.subs (m w).1 (h w on)
        (λ a e. k a (m w).1 ((h w on).kept event_id on))

  pub Does-Recorded : {A : Type 0} (m : M A) → Does m → DoesRecorded m
  Does-Recorded m h w on = h w
