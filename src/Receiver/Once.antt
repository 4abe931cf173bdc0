-- ===== src/Receiver/Once.antt =====
-- Each event is handled once.
use a2a_events_python.Common.{
  ℕ, ◌≡◌, refl, sym, ap, ◌∙◌, ◌⊎◌, inl, inr, true, false, Option, none, some, List, [], ◌∷◌, ◌++◌,
  map, append-nil, append_assoc, Bool-cases, text,
}
use a2a_events_python.Json.{Json, Fields, get_field, truthy}
use a2a_events_python.Errors.{ok, Result-cases}
use a2a_events_python.Signing.{Crypto}
use a2a_events_python.Receiver.{
  EventReceiver, Setup, Moment, keep, call_hook, verify_json, fresh, known, delivery_token_ok,
  dict_of, init, is_seen, accept_new, accept_id, accept_with, accept,
}

-- the id of an event, as the source looks it up
abbrev pub id_of : Fields → Option Json
id_of event = get_field (text "id") event

-- Each id is none of the earlier ones.
abbrev pub New : List Json → List Json → Type 0
New earlier [] = Unit
New earlier (id ∷ ids) = (is_seen id earlier ≡ ok false) × New (earlier ++ id ∷ []) ids

New-snoc :
    (earlier ids : List Json) (id : Json)
    → New earlier ids
    → is_seen id (earlier ++ ids) ≡ ok false
    → New earlier (ids ++ id ∷ [])
New-snoc earlier [] id h fresh = (rw (append-nil earlier) at fresh, tt)
New-snoc earlier (i ∷ ids) id (first, h) fresh =
    (first, New-snoc (earlier ++ i ∷ []) ids id h (rw (append_assoc earlier (i ∷ []) ids) fresh))

-- What is kept: the ids that were seen are those of the events received, in their order, and each is
-- none of the earlier ones.
abbrev pub IsValid : EventReceiver → Type 0
IsValid r = (map id_of r.received ≡ map some r.seen) × New [] r.seen

map-snoc {ℓ κ} :
    {A : Type ℓ} {B : Type κ} (f : A → B) (xs : List A) (x : A)
    → map f (xs ++ x ∷ []) ≡ map f xs ++ f x ∷ []
map-snoc f [] x = refl
map-snoc f (y ∷ ys) x = ap (λ zs. f y ∷ zs) (map-snoc f ys x)

keep-IsValid :
    (id : Json) (event : Fields) (r : EventReceiver)
    → id_of event ≡ some id
    → is_seen id r.seen ≡ ok false
    → IsValid r
    → IsValid (keep id event r)
keep-IsValid id event r own fresh (same, once) = (
  map-snoc id_of r.received event ∙ rw same (rw own (sym (map-snoc some r.seen id))),
  New-snoc [] r.seen id once fresh,
)

-- A call keeps nothing, or an event with an id that was not seen.
abbrev KeepsOne : EventReceiver → EventReceiver → Type 0
KeepsOne r r' =
    (r' ≡ r)
    ⊎ ((id : Json) × (event : Fields) × (id_of event ≡ some id)
        × (is_seen id r.seen ≡ ok false)
        × (r' ≡ keep id event r))

KeepsOne-IsValid : (r r' : EventReceiver) → KeepsOne r r' → IsValid r → IsValid r'
KeepsOne-IsValid r r' (inl same) h = rw same h
KeepsOne-IsValid r r' (inr (id, event, own, fresh, e)) h =
    rw e (keep-IsValid id event r own fresh h)

accept_new-KeepsOne :
    (setup : Setup) (id : Json) (event : Fields) (r : EventReceiver)
    → id_of event ≡ some id
    → is_seen id r.seen ≡ ok false
    → KeepsOne r (accept_new setup id event r).1
unfolding accept_new
accept_new-KeepsOne setup id event r own fresh =
    elim (Result-cases (call_hook setup.on_event event)) [
      | inr (e, failed) ↦ inl (rw (accept_new, failed) refl)
      | inl (none, answer) ↦ inr (id, event, own, fresh, rw (accept_new, answer) refl)
      | inl (some result, answer) ↦ elim (Bool-cases result.ack) [
        | inl done ↦ inr (id, event, own, fresh, rw (accept_new, answer) (rw done refl))
        | inr not_done ↦ inl (rw (accept_new, answer) (rw not_done refl))
      ]
    ]

accept_id-KeepsOne :
    (setup : Setup) (found : Option Json) (event : Fields) (r : EventReceiver)
    → id_of event ≡ found
    → KeepsOne r (accept_id setup found event r).1
unfolding accept_id
accept_id-KeepsOne setup none event r own = inl refl
accept_id-KeepsOne setup (some id) event r own = elim (Bool-cases (truthy id)) [
  | inr hollow ↦ inl (rw (accept_id, hollow) refl)
  | inl filled ↦ elim (Result-cases (is_seen id r.seen)) [
    | inr (e, failed) ↦ inl (rw (accept_id, filled) (rw (accept_id, failed) refl))
    | inl (true, again) ↦ inl (rw (accept_id, filled) (rw (accept_id, again) refl))
    | inl (false, fresh) ↦
        let step = accept_new-KeepsOne setup id event r own fresh in
        rw (accept_id, filled) (rw (accept_id, fresh) step)
  ]
]

module _ {Private Public : Type 0} (crypto : Crypto Private Public) (setup : Setup) where
  accept_with-KeepsOne :
      (found : Option Public) (now : ℕ) (event : Fields) (timestamp signature : Json)
      (r : EventReceiver)
      → KeepsOne r (accept_with crypto setup found now event timestamp signature r).1
  unfolding accept_with
  accept_with-KeepsOne none now event timestamp signature r = inl refl
  accept_with-KeepsOne (some key) now event timestamp signature r =
      elim (Result-cases (verify_json crypto setup key timestamp event signature)) [
        | inr (e, failed) ↦ inl (rw (accept_with, failed) refl)
        | inl (false, bad) ↦ inl (rw (accept_with, bad) refl)
        | inl (true, good) ↦ elim (Bool-cases (fresh crypto setup now timestamp)) [
          | inr late ↦ inl (rw (accept_with, good) (rw (accept_with, late) refl))
          | inl timely ↦
              let step = accept_id-KeepsOne setup (get_field (text "id") event) event r refl in
              rw (accept_with, good) (rw (accept_with, timely) step)
        ]
      ]

  accept-KeepsOne :
      (moment : Moment Public) (body key_id timestamp signature token : Json) (r : EventReceiver)
      → KeepsOne r (accept crypto setup moment body key_id timestamp signature token r).1
  unfolding accept
  accept-KeepsOne moment body key_id timestamp signature token r =
      elim (Result-cases (dict_of body)) [
        | inr (e, failed) ↦ inl (rw (accept, failed) refl)
        | inl (event, dict) ↦
            elim (Result-cases (
              delivery_token_ok (get_field (text "a2asubscription") event) token
                r.delivery_tokens)) [
                  | inr (e, failed) ↦ inl (rw (accept, dict) (rw (accept, failed) refl))
                  | inl (false, bad) ↦ inl (rw (accept, dict) (rw (accept, bad) refl))
                  | inl (true, good) ↦
                      elim (Result-cases (known crypto setup (moment.resolve_key key_id))) [
                        | inr (e, failed) ↦
                            inl (rw (accept, dict) (rw (accept, good) (rw (accept, failed) refl)))
                        | inl (found, answer) ↦
                            let step =
                              accept_with-KeepsOne found moment.now event timestamp signature r in
                            rw (accept, dict) (rw (accept, good) (rw (accept, answer) step))
                      ]
                ]
      ]

  -- a delivery, as it comes in
  pub record Delivery : Type 0 where
    pub moment : Moment Public
    pub body : Json
    pub key_id : Json
    pub timestamp : Json
    pub signature : Json
    pub token : Json

  unfoldable pub accept_all : List Delivery → EventReceiver → EventReceiver
  accept_all [] r = r
  accept_all (d ∷ ds) r =
      accept_all ds
        (accept crypto setup d.moment d.body d.key_id d.timestamp d.signature d.token r).1

  accept_all-IsValid :
      (ds : List Delivery) (r : EventReceiver) → IsValid r → IsValid (accept_all ds r)
  unfolding accept_all
  accept_all-IsValid [] r h = h
  accept_all-IsValid (d ∷ ds) r h =
      accept_all-IsValid ds
        (accept crypto setup d.moment d.body d.key_id d.timestamp d.signature d.token r).1
        (KeepsOne-IsValid r
          (accept crypto setup d.moment d.body d.key_id d.timestamp d.signature d.token r).1
          (accept-KeepsOne d.moment d.body d.key_id d.timestamp d.signature d.token r) h)

  -- Each event is received once. From a new receiver, after any deliveries at any times, with
  -- whatever keys and hook: the ids that were seen are those of the events received, in their order,
  -- and none of them equals an earlier one.
  pub accept_all_once : (ds : List Delivery) → IsValid (accept_all ds init)
  accept_all_once ds = accept_all-IsValid ds init (refl, tt)
