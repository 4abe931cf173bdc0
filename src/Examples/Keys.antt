-- ===== src/Examples/Keys.antt =====
-- Keys, signatures, and a key set that is rotated.
use a2a_events_python.Common.{
  ℕ, zero, suc, ◌<◌, ◌%◌, ◌≡◌, ◌≢◌, refl, arith, Bool, true, false, Option, none, some, List, [],
  ◌∷◌, map, Text, text, text_eq, text_eq_refl, pos, All,
}
use a2a_events_python.Json.{str, obj, Fields, end, field}
use a2a_events_python.Errors.{ok}
use a2a_events_python.Cursor.{text_lt}
use a2a_events_python.Canonical.{canon, utf16}
use a2a_events_python.Canonical.Reorder.{SameFields, swap, in_obj, canon-SameJson}
use a2a_events_python.Signing.{Crypto, sign, verify}
use a2a_events_python.Signing.Base64.{b64url, b64url_decode, b64encode, letter, rstrip_pad}
use a2a_events_python.Signing.Base64.RoundTrip.{IsByte, b64url_decode-b64url}
use a2a_events_python.Signing.Verify.{Signs, Loads}
use a2a_events_python.Signing.KeySet.{SigningKey, init, active, jwks}
use a2a_events_python.Signing.KeySet.Refines.{
  KeyCall, adds, activates, retires, perform, promised, run, table_of, Agrees, run-refines,
}
use a2a_events_python.KeyResolver.{resolve}
use a2a_events_python.KeyResolver.Published.{resolve-active}

-- A stand-in for Ed25519 with two keys: a signature is the key and the message.
abbrev pub key_byte : Bool → ℕ
key_byte true = 1
key_byte false = 0

abbrev pub signed : Bool → Text → Text
signed key message = key_byte key ∷ map (λ c. c % 256) message

abbrev load : Text → Option Bool
load (zero ∷ []) = some false
load (suc zero ∷ []) = some true
load _ = none

abbrev pub toy : Crypto Bool Bool
toy = record {
  sign = signed;
  public_key = λ key. key;
  verify = λ key raw message. text_eq raw (signed key message);
  public_bytes = λ key. key_byte key ∷ [];
  from_public_bytes = load;
  shortest = λ m k. (text "5", pos 0);
}

message-IsByte : (message : Text) → All IsByte (map (λ c. c % 256) message)
message-IsByte [] = tt
message-IsByte (c ∷ cs) = (omega arith, message-IsByte cs)

key-IsByte : (key : Bool) → key_byte key < 256
key-IsByte true = omega arith
key-IsByte false = omega arith

pub toy-Signs : Signs toy
toy-Signs key message =
    ((key-IsByte key, message-IsByte message), text_eq_refl (signed key message))

toy-Loads : Loads toy
toy-Loads true = ((omega arith, tt), refl)
toy-Loads false = ((omega arith, tt), refl)

abbrev pub event : Fields
event =
    field (text "id") (str (text "evt_1")) (field (text "a2asubscription") (str (text "sub_1")) end)

abbrev pub event_turned : Fields
event_turned =
    field (text "a2asubscription") (str (text "sub_1")) (field (text "id") (str (text "evt_1")) end)

other_keys : utf16 (text "id") ≢ utf16 (text "a2asubscription")
unfolding utf16
other_keys h = cc

pub event-SameFields : SameFields event event_turned
event-SameFields = swap other_keys

canon-SameJson_example : canon toy.shortest (obj event) ≡ canon toy.shortest (obj event_turned)
canon-SameJson_example =
    canon-SameJson toy.shortest (obj event) (obj event_turned) (in_obj event-SameFields)

test_canon :
    canon toy.shortest (obj event) ≡ text "{\"a2asubscription\":\"sub_1\",\"id\":\"evt_1\"}"
unfolding canon utf16 text_lt
test_canon = refl

b64url_decode-b64url_example : b64url_decode (b64url (text "sure.")) ≡ some (text "sure.")
b64url_decode-b64url_example =
    b64url_decode-b64url (text "sure.")
      (omega arith, (omega arith, (omega arith, (omega arith, (omega arith, tt)))))

test_b64url : b64url (text "sure.") ≡ text "c3VyZS4"
unfolding b64url b64encode letter rstrip_pad
test_b64url = refl

abbrev first_key : SigningKey Bool
first_key = record { kid = text "k1"; private = false }

abbrev next_key : SigningKey Bool
next_key = record { kid = text "k2"; private = true }

-- the next key is published, takes over, and the old one is retired
abbrev rotation : List (KeyCall Bool)
rotation = adds next_key false ∷ activates (text "k2") ∷ retires (text "k1") ∷ []

run-refines_example :
    ((run perform rotation (init first_key [])).0
      ≡ (run promised rotation (table_of first_key [])).0)
    × Agrees
        (run perform rotation (init first_key [])).1
        (run promised rotation (table_of first_key [])).1
run-refines_example = run-refines first_key [] rotation

resolve-active_example :
    (signer : SigningKey Bool) × (public : Bool) × (active
        (run perform rotation (init first_key [])).1
      ≡ ok signer)
    × ((resolve toy (ok (jwks toy (run perform rotation (init first_key [])).1)) signer.kid []).0
        ≡ ok public)
    × (verify toy public (text "t1") event_turned (sign toy signer.private (text "t1") event)
        ≡ true)
resolve-active_example =
    resolve-active toy toy-Loads toy-Signs first_key [] rotation (text "t1") event event_turned
      event-SameFields
