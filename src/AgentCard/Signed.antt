-- ===== src/AgentCard/Signed.antt =====
-- `Ed25519CardSignatureVerifier` and `sign_card` of agentcard.py: a detached signature over the
-- canonical JSON of a card without its "signatures".
pub mod Verifies
use a2a_events_python.Common.{
  ℕ, ◌/◌, ◌%◌, Bool, true, false, ◌&&◌, Option, none, some, List, [], ◌∷◌, ◌++◌, if◌then◌else◌, ltb,
  Text, text, text_eq, all_by,
}
use a2a_events_python.Json.{
  Json, str, arr, obj, nil, cons, Fields, end, field, get_field, put_field, truthy,
}
use a2a_events_python.Errors.{Result, ok, raise, value_error, type_error, ◌>>=◌, ◌>>◌}
use a2a_events_python.Canonical.{escape, utf16, hex}
use a2a_events_python.Signing.{Crypto, utf8, canonicalize}
use a2a_events_python.Signing.Base64.{b64url, b64url_decode}
use a2a_events_python.AgentCard.{Python, text_of, each_or_empty, dict_of}

-- {k: v for k, v in card.items() if k != "signatures"}
unfoldable pub unsigned : Fields → Fields
unsigned end = end
unsigned (field k v fs) =
    let rest = unsigned fs in if text_eq k (text "signatures") then rest else field k v rest

-- s.encode("ascii"), of a text that goes before the payload
abbrev pub ascii : Text → Result Text
ascii s = if all_by (λ c. ltb c 128) s then ok s else raise value_error

-- `_b64url_decode` on any JSON; `none` is its `ValueError`
abbrev pub decoded : Json → Result (Option Text)
decoded (str s) = ok (b64url_decode s)
decoded _ = raise type_error

-- \uXXXX for each code unit
unfoldable pub units : List ℕ → Text
units [] = []
units (u ∷ us) =
    text "\\u" ++ hex (u / 4096) ∷ hex (u / 256 % 16) ∷ hex (u / 16 % 16) ∷ hex (u % 16) ∷ units us

-- json.dumps of a text: all but the printable ASCII characters is escaped, U+007F too
unfoldable pub ascii_quoted : Text → Text
unfolding escape utf16 units
ascii_quoted [] = 34 ∷ []
ascii_quoted (c ∷ cs) = (if ltb c 127 then escape c else units (utf16 (c ∷ []))) ++ ascii_quoted cs

-- json.dumps({"alg": "EdDSA", "kid": kid}, separators=(",", ":"))
unfoldable pub header : Text → Text
unfolding ascii_quoted
header kid = text "{\"alg\":\"EdDSA\",\"kid\":\"" ++ ascii_quoted kid ++ text "}"

module _ {Private Public : Type 0} (crypto : Crypto Private Public) where
  -- payload_b64
  unfoldable pub payload : Fields → Text
  unfolding unsigned
  payload card = b64url (canonicalize crypto (unsigned card))

  -- one signature of the loop
  unfoldable pub verify_one : Python → Public → Text → Json → Result Bool
  verify_one py key body sig = do
    fs ← dict_of sig
    elim (get_field (text "protected") fs) [
      | none ↦ ok false
      | some protected ↦ elim (get_field (text "signature") fs) [
        | none ↦ ok false
        | some signature ↦
            if truthy protected && truthy signature
            then (do
              message ← ascii (text_of py protected ++ text "." ++ body)
              raw ← decoded signature
              elim raw [ none ↦ ok false | some bytes ↦ ok (crypto.verify key bytes message) ])
            else ok false
      ]
    ]

  unfoldable pub verify_any : Python → Public → Text → List Json → Result Bool
  verify_any py key body [] = ok false
  verify_any py key body (sig ∷ sigs) =
      let rest = verify_any py key body sigs in
      do good ← verify_one py key body sig; if good then ok true else rest

  -- `Ed25519CardSignatureVerifier.__call__`
  unfoldable pub verify_card : Python → Public → Json → Result Bool
  unfolding payload
  verify_card py key card = do
    fs ← dict_of card
    sigs ← each_or_empty (get_field (text "signatures") fs)
    verify_any py key (payload fs) sigs

  -- the object that `sign_card` adds
  unfoldable pub card_signature : Private → Text → Text → Json
  card_signature key kid body =
      let protected = b64url (utf8 (header kid)) in
      obj (
        field (text "protected") (str protected) (
          field (text "signature") (str (b64url (crypto.sign key (protected ++ text "." ++ body))))
            end))

  unfoldable pub sign_card : Private → Text → Fields → Fields
  unfolding card_signature payload
  sign_card key kid card =
      put_field (text "signatures") (arr (cons (card_signature key kid (payload card)) nil))
        (unsigned card)
