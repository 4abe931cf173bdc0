-- ===== src/MemoryTransport.antt =====
-- runtime/memory/transport.py. A handler acts on the state of what it belongs to.
use a2a_events_python.Common.{
  none, some, [], true, false, Text, text, text_eq, Dict, get, put, ◌≡◌, refl, if◌then◌else◌,
  get-put, Bool-cases, inl, inr,
}
use a2a_events_python.Json.{Json}
use a2a_events_python.Exec.{Exec, pure}
use a2a_events_python.HttpDelivery.{DeliveryResult}

abbrev pub WebhookHandler : Type 0 → Type 0
WebhookHandler S = Dict Text → Json → Exec S DeliveryResult

abbrev pub MessageHandler : Type 0 → Type 0
MessageHandler S = Json → Exec S DeliveryResult

pub record Transport (S : Type 0) : Type 0 where
  pub webhooks : Dict (WebhookHandler S)
  pub a2a : Dict (MessageHandler S)

-- status 502
abbrev no_receiver : DeliveryResult
no_receiver = record {
  ack = false;
  retry = true;
  status_code = some 502;
  reason = some (text "no receiver");
}

module _ {S : Type 0} where
  abbrev pub init : Transport S
  init = record { webhooks = []; a2a = [] }

  unfoldable pub register_webhook : Text → WebhookHandler S → Transport S → Transport S
  register_webhook url handler t = record t { webhooks = put url handler t.webhooks }

  unfoldable pub register_a2a : Text → MessageHandler S → Transport S → Transport S
  register_a2a endpoint handler t = record t { a2a = put endpoint handler t.a2a }

  unfoldable pub send_webhook : Transport S → Text → Dict Text → Json → Exec S DeliveryResult
  send_webhook t url headers body = elim (get url t.webhooks) [
    | none ↦ pure no_receiver
    | some handler ↦ handler headers body
  ]

  unfoldable pub send_a2a_message : Transport S → Text → Json → Exec S DeliveryResult
  send_a2a_message t endpoint message = elim (get endpoint t.a2a) [
    | none ↦ pure no_receiver
    | some handler ↦ handler message
  ]

  -- A webhook is sent to the receiver that was registered last for its URL, and registering one
  -- changes nothing for other URLs.
  pub send_webhook-register_webhook :
      (t : Transport S) (url other : Text) (handler : WebhookHandler S) (headers : Dict Text)
      (body : Json)
      → send_webhook (register_webhook url handler t) other headers body
        ≡ (if text_eq url other then handler headers body else send_webhook t other headers body)
  unfolding send_webhook register_webhook
  send_webhook-register_webhook t url other handler headers body =
      elim (Bool-cases (text_eq url other)) [
        | inl same ↦ rw (send_webhook, get-put url other handler t.webhooks) (rw same refl)
        | inr differs ↦ rw (send_webhook, get-put url other handler t.webhooks) (rw differs refl)
      ]
