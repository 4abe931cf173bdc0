-- ===== src/HttpDelivery/Outcomes.antt =====
-- What the answers of a subscriber's endpoint come to.
use a2a_events_python.Common.{◌≤◌, ◌<◌, ◌≡◌, ◌↔◌, ◌⊎◌, arith, true, false}
use a2a_events_python.Errors.{ok}
use a2a_events_python.HttpDelivery.{
  DeliveryResult, Response, response, result_from_status, send_a2a_message, send_webhook,
}

-- A webhook answer acknowledges the event exactly if its status is from 200 to 299, and refuses it
-- with a retry asked for exactly if its status is 408, 429 or at least 500.
pub send_webhook_iff :
    (resp : Response)
    → (((send_webhook (response resp)).ack ≡ true)
        ↔ ((200 ≤ resp.status_code) × (resp.status_code < 300)))
      × ((((send_webhook (response resp)).ack ≡ false)
            × ((send_webhook (response resp)).retry ≡ true))
          ↔ ((resp.status_code ≡ 408) ⊎ ((resp.status_code ≡ 429) ⊎ (500 ≤ resp.status_code))))
unfolding send_webhook result_from_status
send_webhook_iff resp =
    ((λ h. ground arith, λ h. ground arith), (λ h. ground arith, λ k. (ground arith, ground arith)))

-- An A2A endpoint's answer acknowledges the event only if its status is from 200 to 299.
pub send_a2a_message-status :
    (resp : Response) (d : DeliveryResult)
    → send_a2a_message (response resp) ≡ ok d
    → d.ack ≡ true
    → (200 ≤ resp.status_code) × (resp.status_code < 300)
unfolding send_a2a_message result_from_status
send_a2a_message-status resp d h acked = ground arith
