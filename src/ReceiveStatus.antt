-- ===== src/ReceiveStatus.antt =====
-- `_receive_status` of server.py: the status with which a subscriber's app answers a webhook.
pub mod Answered
use a2a_events_python.Common.{ℕ, Bool, Option, none, some, if◌then◌else◌}
use a2a_events_python.HttpDelivery.{DeliveryResult}

abbrev by_flags : DeliveryResult → ℕ
by_flags res = if res.ack then 204 else if res.retry then 503 else 422

unfoldable pub receive_status : DeliveryResult → ℕ
receive_status res = elim res.status_code [ none ↦ by_flags res | some status ↦ status ]
