-- ===== src/Examples.antt =====
-- A small publisher to run the theorems on: a topic, a log, a subscription, a transport.
pub mod Store
pub mod Parts
pub mod Runs
pub mod CatchUp
pub mod Keys
pub mod Deliveries
pub mod Cards
pub mod Renewals
pub mod Database
pub mod Tables
pub mod Requests
pub mod Rows
use a2a_events_python.Common.{ℕ, ◌+◌, true, false, Option, none, some, [], ◌∷◌, Text, text}
use a2a_events_python.Json.{end}
use a2a_events_python.Errors.{ok, raise, attribute_error}
use a2a_events_python.Models.{Topic, Subscription, active, webhook}
use a2a_events_python.Cursor.{encode}
use a2a_events_python.EventStore.{EventRecord, TopicLog, EventStore, NewEvent}
use a2a_events_python.SubscriptionStore
use a2a_events_python.Metrics
use a2a_events_python.HttpDelivery.{DeliveryResult}
use a2a_events_python.Ssrf.{Address, Urls, SsrfPolicy}
use a2a_events_python.Publisher.{Env, Config, World}

abbrev pub orders : Text
orders = text "orders"

abbrev pub orders_topic : Topic
orders_topic = record {
  name = orders;
  description = [];
  schema_url = none;
  retention_seconds = 0;
  replay = true;
  selector_types = [];
  filterable_fields = none;
  delivery_modes = [];
}

abbrev pub new_event : Text → NewEvent
new_event id = record {
  event_id = id;
  event_type = text "order.created";
  source = text "urn:shop";
  payload = end;
  subject = none;
  content_hash = text "h";
}

abbrev pub event_at : ℕ → Text → EventRecord
event_at n id = record {
  event_id = id;
  topic = orders;
  cursor = encode orders n;
  event_type = text "order.created";
  source = text "urn:shop";
  payload = end;
  subject = none;
  created_at = 5;
  content_hash = text "h";
}

abbrev pub first_event : EventRecord
first_event = event_at 0 (text "evt_1")

abbrev pub second_event : EventRecord
second_event = event_at 1 (text "evt_2")

abbrev pub orders_log : TopicLog
orders_log = record {
  topic = orders_topic;
  events = first_event ∷ second_event ∷ [];
  next_offset = 2;
}

abbrev pub logs : EventStore
logs = (orders, orders_log) ∷ []

abbrev pub public_address : Address
public_address = record {
  is_loopback = false;
  is_link_local = false;
  is_private = false;
  is_reserved = false;
  is_unspecified = false;
  is_multicast = false;
}

-- Every URL is `https://shop`; the address literals are the texts of one character.
abbrev pub literal : Text → Option Address
literal (c ∷ []) = some public_address
literal _ = none

abbrev pub shop_urls : Urls
shop_urls = record { scheme = λ u. text "https"; hostname = λ u. text "shop"; ip_address = literal }

abbrev pub policy : SsrfPolicy
policy = record {
  block_loopback = true;
  block_private = true;
  block_link_local = true;
  block_reserved = true;
  require_https = true;
  allow_hosts = [];
  resolve = some (λ h. text "9" ∷ []);
}

abbrev pub acked : DeliveryResult
acked = record { ack = true; retry = true; status_code = some 200; reason = none }

abbrev pub refused : DeliveryResult
refused = record { ack = false; retry = false; status_code = some 400; reason = none }

-- the transport answers every message alike
abbrev pub env_with : DeliveryResult → Env
env_with answer = record {
  clock = λ n. n + 10;
  uuid_hex = λ n. n ∷ [];
  respond = λ n m. ok answer;
  timestamp = λ t. t ∷ [];
  sign = λ e. text "sig";
  kid = text "k1";
  content_hash = λ f. text "h";
  lower = λ s. s;
  card_resolver = λ u. raise attribute_error;
  urls = shop_urls;
}

abbrev pub cfg : Config
cfg = record {
  agent_card_url = text "urn:shop";
  source = text "urn:shop";
  ssrf_policy = policy;
  min_lease_seconds = 60;
  max_lease_seconds = 3600;
  max_attempts = 2;
  retry_initial_delay = 1;
  retry_max_delay = 4;
  authorizer = none;
  delivery_token_issuer = none;
  queued = false;
  rate_limiter = none;
  selector_limits = none;
  max_subscriptions_per_subscriber = none;
  page_size = 10;
  deferred_dispatch = false;
}

abbrev pub sub_id : Text
sub_id = text "sub_1"

abbrev pub sub : Subscription
sub = record {
  subscription_id = sub_id;
  status = active;
  publisher_card_url = text "urn:shop";
  subscriber_card_url = text "urn:buyer";
  topics = orders ∷ [];
  selector = none;
  delivery = record {
    mode = webhook;
    resolved_url = some (text "https://shop/hook");
    resolved_endpoint = none;
  };
  created_at = 0;
  lease_until = 100;
  cursors = [];
  metadata = end;
}

-- the marks of the subscription start at `next`
abbrev pub world_at : ℕ → World
world_at next = record {
  events = logs;
  subs = record {
    subs = (sub_id, sub) ∷ [];
    hw = (sub_id, (orders, next) ∷ []) ∷ [];
    attempts = [];
    acks = [];
  };
  queue = [];
  topics = (orders, orders_topic) ∷ [];
  metrics = record { counters = []; observations = [] };
  sent = [];
  slept = [];
  ticks = 0;
  minted = 0;
  sends = 0;
  limited = 0;
}
