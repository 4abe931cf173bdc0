-- ===== src/Models.antt =====
-- models.py: the protocol's data. The default values of optional fields belong to pydantic's
-- parsing of a request, which is not modelled; a value here has every field.
use a2a_events_python.Common.{ℕ, Bool, true, false, Option, List, Text, text, Dict}
use a2a_events_python.Json.{Json, Fields}

pub data DeliveryMode : Type 0 where
  webhook a2a_message : DeliveryMode

pub data SubscriptionStatus : Type 0 where
  active expired deleted : SubscriptionStatus

abbrev pub mode_eq : DeliveryMode → DeliveryMode → Bool
mode_eq webhook webhook = true
mode_eq a2a_message a2a_message = true
mode_eq webhook a2a_message = false
mode_eq a2a_message webhook = false

abbrev pub is_active : SubscriptionStatus → Bool
is_active active = true
is_active expired = false
is_active deleted = false

abbrev pub is_deleted : SubscriptionStatus → Bool
is_deleted deleted = true
is_deleted active = false
is_deleted expired = false

abbrev pub is_expired : SubscriptionStatus → Bool
is_expired expired = true
is_expired active = false
is_expired deleted = false

-- `where` of the source is a reserved word here.
pub record FieldFilterSelector : Type 0 where
  pub conditions : Dict (List Json)

pub data MatchMode : Type 0 where
  all any : MatchMode

pub record KeywordSearchSelector : Type 0 where
  pub keywords : List Text
  pub match : MatchMode
  pub fields : Option (List Text)

pub data Selector : Type 0 where
  field_filter : FieldFilterSelector → Selector
  keyword_search : KeywordSearchSelector → Selector

-- selector.type
abbrev pub selector_type : Selector → Text
selector_type (field_filter _) = text "field_filter"
selector_type (keyword_search _) = text "keyword_search"

-- A retention of zero or less means "for ever" to the code: 0 here.
pub record Topic : Type 0 where
  pub name : Text
  pub description : Text
  pub schema_url : Option Text
  pub retention_seconds : ℕ
  pub replay : Bool
  pub selector_types : List Text
  pub filterable_fields : Option (List Text)
  pub delivery_modes : List DeliveryMode

pub record DeliveryPreference : Type 0 where
  pub mode : DeliveryMode
  pub endpoint_ref : Text

pub record ResolvedDelivery : Type 0 where
  pub mode : DeliveryMode
  pub resolved_url : Option Text
  pub resolved_endpoint : Option Text

-- Times are microseconds since a fixed start.
pub record CloudEvent : Type 0 where
  pub id : Text
  pub source : Text
  pub type : Text
  pub subject : Option Text
  pub time : ℕ
  pub payload : Fields
  pub a2apublisher : Text
  pub a2atopic : Text
  pub a2acursor : Text
  pub a2aschemaurl : Option Text
  pub a2asubscription : Option Text
  pub a2adeliveryattempt : Option ℕ
  pub a2atraceid : Option Text

pub record Subscription : Type 0 where
  pub subscription_id : Text
  pub status : SubscriptionStatus
  pub publisher_card_url : Text
  pub subscriber_card_url : Text
  pub topics : List Text
  pub selector : Option Selector
  pub delivery : ResolvedDelivery
  pub created_at : ℕ
  pub lease_until : ℕ
  pub cursors : Dict Text
  pub metadata : Fields
