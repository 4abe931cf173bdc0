-- ===== src/Methods.antt =====
-- methods.py: the names of the methods of the protocol.
use a2a_events_python.Common.{List, [], ◌∷◌, ◌++◌, Text, text}

abbrev pub method_prefix : Text
method_prefix = text "a2a.events."

abbrev pub list_topics_method : Text
list_topics_method = method_prefix ++ text "ListTopics"

abbrev pub subscribe_method : Text
subscribe_method = method_prefix ++ text "Subscribe"

abbrev pub get_subscription_method : Text
get_subscription_method = method_prefix ++ text "GetSubscription"

abbrev pub list_subscriptions_method : Text
list_subscriptions_method = method_prefix ++ text "ListSubscriptions"

abbrev pub renew_subscription_method : Text
renew_subscription_method = method_prefix ++ text "RenewSubscription"

abbrev pub delete_subscription_method : Text
delete_subscription_method = method_prefix ++ text "DeleteSubscription"

abbrev pub replay_method : Text
replay_method = method_prefix ++ text "Replay"

abbrev pub ack_method : Text
ack_method = method_prefix ++ text "Ack"

abbrev pub list_delivery_attempts_method : Text
list_delivery_attempts_method = method_prefix ++ text "ListDeliveryAttempts"

abbrev pub canonical_methods : List Text
canonical_methods =
    list_topics_method ∷ subscribe_method ∷ get_subscription_method ∷ list_subscriptions_method
    ∷ renew_subscription_method ∷ delete_subscription_method ∷ replay_method ∷ ack_method
    ∷ list_delivery_attempts_method ∷ []
