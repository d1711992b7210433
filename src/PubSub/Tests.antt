-- ===== src/PubSub/Tests.antt =====
-- A channel with one listener.
use simis.Prelude.{Text, [], bytes, false, if◌then◌else◌, refl, true, ℕ, ◌≡◌}
use simis.Connection.{Connections, send_response}
use simis.PubSub.{PubSubManager, new_pub_sub_manager, members, subscribe, publish, message_text}
use simis.PubSub.Inverse.{is_member}
use simis.PubSub.Delivery.{Reachable, start, subscribed, Holds, Reachable-Holds, publish_lem}

abbrev fresh : Connections
fresh id = record {
  id = id;
  conn = [];
  in_transaction = false;
  queued_commands = [];
  suppress_response = false;
  is_master = false;
  in_pub_sub_mode = false;
  username = bytes "default";
  authenticated = true;
}

abbrev ann : Text
ann = bytes "a"

abbrev news : Text
news = bytes "news"

abbrev one_listener : ℕ × (PubSubManager × Connections)
one_listener = subscribe ann news new_pub_sub_manager fresh

one_listener-Reachable : Reachable one_listener.1.0 one_listener.1.1
one_listener-Reachable = subscribed ann news new_pub_sub_manager fresh (start fresh (λ id. refl))

Reachable-Holds_example : Holds one_listener.1.0 one_listener.1.1
Reachable-Holds_example = Reachable-Holds one_listener.1.0 one_listener.1.1 one_listener-Reachable

publish_lem_example : (publish news (bytes "hi") one_listener.1.0 one_listener.1.1).1 ann ≡ (
    if is_member news (members ann one_listener.1.0.subscriptions)
    then send_response (message_text news (bytes "hi")) (one_listener.1.1 ann)
    else one_listener.1.1 ann)
publish_lem_example =
    publish_lem news (bytes "hi") ann one_listener.1.0 one_listener.1.1 one_listener-Reachable
