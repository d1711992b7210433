-- ===== src/PubSub.antt =====
-- internal/pubsub/manager.go: who listens to which channel, in both directions. The connections stand
-- for themselves by their identifiers.
use simis.Prelude.{
  Assoc, Bool, Text, [], bytes, delete, if◌then◌else◌, insert, length, lookup, none, some, true, ℕ,
  ◌==◌, ◌∷◌,
}
pub mod Inverse
pub mod Delivery
mod Tests
use simis.Resp.{to_bulk_string, to_simple_resp_array}
use simis.Connection.{Connections, update, enter_pub_sub_mode, exit_pub_sub_mode, send_response}

-- `map[...]bool` as a set
abbrev pub Members : Type 0
Members = Assoc Bool

pub record PubSubManager : Type 0 where
  pub channels : Assoc Members
  pub subscriptions : Assoc Members

-- `GetPubSubManager`, at its first call
abbrev pub new_pub_sub_manager : PubSubManager
new_pub_sub_manager = record { channels = []; subscriptions = [] }

-- `m[k]`, where nil is read as an empty map
unfoldable pub members : Text → Assoc Members → Members
members k m = elim (lookup k m) [ none ↦ [] | some s ↦ s ]

-- `delete(m[k], j)` on an inner map, if there is one
unfoldable pub remove_member : Text → Text → Assoc Members → Assoc Members
remove_member k j m = elim (lookup k m) [ none ↦ m | some s ↦ insert k (delete j s) m ]

-- `Subscribe`; the number is the answer
unfoldable pub subscribe :
    Text → Text → PubSubManager → Connections → ℕ × (PubSubManager × Connections)
subscribe id channel m cs =
    let listening = insert channel true (members id m.subscriptions) in
    (
      length listening,
      (
        record {
          channels = insert channel (insert id true (members channel m.channels)) m.channels;
          subscriptions = insert id listening m.subscriptions;
        },
        update id enter_pub_sub_mode cs,
      ),
    )

-- The mode ends with the last channel; a connection that never listened has no map.
unfoldable pub leave_mode : Text → Assoc Members → Connections → Connections
leave_mode id before cs = elim (lookup id before) [
  | none ↦ cs
  | some s ↦ update id exit_pub_sub_mode cs
]

-- `Unsubscribe`
unfoldable pub unsubscribe :
    Text → Text → PubSubManager → Connections → ℕ × (PubSubManager × Connections)
unsubscribe id channel m cs =
    let subscriptions = remove_member id channel m.subscriptions in
    let left = length (members id subscriptions) in
    (
      left,
      (
        record { channels = remove_member channel id m.channels; subscriptions = subscriptions },
        if left == 0 then leave_mode id m.subscriptions cs else cs,
      ),
    )

unfoldable pub message_text : Text → Text → Text
message_text channel message =
    to_simple_resp_array (
      some
        (to_bulk_string (bytes "message") ∷ to_bulk_string channel ∷ to_bulk_string message ∷ []))

-- The loop of `Publish`
unfoldable pub send_all : Text → Members → Connections → Connections
send_all text [] cs = cs
send_all text ((id, listens) ∷ s) cs = send_all text s (update id (send_response text) cs)

-- `Publish`
unfoldable pub publish : Text → Text → PubSubManager → Connections → ℕ × Connections
publish channel message m cs =
    let listeners = members channel m.channels in
    (length listeners, send_all (message_text channel message) listeners cs)
