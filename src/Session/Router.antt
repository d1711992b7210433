-- ===== src/Session/Router.antt =====
-- internal/server/router.go, and HandleRequests of internal/server/session.go.
use simis.Prelude.{
  Bool, List, Option, Result, Text, [], bytes, err, if◌then◌else◌, length, none, not, ok, some, suc,
  text_eq, ◌&&◌, ◌++◌, ◌||◌, ◌∷◌,
}
use simis.Prelude.Int.{pos, wrap, ◌+ℤ◌}
use simis.Resp.{to_simple_string, to_resp_array}
use simis.Resp.Reader.{Outcome, done, failed, panics, out_of_fuel, remaining}
use simis.Resp.Requests.{ParseCommand, parse_multiple_requests}
use simis.Connection.{
  RedisConnection, SessionError, error_text, create_command, enqueue_command, send_error,
}
use simis.Session.{
  Server, Handled, Executor, on_connection, respond, respond_with, no_auth, session_handler,
  handled, refused, panicked,
}

abbrev pub is_transaction_control_command : Text → Bool
is_transaction_control_command name = text_eq name (bytes "EXEC") || text_eq name (bytes "DISCARD")

abbrev pub is_pub_sub_command : Text → Bool
is_pub_sub_command name =
    text_eq name (bytes "PING")
    || text_eq name (bytes "SUBSCRIBE")
    || text_eq name (bytes "UNSUBSCRIBE")
    || text_eq name (bytes "PUBLISH")

abbrev pub not_in_context : Text → Text
not_in_context name =
    bytes "Can't execute '"
    ++ (name
        ++ bytes
            "': only (P|S)SUBSCRIBE / (P|S)UNSUBSCRIBE / PING / QUIT / RESET are allowed in this context")

module _ {D : Type 0} where
  unfoldable pub queued : Text → Result SessionError RedisConnection → Server D → Server D
  queued id (ok c) w =
      respond id (to_simple_string (bytes "QUEUED")) (on_connection id (λ old. c) w)
  queued id (err e) w = on_connection id (send_error (error_text e)) w

  unfoldable pub next_command : Server D → Server D
  next_command w = record w { next_channel = suc w.next_channel }

  -- `queueCommand`
  unfoldable pub queue_command : Text → Text → List Text → Server D → Server D
  queue_command id name args w =
      queued id (enqueue_command (create_command w.next_channel name args) (w.connections id))
        (next_command w)

  -- `executeDataCommand`
  unfoldable pub execute_data_command : Executor D → Text → Text → List Text → Server D → Server D
  execute_data_command ex id name args w =
      respond_with id (ex.run_command (create_command w.next_channel name args) (next_command w))

  -- What is made of a handler's error; `none` stands for a panic.
  unfoldable pub finished : Text → Handled D → Option (Server D)
  finished id (handled w) = some w
  finished id (refused e w) = some (on_connection id (send_error (error_text e)) w)
  finished id panicked = none

  unfoldable pub dispatch :
      Executor D → Text → Text → List Text → Option (Handled D) → Server D → Option (Server D)
  dispatch ex id name args (some h) w = finished id h
  dispatch ex id name args none w = some (execute_data_command ex id name args w)

  -- What the loop does behind `Route`: the bytes of a master's command are counted.
  unfoldable pub add_offset : Text → ParseCommand → Server D → Server D
  add_offset id cmd w =
      if (w.connections id).is_master
      then record w {
        offset = wrap (w.offset +ℤ pos (length (to_resp_array (some (cmd.name ∷ cmd.args)))));
      }
      else w

  module _ (sha256_hex : Text → Text) (ex : Executor D)
      (replication : Text → Text → List Text → Server D → Handled D) where
    -- `Route`
    unfoldable pub route : Text → Text → List Text → Server D → Option (Server D)
    route id name args w =
        let c = w.connections id in
        if not c.authenticated && not (text_eq name (bytes "AUTH"))
        then some (respond id no_auth w)
        else if c.in_transaction && not (is_transaction_control_command name)
        then some (queue_command id name args w)
        else if c.in_pub_sub_mode && not (is_pub_sub_command name)
        then some (on_connection id (send_error (not_in_context name)) w)
        else if text_eq name (bytes "PING") && c.in_pub_sub_mode
        then some (respond id (to_resp_array (some (bytes "pong" ∷ [] ∷ []))) w)
        else dispatch ex id name args
            (session_handler sha256_hex ex replication id name args (next_command w)) w

    -- The loop of `HandleRequests`
    unfoldable pub handle_commands : Text → List ParseCommand → Server D → Option (Server D)
    handle_commands id [] w = some w
    handle_commands id (cmd ∷ cmds) w = elim (route id cmd.name cmd.args w) [
      | none ↦ none
      | some w' ↦ handle_commands id cmds (add_offset id cmd w')
    ]

    unfoldable pub handle_parsed :
        Text → Outcome (List ParseCommand) → Server D → Option (Text × Server D)
    handle_parsed id (done cmds r) w = elim (handle_commands id cmds w) [
      | none ↦ none
      | some w' ↦ some (remaining r, w')
    ]
    handle_parsed id (failed e r) w = none
    handle_parsed id panics w = none
    handle_parsed id out_of_fuel w = none

    -- `HandleRequests`, with the bytes that are left over
    unfoldable pub handle_requests : Text → Text → Server D → Option (Text × Server D)
    handle_requests id buffer w = handle_parsed id (parse_multiple_requests buffer) w
