-- ===== src/Session.antt =====
-- internal/handler/session: what the server does with a client's request that is not for the executor;
-- Session/Router has the routing of internal/server. The executor is a parameter: the answer that comes on a command's
-- channel, and the store when it has come. So are the three handlers of replication, and the text
-- of the SHA-256 sum.
use simis.Prelude.{
  Bool, List, Option, Result, Text, [], bytes, err, false, if◌then◌else◌, none, not, ok, some,
  text_eq, true, ℕ, ◌++◌, ◌||◌, ◌∷◌,
}
use simis.Prelude.Int.{ℤ, pos}
use simis.Resp.{
  to_bulk_string, to_simple_string, to_simple_resp_array, to_resp_array, to_resp_int, crlf,
}
use simis.Acl.{AclManager, get_user, set_user}
use simis.Connection.{
  Command, RedisConnection, Connections, SessionError, exec_without_multi, invalid_arguments,
  user_not_found, send_response, send_error, start_transaction, end_transaction,
  discard_transaction, set_username, set_authenticated, update,
}
use simis.PubSub.{PubSubManager, subscribe, unsubscribe}
pub mod Router
pub mod Phase
pub mod Transactions
pub mod Untouched
pub mod Guarded
mod Tests

-- What the sessions share: `store` is what the executor works on.
pub record Server (D : Type 0) : Type 0 where
  pub users : AclManager
  pub pub_sub : PubSubManager
  pub connections : Connections
  pub store : D
  pub next_channel : ℕ
  pub offset : ℤ

-- How a handler ends: it has done its work, returns an error, or panics.
pub data Handled (D : Type 0) : Type 0 where
  handled : Server D → Handled D
  refused : SessionError → Server D → Handled D
  panicked : Handled D

pub record Executor (D : Type 0) : Type 0 where
  pub run_command : Command → Server D → Text × Server D
  pub run_transaction : List Command → Server D → Text × Server D

unfoldable pub listening_text : Text → Text → ℕ → Text
listening_text name channel n =
    to_simple_resp_array
      (some (to_bulk_string name ∷ to_bulk_string channel ∷ to_resp_int (pos n) ∷ []))

module _ {D : Type 0} where
  unfoldable pub on_connection : Text → (RedisConnection → RedisConnection) → Server D → Server D
  on_connection id f w = record w { connections = update id f w.connections }

  unfoldable pub respond : Text → Text → Server D → Server D
  respond id message w = on_connection id (send_response message) w

  -- A change of the connection with a response, or an error
  unfoldable pub answered :
      Text → Result SessionError (Text × RedisConnection) → Server D → Handled D
  answered id (ok (message, c)) w = handled (respond id message (on_connection id (λ old. c) w))
  answered id (err e) w = refused e w

  -- `MultiHandler`
  unfoldable pub execute_multi : Text → Server D → Handled D
  execute_multi id w = answered id (start_transaction (w.connections id)) w

  -- `DiscardHandler`
  unfoldable pub execute_discard : Text → Server D → Handled D
  execute_discard id w = answered id (discard_transaction (w.connections id)) w

  unfoldable pub respond_with : Text → Text × Server D → Server D
  respond_with id (message, w) = respond id message w

  -- `ExecHandler`
  unfoldable pub execute_exec : Executor D → Text → Server D → Handled D
  execute_exec ex id w =
      let commands = (w.connections id).queued_commands in
      if not (w.connections id).in_transaction
      then refused exec_without_multi w
      else handled
          (respond_with id (ex.run_transaction commands (on_connection id end_transaction w)))

  unfoldable pub with_channels :
      Text → Text → Text → ℕ × (PubSubManager × Connections) → Server D → Server D
  with_channels id name channel (n, (m, cs)) w =
      respond id (listening_text name channel n) (record w { pub_sub = m; connections = cs })

  -- `SubscribeHandler` and `UnsubscribeHandler`
  unfoldable pub execute_subscribe : Text → List Text → Server D → Handled D
  execute_subscribe id [] w = refused invalid_arguments w
  execute_subscribe id (channel ∷ args) w = handled (
      with_channels id (bytes "subscribe") channel (subscribe id channel w.pub_sub w.connections) w)

  unfoldable pub execute_unsubscribe : Text → List Text → Server D → Handled D
  execute_unsubscribe id [] w = refused invalid_arguments w
  execute_unsubscribe id (channel ∷ args) w = handled (
      with_channels id (bytes "unsubscribe") channel
        (unsubscribe id channel w.pub_sub w.connections) w)

unfoldable pub contains : List Text → Text → Bool
contains [] s = false
contains (p ∷ ps) s = text_eq p s || contains ps s

abbrev pub wrong_password : Text
wrong_password =
    b'-' ∷ bytes "WRONGPASS invalid username-password pair or user is disabled." ++ crlf

abbrev pub no_auth : Text
no_auth = b'-' ∷ bytes "NOAUTH Authentication required." ++ crlf

-- `getUserInfo`: the fields with a heading, those behind the passwords only if there are any
unfoldable pub field : Text → List Text → List Text
field heading values = to_bulk_string heading ∷ to_resp_array (some values) ∷ []

unfoldable pub field_if_any : Text → List Text → List Text
field_if_any heading [] = []
field_if_any heading (v ∷ values) = field heading (v ∷ values)

unfoldable pub get_user_info : Text → AclManager → Result SessionError Text
get_user_info username users = elim (get_user username users) [
  | none ↦ err user_not_found
  | some user ↦ ok (
      to_simple_resp_array (
        some (
          field (bytes "flags") user.flags
          ++ (field (bytes "passwords") user.passwords
              ++ (field_if_any (bytes "keys") user.keys
                  ++ (field_if_any (bytes "commands") user.commands
                      ++ field_if_any (bytes "channels") user.channels))))))
]

unfoldable pub without_flag : Text → List Text → List Text
without_flag flag [] = []
without_flag flag (f ∷ flags) =
    let rest = without_flag flag flags in if text_eq f flag then rest else f ∷ rest

module _ (sha256_hex : Text → Text) where
  -- `setUserPassword`
  unfoldable pub set_user_password :
      Text → Text → AclManager → Result SessionError (Text × AclManager)
  set_user_password username password users = elim (get_user username users) [
    | none ↦ err user_not_found
    | some user ↦ ok (
      to_simple_string (bytes "OK"),
      set_user
          (record user {
            passwords = user.passwords ++ (sha256_hex password ∷ []);
            flags = without_flag (bytes "nopass") user.flags;
          })
          users,
    )
  ]

  -- Whether the hash of the password is one of the user's, if there is the user
  unfoldable pub authenticates : Text → Text → AclManager → Bool
  authenticates username password users = elim (get_user username users) [
    | none ↦ false
    | some user ↦ contains user.passwords (sha256_hex password)
  ]

  module _ {D : Type 0} where
    -- `AuthHandler`; a missing password is a panic
    unfoldable pub execute_auth : Text → List Text → Server D → Handled D
    execute_auth id [] w = refused invalid_arguments w
    execute_auth id (username ∷ []) w = panicked
    execute_auth id (username ∷ password ∷ args) w =
        if authenticates username password w.users
        then handled (
            respond id (to_simple_string (bytes "OK"))
              (on_connection id (λ c. set_username username (set_authenticated true c)) w))
        else handled (respond id wrong_password w)

    unfoldable pub info_sent : Text → Result SessionError Text → Server D → Handled D
    info_sent id (ok info) w = handled (respond id info w)
    info_sent id (err e) w = refused e w

    unfoldable pub user_set : Text → Result SessionError (Text × AclManager) → Server D → Handled D
    user_set id (ok (message, users)) w = handled (respond id message (record w { users = users }))
    user_set id (err e) w = refused e w

    -- The branch of SETUSER: the password is behind the first byte of its argument.
    unfoldable pub acl_set_user : Text → List Text → Server D → Handled D
    acl_set_user id (username ∷ (c ∷ password) ∷ args) w =
        user_set id (set_user_password username password w.users) w
    acl_set_user id args w = panicked

    -- `ACLHandler`
    unfoldable pub execute_acl : Text → List Text → Server D → Handled D
    execute_acl id [] w = refused invalid_arguments w
    execute_acl id (subcommand ∷ args) w =
        let username = (w.connections id).username in
        if text_eq subcommand (bytes "WHOAMI")
        then handled (respond id (to_bulk_string username) w)
        else if text_eq subcommand (bytes "GETUSER")
        then info_sent id (get_user_info username w.users) w
        else if text_eq subcommand (bytes "SETUSER")
        then acl_set_user id args w
        else handled
            (on_connection id (send_error (bytes "Unknown ACL subcommand: " ++ subcommand)) w)

    -- `SessionHandlers`; `replication` is the handlers of REPLCONF, PSYNC and WAIT
    unfoldable pub session_handler :
        Executor D
        → (Text → Text → List Text → Server D → Handled D)
        → Text
        → Text
        → List Text
        → Server D
        → Option (Handled D)
    session_handler ex replication id name args w =
        if text_eq name (bytes "MULTI")
        then some (execute_multi id w)
        else if text_eq name (bytes "EXEC")
        then some (execute_exec ex id w)
        else if text_eq name (bytes "DISCARD")
        then some (execute_discard id w)
        else if text_eq name (bytes "REPLCONF")
            || text_eq name (bytes "PSYNC")
            || text_eq name (bytes "WAIT")
        then some (replication id name args w)
        else if text_eq name (bytes "SUBSCRIBE")
        then some (execute_subscribe id args w)
        else if text_eq name (bytes "UNSUBSCRIBE")
        then some (execute_unsubscribe id args w)
        else if text_eq name (bytes "ACL")
        then some (execute_acl id args w)
        else if text_eq name (bytes "AUTH")
        then some (execute_auth id args w)
        else none
