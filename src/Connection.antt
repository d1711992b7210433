-- ===== src/Connection.antt =====
-- internal/connection/connection.go: what the server keeps of a client. The network connection is the
-- list of the texts written to it, and the channel of a command's answer is its number.
use simis.Prelude.{
  Bool, List, Option, Result, Text, [], bytes, err, false, if◌then◌else◌, none, not, ok, some,
  text_eq, true, ℕ, ◌&&◌, ◌++◌, ◌∷◌,
}
use simis.Resp.{to_simple_string, to_error}
use simis.Acl.{User, AclManager, get_user, set_user, is_enabled}

-- `Command`
pub record Command : Type 0 where
  pub command : Text
  pub args : List Text
  pub response : ℕ

pub record RedisConnection : Type 0 where
  pub id : Text
  pub conn : List Text
  pub in_transaction : Bool
  pub queued_commands : List Command
  pub suppress_response : Bool
  pub is_master : Bool
  pub in_pub_sub_mode : Bool
  pub username : Text
  pub authenticated : Bool

-- The errors of internal/error/errors.go that a session meets.
pub data SessionError : Type 0 where
  not_in_transaction already_in_transaction discard_without_multi exec_without_multi
        invalid_arguments user_not_found :
      SessionError

abbrev pub error_text : SessionError → Text
error_text not_in_transaction = bytes "not in transaction"
error_text already_in_transaction = bytes "already in transaction"
error_text discard_without_multi = bytes "DISCARD without MULTI"
error_text exec_without_multi = bytes "EXEC without MULTI"
error_text invalid_arguments = bytes "Invalid arguments"
error_text user_not_found = bytes "User not found"

abbrev pub default_user : User
default_user = record {
  username = bytes "default";
  flags = bytes "nopass" ∷ [];
  passwords = [];
  keys = [];
  commands = [];
  channels = [];
}

abbrev no_passwords : List Text → Bool
no_passwords [] = true
no_passwords (p ∷ ps) = false

-- `NewRedisConnection`, for the given identifier; `none` is its panic: where there is no default user,
-- one is set, but the missing one is asked for its passwords.
unfoldable pub new_redis_connection : Text → AclManager → Option RedisConnection × AclManager
new_redis_connection id users = elim (get_user (bytes "default") users) [
  | none ↦ (none, set_user default_user users)
  | some user ↦ (
    some (record {
      id = id;
      conn = [];
      in_transaction = false;
      queued_commands = [];
      suppress_response = false;
      is_master = false;
      in_pub_sub_mode = false;
      username = bytes "default";
      authenticated = is_enabled user && no_passwords user.passwords;
    }),
    users,
  )
]

-- `CreateCommand`, for the number of a new channel
unfoldable pub create_command : ℕ → Text → List Text → Command
create_command response command args = record {
  command = command;
  args = args;
  response = response;
}

-- `EnqueueCommand`; its Boolean result is true where it gives no error
unfoldable pub enqueue_command : Command → RedisConnection → Result SessionError RedisConnection
enqueue_command command c =
    if c.in_transaction
    then ok (record c { queued_commands = c.queued_commands ++ (command ∷ []) })
    else err not_in_transaction

-- `DequeueCommand`, which leaves the queue as it is
unfoldable pub dequeue_command : RedisConnection → Option Command
dequeue_command c = elim c.queued_commands [ [] ↦ none | command ∷ rest ↦ some command ]

-- `SendResponse`
unfoldable pub send_response : Text → RedisConnection → RedisConnection
send_response message c =
    if c.suppress_response then c else record c { conn = c.conn ++ (message ∷ []) }

-- `SendError`
unfoldable pub send_error : Text → RedisConnection → RedisConnection
send_error message c = send_response (to_error message) c

-- `StartTransaction`
unfoldable pub start_transaction : RedisConnection → Result SessionError (Text × RedisConnection)
start_transaction c =
    if c.in_transaction
    then err already_in_transaction
    else ok (to_simple_string (bytes "OK"), record c { in_transaction = true })

-- `EndTransaction`
unfoldable pub end_transaction : RedisConnection → RedisConnection
end_transaction c = record c { in_transaction = false }

-- `DiscardTransaction`
unfoldable pub discard_transaction : RedisConnection → Result SessionError (Text × RedisConnection)
discard_transaction c =
    if not c.in_transaction
    then err discard_without_multi
    else ok
        (to_simple_string (bytes "OK"), record c { in_transaction = false; queued_commands = [] })

-- `SetSuppressResponse`
unfoldable pub set_suppress_response : Bool → RedisConnection → RedisConnection
set_suppress_response suppress c = record c { suppress_response = suppress }

-- `MarkAsMaster`
unfoldable pub mark_as_master : RedisConnection → RedisConnection
mark_as_master c = record c { is_master = true }

-- `EnterPubSubMode`
unfoldable pub enter_pub_sub_mode : RedisConnection → RedisConnection
enter_pub_sub_mode c = record c { in_pub_sub_mode = true }

-- `ExitPubSubMode`
unfoldable pub exit_pub_sub_mode : RedisConnection → RedisConnection
exit_pub_sub_mode c = record c { in_pub_sub_mode = false }

-- `SetUsername`
unfoldable pub set_username : Text → RedisConnection → RedisConnection
set_username username c = record c { username = username }

-- `SetAuthenticated`
unfoldable pub set_authenticated : Bool → RedisConnection → RedisConnection
set_authenticated authenticated c = record c { authenticated = authenticated }

-- The connections, by the identifier that stands for the pointer.
abbrev pub Connections : Type 0
Connections = Text → RedisConnection

unfoldable pub update : Text → (RedisConnection → RedisConnection) → Connections → Connections
update id f cs j = if text_eq id j then f (cs id) else cs j
