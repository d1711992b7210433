-- ===== src/Handlers/Table.antt =====
-- The table of internal/handler/handler.go, as far as its handlers are modelled, for the executor. A
-- store that is missing is that of a server that has panicked, or that does not come back.
use simis.Prelude.{List, Option, Text, bytes, if◌then◌else◌, none, some, text_eq}
use simis.KvStore.{KvStore}
use simis.Executor.{ExecutionResult, new_execution_result, Handler}
use simis.Handlers.{Env, Executed}
use simis.Handlers.Strings.{
  handle_set, handle_get, handle_incr, handle_type, handle_keys, handle_echo, handle_ping,
}
use simis.Handlers.Lists.{
  Timeout, handle_rpush, handle_lpush, handle_llen, handle_lpop, handle_lrange, handle_blpop,
}
pub mod Served

module _ {S Z : Type 0} where
  unfoldable pub outcome :
      List Text → Executed S Z → ExecutionResult × (List Text × Option (KvStore S Z))
  outcome args none = (new_execution_result, (args, none))
  outcome args (some (res, st)) = (res, (args, some st))

  -- A handler that leaves the arguments of its command as they are
  unfoldable pub lifted : (List Text → KvStore S Z → Executed S Z) → Handler (Option (KvStore S Z))
  lifted h cmd none = (new_execution_result, (cmd.args, none))
  lifted h cmd (some st) = outcome cmd.args (h cmd.args st)

  -- `Handlers`
  unfoldable pub command_table :
      Env → (Text → Timeout) → Text → Text → Option (Handler (Option (KvStore S Z)))
  command_table env timeout_of syntax name =
      if text_eq name (bytes "PING")
      then some (lifted handle_ping)
      else if text_eq name (bytes "ECHO")
      then some (lifted handle_echo)
      else if text_eq name (bytes "SET")
      then some (lifted (handle_set env syntax))
      else if text_eq name (bytes "GET")
      then some (lifted (handle_get env))
      else if text_eq name (bytes "RPUSH")
      then some (lifted (handle_rpush env))
      else if text_eq name (bytes "LRANGE")
      then some (lifted (handle_lrange env))
      else if text_eq name (bytes "LPUSH")
      then some (lifted (handle_lpush env))
      else if text_eq name (bytes "LLEN")
      then some (lifted (handle_llen env))
      else if text_eq name (bytes "LPOP")
      then some (lifted (handle_lpop env))
      else if text_eq name (bytes "BLPOP")
      then some (lifted (handle_blpop env timeout_of))
      else if text_eq name (bytes "TYPE")
      then some (lifted (handle_type env))
      else if text_eq name (bytes "INCR")
      then some (lifted (handle_incr env))
      else if text_eq name (bytes "KEYS")
      then some (lifted (handle_keys env))
      else none
