-- ===== src/Handlers.antt =====
-- internal/handler: the commands on the store. A handler gives its result and the store behind it; it
-- gives nothing where Go panics or the eviction does not end. An object that Go changes by its pointer
-- is written back. The clock, the readings of the memory and the configuration are parameters.
use simis.Prelude.{Option, Text, [], bytes, insert, lookup, none, some, ℕ, ◌∷◌}
use simis.Prelude.Int.{ℤ}
use simis.Deque.{Deque}
use simis.KvStore.{
  KvStore, RedisObject, list_value, StoreError, out_of_memory, not_an_integer, diverges, Limits,
}
use simis.Executor.{ExecutionResult, new_execution_result, new_error_result}
pub mod Strings
pub mod Lists
pub mod Kept
pub mod Loaded
pub mod Blocking
pub mod Table
pub mod Pushed
mod Tests

-- What the handlers read of the process: the time in nanoseconds, the memory in use, and the limits;
-- `fuel` bounds the rounds of the eviction.
pub record Env : Type 0 where
  pub now : ℤ
  pub memory : ℕ → ℤ
  pub limits : Limits
  pub fuel : ℕ

abbrev pub invalid_arguments : Text
invalid_arguments = bytes "Invalid arguments"

abbrev pub oom_text : Text
oom_text = bytes "OOM command not allowed when used memory > 'maxmemory'"

abbrev pub not_an_integer_text : Text
not_an_integer_text = bytes "value is not an integer or out of range"

abbrev pub failed_to_load_list : Text
failed_to_load_list = bytes "failed to load or store list"

-- A result with a response, and one that names a changed key
abbrev pub responding : Text → ExecutionResult
responding text = record new_execution_result { response = text }

abbrev pub modifying : Text → Text → ExecutionResult
modifying text key = record new_execution_result { response = text; modified_keys = key ∷ [] }

abbrev pub Executed : Type 0 → Type 0 → Type 0
Executed S Z = Option (ExecutionResult × KvStore S Z)

module _ {S Z : Type 0} where
  -- An error of the store, which has not changed it
  unfoldable pub store_failed : StoreError → KvStore S Z → Executed S Z
  store_failed out_of_memory st = some (new_error_result oom_text, st)
  store_failed not_an_integer st = some (new_error_result not_an_integer_text, st)
  store_failed diverges st = none

  abbrev pub refused : Text → KvStore S Z → Executed S Z
  refused text st = some (new_error_result text, st)

  unfoldable pub written : Text → Deque → Option (RedisObject S Z) → KvStore S Z → KvStore S Z
  written key d none st = st
  written key d (some o) st = record st {
    sync_map = insert key (record o { value = list_value d }) st.sync_map;
  }

  -- The change of the list that a key holds, by its pointer
  unfoldable pub write_list : Text → Deque → KvStore S Z → KvStore S Z
  write_list key d st = written key d (lookup key st.sync_map) st
