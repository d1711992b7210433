-- ===== src/Handlers/Tests.antt =====
-- The handlers on a store with one list, without a limit on the memory.
use simis.Prelude.{
  List, Option, Text, [], bytes, if◌then◌else◌, lookup, none, ok, refl, some, text_eq, ◌++◌, ◌==◌,
  ◌∷◌, ◌≡◌,
}
use simis.Prelude.Int.{ℤ, pos}
use simis.Resp.{to_simple_string, to_bulk_string, to_null_bulk_string, to_resp_int, to_resp_array}
use simis.Deque.{new_deque}
use simis.KvStore.{KvStore, no_eviction, new_store, is_expired, evict_if_needed}
use simis.Executor.{State, execute_command, waiters, new_execution_result}
use simis.Executor.Waiting.{alone}
use simis.Handlers.Table.{command_table}
use simis.Handlers.Table.Served.{rpush_wakes}
use simis.Handlers.{Env, modifying, responding}
use simis.Handlers.Strings.{SetParams, expiry_at, execute_set, handle_get}
use simis.Handlers.Lists.{milliseconds, reverse_onto, blpop_with, handle_rpush, handle_lpush}
use simis.Handlers.Kept.{object, set_get_lem}
use simis.Handlers.Loaded.{list_object}
use simis.Handlers.Pushed.{Pushed, push_lem}
use simis.Handlers.Blocking.{contents, SameContents, blpop_lem, blpop_blocks}

abbrev free : Env
free = record {
  now = pos 5;
  memory = λ i. pos 0;
  limits = record { max_memory = pos 0; eviction_policy = no_eviction };
  fuel = 0;
}

abbrev k : Text
k = bytes "k"

abbrev empty : KvStore Unit Unit
empty = new_store

-- A list with two strings
abbrev listed : KvStore Unit Unit
listed = record empty {
  sync_map = (k, list_object (record { items = bytes "a" ∷ bytes "b" ∷ [] }) none) ∷ [];
}

abbrev set_params : SetParams
set_params = record { key = k; value = bytes "v"; expiry = some (bytes "EX", pos 2) }

abbrev at : Option ℤ
at = some (pos 2000000005)

is_free : (st : KvStore Unit Unit) → evict_if_needed free.fuel free.memory free.limits st ≡ ok st
unfolding evict_if_needed
is_free st = refl

timed : expiry_at free.now set_params.expiry ≡ some at
unfolding expiry_at text_eq
timed = refl

set_get_lem_example :
    (st' : KvStore Unit Unit) × (execute_set free set_params empty
      ≡ some (modifying (to_simple_string (bytes "OK")) k, st'))
    × ((later : Env) (args : List Text)
        → (st'' : KvStore Unit Unit) × (handle_get later (k ∷ args) st'
            ≡ some (
              responding (
                  if is_expired later.now (object {S = Unit} {Z = Unit} (bytes "v") at)
                  then to_null_bulk_string
                  else to_bulk_string (bytes "v")),
              st'',
            )))
set_get_lem_example = set_get_lem free set_params at empty empty (is_free empty) timed

listed_lem : contents k listed ≡ some (record { items = bytes "a" ∷ bytes "b" ∷ [] }, none)
unfolding lookup text_eq
listed_lem = refl

push_lem_example :
    Pushed k
      (record { items = bytes "a" ∷ bytes "b" ∷ bytes "x" ∷ bytes "y" ∷ [] })
      none
      listed
      (handle_rpush free (k ∷ bytes "x" ∷ bytes "y" ∷ []) listed)
    × Pushed k
        (record { items = reverse_onto (bytes "x" ∷ bytes "y" ∷ []) (bytes "a" ∷ bytes "b" ∷ []) })
        none
        listed
        (handle_lpush free (k ∷ bytes "x" ∷ bytes "y" ∷ []) listed)
push_lem_example =
    push_lem free k (bytes "x") (bytes "y" ∷ []) (record { items = bytes "a" ∷ bytes "b" ∷ [] })
      none listed listed (is_free listed) listed_lem

other_lem : contents (bytes "j") listed ≡ some (new_deque, none)
unfolding lookup text_eq
other_lem = refl

blpop_lem_example :
    (st' : KvStore Unit Unit) × (blpop_with free (bytes "j" ∷ k ∷ []) (milliseconds (pos 0)) listed
      ≡ some (modifying (to_resp_array (some (k ∷ bytes "a" ∷ []))) k, st'))
    × ((j : Text)
        → contents j st' ≡ (
            if text_eq k j
            then some (record { items = bytes "b" ∷ [] }, none)
            else contents j listed))
blpop_lem_example =
    blpop_lem free (bytes "j" ∷ []) [] k (bytes "a") (bytes "b" ∷ []) none (pos 0) listed refl
      ((none, other_lem), tt) listed_lem

blpop_blocks_example :
    (st' : KvStore Unit Unit) × (blpop_with free (bytes "j" ∷ []) (milliseconds (pos 0)) listed
      ≡ some (
        record new_execution_result { blocking_timeout = pos 0; waiting_keys = bytes "j" ∷ [] },
        st',
      ))
    × SameContents listed st'
blpop_blocks_example =
    blpop_blocks free (bytes "j" ∷ []) (pos 0) listed refl ((none, other_lem), tt)

abbrev one_waits : State (Option (KvStore Unit Unit))
one_waits = record {
  store = some empty;
  commands = λ c.
      if c == 1
      then record { command = bytes "BLPOP"; args = k ∷ bytes "0" ∷ []; response = 1 }
      else record { command = bytes "RPUSH"; args = k ∷ bytes "v" ∷ []; response = 2 };
  blocking_commands = (k, alone 1 k ∷ []) ∷ [];
  answers = [];
  propagated = [];
}

one_wait : waiters k one_waits.blocking_commands ≡ alone 1 k ∷ []
unfolding waiters lookup text_eq
one_wait = refl

missing_lem : contents k empty ≡ some (new_deque, none)
unfolding lookup
missing_lem = refl

rpush_wakes_example :
    let st' = execute_command (command_table free (λ t. milliseconds (pos 0)) []) 2 one_waits in
    (waiters k st'.blocking_commands ≡ [])
    × (st'.answers
        ≡ [] ++ ((1, to_resp_array (some (k ∷ bytes "v" ∷ []))) ∷ (2, to_resp_int (pos 1)) ∷ []))
    × (kv' : KvStore Unit Unit) × (st'.store ≡ some kv')
    × ((j : Text) → contents j kv' ≡ contents j empty)
rpush_wakes_example =
    rpush_wakes free (λ t. milliseconds (pos 0)) [] k (bytes "v") (bytes "0") none (pos 0) 2 1 2 1
      empty one_waits refl refl refl refl refl refl missing_lem one_wait
