-- ===== src/Executor.antt =====
-- internal/executor: the commands one after the other, those that wait for a key, and transactions.
-- The handlers are a parameter; a handler may change the arguments of its command. A command is known by
-- the number of its answers' channel, which also stands for the pointer to it. What is sent on the
-- channels, and what is handed to the replicas, is kept in order.
use simis.Prelude.{
  Assoc, Bool, List, Option, Text, [], bytes, drop, false, get_elem?, if◌then◌else◌, insert, length,
  lookup, none, some, suc, take, text_eq, true, zero, ℕ, ◌++◌, ◌-◌, ◌==◌, ◌||◌, ◌∷◌,
}
use simis.Prelude.Int.{ℤ, pos, negsuc, leb_ℤ}
use simis.Resp.{to_error, to_resp_array, to_simple_resp_array}
use simis.Connection.{Command}
pub mod Answers
pub mod Serial
pub mod Waiting
pub mod Wakes
mod Tests

-- `ExecutionResult` of internal/handler/handler.go; an error is its text.
pub record ExecutionResult : Type 0 where
  pub response : Text
  pub error : Option Text
  pub blocking_timeout : ℤ
  pub waiting_keys : List Text
  pub modified_keys : List Text

-- `NewExecutionResult`
abbrev pub new_execution_result : ExecutionResult
new_execution_result = record {
  response = [];
  error = none;
  blocking_timeout = negsuc 0;
  waiting_keys = [];
  modified_keys = [];
}

-- `NewErrorResult`
abbrev pub new_error_result : Text → ExecutionResult
new_error_result e = record new_execution_result { error = some e }

pub record WaitingCommand : Type 0 where
  pub command : ℕ
  pub waiting_keys : List Text

abbrev pub Waiters : Type 0
Waiters = List WaitingCommand

-- `blockingCommands`, with the commands that it points to
pub record State (S : Type 0) : Type 0 where
  pub store : S
  pub commands : ℕ → Command
  pub blocking_commands : Assoc Waiters
  pub answers : List (ℕ × Text)
  pub propagated : List (Text × List Text)

abbrev pub Handler : Type 0 → Type 0
Handler S = Command → S → ExecutionResult × (List Text × S)

unfoldable pub waiters : Text → Assoc Waiters → Waiters
waiters key m = elim (lookup key m) [ none ↦ [] | some ws ↦ ws ]

-- The error of a result, or its response
abbrev pub answer_of : ExecutionResult → Text
answer_of res = elim res.error [ none ↦ res.response | some e ↦ to_error e ]

abbrev pub is_blocking : ExecutionResult → Bool
is_blocking res = leb_ℤ (pos 0) res.blocking_timeout

-- `isWriteCommand`
abbrev pub is_write_command : Text → Bool
is_write_command name =
    text_eq name (bytes "SET")
    || text_eq name (bytes "LPUSH")
    || text_eq name (bytes "RPUSH")
    || text_eq name (bytes "LPOP")
    || text_eq name (bytes "XADD")
    || text_eq name (bytes "INCR")

abbrev pub unknown_command : Text → Text
unknown_command name = to_error (bytes "unknown command: " ++ name)

-- The place of the waiting command in a list, by its command
unfoldable pub place_of : ℕ → Waiters → Option ℕ
place_of c [] = none
place_of c (wc ∷ ws) =
    let rest = place_of c ws in
    if wc.command == c then some 0 else elim rest [ none ↦ none | some i ↦ some (suc i) ]

-- `removeWaitingCommand`
unfoldable pub remove_waiting_command : Waiters → ℕ → Waiters
remove_waiting_command ws c = elim (place_of c ws) [
  | none ↦ ws
  | some i ↦ take i ws ++ drop (suc i) ws
]

-- What that does to the array of which the list is the front part: the elements behind the place move
-- one to the left, and the one at the end of the list stays where it is, too.
unfoldable pub shift_left : ℕ → ℕ → Waiters → Waiters
shift_left i n ws = take i ws ++ (drop (suc i) (take n ws) ++ drop (n - 1) ws)

unfoldable pub remove_from_array : Waiters → ℕ → Waiters → Waiters
remove_from_array now c ws = elim (place_of c now) [
  | none ↦ ws
  | some i ↦ shift_left i (length now) ws
]

unfoldable pub set_args : ℕ → List Text → (ℕ → Command) → ℕ → Command
set_args c args commands d = if d == c then record (commands c) { args = args } else commands d

unfoldable pub wait_for : WaitingCommand → List Text → Assoc Waiters → Assoc Waiters
wait_for wc [] m = m
wait_for wc (key ∷ keys) m = wait_for wc keys (insert key (waiters key m ++ (wc ∷ [])) m)

unfoldable pub stop_waiting : ℕ → List Text → Assoc Waiters → Assoc Waiters
stop_waiting c [] m = m
stop_waiting c (key ∷ keys) m =
    stop_waiting c keys (insert key (remove_waiting_command (waiters key m) c) m)

-- The removal from the lists of all keys, for the loop over the list of `key`
unfoldable pub stop_waiting_in :
    Text → ℕ → List Text → Waiters × Assoc Waiters → Waiters × Assoc Waiters
stop_waiting_in key c [] am = am
stop_waiting_in key c (k ∷ keys) (array, m) =
    let now = waiters k m in
    stop_waiting_in key c keys (
      if text_eq k key then remove_from_array now c array else array,
      insert k (remove_waiting_command now c) m,
    )

-- A turn of the loop has the array of the list that it runs over, the lists of the map, and the number
-- of the places that it has done with.
pub record Turn (S : Type 0) : Type 0 where
  pub array : Waiters
  pub state : State S
  pub done_with : ℕ

module _ {S : Type 0} where
  unfoldable pub answer : ℕ → Text → State S → State S
  answer c text st = record st { answers = st.answers ++ ((c, text) ∷ []) }

  unfoldable pub executed :
      ℕ → ExecutionResult × (List Text × S) → State S → ExecutionResult × State S
  executed c (res, (args, store)) st =
      (res, record st { store = store; commands = set_args c args st.commands })

  -- `Execute` on the command behind a pointer
  unfoldable pub execute : Handler S → ℕ → State S → ExecutionResult × State S
  execute h c st = executed c (h (st.commands c) st.store) st

  -- `AddWaitingCommand`; the goroutine of a timeout is `time_out` below.
  unfoldable pub add_waiting_command : ℕ → List Text → State S → State S
  add_waiting_command c keys st = record st {
    blocking_commands =
        wait_for (record { command = c; waiting_keys = keys }) keys st.blocking_commands;
  }

  -- What the goroutine does when the time is over
  unfoldable pub time_out : WaitingCommand → State S → State S
  time_out wc st = answer wc.command (to_resp_array none) (record st {
    blocking_commands = stop_waiting wc.command wc.waiting_keys st.blocking_commands;
  })

  unfoldable pub served : Text → ℕ → WaitingCommand → ExecutionResult → State S → Waiters → Turn S
  served key i wc res st array =
      let am = stop_waiting_in key wc.command wc.waiting_keys (array, st.blocking_commands) in
      record {
        array = am.0;
        state = answer wc.command (answer_of res) (record st { blocking_commands = am.1 });
        done_with = suc i;
      }

module _ {S : Type 0} (handlers : Text → Option (Handler S)) where
  -- One turn of the loop over the commands that wait for `key`; the Boolean says that it goes on.
  unfoldable pub turn_of :
      Text → ℕ → WaitingCommand → ExecutionResult × State S → Turn S → Bool × Turn S
  turn_of key i wc (res, st) t =
      if is_blocking res
      then (false, record t { state = st })
      else (true, served key i wc res st t.array)

  unfoldable pub turn_by : Text → ℕ → WaitingCommand → Option (Handler S) → Turn S → Bool × Turn S
  turn_by key i wc none t = (
    true,
    record t {
      state = answer wc.command (unknown_command (t.state.commands wc.command).command) t.state;
    },
  )
  turn_by key i wc (some h) t = turn_of key i wc (execute h wc.command t.state) t

  unfoldable pub turn_at : Text → ℕ → Option WaitingCommand → Turn S → Bool × Turn S
  turn_at key i none t = (false, t)
  turn_at key i (some wc) t = turn_by key i wc (handlers (t.state.commands wc.command).command) t

  unfoldable pub unblock_loop : Text → ℕ → ℕ → Bool × Turn S → Turn S
  unblock_loop key zero i (goes_on, t) = t
  unblock_loop key (suc n) i (goes_on, t) = elim goes_on [
    | false ↦ t
    | true ↦ unblock_loop key n (suc i) (turn_at key i (get_elem? t.array i) t)
  ]

  unfoldable pub unblocked : Text → Turn S → State S
  unblocked key t = record t.state {
    blocking_commands = insert key (drop t.done_with t.array) t.state.blocking_commands;
  }

  -- `UnblockCommandsWaitingForKey`
  unfoldable pub unblock : List Text → State S → State S
  unblock [] st = st
  unblock (key ∷ keys) st =
      let ws = waiters key st.blocking_commands in
      unblock keys (
        unblocked key
          (unblock_loop key (length ws) 0 (true, record { array = ws; state = st; done_with = 0 })))

  unfoldable pub propagate : Command → State S → State S
  propagate cmd st =
      if is_write_command cmd.command
      then record st { propagated = st.propagated ++ ((cmd.command, cmd.args) ∷ []) }
      else st

  unfoldable pub completed : ℕ → ExecutionResult → State S → State S
  completed c res st = elim res.error [
    | none ↦ answer c res.response (propagate (st.commands c) st)
    | some e ↦ answer c (to_error e) st
  ]

  unfoldable pub after_execution : ℕ → ExecutionResult × State S → State S
  after_execution c (res, st) =
      if is_blocking res
      then add_waiting_command c res.waiting_keys st
      else completed c res (unblock res.modified_keys st)

  unfoldable pub execute_by : ℕ → Option (Handler S) → State S → State S
  execute_by c none st = answer c (unknown_command (st.commands c).command) st
  execute_by c (some h) st = after_execution c (execute h c st)

  -- `executeCommand`
  unfoldable pub execute_command : ℕ → State S → State S
  execute_command c st = execute_by c (handlers (st.commands c).command) st

  -- A command of a transaction: its answer, the keys that it has changed, and the store; `none` is the
  -- panic at a command that blocks.
  unfoldable pub step_result : ExecutionResult × (List Text × S) → Option (Text × (List Text × S))
  step_result (res, (args, store)) =
      if is_blocking res then none else some (answer_of res, (res.modified_keys, store))

  unfoldable pub transaction_by : Command → Option (Handler S) → S → Option (Text × (List Text × S))
  transaction_by cmd none store = some (unknown_command cmd.command, ([], store))
  transaction_by cmd (some h) store = step_result (h cmd store)

  unfoldable pub transaction_step : Command → S → Option (Text × (List Text × S))
  transaction_step cmd store = transaction_by cmd (handlers cmd.command) store

  unfoldable pub first_result :
      Text → List Text → Option (List Text × (List Text × S)) → Option (List Text × (List Text × S))
  first_result text keys none = none
  first_result text keys (some (texts, (more_keys, store))) =
      some (text ∷ texts, (keys ++ more_keys, store))

  unfoldable pub loop_behind :
      Option (Text × (List Text × S))
      → (S → Option (List Text × (List Text × S)))
      → Option (List Text × (List Text × S))
  loop_behind none rest = none
  loop_behind (some (text, (keys, store))) rest = first_result text keys (rest store)

  -- The loop of `Execute`
  unfoldable pub transaction_loop : List Command → S → Option (List Text × (List Text × S))
  transaction_loop [] store = some ([], ([], store))
  transaction_loop (cmd ∷ cmds) store =
      loop_behind (transaction_step cmd store) (λ s. transaction_loop cmds s)

  unfoldable pub transaction_done :
      Option (List Text × (List Text × S)) → State S → Option (Text × State S)
  transaction_done none st = none
  transaction_done (some (texts, (keys, store))) st =
      some (to_simple_resp_array (some texts), unblock keys (record st { store = store }))

  -- `Execute` of the transaction, with its answer
  unfoldable pub execute_transaction : List Command → State S → Option (Text × State S)
  execute_transaction cmds st = transaction_done (transaction_loop cmds st.store) st
