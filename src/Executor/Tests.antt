-- ===== src/Executor/Tests.antt =====
-- A store that counts its elements, with a command that adds one and one that waits for one.
use simis.Prelude.{
  List, Option, Text, [], bytes, if◌then◌else◌, leb, length, lookup, refl, some, suc, text_eq, true,
  zero, ℕ, ◌++◌, ◌∷◌, ◌≡◌,
}
use simis.Prelude.Int.{pos}
use simis.Connection.{Command}
use simis.Resp.{to_simple_resp_array}
use simis.Executor.{
  new_execution_result, Handler, State, waiters, is_blocking, executed, execute, set_args, answer,
  served, unblock, execute_transaction, transaction_loop, loop_behind, first_result,
  transaction_done, transaction_step, transaction_by, step_result,
}
use simis.Executor.Serial.{pointed, paired, execute_all, execute_transaction_lem}
use simis.Executor.Waiting.{alone, Runs, unblock_one}

abbrev add : Handler ℕ
add cmd n = (record new_execution_result { response = bytes "+OK" }, (cmd.args, suc n))

abbrev pop : Handler ℕ
pop cmd zero = (
  record new_execution_result { blocking_timeout = pos 0; waiting_keys = bytes "k" ∷ [] },
  (cmd.args, zero),
)
pop cmd (suc n) = (record new_execution_result { response = bytes "+1" }, (cmd.args, n))

abbrev table : Text → Option (Handler ℕ)
table name = if text_eq name (bytes "POP") then some pop else some add

abbrev named : ℕ → Command
named c = record {
  command = if leb 10 c then bytes "ADD" else bytes "POP";
  args = [];
  response = c;
}

abbrev idle : State ℕ
idle = record { store = 0; commands = named; blocking_commands = []; answers = []; propagated = [] }

abbrev k : Text
k = bytes "k"

-- Three commands wait for k, which has got one element.
abbrev three_waiting : State ℕ
three_waiting = record idle {
  store = 1;
  blocking_commands = (k, alone 1 k ∷ alone 2 k ∷ alone 3 k ∷ []) ∷ [];
}

first-Runs :
    Runs table 1 (execute pop 1 three_waiting).0 three_waiting (execute pop 1 three_waiting).1
unfolding text_eq
first-Runs = record { handler = pop; known = refl; ran = refl }

abbrev after_first : State ℕ
after_first =
    (served k 0 (alone 1 k) (execute pop 1 three_waiting).0 (execute pop 1 three_waiting).1
      (alone 1 k ∷ alone 2 k ∷ alone 3 k ∷ [])).state

third-Runs : Runs table 3 (execute pop 3 after_first).0 after_first (execute pop 3 after_first).1
unfolding served answer execute executed set_args text_eq
third-Runs = record { handler = pop; known = refl; ran = refl }

third_blocks : is_blocking (execute pop 3 after_first).0 ≡ true
unfolding served answer execute executed set_args
third_blocks = refl

three_wait : waiters k three_waiting.blocking_commands ≡ alone 1 k ∷ alone 2 k ∷ alone 3 k ∷ []
unfolding waiters lookup text_eq
three_wait = refl

unblock_one_example :
    (waiters k (unblock table (k ∷ []) three_waiting).blocking_commands
      ≡ alone 3 k ∷ alone 3 k ∷ [])
    × ((unblock table (k ∷ []) three_waiting).answers ≡ [] ++ ((1, bytes "+1") ∷ []))
unfolding execute executed
unblock_one_example =
    unblock_one table k 1 (alone 2 k) (alone 3 k) (alone 3 k ∷ []) (execute pop 1 three_waiting).0
      (execute pop 3 after_first).0 three_waiting (execute pop 1 three_waiting).1
      (execute pop 3 after_first).1 three_wait first-Runs refl refl third-Runs third_blocks

idle_lem : (key : Text) → waiters key [] ≡ []
unfolding waiters lookup
idle_lem key = refl

two_added :
    execute_transaction table (pointed named (10 ∷ 11 ∷ [])) idle
    ≡ some (to_simple_resp_array (some (bytes "+OK" ∷ bytes "+OK" ∷ [])), record idle { store = 2 })
unfolding execute_transaction transaction_loop loop_behind first_result transaction_done
    transaction_step transaction_by step_result unblock text_eq
two_added = refl

execute_transaction_lem_example :
    (texts : List Text) × (to_simple_resp_array (some (bytes "+OK" ∷ bytes "+OK" ∷ []))
      ≡ to_simple_resp_array (some texts))
    × (length texts ≡ 2)
    × ((execute_all table (10 ∷ 11 ∷ []) idle).answers ≡ [] ++ paired (10 ∷ 11 ∷ []) texts)
    × ((execute_all table (10 ∷ 11 ∷ []) idle).store ≡ 2)
    × (◌≡◌ {A = List (ℕ × Text)} [] [])
execute_transaction_lem_example =
    execute_transaction_lem table (10 ∷ 11 ∷ []) idle (record idle { store = 2 })
      (to_simple_resp_array (some (bytes "+OK" ∷ bytes "+OK" ∷ []))) idle_lem ((refl, tt), (tt, tt))
      two_added
