-- ===== src/Session/Tests.antt =====
-- Two sessions: one that opens a transaction, and one that is not let in.
use simis.Prelude.{
  Bool, List, Text, [], bytes, false, insert, length, lookup, refl, some, suc, text_eq, true, ℕ,
  ◌++◌, ◌+◌, ◌∷◌, ◌≡◌,
}
use simis.Prelude.Int.{pos}
use simis.Acl.{set_user, get_user, new_acl_manager}
use simis.Connection.{Connections}
use simis.PubSub.{new_pub_sub_manager}
use simis.Resp.Requests.{ParseCommand}
use simis.Session.{authenticates, contains, Server, Handled, Executor, handled, respond_with}
use simis.Session.Router.{add_offset, handle_commands}
use simis.Session.Phase.{Phase, commands_from}
use simis.Session.Transactions.{multi_exec_lem, multi_discard_lem}
use simis.Session.Untouched.{EndsUntouched}
use simis.Session.Guarded.{handle_commands-EndsUntouched}

abbrev connected : Bool → Connections
connected authenticated id = record {
  id = id;
  conn = [];
  in_transaction = false;
  queued_commands = [];
  suppress_response = false;
  is_master = false;
  in_pub_sub_mode = false;
  username = bytes "default";
  authenticated = authenticated;
}

abbrev server : Bool → Server ℕ
server authenticated = record {
  users = new_acl_manager;
  pub_sub = new_pub_sub_manager;
  connections = connected authenticated;
  store = 0;
  next_channel = 0;
  offset = pos 0;
}

-- The store counts the commands.
abbrev counting : Executor ℕ
counting = record {
  run_command = λ c w. (bytes "+OK", record w { store = suc w.store });
  run_transaction = λ cs w. (bytes "*1", record w { store = length cs + w.store });
}

abbrev no_replication : Text → Text → List Text → Server ℕ → Handled ℕ
no_replication id name args w = handled w

abbrev no_sum : Text → Text
no_sum s = s

abbrev ann : Text
ann = bytes "a"

abbrev set_get : List ParseCommand
set_get =
    record { name = bytes "SET"; args = bytes "k" ∷ bytes "v" ∷ [] }
    ∷ record { name = bytes "GET"; args = bytes "k" ∷ [] }
    ∷ []

server-Phase : Phase ann false [] 0 (server true) (server true)
server-Phase = record {
  authenticated = refl;
  mode = refl;
  transaction = refl;
  queued_commands = refl;
  next_channel = refl;
  store = refl;
  users = refl;
  pub_sub = refl;
}

multi_exec_lem_example :
    (v : Server ℕ) × (handle_commands no_sum counting no_replication ann
        (record { name = bytes "MULTI"; args = [] }
          ∷ (set_get ++ (record { name = bytes "EXEC"; args = [] } ∷ [])))
        (server true)
      ≡ some (
          add_offset ann
            (record { name = bytes "EXEC"; args = [] })
            (respond_with ann (counting.run_transaction ([] ++ commands_from 1 set_get) v))))
    × Phase ann false ([] ++ commands_from 1 set_get) (suc (length set_get + 1)) (server true) v
multi_exec_lem_example =
    multi_exec_lem no_sum counting no_replication ann [] [] set_get [] 0 (server true) server-Phase
      (unfold text_eq in (refl, (refl, tt)))

multi_discard_lem_example :
    (v : Server ℕ) × (handle_commands no_sum counting no_replication ann
        (record { name = bytes "MULTI"; args = [] }
          ∷ (set_get ++ (record { name = bytes "DISCARD"; args = [] } ∷ [])))
        (server true)
      ≡ some v)
    × Phase ann false [] (suc (length set_get + 1)) (server true) v
multi_discard_lem_example =
    multi_discard_lem no_sum counting no_replication ann [] [] set_get [] 0 (server true)
      server-Phase (unfold text_eq in (refl, (refl, tt)))

abbrev guess : List ParseCommand
guess =
    record { name = bytes "AUTH"; args = bytes "default" ∷ bytes "x" ∷ [] }
    ∷ record { name = bytes "GET"; args = bytes "k" ∷ [] }
    ∷ []

wrong_guess : authenticates no_sum (bytes "default") (bytes "x") new_acl_manager ≡ false
unfolding authenticates set_user get_user lookup insert text_eq contains
wrong_guess = refl

handle_commands-EndsUntouched_example :
    EndsUntouched ann guess
      (server false)
      (pos 0)
      (handle_commands no_sum counting no_replication ann guess (server false))
handle_commands-EndsUntouched_example =
    handle_commands-EndsUntouched no_sum counting no_replication ann guess (server false) refl
      (λ h. wrong_guess, (λ h. tt, tt))
