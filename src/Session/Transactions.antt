-- ===== src/Session/Transactions.antt =====
-- A transaction of a session, from MULTI to EXEC or DISCARD.
use simis.Prelude.{
  All, List, Text, [], append-nil, append_assoc, arith, bytes, false, length, refl, some, suc, sym,
  text_eq, true, ℕ, ◌++◌, ◌+◌, ◌∙◌, ◌∷◌, ◌≡◌,
}
use simis.Resp.Requests.{ParseCommand}
use simis.Resp.{to_simple_string}
use simis.Connection.{
  Command, create_command, start_transaction, end_transaction, discard_transaction,
}
use simis.Session.{
  Server, Handled, Executor, on_connection, respond, respond_with, answered, execute_multi,
  execute_exec, execute_discard, session_handler,
}
use simis.Session.Router.{
  next_command, queue_command, dispatch, finished, route, add_offset, handle_commands,
  is_transaction_control_command,
}
use simis.Session.Phase.{
  Phase, IsQueued, commands_from, respond-Phase, add_offset-Phase, changed-Phase,
  queue_command-Phase,
}

module _ {D : Type 0} (sha256_hex : Text → Text) (ex : Executor D)
    (replication : Text → Text → List Text → Server D → Handled D) where
  route_queued :
      (id name : Text) (args : List Text) (q : List Command) (n : ℕ) (w₀ w : Server D)
      → Phase id true q n w₀ w
      → is_transaction_control_command name ≡ false
      → route sha256_hex ex replication id name args w ≡ some (queue_command id name args w)
  unfolding route
  route_queued id name args q n w₀ w p h = rw (p.authenticated, p.transaction, h) refl

  -- The server behind the queueing of the commands.
  abbrev queueing : Text → List ParseCommand → Server D → Server D
  queueing id [] w = w
  queueing id (cmd ∷ cmds) w =
      queueing id cmds (add_offset id cmd (queue_command id cmd.name cmd.args w))

  queueing-Phase :
      (id : Text) (cmds : List ParseCommand) (q : List Command) (n : ℕ) (w₀ w : Server D)
      → Phase id true q n w₀ w
      → Phase id true (q ++ commands_from n cmds) (length cmds + n) w₀ (queueing id cmds w)
  queueing-Phase id [] q n w₀ w p =
      let number : 0 + n ≡ n = omega arith in rw (append-nil q, number) p
  queueing-Phase id (cmd ∷ cmds) q n w₀ w p =
      let queue : (q ++ (create_command n cmd.name cmd.args ∷ [])) ++ commands_from (suc n) cmds
          ≡ q ++ commands_from n (cmd ∷ cmds) =
        append_assoc q _ _ in
      let number : length cmds + suc n ≡ suc (length cmds) + n = omega arith in
      rw (sym queue, sym number)
        (queueing-Phase id cmds (q ++ (create_command n cmd.name cmd.args ∷ [])) (suc n) w₀ _ (
          add_offset-Phase id cmd true _ (suc n) w₀ _
            (queue_command-Phase id cmd.name cmd.args q n w₀ w p)))

  handle_commands_queued :
      (id : Text) (cmds rest : List ParseCommand) (q : List Command) (n : ℕ) (w₀ w : Server D)
      → Phase id true q n w₀ w
      → All IsQueued cmds
      → handle_commands sha256_hex ex replication id (cmds ++ rest) w
        ≡ handle_commands sha256_hex ex replication id rest (queueing id cmds w)
  unfolding handle_commands
  handle_commands_queued id [] rest q n w₀ w p h = refl
  handle_commands_queued id (cmd ∷ cmds) rest q n w₀ w p h =
      rw (route_queued id cmd.name cmd.args q n w₀ w p h.0, handle_commands)
        (handle_commands_queued id cmds rest (q ++ (create_command n cmd.name cmd.args ∷ []))
          (suc n) w₀ _
          (add_offset-Phase id cmd true _ (suc n) w₀ _
            (queue_command-Phase id cmd.name cmd.args q n w₀ w p))
          h.1)

  route_multi :
      (id : Text) (args : List Text) (q : List Command) (n : ℕ) (w₀ w : Server D)
      → Phase id false q n w₀ w
      → (v : Server D) × (route sha256_hex ex replication id (bytes "MULTI") args w ≡ some v)
        × Phase id true q (suc n) w₀ v
  unfolding route dispatch session_handler text_eq execute_multi start_transaction answered finished
      next_command
  route_multi id args q n w₀ w p =
      let c = record (w.connections id) { in_transaction = true } in
      (
        respond id (to_simple_string (bytes "OK")) (on_connection id (λ old. c) (next_command w)),
        rw (p.authenticated, p.transaction, p.mode) refl,
        respond-Phase id _ true q (suc n) w₀ _ (
            changed-Phase id _ false true q q n w₀ w p (p.authenticated, p.mode)
              (refl, p.queued_commands)),
      )

  route_exec :
      (id : Text) (args : List Text) (q : List Command) (n : ℕ) (w₀ w : Server D)
      → Phase id true q n w₀ w
      → (v : Server D) × (route sha256_hex ex replication id (bytes "EXEC") args w
          ≡ some (respond_with id (ex.run_transaction q v)))
        × Phase id false q (suc n) w₀ v
  unfolding route dispatch session_handler text_eq execute_exec finished next_command
  route_exec id args q n w₀ w p = (
    on_connection id end_transaction (next_command w),
    rw (p.authenticated, p.transaction, p.mode, p.queued_commands) refl,
    changed-Phase id end_transaction true false q q n w₀ w p
        (unfold end_transaction in p.authenticated, unfold end_transaction in p.mode)
        (unfold end_transaction in refl, unfold end_transaction in p.queued_commands),
  )

  route_discard :
      (id : Text) (args : List Text) (q : List Command) (n : ℕ) (w₀ w : Server D)
      → Phase id true q n w₀ w
      → (v : Server D) × (route sha256_hex ex replication id (bytes "DISCARD") args w ≡ some v)
        × Phase id false [] (suc n) w₀ v
  unfolding route dispatch session_handler text_eq execute_discard discard_transaction answered
      finished next_command
  route_discard id args q n w₀ w p =
      let c = record (w.connections id) { in_transaction = false; queued_commands = [] } in
      (
        respond id (to_simple_string (bytes "OK")) (on_connection id (λ old. c) (next_command w)),
        rw (p.authenticated, p.transaction, p.mode) refl,
        respond-Phase id _ false [] (suc n) w₀ _
            (changed-Phase id _ true false q [] n w₀ w p (p.authenticated, p.mode) (refl, refl)),
      )

  -- MULTI, any commands but EXEC and DISCARD, then EXEC, from a session that is let in, is in no
  -- transaction and not in the publish-and-subscribe mode: the commands are run together, in their
  -- order, on the store and the users as they were before MULTI. But the commands that an earlier
  -- transaction has left in the queue are run in front of them, and the queue still holds them all
  -- when they are run.
  pub multi_exec_lem :
      (id : Text) (margs eargs : List Text) (cmds : List ParseCommand) (q : List Command) (n : ℕ)
      (w : Server D)
      → Phase id false q n w w
      → All IsQueued cmds
      → (v : Server D) × (handle_commands sha256_hex ex replication id
            (record { name = bytes "MULTI"; args = margs }
              ∷ (cmds ++ (record { name = bytes "EXEC"; args = eargs } ∷ [])))
            w
          ≡ some (
              add_offset id
                (record { name = bytes "EXEC"; args = eargs })
                (respond_with id (ex.run_transaction (q ++ commands_from (suc n) cmds) v))))
        × Phase id false (q ++ commands_from (suc n) cmds) (suc (length cmds + suc n)) w v
  unfolding handle_commands
  multi_exec_lem id margs eargs cmds q n w p h =
      let (u, started, p₁) = route_multi id margs q n w w p in
      let multi : ParseCommand = record { name = bytes "MULTI"; args = margs } in
      let exec : ParseCommand = record { name = bytes "EXEC"; args = eargs } in
      let p₂ = add_offset-Phase id multi true q (suc n) w u p₁ in
      let p₃ = queueing-Phase id cmds q (suc n) w _ p₂ in
      let (v, run, p₄) =
        route_exec id eargs (q ++ commands_from (suc n) cmds) (length cmds + suc n) w _ p₃ in
      (
        v,
        rw (started, handle_commands)
            (handle_commands_queued id cmds (exec ∷ []) q (suc n) w _ p₂ h
              ∙ rw (run, handle_commands) refl),
        p₄,
      )

  -- MULTI, any commands but EXEC and DISCARD, then DISCARD, from such a session: nothing is run, the
  -- store, the users and the channels are as they were, and the queue is empty.
  pub multi_discard_lem :
      (id : Text) (margs dargs : List Text) (cmds : List ParseCommand) (q : List Command) (n : ℕ)
      (w : Server D)
      → Phase id false q n w w
      → All IsQueued cmds
      → (v : Server D) × (handle_commands sha256_hex ex replication id
            (record { name = bytes "MULTI"; args = margs }
              ∷ (cmds ++ (record { name = bytes "DISCARD"; args = dargs } ∷ [])))
            w
          ≡ some v)
        × Phase id false [] (suc (length cmds + suc n)) w v
  unfolding handle_commands
  multi_discard_lem id margs dargs cmds q n w p h =
      let (u, started, p₁) = route_multi id margs q n w w p in
      let multi : ParseCommand = record { name = bytes "MULTI"; args = margs } in
      let discard : ParseCommand = record { name = bytes "DISCARD"; args = dargs } in
      let p₂ = add_offset-Phase id multi true q (suc n) w u p₁ in
      let p₃ = queueing-Phase id cmds q (suc n) w _ p₂ in
      let (v, dropped, p₄) =
        route_discard id dargs (q ++ commands_from (suc n) cmds) (length cmds + suc n) w _ p₃ in
      (
        add_offset id discard v,
        rw (started, handle_commands)
            (handle_commands_queued id cmds (discard ∷ []) q (suc n) w _ p₂ h
              ∙ rw (dropped, handle_commands) refl),
        add_offset-Phase id discard false [] _ w v p₄,
      )
