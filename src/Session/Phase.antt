-- ===== src/Session/Phase.antt =====
-- What a session keeps between two commands, and how the commands of a transaction change it.
use simis.Prelude.{
  Bool, Bool-cases, List, Text, [], ap, arith, bytes, false, inl, inr, refl, suc, text_eq_refl,
  true, ℕ, ◌++◌, ◌∷◌, ◌≡◌,
}
use simis.Resp.Requests.{ParseCommand}
use simis.Resp.{to_simple_string}
use simis.Connection.{
  Command, RedisConnection, create_command, enqueue_command, send_response, update,
}
use simis.Session.{Server, on_connection, respond}
use simis.Session.Router.{
  next_command, queue_command, queued, add_offset, is_transaction_control_command,
}

-- The commands as they are queued, with the numbers of their channels.
abbrev pub commands_from : ℕ → List ParseCommand → List Command
commands_from n [] = []
commands_from n (cmd ∷ cmds) = create_command n cmd.name cmd.args ∷ commands_from (suc n) cmds

abbrev pub IsQueued : ParseCommand → Type 0
IsQueued cmd = is_transaction_control_command cmd.name ≡ false

module _ {D : Type 0} where
  -- A session between two commands, with its mode, its queue and what it has left alone.
  pub record Phase (id : Text) (in_transaction : Bool) (queue : List Command) (n : ℕ)
      (w₀ w : Server D) : Type 0 where
    pub authenticated : (w.connections id).authenticated ≡ true
    pub mode : (w.connections id).in_pub_sub_mode ≡ false
    pub transaction : (w.connections id).in_transaction ≡ in_transaction
    pub queued_commands : (w.connections id).queued_commands ≡ queue
    pub next_channel : w.next_channel ≡ n
    pub store : w.store ≡ w₀.store
    pub users : w.users ≡ w₀.users
    pub pub_sub : w.pub_sub ≡ w₀.pub_sub

  pub respond-Phase :
      (id message : Text) (t : Bool) (q : List Command) (n : ℕ) (w₀ w : Server D)
      → Phase id t q n w₀ w
      → Phase id t q n w₀ (respond id message w)
  unfolding respond on_connection update send_response
  respond-Phase id message t q n w₀ w p = record {
    authenticated = ground (arith, text_eq_refl id, p.authenticated);
    mode = ground (arith, text_eq_refl id, p.mode);
    transaction = ground (arith, text_eq_refl id, p.transaction);
    queued_commands = ground (arith, text_eq_refl id, p.queued_commands);
    next_channel = p.next_channel;
    store = p.store;
    users = p.users;
    pub_sub = p.pub_sub;
  }

  pub add_offset-Phase :
      (id : Text) (cmd : ParseCommand) (t : Bool) (q : List Command) (n : ℕ) (w₀ w : Server D)
      → Phase id t q n w₀ w
      → Phase id t q n w₀ (add_offset id cmd w)
  unfolding add_offset
  add_offset-Phase id cmd t q n w₀ w p = elim (Bool-cases (w.connections id).is_master) [
    | inl e ↦ rw e (record {
      authenticated = p.authenticated;
      mode = p.mode;
      transaction = p.transaction;
      queued_commands = p.queued_commands;
      next_channel = p.next_channel;
      store = p.store;
      users = p.users;
      pub_sub = p.pub_sub;
    })
    | inr e ↦ rw e p
  ]

  -- The command of a session that is in no queue changes its connection and takes a channel.
  pub changed-Phase :
      (id : Text) (f : RedisConnection → RedisConnection) (t₀ t : Bool) (q₀ q : List Command)
      (n : ℕ) (w₀ w : Server D)
      → Phase id t₀ q₀ n w₀ w
      → ((f (w.connections id)).authenticated ≡ true)
        × ((f (w.connections id)).in_pub_sub_mode ≡ false)
      → ((f (w.connections id)).in_transaction ≡ t) × ((f (w.connections id)).queued_commands ≡ q)
      → Phase id t q (suc n) w₀ (on_connection id f (next_command w))
  unfolding on_connection update next_command
  changed-Phase id f t₀ t q₀ q n w₀ w p (authenticated, mode) (transaction, queue) = record {
    authenticated = rw (text_eq_refl id) authenticated;
    mode = rw (text_eq_refl id) mode;
    transaction = rw (text_eq_refl id) transaction;
    queued_commands = rw (text_eq_refl id) queue;
    next_channel = ap suc p.next_channel;
    store = p.store;
    users = p.users;
    pub_sub = p.pub_sub;
  }

  pub queue_command_lem :
      (id name : Text) (args : List Text) (w : Server D)
      → (w.connections id).in_transaction ≡ true
      → queue_command id name args w
        ≡ respond id (to_simple_string (bytes "QUEUED")) (
            on_connection id
              (λ old. record (w.connections id) {
                queued_commands =
                    (w.connections id).queued_commands
                    ++ (create_command w.next_channel name args ∷ []);
              })
              (next_command w))
  unfolding queue_command queued enqueue_command
  queue_command_lem id name args w e = rw e refl

  -- A command is queued with the next channel's number.
  pub queue_command-Phase :
      (id name : Text) (args : List Text) (q : List Command) (n : ℕ) (w₀ w : Server D)
      → Phase id true q n w₀ w
      → Phase id true
          (q ++ (create_command n name args ∷ []))
          (suc n)
          w₀
          (queue_command id name args w)
  queue_command-Phase id name args q n w₀ w p =
      let c = record (w.connections id) {
        queued_commands =
            (w.connections id).queued_commands ++ (create_command w.next_channel name args ∷ []);
      } in
      rw (queue_command_lem id name args w p.transaction) (
        respond-Phase id _ true (q ++ (create_command n name args ∷ [])) (suc n) w₀ _ (
          changed-Phase id (λ old. c) true true q _ n w₀ w p (p.authenticated, p.mode)
            (p.transaction, rw (p.queued_commands, p.next_channel) refl)))
