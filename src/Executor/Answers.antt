-- ===== src/Executor/Answers.antt =====
-- One command while nobody waits.
use simis.Prelude.{
  Assoc, Bool-cases, List, Option, Text, [], ap, arith, false, injective_some, inl, inr, insert,
  lookup-insert, none, refl, some, sym, ℕ, ◌++◌, ◌==◌, ◌∙◌, ◌∷◌, ◌≡◌, ◌≢◌,
}
use simis.Connection.{Command}
use simis.Executor.{
  ExecutionResult, Handler, State, Waiters, waiters, answer_of, is_blocking, set_args, executed,
  execute, answer, unblock, unblocked, unblock_loop, propagate, completed, after_execution,
  execute_by, execute_command, step_result, transaction_by, transaction_step, is_write_command,
}

abbrev pub NobodyWaits : Assoc Waiters → Type 0
NobodyWaits m = (key : Text) → waiters key m ≡ []

NobodyWaits-insert :
    (key : Text) (m : Assoc Waiters) → NobodyWaits m → NobodyWaits (insert key [] m)
unfolding waiters
NobodyWaits-insert key m h j = ground (arith, lookup-insert key j [] m, h j)

pub none_not_some {ℓ} : {A : Type ℓ} {a : A} → ◌≢◌ {A = Option A} none (some a)
none_not_some e = cc

module _ {S : Type 0} (handlers : Text → Option (Handler S)) where
  -- Waking up those that wait for some keys, when nobody does
  pub record Idle (st st' : State S) : Type 0 where
    pub store : st'.store ≡ st.store
    pub commands : st'.commands ≡ st.commands
    pub answers : st'.answers ≡ st.answers
    pub nobody : NobodyWaits st'.blocking_commands

  unblock_idle_key :
      (key : Text) (keys : List Text) (st : State S)
      → waiters key st.blocking_commands ≡ []
      → unblock handlers (key ∷ keys) st
        ≡ unblock handlers keys
            (record st { blocking_commands = insert key [] st.blocking_commands })
  unfolding unblock unblock_loop unblocked
  unblock_idle_key key keys st h = rw (h, unblock) refl

  pub unblock-Idle :
      (keys : List Text) (st : State S)
      → NobodyWaits st.blocking_commands
      → Idle st (unblock handlers keys st)
  unblock-Idle [] st h =
      unfold unblock in record { store = refl; commands = refl; answers = refl; nobody = h }
  unblock-Idle (key ∷ keys) st h =
      let st' = record st { blocking_commands = insert key [] st.blocking_commands } in
      let rest = unblock-Idle keys st' (NobodyWaits-insert key st.blocking_commands h) in
      rw (unblock_idle_key key keys st (h key)) (record {
        store = rest.store;
        commands = rest.commands;
        answers = rest.answers;
        nobody = rest.nobody;
      })

  -- What a command has done that was answered at once.
  pub record Answered (c : ℕ) (text : Text) (left : S) (st st' : State S) : Type 0 where
    pub store : st'.store ≡ left
    pub commands : (d : ℕ) → (d == c) ≡ false → st'.commands d ≡ st.commands d
    pub answers : st'.answers ≡ st.answers ++ ((c, text) ∷ [])
    pub nobody : NobodyWaits st'.blocking_commands

  propagate_lem :
      (cmd : Command) (st : State S)
      → ((propagate handlers cmd st).store ≡ st.store)
        × ((propagate handlers cmd st).commands ≡ st.commands)
        × ((propagate handlers cmd st).answers ≡ st.answers)
        × ((propagate handlers cmd st).blocking_commands ≡ st.blocking_commands)
  unfolding propagate
  propagate_lem cmd st = elim (Bool-cases (is_write_command cmd.command)) [
    | inl e ↦ rw e (refl, refl, refl, refl)
    | inr e ↦ rw e (refl, refl, refl, refl)
  ]

  completed-Answered :
      (c : ℕ) (res : ExecutionResult) (error : Option Text) (st st₀ st₁ : State S)
      → res.error ≡ error
      → Idle st₀ st₁
      → st₀.answers ≡ st.answers
      → ((d : ℕ) → (d == c) ≡ false → st₀.commands d ≡ st.commands d)
      → Answered c (answer_of res) st₀.store st (completed handlers c res st₁)
  unfolding completed answer
  completed-Answered c res none st st₀ st₁ e idle same others =
      let (store, commands, answers, blocking) = propagate_lem (st₁.commands c) st₁ in
      rw e (record {
        store = store ∙ idle.store;
        commands = λ d h. rw (commands, idle.commands) (others d h);
        answers = rw (answers, idle.answers, same) refl;
        nobody = rw blocking idle.nobody;
      })
  completed-Answered c res (some text) st st₀ st₁ e idle same others = rw e (record {
    store = idle.store;
    commands = λ d h. rw idle.commands (others d h);
    answers = rw (idle.answers, same) refl;
    nobody = idle.nobody;
  })

  others_same :
      (c d : ℕ) (args : List Text) (commands : ℕ → Command)
      → (d == c) ≡ false
      → set_args c args commands d ≡ commands d
  unfolding set_args
  others_same c d args commands h = rw h refl

  after_execution-Answered :
      (c : ℕ) (r : ExecutionResult × (List Text × S)) (st : State S) (text : Text)
      (keys : List Text) (store : S)
      → NobodyWaits st.blocking_commands
      → step_result handlers r ≡ some (text, (keys, store))
      → Answered c text store st (after_execution handlers c (executed c r st))
  unfolding after_execution executed step_result
  after_execution-Answered c (res, (args, left)) st text keys store h e =
      elim (Bool-cases (is_blocking res)) [
        | inl blocks ↦ absurd (none_not_some (rw blocks at e))
        | inr goes ↦
            let st₀ = record st { store = left; commands = set_args c args st.commands } in
            let p = injective_some (rw goes at e) in
            let answered =
              completed-Answered c res res.error st st₀ _ refl
                (unblock-Idle res.modified_keys st₀ h) refl
                (λ d k. others_same c d args st.commands k) in
            rw (goes, sym (ap (λ t. t.0) p), sym (ap (λ t. t.1.1) p)) answered
      ]

  execute_by-Answered :
      (c : ℕ) (o : Option (Handler S)) (st : State S) (text : Text) (keys : List Text) (store : S)
      → NobodyWaits st.blocking_commands
      → transaction_by handlers (st.commands c) o st.store ≡ some (text, (keys, store))
      → Answered c text store st (execute_by handlers c o st)
  unfolding execute_by execute transaction_by answer
  execute_by-Answered c none st text keys store h e =
      let p = injective_some e in
      record {
        store = ap (λ t. t.1.1) p;
        commands = λ d k. refl;
        answers = rw (sym (ap (λ t. t.0) p)) refl;
        nobody = h;
      }
  execute_by-Answered c (some f) st text keys store h e =
      after_execution-Answered c (f (st.commands c) st.store) st text keys store h e

  -- A command that a transaction could run, while nobody waits: it is answered once, with the same
  -- text, and leaves the same store; the other commands are as they were, and still nobody waits.
  pub execute_command-Answered :
      (c : ℕ) (st : State S) (text : Text) (keys : List Text) (store : S)
      → NobodyWaits st.blocking_commands
      → transaction_step handlers (st.commands c) st.store ≡ some (text, (keys, store))
      → Answered c text store st (execute_command handlers c st)
  unfolding execute_command transaction_step
  execute_command-Answered c st text keys store h e =
      execute_by-Answered c (handlers (st.commands c).command) st text keys store h e
