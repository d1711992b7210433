-- ===== src/Executor/Wakes.antt =====
-- A key that one command waits for.
use simis.Prelude.{
  Bool, Bool-cases, Option, Text, [], ap, append_assoc, ap₂, drop, false, inl, inr, none, refl,
  true, zero, ℕ, ◌++◌, ◌∙◌, ◌∷◌, ◌≡◌,
}
use simis.Connection.{Command}
use simis.Executor.{
  ExecutionResult, WaitingCommand, Waiters, Handler, State, Turn, waiters, answer_of, is_blocking,
  answer, served, unblock_loop, unblocked, unblock, propagate, completed, after_execution,
  execute_by, execute_command, is_write_command,
}
use simis.Executor.Waiting.{
  alone, Runs, served_turn, loop_goes, served-array, waiters-unblocked, unblock_key,
  answers-unblocked, served_lem, execute-answers,
}

module _ {S : Type 0} (handlers : Text → Option (Handler S)) where
  -- What is left when the only waiting command was served
  pub record Woken (key : Text) (a : ℕ) (text : Text) (st st₁ st' : State S) : Type 0 where
    pub nobody : waiters key st'.blocking_commands ≡ []
    pub answers : st'.answers ≡ st.answers ++ ((a, text) ∷ [])
    pub store : st'.store ≡ st₁.store

  loop_ends :
      (key : Text) (i : ℕ) (b : Bool) (t : Turn S) → unblock_loop handlers key zero i (b, t) ≡ t
  unfolding unblock_loop
  loop_ends key i b t = refl

  store-unblocked : (key : Text) (t : Turn S) → (unblocked handlers key t).store ≡ t.state.store
  unfolding unblocked
  store-unblocked key t = refl

  store-served :
      (key : Text) (i : ℕ) (wc : WaitingCommand) (res : ExecutionResult) (st : State S)
      (array : Waiters)
      → (served key i wc res st array).state.store ≡ st.store
  unfolding served answer
  store-served key i wc res st array = refl

  unblock-Woken :
      (key : Text) (a : ℕ) (res : ExecutionResult) (st st₁ : State S)
      → waiters key st.blocking_commands ≡ alone a key ∷ []
      → Runs handlers a res st st₁
      → is_blocking res ≡ false
      → Woken key a (answer_of res) st st₁ (unblock handlers (key ∷ []) st)
  unblock-Woken key a res st st₁ list r goes =
      let (same_answers, same_lists) = execute-answers handlers r.handler a res st st₁ r.ran in
      let t₀ : Turn S = record { array = alone a key ∷ []; state = st; done_with = 0 } in
      let t₁ = served key 0 (alone a key) res st₁ (alone a key ∷ []) in
      let now : waiters key st₁.blocking_commands ≡ alone a key ∷ [] = rw same_lists list in
      let array : t₁.array ≡ alone a key ∷ [] = served-array handlers key a [] res st₁ now in
      let (done_with, answers) =
        served_lem handlers key 0 (alone a key) res st₁ (alone a key ∷ []) in
      let ended : unblock_loop handlers key 1 0 (true, t₀) ≡ t₁ =
        loop_goes handlers key 0 0 t₀
        ∙ ap (λ p. unblock_loop handlers key 0 1 p)
            (served_turn handlers key 0 (alone a key) res t₀ st₁ r goes)
        ∙ loop_ends key 1 true t₁ in
      rw (unblock_key handlers key st _ list, ended)
        (record {
          nobody = waiters-unblocked handlers key t₁ ∙ ap₂ drop done_with array;
          answers =
              answers-unblocked handlers key t₁
              ∙ answers
              ∙ ap (λ l. l ++ ((a, answer_of res) ∷ [])) same_answers;
          store =
              store-unblocked key t₁ ∙ store-served key 0 (alone a key) res st₁ (alone a key ∷ []);
        })

  propagate_same :
      (cmd : Command) (st : State S)
      → ((propagate handlers cmd st).store ≡ st.store)
        × ((propagate handlers cmd st).answers ≡ st.answers)
        × ((propagate handlers cmd st).blocking_commands ≡ st.blocking_commands)
  unfolding propagate
  propagate_same cmd st = elim (Bool-cases (is_write_command cmd.command)) [
    | inl e ↦ rw e (refl, refl, refl)
    | inr e ↦ rw e (refl, refl, refl)
  ]

  -- A command that changes a key for which another one waits, alone, and lets it be served: the waiting
  -- one is answered first, the command itself behind it, and nobody waits for the key any more.
  pub execute_command-wakes :
      (key : Text) (c a : ℕ) (res res' : ExecutionResult) (st st₀ st₁ : State S)
      → Runs handlers c res st st₀
      → is_blocking res ≡ false
      → res.error ≡ none
      → res.modified_keys ≡ key ∷ []
      → waiters key st.blocking_commands ≡ alone a key ∷ []
      → Runs handlers a res' st₀ st₁
      → is_blocking res' ≡ false
      → (waiters key (execute_command handlers c st).blocking_commands ≡ [])
        × ((execute_command handlers c st).answers
            ≡ st.answers ++ ((a, answer_of res') ∷ (c, res.response) ∷ []))
        × ((execute_command handlers c st).store ≡ st₁.store)
  unfolding execute_command execute_by after_execution completed answer
  execute_command-wakes key c a res res' st st₀ st₁ r goes fine keys list r' goes' =
      let (same_answers, same_lists) = execute-answers handlers r.handler c res st st₀ r.ran in
      let woken = unblock-Woken key a res' st₀ st₁ (rw same_lists list) r' goes' in
      let (store, answers, lists) =
        propagate_same ((unblock handlers (key ∷ []) st₀).commands c)
          (unblock handlers (key ∷ []) st₀) in
      rw (r.known, execute_by, r.ran, goes, keys, fine)
        (
          rw lists woken.nobody,
          ap (λ l. l ++ ((c, res.response) ∷ []))
                (answers ∙ woken.answers ∙ ap (λ l. l ++ ((a, answer_of res') ∷ [])) same_answers)
              ∙ append_assoc st.answers ((a, answer_of res') ∷ []) ((c, res.response) ∷ []),
          store ∙ woken.store,
        )
