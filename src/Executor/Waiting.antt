-- ===== src/Executor/Waiting.antt =====
-- A key that several commands wait for, when only the first of them can be served.
use simis.Prelude.{
  Assoc, Option, Text, [], ap, ap₂, arith, drop, false, get_elem?, insert, length, lookup-insert,
  refl, some, suc, sym, take-length, text_eq_refl, true, zero, ℕ, ◌++◌, ◌-◌, ◌==◌, ◌∙◌, ◌∷◌, ◌≡◌,
}
use simis.Executor.{
  ExecutionResult, WaitingCommand, Waiters, Handler, State, Turn, waiters, answer_of, is_blocking,
  place_of, shift_left, remove_from_array, stop_waiting_in, answer, executed, execute, served,
  turn_of, turn_by, turn_at, unblock_loop, unblocked, unblock,
}

-- The array of a list of which the first was taken out
abbrev pub shifted : WaitingCommand → Waiters → Waiters
shifted wa ws = ws ++ drop (length ws) (wa ∷ ws)

place_of_first : (wa : WaitingCommand) (ws : Waiters) → place_of wa.command (wa ∷ ws) ≡ some 0
unfolding place_of
place_of_first wa ws =
    let same : (wa.command == wa.command) ≡ true = ground arith in rw (same, place_of) refl

remove_first :
    (wa : WaitingCommand) (ws : Waiters)
    → remove_from_array (wa ∷ ws) wa.command (wa ∷ ws) ≡ shifted wa ws
unfolding remove_from_array shift_left
remove_first wa ws =
    let count : suc (length ws) - 1 ≡ length ws = omega arith in
    rw (place_of_first wa ws, remove_from_array, count, take-length ws (length ws) (omega arith))
      refl

waiters-insert :
    (key : Text) (ws : Waiters) (m : Assoc Waiters) → waiters key (insert key ws m) ≡ ws
unfolding waiters
waiters-insert key ws m = rw (waiters, lookup-insert key key ws m, text_eq_refl key) refl

-- A command that waits for one key
abbrev pub alone : ℕ → Text → WaitingCommand
alone c key = record { command = c; waiting_keys = key ∷ [] }

module _ {S : Type 0} (handlers : Text → Option (Handler S)) where
  -- The command behind a pointer has a handler, which gives a result.
  pub record Runs (c : ℕ) (res : ExecutionResult) (st st' : State S) : Type 0 where
    pub handler : Handler S
    pub known : handlers (st.commands c).command ≡ some handler
    pub ran : execute handler c st ≡ (res, st')

  pub execute-answers :
      (h : Handler S) (c : ℕ) (res : ExecutionResult) (st st' : State S)
      → execute h c st ≡ (res, st')
      → (st'.answers ≡ st.answers) × (st'.blocking_commands ≡ st.blocking_commands)
  unfolding execute executed
  execute-answers h c res st st' e =
      (sym (ap (λ r. r.1.answers) e), sym (ap (λ r. r.1.blocking_commands) e))

  pub served_turn :
      (key : Text) (i : ℕ) (wc : WaitingCommand) (res : ExecutionResult) (t : Turn S)
      (st' : State S)
      → Runs wc.command res t.state st'
      → is_blocking res ≡ false
      → turn_at handlers key i (some wc) t ≡ (true, served key i wc res st' t.array)
  unfolding turn_at turn_by turn_of
  served_turn key i wc res t st' r h = rw (r.known, turn_by, r.ran, h) refl

  blocked_turn :
      (key : Text) (i : ℕ) (wc : WaitingCommand) (res : ExecutionResult) (t : Turn S)
      (st' : State S)
      → Runs wc.command res t.state st'
      → is_blocking res ≡ true
      → turn_at handlers key i (some wc) t ≡ (false, record t { state = st' })
  unfolding turn_at turn_by turn_of
  blocked_turn key i wc res t st' r h = rw (r.known, turn_by, r.ran, h) refl

  loop_left : (key : Text) (n i : ℕ) (t : Turn S) → unblock_loop handlers key n i (false, t) ≡ t
  unfolding unblock_loop
  loop_left key zero i t = refl
  loop_left key (suc n) i t = refl

  pub loop_goes :
      (key : Text) (n i : ℕ) (t : Turn S)
      → unblock_loop handlers key (suc n) i (true, t)
        ≡ unblock_loop handlers key n (suc i) (turn_at handlers key i (get_elem? t.array i) t)
  unfolding unblock_loop
  loop_goes key n i t = refl

  pub served-array :
      (key : Text) (a : ℕ) (ws : Waiters) (res : ExecutionResult) (st : State S)
      → waiters key st.blocking_commands ≡ alone a key ∷ ws
      → (served key 0 (alone a key) res st (alone a key ∷ ws)).array ≡ shifted (alone a key) ws
  unfolding served stop_waiting_in
  served-array key a ws res st list = rw (list, text_eq_refl key) (remove_first (alone a key) ws)

  pub unblock_key :
      (key : Text) (st : State S) (ws : Waiters)
      → waiters key st.blocking_commands ≡ ws
      → unblock handlers (key ∷ []) st
        ≡ unblocked handlers key (
            unblock_loop handlers key
              (length ws)
              0
              (true, record { array = ws; state = st; done_with = 0 }))
  unfolding unblock
  unblock_key key st ws e = rw (e, unblock) refl

  pub waiters-unblocked :
      (key : Text) (t : Turn S)
      → waiters key (unblocked handlers key t).blocking_commands ≡ drop t.done_with t.array
  unfolding unblocked
  waiters-unblocked key t = waiters-insert key (drop t.done_with t.array) t.state.blocking_commands

  pub answers-unblocked :
      (key : Text) (t : Turn S) → (unblocked handlers key t).answers ≡ t.state.answers
  unfolding unblocked
  answers-unblocked key t = refl

  pub served_lem :
      (key : Text) (i : ℕ) (wc : WaitingCommand) (res : ExecutionResult) (st : State S)
      (array : Waiters)
      → ((served key i wc res st array).done_with ≡ suc i)
        × ((served key i wc res st array).state.answers
            ≡ st.answers ++ ((wc.command, answer_of res) ∷ []))
  unfolding served answer
  served_lem key i wc res st array = (refl, refl)

  -- A key that two commands or more wait for, the first of them for it alone, is changed so that the
  -- first can be served, while the next that is tried still blocks. The first is answered, once. But
  -- what waits then is the list without its first two commands, and with its last one a second time
  -- behind it: with two that waited, the second still waits; with more, the second is lost, and the last
  -- waits twice.
  pub unblock_one :
      (key : Text) (a : ℕ) (wb wc : WaitingCommand) (ws : Waiters) (res res' : ExecutionResult)
      (st st₁ st₃ : State S)
      → waiters key st.blocking_commands ≡ alone a key ∷ wb ∷ ws
      → Runs a res st st₁
      → is_blocking res ≡ false
      → get_elem? (shifted (alone a key) (wb ∷ ws)) 1 ≡ some wc
      → Runs wc.command res' (served key 0 (alone a key) res st₁ (alone a key ∷ wb ∷ ws)).state st₃
      → is_blocking res' ≡ true
      → (waiters key (unblock handlers (key ∷ []) st).blocking_commands
          ≡ ws ++ drop (length ws) (wb ∷ ws))
        × ((unblock handlers (key ∷ []) st).answers ≡ st.answers ++ ((a, answer_of res) ∷ []))
  unblock_one key a wb wc ws res res' st st₁ st₃ list r₁ goes next r₃ blocks =
      let (same_answers, same_lists) = execute-answers r₁.handler a res st st₁ r₁.ran in
      let t₀ : Turn S = record { array = alone a key ∷ wb ∷ ws; state = st; done_with = 0 } in
      let t₁ = served key 0 (alone a key) res st₁ (alone a key ∷ wb ∷ ws) in
      let now : waiters key st₁.blocking_commands ≡ alone a key ∷ wb ∷ ws = rw same_lists list in
      let array : t₁.array ≡ shifted (alone a key) (wb ∷ ws) =
        served-array key a (wb ∷ ws) res st₁ now in
      let first = served_turn key 0 (alone a key) res t₀ st₁ r₁ goes in
      let second = blocked_turn key 1 wc res' t₁ st₃ r₃ blocks in
      let at_one : get_elem? t₁.array 1 ≡ some wc = rw array next in
      let turn : turn_at handlers key 1 (get_elem? t₁.array 1) t₁
          ≡ (false, record t₁ { state = st₃ }) =
        rw at_one second in
      let ended : unblock_loop handlers key (length (alone a key ∷ wb ∷ ws)) 0 (true, t₀)
          ≡ record t₁ { state = st₃ } =
        loop_goes key (length (wb ∷ ws)) 0 t₀
        ∙ ap (λ p. unblock_loop handlers key (length (wb ∷ ws)) 1 p) first
        ∙ loop_goes key (length ws) 1 t₁
        ∙ ap (λ p. unblock_loop handlers key (length ws) 2 p) turn
        ∙ loop_left key (length ws) 2 _ in
      let (third_answers, third_lists) = execute-answers r₃.handler wc.command res' _ st₃ r₃.ran in
      let (done_with, answers) = served_lem key 0 (alone a key) res st₁ (alone a key ∷ wb ∷ ws) in
      rw (unblock_key key st _ list, ended)
        (
          waiters-unblocked key (record t₁ { state = st₃ }) ∙ ap₂ drop done_with array,
          answers-unblocked key (record t₁ { state = st₃ })
              ∙ third_answers
              ∙ answers
              ∙ ap (λ l. l ++ ((a, answer_of res) ∷ [])) same_answers,
        )
