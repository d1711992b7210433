-- ===== src/Handlers/Table/Served.antt =====
-- A push that serves a command which waits for the list.
use simis.Prelude.{
  Bool-cases, List, Option, Text, [], ap, bytes, false, if◌then◌else◌, inl, inr, lookup, ok, refl,
  some, sym, text_eq, text_eq_iff, text_eq_refl, ℕ, ◌++◌, ◌==◌, ◌∙◌, ◌∷◌, ◌≡◌,
}
use simis.Prelude.Int.{ℤ, pos}
use simis.Connection.{Command}
use simis.Resp.{to_resp_array, to_resp_int}
use simis.Deque.{Deque, new_deque, push_back}
use simis.KvStore.{KvStore, evict_if_needed}
use simis.Executor.{
  ExecutionResult, Handler, State, waiters, execute, executed, set_args, execute_command,
}
use simis.Executor.Waiting.{alone, Runs}
use simis.Executor.Wakes.{execute_command-wakes}
use simis.Handlers.{Env, Executed, modifying}
use simis.Handlers.Lists.{Timeout, milliseconds, handle_rpush, handle_blpop, without_last, last_of}
use simis.Handlers.Loaded.{list_object}
use simis.Handlers.Pushed.{push_by_lem}
use simis.Handlers.Blocking.{HasNoLimit, contents, blpop_lem}
use simis.Handlers.Table.{outcome, lifted, command_table}

module _ {S Z : Type 0} where
  abbrev pub executed_store :
      ℕ → List Text → KvStore S Z → State (Option (KvStore S Z)) → State (Option (KvStore S Z))
  executed_store c args kv st = record st {
    store = some kv;
    commands = set_args c args st.commands;
  }

  lifted-Runs :
      (handlers : Text → Option (Handler (Option (KvStore S Z))))
      (h : List Text → KvStore S Z → Executed S Z) (c : ℕ) (cmd : Command) (res : ExecutionResult)
      (kv kv' : KvStore S Z) (st : State (Option (KvStore S Z)))
      → handlers cmd.command ≡ some (lifted h)
      → st.commands c ≡ cmd
      → st.store ≡ some kv
      → h cmd.args kv ≡ some (res, kv')
      → Runs handlers c res st (executed_store c cmd.args kv' st)
  unfolding execute executed lifted outcome
  lifted-Runs handlers h c cmd res kv kv' st known points at e = record {
    handler = lifted h;
    known = rw points known;
    ran = rw (points, at, e) refl;
  }

  unlimited :
      (env : Env) (kv : KvStore S Z)
      → HasNoLimit env
      → evict_if_needed env.fuel env.memory env.limits kv ≡ ok kv
  unfolding evict_if_needed
  unlimited env kv h = rw h refl

  others_kept :
      (c w : ℕ) (args : List Text) (kv : KvStore S Z) (st : State (Option (KvStore S Z)))
      → (w == c) ≡ false
      → (executed_store c args kv st).commands w ≡ st.commands w
  unfolding set_args
  others_kept c w args kv st h = rw h refl

  blpop_one :
      (env : Env) (timeout_of : Text → Timeout) (key t value : Text) (ttl : Option ℤ) (ms : ℤ)
      (kv : KvStore S Z)
      → HasNoLimit env
      → timeout_of t ≡ milliseconds ms
      → contents key kv ≡ some (record { items = value ∷ [] }, ttl)
      → (kv' : KvStore S Z) × (handle_blpop env timeout_of (key ∷ t ∷ []) kv
          ≡ some (modifying (to_resp_array (some (key ∷ value ∷ []))) key, kv'))
        × ((j : Text)
            → contents j kv' ≡ (if text_eq key j then some (new_deque, ttl) else contents j kv))
  unfolding handle_blpop without_last last_of
  blpop_one env timeout_of key t value ttl ms kv free time e =
      rw time (blpop_lem env [] [] key value [] ttl ms kv free tt e)

  contents_pushed :
      (key : Text) (d : Deque) (ttl : Option ℤ) (kv kv₁ : KvStore S Z)
      → ((j : Text)
          → lookup j kv₁.sync_map
            ≡ (if text_eq key j then some (list_object d ttl) else lookup j kv.sync_map))
      → (j : Text) → contents j kv₁ ≡ (if text_eq key j then some (d, ttl) else contents j kv)
  contents_pushed key d ttl kv kv₁ h j = elim (Bool-cases (text_eq key j)) [
    | inl same ↦ rw (h j, same) refl
    | inr other ↦ rw (h j, other) refl
  ]

  contents_there :
      (key : Text) (d : Deque) (ttl : Option ℤ) (kv kv₁ : KvStore S Z)
      → ((j : Text) → contents j kv₁ ≡ (if text_eq key j then some (d, ttl) else contents j kv))
      → contents key kv₁ ≡ some (d, ttl)
  contents_there key d ttl kv kv₁ h = h key ∙ rw (text_eq_refl key) refl

  -- A list that was changed and changed back
  contents_back :
      (key : Text) (d d₁ : Deque) (ttl : Option ℤ) (kv kv₁ kv₂ : KvStore S Z)
      → contents key kv ≡ some (d, ttl)
      → ((j : Text) → contents j kv₁ ≡ (if text_eq key j then some (d₁, ttl) else contents j kv))
      → ((j : Text) → contents j kv₂ ≡ (if text_eq key j then some (d, ttl) else contents j kv₁))
      → (j : Text) → contents j kv₂ ≡ contents j kv
  contents_back key d d₁ ttl kv kv₁ kv₂ e h₁ h₂ j = elim (Bool-cases (text_eq key j)) [
    | inl same ↦ h₂ j ∙ rw same (sym e ∙ ap (λ k. contents k kv) ((text_eq_iff key j).0 same))
    | inr other ↦ h₂ j ∙ rw (other, h₁ j, other) refl
  ]

  -- RPUSH of a string to a list with nothing in it, for which one BLPOP waits, alone, without a limit on
  -- the memory: the waiting client is sent the key and the string, the one that pushes the length 1
  -- behind it, nobody waits for the key any more, and every list is as it was before the push.
  pub rpush_wakes :
      (env : Env) (timeout_of : Text → Timeout) (syntax key value t : Text) (ttl : Option ℤ)
      (ms : ℤ) (c w n m : ℕ) (kv : KvStore S Z) (st : State (Option (KvStore S Z)))
      → HasNoLimit env
      → timeout_of t ≡ milliseconds ms
      → st.commands c ≡ record { command = bytes "RPUSH"; args = key ∷ value ∷ []; response = n }
      → st.commands w ≡ record { command = bytes "BLPOP"; args = key ∷ t ∷ []; response = m }
      → (w == c) ≡ false
      → st.store ≡ some kv
      → contents key kv ≡ some (new_deque, ttl)
      → waiters key st.blocking_commands ≡ alone w key ∷ []
      → let st' = execute_command (command_table env timeout_of syntax) c st in
        (waiters key st'.blocking_commands ≡ [])
        × (st'.answers
            ≡ st.answers
              ++ ((w, to_resp_array (some (key ∷ value ∷ []))) ∷ (c, to_resp_int (pos 1)) ∷ []))
        × (kv' : KvStore S Z) × (st'.store ≡ some kv')
        × ((j : Text) → contents j kv' ≡ contents j kv)
  unfolding command_table text_eq handle_rpush push_back
  rpush_wakes env timeout_of syntax key value t ttl ms c w n m kv st free time at_c at_w other holds
        e list =
      let table = command_table env timeout_of syntax in
      let (kv₁, push, pushed) =
        push_by_lem (push_back (value ∷ [])) env key new_deque ttl kv kv (unlimited env kv free)
          e in
      let shown = contents_pushed key (record { items = value ∷ [] }) ttl kv kv₁ pushed in
      let (kv₂, pop, popped) =
        blpop_one env timeout_of key t value ttl ms kv₁ free time
          (contents_there key (record { items = value ∷ [] }) ttl kv kv₁ shown) in
      let st₁ = executed_store c (key ∷ value ∷ []) kv₁ st in
      let first = lifted-Runs table (handle_rpush env) c _ _ kv kv₁ st refl at_c holds push in
      let second =
        lifted-Runs table (handle_blpop env timeout_of) w _ _ kv₁ kv₂ st₁ refl
          (others_kept c w _ kv₁ st other ∙ at_w) refl pop in
      let (nobody, answers, store) =
        execute_command-wakes table key c w _ _ st st₁ _ first refl refl refl list second refl in
      (
        nobody,
        answers,
        kv₂,
        store,
        contents_back key new_deque (record { items = value ∷ [] }) ttl kv kv₁ kv₂ e shown popped,
      )
