-- ===== src/Executor/Serial.antt =====
-- A transaction against its commands one by one.
use simis.Prelude.{
  All, List, Option, Text, [], ap, append-nil, append_assoc, ap₂, false, injective_some, length,
  none, refl, some, suc, sym, ℕ, ◌++◌, ◌==◌, ◌∙◌, ◌∷◌, ◌≡◌,
}
use simis.Connection.{Command}
use simis.Resp.{to_simple_resp_array}
use simis.Executor.{
  Handler, State, execute_command, transaction_loop, first_result, loop_behind, transaction_done,
  execute_transaction, unblock,
}
use simis.Executor.Answers.{none_not_some, NobodyWaits, unblock-Idle, execute_command-Answered}

-- The commands that the pointers lead to, and their answers on their channels.
abbrev pub pointed : (ℕ → Command) → List ℕ → List Command
pointed commands [] = []
pointed commands (c ∷ cs) = commands c ∷ pointed commands cs

abbrev pub paired : List ℕ → List Text → List (ℕ × Text)
paired [] texts = []
paired (c ∷ cs) [] = []
paired (c ∷ cs) (text ∷ texts) = (c, text) ∷ paired cs texts

abbrev pub IsNot : ℕ → ℕ → Type 0
IsNot c d = (d == c) ≡ false

abbrev pub Distinct : List ℕ → Type 0
Distinct [] = Unit
Distinct (c ∷ cs) = All (IsNot c) cs × Distinct cs

pointed_same :
    (before after : ℕ → Command) (c : ℕ) (cs : List ℕ)
    → ((d : ℕ) → (d == c) ≡ false → after d ≡ before d)
    → All (IsNot c) cs
    → pointed after cs ≡ pointed before cs
pointed_same before after c [] h k = refl
pointed_same before after c (d ∷ cs) h k = ap₂ ◌∷◌ (h d k.0) (pointed_same before after c cs h k.1)

module _ {S : Type 0} (handlers : Text → Option (Handler S)) where
  -- The commands one by one
  abbrev pub execute_all : List ℕ → State S → State S
  execute_all [] st = st
  execute_all (c ∷ cs) st = execute_all cs (execute_command handlers c st)

  -- A result of the loop begins with one of its first command.
  first_result_inverse :
      (text : Text) (first_keys : List Text) (r : Option (List Text × (List Text × S)))
      (texts keys : List Text) (left : S)
      → first_result handlers text first_keys r ≡ some (texts, (keys, left))
      → (texts₁ : List Text) × (keys₁ : List Text) × (r ≡ some (texts₁, (keys₁, left)))
        × (texts ≡ text ∷ texts₁)
  unfolding first_result
  first_result_inverse text first_keys none texts keys left e = absurd (none_not_some e)
  first_result_inverse text first_keys (some (texts₁, (keys₁, left₁))) texts keys left e =
      let p = injective_some e in
      (
        texts₁,
        keys₁,
        ap (λ l. some (texts₁, (keys₁, l))) (ap (λ t. t.1.1) p),
        sym (ap (λ t. t.0) p),
      )

  loop_behind_inverse :
      (o : Option (Text × (List Text × S))) (rest : S → Option (List Text × (List Text × S)))
      (texts keys : List Text) (left : S)
      → loop_behind handlers o rest ≡ some (texts, (keys, left))
      → (text : Text) × (first_keys : List Text) × (store₁ : S) × (texts₁ : List Text)
        × (keys₁ : List Text) × (o ≡ some (text, (first_keys, store₁)))
        × (rest store₁ ≡ some (texts₁, (keys₁, left)))
        × (texts ≡ text ∷ texts₁)
  unfolding loop_behind
  loop_behind_inverse none rest texts keys left e = absurd (none_not_some e)
  loop_behind_inverse (some (text, (first_keys, store₁))) rest texts keys left e =
      let (texts₁, keys₁, r, t) =
        first_result_inverse text first_keys (rest store₁) texts keys left e in
      (text, first_keys, store₁, texts₁, keys₁, refl, r, t)

  execute_all_lem :
      (cs : List ℕ) (st : State S) (texts keys : List Text) (left : S)
      → NobodyWaits st.blocking_commands
      → Distinct cs
      → transaction_loop handlers (pointed st.commands cs) st.store ≡ some (texts, (keys, left))
      → ((execute_all cs st).store ≡ left)
        × ((execute_all cs st).answers ≡ st.answers ++ paired cs texts)
        × (length texts ≡ length cs)
  unfolding transaction_loop
  execute_all_lem [] st texts keys left h d e =
      let p = injective_some e in
      (ap (λ t. t.1.1) p, sym (append-nil st.answers), ap (λ t. length t.0) (sym p))
  execute_all_lem (c ∷ cs) st texts keys left h d e =
      let (text, first_keys, store₁, texts₁, keys₁, step, rest, t) =
        loop_behind_inverse _ _ texts keys left e in
      let one = execute_command-Answered handlers c st text first_keys store₁ h step in
      let same =
        pointed_same st.commands (execute_command handlers c st).commands c cs one.commands d.0 in
      let rest' = ap₂ (λ p s. transaction_loop handlers p s) same one.store ∙ rest in
      let (store, answers, count) =
        execute_all_lem cs (execute_command handlers c st) texts₁ keys₁ left one.nobody d.1 rest' in
      (
        store,
        rw (t) (
            answers
            ∙ rw (one.answers) (append_assoc st.answers ((c, text) ∷ []) (paired cs texts₁))),
        rw t (ap suc count),
      )

  transaction_done_inverse :
      (o : Option (List Text × (List Text × S))) (st st' : State S) (text : Text)
      → transaction_done handlers o st ≡ some (text, st')
      → (texts : List Text) × (keys : List Text) × (left : S) × (o ≡ some (texts, (keys, left)))
        × (text ≡ to_simple_resp_array (some texts))
        × (st' ≡ unblock handlers keys (record st { store = left }))
  unfolding transaction_done
  transaction_done_inverse none st st' text e = absurd (none_not_some e)
  transaction_done_inverse (some (texts, (keys, left))) st st' text e =
      let p = injective_some e in
      (texts, keys, left, refl, sym (ap (λ t. t.0) p), sym (ap (λ t. t.1) p))

  -- A transaction of commands with channels of their own, while nobody waits and if none of them
  -- blocks, is its commands one by one: it leaves the same store, and its answer is the array of the
  -- answers that each of them would have had, in their order. It sends none of these itself.
  pub execute_transaction_lem :
      (cs : List ℕ) (st st' : State S) (text : Text)
      → NobodyWaits st.blocking_commands
      → Distinct cs
      → execute_transaction handlers (pointed st.commands cs) st ≡ some (text, st')
      → (texts : List Text) × (text ≡ to_simple_resp_array (some texts))
        × (length texts ≡ length cs)
        × ((execute_all cs st).answers ≡ st.answers ++ paired cs texts)
        × ((execute_all cs st).store ≡ st'.store)
        × (st'.answers ≡ st.answers)
  unfolding execute_transaction
  execute_transaction_lem cs st st' text h d e =
      let (texts, keys, left, loop, t, after) = transaction_done_inverse _ st st' text e in
      let (store, answers, count) = execute_all_lem cs st texts keys left h d loop in
      let idle = unblock-Idle handlers keys (record st { store = left }) h in
      (
        texts,
        t,
        count,
        answers,
        store ∙ sym (ap (λ s. s.store) after ∙ idle.store),
        ap (λ s. s.answers) after ∙ idle.answers,
      )
