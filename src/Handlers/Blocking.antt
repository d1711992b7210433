-- ===== src/Handlers/Blocking.antt =====
-- BLPOP: the first of its keys that has an element, or the wait for all of them.
use simis.Prelude.{
  All, Bool, Bool-cases, List, Option, Text, [], ap, append-nil, if◌then◌else◌, inl, inr, lookup,
  none, ok, refl, some, sym, text_eq, text_eq_iff, text_eq_refl, true, ◌++◌, ◌∙◌, ◌∷◌, ◌≡◌,
}
use simis.Prelude.Int.{ℤ, pos, leb_ℤ}
use simis.Resp.{to_resp_array}
use simis.Deque.{Deque, new_deque, pop_front}
use simis.KvStore.{
  KvStore, list_value, evict_if_needed, load_or_store, load_or_store_as, load_or_store_list, viewed,
  as_list,
}
use simis.Executor.{new_execution_result}
use simis.Handlers.{Env, Executed, modifying, write_list}
use simis.Handlers.Lists.{
  milliseconds, blocked_for, blpop_popped, blpop_loaded, blpop_loop, blpop_with,
}
use simis.Handlers.Loaded.{held, Loaded, loaded_lem, pushed_lem}

abbrev pub HasNoLimit : Env → Type 0
HasNoLimit env = leb_ℤ env.limits.max_memory (pos 0) ≡ true

pop_lem :
    (value : Text) (values : List Text)
    → pop_front (record { items = value ∷ values }) ≡ (some value, record { items = values })
unfolding pop_front
pop_lem value values = refl

module _ {S Z : Type 0} where
  -- What a key holds as a list, a missing key an empty one
  abbrev pub contents : Text → KvStore S Z → Option (Deque × Option ℤ)
  contents key st = held (lookup key st.sync_map)

  abbrev pub IsEmpty : KvStore S Z → Text → Type 0
  IsEmpty st key = (ttl : Option ℤ) × (contents key st ≡ some (new_deque, ttl))

  abbrev pub SameContents : KvStore S Z → KvStore S Z → Type 0
  SameContents st st' = (j : Text) → contents j st' ≡ contents j st

  load_unlimited :
      (env : Env) (key : Text) (st : KvStore S Z)
      → HasNoLimit env
      → load_or_store_list env.fuel env.memory env.limits key st
        ≡ ok (viewed as_list (load_or_store key (list_value new_deque) st))
  unfolding load_or_store_list load_or_store_as evict_if_needed
  load_unlimited env key st h = rw h refl

  same_at :
      (key j : Text) (st : KvStore S Z) (c : Option (Deque × Option ℤ))
      → contents key st ≡ c
      → (if text_eq key j then c else contents j st) ≡ contents j st
  same_at key j st c e = elim (Bool-cases (text_eq key j)) [
    | inl same ↦ rw same (sym e ∙ ap (λ k. contents k st) ((text_eq_iff key j).0 same))
    | inr other ↦ rw other refl
  ]

  -- The lists behind the removal of the first element of the loaded one
  contents_popped :
      (key : Text) (d d' : Deque) (ttl : Option ℤ) (st : KvStore S Z)
      (r : (Option Deque × Bool) × KvStore S Z)
      → Loaded key d ttl st r
      → (j : Text)
      → contents j (write_list key d' r.1)
        ≡ (if text_eq key j then some (d', ttl) else contents j st)
  contents_popped key d d' ttl st r h j =
      let at = pushed_lem key d d' ttl r.1 (h.1 key ∙ rw (text_eq_refl key) refl) j in
      elim (Bool-cases (text_eq key j)) [
        | inl e ↦ rw (at, e) refl
        | inr e ↦ rw (at, e) (ap held (h.1 j ∙ rw e refl))
      ]

  turn_loaded :
      (key : Text) (d d' : Deque) (o : Option Text) (rest : KvStore S Z → Executed S Z)
      (st : KvStore S Z) (r : (Option Deque × Bool) × KvStore S Z)
      → r.0.0 ≡ some d
      → pop_front d ≡ (o, d')
      → blpop_loaded key st rest (ok r) ≡ blpop_popped key r.1 rest (o, d')
  unfolding blpop_loaded
  turn_loaded key d d' o rest st ((found, loaded), st₁) e p = rw (e, blpop_loaded, p) refl

  turn_empty :
      (env : Env) (key : Text) (keys : List Text) (after : KvStore S Z → Executed S Z)
      (st : KvStore S Z)
      → HasNoLimit env
      → IsEmpty st key
      → (st' : KvStore S Z) × (blpop_loop env (key ∷ keys) after st ≡ blpop_loop env keys after st')
        × SameContents st st'
  unfolding blpop_loop blpop_popped
  turn_empty env key keys after st free (ttl, e) =
      let r = viewed as_list (load_or_store key (list_value new_deque) st) in
      let h = loaded_lem (lookup key st.sync_map) key new_deque ttl st refl e in
      (
        write_list key new_deque r.1,
        rw (load_unlimited env key st free)
            (turn_loaded key new_deque new_deque none _ st r h.0 (unfold pop_front in refl)),
        λ j. contents_popped key new_deque new_deque ttl st r h j ∙ same_at key j st _ e,
      )

  turn_full :
      (env : Env) (key : Text) (keys : List Text) (after : KvStore S Z → Executed S Z)
      (st : KvStore S Z) (value : Text) (values : List Text) (ttl : Option ℤ)
      → HasNoLimit env
      → contents key st ≡ some (record { items = value ∷ values }, ttl)
      → (st' : KvStore S Z) × (blpop_loop env (key ∷ keys) after st
          ≡ some (modifying (to_resp_array (some (key ∷ value ∷ []))) key, st'))
        × ((j : Text)
            → contents j st'
              ≡ (if text_eq key j then some (record { items = values }, ttl) else contents j st))
  unfolding blpop_loop blpop_popped
  turn_full env key keys after st value values ttl free e =
      let r = viewed as_list (load_or_store key (list_value new_deque) st) in
      let h =
        loaded_lem (lookup key st.sync_map) key (record { items = value ∷ values }) ttl st refl e in
      (
        write_list key (record { items = values }) r.1,
        rw (load_unlimited env key st free)
            (turn_loaded key _ _ (some value) _ st r h.0 (pop_lem value values)),
        contents_popped key _ (record { items = values }) ttl st r h,
      )

  IsEmpty-same :
      (st st' : KvStore S Z) (keys : List Text)
      → SameContents st st'
      → All (IsEmpty st) keys
      → All (IsEmpty st') keys
  IsEmpty-same st st' [] same h = tt
  IsEmpty-same st st' (key ∷ keys) same h =
      ((h.0.0, same key ∙ h.0.1), IsEmpty-same st st' keys same h.1)

  -- The loop goes through keys with nothing in them, and changes no list.
  turns_empty :
      (env : Env) (pre keys : List Text) (after : KvStore S Z → Executed S Z) (st : KvStore S Z)
      → HasNoLimit env
      → All (IsEmpty st) pre
      → (st' : KvStore S Z) × (blpop_loop env (pre ++ keys) after st
          ≡ blpop_loop env keys after st')
        × SameContents st st'
  turns_empty env [] keys after st free h = (st, refl, λ j. refl)
  turns_empty env (key ∷ pre) keys after st free h =
      let (st₁, turn, same) = turn_empty env key (pre ++ keys) after st free h.0 in
      let (st₂, turns, same₂) =
        turns_empty env pre keys after st₁ free (IsEmpty-same st st₁ pre same h.1) in
      (st₂, turn ∙ turns, λ j. same₂ j ∙ same j)

  -- BLPOP without a limit on the memory: where some of its keys hold a list with an element, and those
  -- in front of it nothing, the first such key gives its first element with the key's name; the key is
  -- reported as changed, and no other list changes.
  pub blpop_lem :
      (env : Env) (pre keys : List Text) (key value : Text) (values : List Text) (ttl : Option ℤ)
      (ms : ℤ) (st : KvStore S Z)
      → HasNoLimit env
      → All (IsEmpty st) pre
      → contents key st ≡ some (record { items = value ∷ values }, ttl)
      → (st' : KvStore S Z) × (blpop_with env (pre ++ (key ∷ keys)) (milliseconds ms) st
          ≡ some (modifying (to_resp_array (some (key ∷ value ∷ []))) key, st'))
        × ((j : Text)
            → contents j st'
              ≡ (if text_eq key j then some (record { items = values }, ttl) else contents j st))
  unfolding blpop_with
  blpop_lem env pre keys key value values ttl ms st free h e =
      let after = blocked_for (pre ++ (key ∷ keys)) (milliseconds ms) in
      let (st₁, turns, same) = turns_empty env pre (key ∷ keys) after st free h in
      let (st₂, turn, rest) =
        turn_full env key keys after st₁ value values ttl free (same key ∙ e) in
      (
        st₂,
        turns ∙ turn,
        λ j.
            rest j
            ∙ ap (λ c. if text_eq key j then some (record { items = values }, ttl) else c) (same j),
      )

  -- BLPOP without a limit on the memory, where no key has an element: it waits for all of them, with the
  -- timeout that it was given, and no list changes.
  pub blpop_blocks :
      (env : Env) (keys : List Text) (ms : ℤ) (st : KvStore S Z)
      → HasNoLimit env
      → All (IsEmpty st) keys
      → (st' : KvStore S Z) × (blpop_with env keys (milliseconds ms) st
          ≡ some (record new_execution_result { blocking_timeout = ms; waiting_keys = keys }, st'))
        × SameContents st st'
  unfolding blpop_with
  blpop_blocks env keys ms st free h =
      let (st₁, turns, same) =
        turns_empty env keys [] (blocked_for keys (milliseconds ms)) st free h in
      (
        st₁,
        ap (λ k. blpop_loop env k (blocked_for keys (milliseconds ms)) st) (sym (append-nil keys))
            ∙ turns
            ∙ unfold blpop_loop blocked_for in refl,
        same,
      )
