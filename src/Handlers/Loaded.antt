-- ===== src/Handlers/Loaded.antt =====
-- The list that a handler loads, and its change by the pointer.
use simis.Prelude.{
  Assoc, Bool, Bool-cases, Option, Text, ap, false, if◌then◌else◌, injective_some, inl, inr, lookup,
  lookup-insert, none, refl, some, sym, text_eq, text_eq_iff, ◌≡◌,
}
use simis.Prelude.Int.{ℤ}
use simis.Deque.{Deque, new_deque}
use simis.KvStore.{
  KvStore, RedisObject, RValue, list_value, string_value, stream_value, sorted_set_value, as_list,
  lasting, put, load_or_store, viewed,
}
use simis.KvStore.Values.{load_step}
use simis.Executor.Answers.{none_not_some}
use simis.Handlers.{written, write_list}

module _ {S Z : Type 0} where
  abbrev pub list_object : Deque → Option ℤ → RedisObject S Z
  list_object d ttl = record { value = list_value d; ttl = ttl }

  -- The list of a key, with its expiry: an empty one where the key is missing, none where the key has a
  -- value of another kind.
  abbrev pub held : Option (RedisObject S Z) → Option (Deque × Option ℤ)
  held none = some (new_deque, none)
  held (some o) = elim (as_list o.value) [ none ↦ none | some d ↦ some (d, o.ttl) ]

  abbrev pub Loaded :
      Text → Deque → Option ℤ → KvStore S Z → (Option Deque × Bool) × KvStore S Z → Type 0
  Loaded key d ttl st r =
      (r.0.0 ≡ some d)
      × ((j : Text)
          → lookup j r.1.sync_map
            ≡ (if text_eq key j then some (list_object d ttl) else lookup j st.sync_map))

  pub kept_at :
      (key j : Text) (o : RedisObject S Z) (m : Assoc (RedisObject S Z))
      → lookup key m ≡ some o
      → lookup j m ≡ (if text_eq key j then some o else lookup j m)
  kept_at key j o m e = elim (Bool-cases (text_eq key j)) [
    | inl same ↦ rw same (rw (sym ((text_eq_iff key j).0 same)) e)
    | inr other ↦ rw other refl
  ]

  load_missing :
      (key : Text) (fresh : RValue S Z) (st : KvStore S Z)
      → lookup key st.sync_map ≡ none
      → load_or_store key fresh st ≡ ((lasting fresh, false), put key (lasting fresh) st)
  unfolding load_or_store
  load_missing key fresh st e = rw (e, load_or_store) refl

  Loaded-missing :
      (key : Text) (d : Deque) (ttl : Option ℤ) (st : KvStore S Z)
      → lookup key st.sync_map ≡ none
      → held none ≡ some (d, ttl)
      → Loaded key d ttl st (viewed as_list (load_or_store key (list_value new_deque) st))
  unfolding viewed put
  Loaded-missing key d ttl st e h =
      let p = injective_some h in
      rw
        (load_missing key (list_value new_deque) st e, sym (ap (λ t. t.0) p), sym (ap (λ t. t.1) p))
        (refl, λ j. lookup-insert key j _ st.sync_map)

  Loaded-there :
      (v : RValue S Z) (t : Option ℤ) (key : Text) (d : Deque) (ttl : Option ℤ) (st : KvStore S Z)
      → lookup key st.sync_map ≡ some (record { value = v; ttl = t })
      → held (some (record { value = v; ttl = t })) ≡ some (d, ttl)
      → Loaded key d ttl st (viewed as_list (load_or_store key (list_value new_deque) st))
  unfolding viewed
  Loaded-there (list_value d') t key d ttl st e h =
      let p = injective_some h in
      rw (load_step key (list_value new_deque) _ st e, sym (ap (λ t. t.0) p), sym (ap (λ t. t.1) p))
        (refl, λ j. kept_at key j _ st.sync_map e)
  Loaded-there (string_value s) t key d ttl st e h = absurd (none_not_some h)
  Loaded-there (stream_value s) t key d ttl st e h = absurd (none_not_some h)
  Loaded-there (sorted_set_value z) t key d ttl st e h = absurd (none_not_some h)

  pub loaded_lem :
      (o : Option (RedisObject S Z)) (key : Text) (d : Deque) (ttl : Option ℤ) (st : KvStore S Z)
      → lookup key st.sync_map ≡ o
      → held o ≡ some (d, ttl)
      → Loaded key d ttl st (viewed as_list (load_or_store key (list_value new_deque) st))
  loaded_lem none key d ttl st e h = Loaded-missing key d ttl st e h
  loaded_lem (some o) key d ttl st e h = Loaded-there o.value o.ttl key d ttl st e h

  pub pushed_lem :
      (key : Text) (d d' : Deque) (ttl : Option ℤ) (st : KvStore S Z)
      → lookup key st.sync_map ≡ some (list_object d ttl)
      → (j : Text)
      → lookup j (write_list key d' st).sync_map
        ≡ (if text_eq key j then some (list_object d' ttl) else lookup j st.sync_map)
  unfolding write_list written
  pushed_lem key d d' ttl st e j =
      rw (e, written) (lookup-insert key j (list_object d' ttl) st.sync_map)
