-- ===== src/KvStore/Values.antt =====
-- Reading and counting: GetValue, IncrementString and LoadOrStoreList.
use simis.Prelude.{
  Bool, Bool-cases, Option, Option-cases, Text, ap, arith, false, if◌then◌else◌, inl, inr, lookup,
  lookup-delete, lookup-insert, none, ok, refl, some, text_eq, text_eq_refl, true, ℕ, ◌&&◌, ◌∙◌,
  ◌≡◌,
}
use simis.Prelude.Int.{ℤ, pos, ◌+ℤ◌, ltb_ℤ, wrap, IsInt}
use simis.Deque.{Deque, new_deque}
use simis.GoText.{itoa}
use simis.GoText.Signed.{atoi-itoa}
use simis.Lru.{access}
use simis.KvStore.{
  access, KvStore, RedisObject, RValue, string_value, list_value, Limits, is_expired, delete_key,
  put, get_value, as_list, load_or_store, load_or_store_as, load_or_store_list, incremented,
  counted, viewed, increment_string, evict_if_needed,
}

module _ {S Z : Type 0} where
  -- The object unless its time is over.
  abbrev pub live : ℤ → Option (RedisObject S Z) → Option (RedisObject S Z)
  live now none = none
  live now (some o) = if is_expired now o then none else some o

  abbrev pub is_over : ℤ → Option (RedisObject S Z) → Bool
  is_over now none = false
  is_over now (some o) = is_expired now o

  value_step :
      (now : ℤ) (key : Text) (st : KvStore S Z) (o : RedisObject S Z)
      → lookup key st.sync_map ≡ some o
      → get_value now key st ≡ (
          if is_expired now o
          then (none, delete_key key st)
          else (some o, record st { lru_tracker = access key st.lru_tracker }))
  unfolding get_value
  value_step now key st o at = rw (at, get_value)

  value_missing :
      (now : ℤ) (key : Text) (st : KvStore S Z)
      → lookup key st.sync_map ≡ none
      → get_value now key st ≡ (none, st)
  unfolding get_value
  value_missing now key st at = rw (at, get_value)

  -- GetValue returns the object of the key unless its expiry is past; then the key is gone, and
  -- every other key keeps its object in each case.
  pub get_value_lem :
      (now : ℤ) (key : Text) (st : KvStore S Z)
      → ((get_value now key st).0 ≡ live now (lookup key st.sync_map))
        × ((j : Text)
            → lookup j (get_value now key st).1.sync_map ≡ (
                if text_eq key j && is_over now (lookup key st.sync_map)
                then none
                else lookup j st.sync_map))
  unfolding delete_key
  get_value_lem now key st = elim (Option-cases (lookup key st.sync_map)) [
    | inl e ↦ rw (value_missing now key st e, e) (refl, λ j. ground arith)
    | inr (o, e) ↦ elim (Bool-cases (is_expired now o)) [
      | inl over ↦
          rw (value_step now key st o e, e, over)
            (refl, λ j. rw (lookup-delete key j) (ground arith))
      | inr fresh ↦ rw (value_step now key st o e, e, fresh) (refl, λ j. ground arith)
    ]
  ]

  lookup-put :
      (key : Text) (o : RedisObject S Z) (st : KvStore S Z)
      → lookup key (put key o st).sync_map ≡ some o
  unfolding put
  lookup-put key o st = rw (lookup-insert key key, text_eq_refl key)

  put_others :
      (key j : Text) (o : RedisObject S Z) (st : KvStore S Z)
      → text_eq key j ≡ false
      → lookup j (put key o st).sync_map ≡ lookup j st.sync_map
  unfolding put
  put_others key j o st other = rw (lookup-insert key j, other)

  -- A value that was put is read back until its expiry is past.
  pub get_value-put :
      (now : ℤ) (key : Text) (o : RedisObject S Z) (st : KvStore S Z)
      → (get_value now key (put key o st)).0 ≡ live now (some o)
  get_value-put now key o st = rw lookup-put at ((get_value_lem now key (put key o st)).0)

  pub load_step :
      (key : Text) (fresh : RValue S Z) (o : RedisObject S Z) (st : KvStore S Z)
      → lookup key st.sync_map ≡ some o
      → load_or_store key fresh st
        ≡ ((o, true), record st { lru_tracker = access key st.lru_tracker })
  unfolding load_or_store
  load_step key fresh o st at = rw (at, load_or_store)

  abbrev pub counter : ℤ → Option ℤ → RedisObject S Z
  counter v ttl = record { value = string_value (itoa v); ttl = ttl }

  incremented-counter :
      (now v : ℤ) (ttl : Option ℤ)
      → IsInt v
      → is_expired now (counter v ttl) ≡ false
      → incremented now (some (counter v ttl))
        ≡ ok (wrap (v +ℤ pos 1), counter (wrap (v +ℤ pos 1)) ttl)
  unfolding incremented
  incremented-counter now v ttl h fresh = rw (fresh, atoi-itoa v h)

  module _ (fuel : ℕ) (memory : ℕ → ℤ) (limits : Limits) where
    increment_step :
        (now : ℤ) (key : Text) (st roomy : KvStore S Z) (n : ℤ) (o : RedisObject S Z)
        → evict_if_needed fuel memory limits st ≡ ok roomy
        → incremented now (lookup key roomy.sync_map) ≡ ok (n, o)
        → increment_string fuel memory limits now key st ≡ ok (ok n, put key o roomy)
    unfolding increment_string counted
    increment_step now key st roomy n o room e = rw (room, e)

    -- IncrementString, once there is room, makes of a counter that is not over the next `int`, which
    -- is the least one behind the largest, keeps its expiry, and touches no other key.
    pub increment_string_lem :
        (now v : ℤ) (ttl : Option ℤ) (key : Text) (st roomy : KvStore S Z)
        → evict_if_needed fuel memory limits st ≡ ok roomy
        → lookup key roomy.sync_map ≡ some (counter v ttl)
        → IsInt v
        → is_expired now (counter v ttl) ≡ false
        → (st' : KvStore S Z) × (increment_string fuel memory limits now key st
            ≡ ok (ok (wrap (v +ℤ pos 1)), st'))
          × (lookup key st'.sync_map ≡ some (counter (wrap (v +ℤ pos 1)) ttl))
          × ((j : Text) → text_eq key j ≡ false → lookup j st'.sync_map ≡ lookup j roomy.sync_map)
    increment_string_lem now v ttl key st roomy room at h fresh =
        let o = counter (wrap (v +ℤ pos 1)) ttl in
        (
          put key o roomy,
          increment_step now key st roomy (wrap (v +ℤ pos 1)) o room
              (rw at (incremented-counter now v ttl h fresh)),
          lookup-put key o roomy,
          λ j other. put_others key j o roomy other,
        )

    list_step :
        (key : Text) (st roomy : KvStore S Z) (d : Deque) (ttl : Option ℤ)
        → evict_if_needed fuel memory limits st ≡ ok roomy
        → lookup key roomy.sync_map ≡ some (record { value = list_value d; ttl = ttl })
        → load_or_store_list fuel memory limits key st
          ≡ ok ((some d, true), record roomy { lru_tracker = access key roomy.lru_tracker })
    unfolding load_or_store_list load_or_store_as viewed
    list_step key st roomy d ttl room at =
        rw room (ap (λ r. ok (viewed as_list r)) (load_step key (list_value new_deque) _ roomy at))

    -- LoadOrStoreList does not look at the expiry: it hands out a list that GetValue no longer finds.
    pub load_or_store_list_over :
        (now : ℤ) (key : Text) (st roomy : KvStore S Z) (d : Deque) (at : ℤ)
        → evict_if_needed fuel memory limits st ≡ ok roomy
        → lookup key roomy.sync_map ≡ some (record { value = list_value d; ttl = some at })
        → ltb_ℤ at now ≡ true
        → (st' : KvStore S Z) × (load_or_store_list fuel memory limits key st
            ≡ ok ((some d, true), st'))
          × ((get_value now key st').0 ≡ none)
    load_or_store_list_over now key st roomy d at room found over =
        let st' = record roomy { lru_tracker = access key roomy.lru_tracker } in
        (
          st',
          list_step key st roomy d (some at) room found,
          (get_value_lem now key st').0 ∙ rw (found, over),
        )
