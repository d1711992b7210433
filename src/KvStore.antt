-- ===== src/KvStore.antt =====
-- internal/store/kvstore.go, with the wrappers of internal/datastructure/valuetype.go, string.go and
-- map.go: the map from keys to objects with their expiry, the tracker of their use, and eviction.
-- An object that the code hands out by pointer is a value here; `now` is a reading of the clock, and
-- `memory i` the i-th reading of the heap in use. `S` and `Z` are the types of streams and sorted sets.
use simis.Prelude.{
  Assoc, Bool, List, Option, Result, Text, [], bytes, delete, err, false, if◌then◌else◌, insert,
  lookup, none, not, ok, some, suc, text_eq, true, zero, ℕ, ◌%◌, ◌&&◌, ◌+◌, ◌==◌, ◌>>=◌, ◌^◌, ◌∷◌,
}
use simis.Prelude.Int.{ℤ, pos, ◌+ℤ◌, ltb_ℤ, leb_ℤ, wrap}
pub mod Values
pub mod Evict
pub mod Finish
mod Tests
use simis.GoText.{atoi, itoa}
use simis.Deque.{Deque, new_deque}
use simis.Lru.{
  LruTracker, new_lru_tracker, access, remove, peek_lru, peek_random, iterate_from_lru, tracked,
}

-- `RValue`
pub data RValue (S Z : Type 0) : Type 0 where
  string_value : Text → RValue S Z
  list_value : Deque → RValue S Z
  stream_value : S → RValue S Z
  sorted_set_value : Z → RValue S Z

pub record RedisObject (S Z : Type 0) : Type 0 where
  pub value : RValue S Z
  pub ttl : Option ℤ

pub record KvStore (S Z : Type 0) : Type 0 where
  pub sync_map : Assoc (RedisObject S Z)
  pub lru_tracker : LruTracker
  pub total_evictions : ℕ

-- `ErrOOM` and the error of `IncrementString`; a loop that does not end `diverges`.
pub data StoreError : Type 0 where
  out_of_memory not_an_integer diverges : StoreError

pub data EvictionPolicy : Type 0 where
  no_eviction all_keys_lru volatile_lru all_keys_random volatile_random volatile_ttl :
      EvictionPolicy

-- The part of the configuration that the store reads.
pub record Limits : Type 0 where
  pub max_memory : ℤ
  pub eviction_policy : EvictionPolicy

module _ {S Z : Type 0} where
  abbrev pub new_store : KvStore S Z
  new_store = record { sync_map = []; lru_tracker = new_lru_tracker; total_evictions = 0 }

  abbrev pub as_string : RValue S Z → Option Text
  as_string (string_value s) = some s
  as_string v = none

  abbrev pub as_list : RValue S Z → Option Deque
  as_list (list_value d) = some d
  as_list v = none

  abbrev pub as_stream : RValue S Z → Option S
  as_stream (stream_value s) = some s
  as_stream v = none

  abbrev pub as_sorted_set : RValue S Z → Option Z
  as_sorted_set (sorted_set_value z) = some z
  as_sorted_set v = none

  -- `NewStringObject` and its like: no expiry
  abbrev pub lasting : RValue S Z → RedisObject S Z
  lasting v = record { value = v; ttl = none }

  -- `val.TTL != nil && val.TTL.Before(now)`
  abbrev pub is_expired : ℤ → RedisObject S Z → Bool
  is_expired now o = elim o.ttl [ none ↦ false | some at ↦ ltb_ℤ at now ]

  abbrev has_ttl : RedisObject S Z → Bool
  has_ttl o = elim o.ttl [ none ↦ false | some at ↦ true ]

  -- `Delete`
  unfoldable pub delete_key : Text → KvStore S Z → KvStore S Z
  delete_key key st = record st {
    lru_tracker = remove key st.lru_tracker;
    sync_map = delete key st.sync_map;
  }

  -- `syncMap.Store` and `lruTracker.Access`
  unfoldable pub put : Text → RedisObject S Z → KvStore S Z → KvStore S Z
  put key o st = record st {
    sync_map = insert key o st.sync_map;
    lru_tracker = access key st.lru_tracker;
  }

  unfoldable pub evict : Text → KvStore S Z → KvStore S Z
  evict key st =
      let st' = delete_key key st in
      record st' { total_evictions = (st'.total_evictions + 1) % 2 ^ 64 }

  -- `if evictKey != ""`
  unfoldable pub evict_named : Text → KvStore S Z → KvStore S Z
  evict_named key st = if text_eq key [] then st else evict key st

  volatile_or : Text → Text → Option (RedisObject S Z) → Text
  volatile_or key rest none = rest
  volatile_or key rest (some o) = if has_ttl o then key else rest

  -- The callback of `IterateFromLRU`: the first key with an expiry, or "".
  unfoldable pub first_volatile : List Text → Assoc (RedisObject S Z) → Text
  unfolding volatile_or
  first_volatile [] m = []
  first_volatile (key ∷ keys) m =
      let rest = first_volatile keys m in volatile_or key rest (lookup key m)

  unfoldable pub any_volatile : Assoc (RedisObject S Z) → Text
  any_volatile [] = []
  any_volatile ((key, o) ∷ m) = let rest = any_volatile m in if has_ttl o then key else rest

  -- The loop for the key with the least expiry; `best` is the key and the expiry so far.
  unfoldable pub least_ttl : Text × Option ℤ → Assoc (RedisObject S Z) → Text
  least_ttl best [] = best.0
  least_ttl (key, found) ((j, o) ∷ m) =
      least_ttl
        (elim o.ttl [
          | none ↦ (key, found)
          | some at ↦ elim found [
            | none ↦ (j, some at)
            | some least ↦ if ltb_ℤ at least then (j, some at) else (key, some least)
          ]
        ])
        m

  -- `evictOne`
  unfoldable pub evict_one : EvictionPolicy → KvStore S Z → Result StoreError (KvStore S Z)
  evict_one no_eviction st = err out_of_memory
  evict_one all_keys_lru st = elim (peek_lru st.lru_tracker) [
    | none ↦ ok st
    | some key ↦ ok (evict key st)
  ]
  evict_one volatile_lru st =
      ok (evict_named (first_volatile (iterate_from_lru st.lru_tracker) st.sync_map) st)
  evict_one all_keys_random st = elim (peek_random st.lru_tracker) [
    | none ↦ ok st
    | some key ↦ ok (evict key st)
  ]
  evict_one volatile_random st = ok (evict_named (any_volatile st.sync_map) st)
  evict_one volatile_ttl st = ok (evict_named (least_ttl ([], none) st.sync_map) st)

  -- A round of the loop of `evictIfNeeded`, with the rounds behind it.
  unfoldable pub evict_while :
      Bool
      → EvictionPolicy
      → (KvStore S Z → Result StoreError (KvStore S Z))
      → KvStore S Z
      → Result StoreError (KvStore S Z)
  evict_while false policy next st = ok st
  evict_while true policy next st = evict_one policy st >>= next

  -- The loop of `evictIfNeeded`, from the i-th reading of the memory on.
  unfoldable pub evict_loop :
      ℕ → (ℕ → ℤ) → ℕ → Limits → KvStore S Z → Result StoreError (KvStore S Z)
  evict_loop zero memory i limits st = err diverges
  evict_loop (suc fuel) memory i limits st =
      evict_while (ltb_ℤ limits.max_memory (memory i) && not (tracked st.lru_tracker == 0))
        limits.eviction_policy (λ st'. evict_loop fuel memory (i + 1) limits st') st

  -- `evictIfNeeded`
  unfoldable pub evict_if_needed :
      ℕ → (ℕ → ℤ) → Limits → KvStore S Z → Result StoreError (KvStore S Z)
  evict_if_needed fuel memory limits st =
      if leb_ℤ limits.max_memory (pos 0) then ok st else evict_loop fuel memory 0 limits st

  -- `GetValue`
  unfoldable pub get_value : ℤ → Text → KvStore S Z → Option (RedisObject S Z) × KvStore S Z
  get_value now key st = elim (lookup key st.sync_map) [
    | none ↦ (none, st)
    | some o ↦
        if is_expired now o
        then (none, delete_key key st)
        else (some o, record st { lru_tracker = access key st.lru_tracker })
  ]

  -- `GetString`, `GetList`, `GetStream` and `GetSortedSet`, with the view of the kind
  unfoldable pub get_as {ℓ} :
      {A : Type ℓ} → (RValue S Z → Option A) → ℤ → Text → KvStore S Z → Option A × KvStore S Z
  get_as view now key st =
      let (found, st') = get_value now key st in
      (elim found [ none ↦ none | some o ↦ view o.value ], st')

  unfoldable pub get_string : ℤ → Text → KvStore S Z → Option Text × KvStore S Z
  get_string now key st = get_as as_string now key st

  unfoldable pub get_list : ℤ → Text → KvStore S Z → Option Deque × KvStore S Z
  get_list now key st = get_as as_list now key st

  unfoldable pub get_stream : ℤ → Text → KvStore S Z → Option S × KvStore S Z
  get_stream now key st = get_as as_stream now key st

  unfoldable pub get_sorted_set : ℤ → Text → KvStore S Z → Option Z × KvStore S Z
  get_sorted_set now key st = get_as as_sorted_set now key st

  -- `StoreList`
  unfoldable pub store_list : Text → Deque → KvStore S Z → KvStore S Z
  store_list key d st = record st { sync_map = insert key (lasting (list_value d)) st.sync_map }

  -- `StoreRDBEntry`
  unfoldable pub store_rdb_entry : Text → Text → Option ℤ → KvStore S Z → KvStore S Z
  store_rdb_entry key value expire_at st =
      put key (record { value = string_value value; ttl = expire_at }) st

  -- `GetAllKeys`
  unfoldable pub keys_of : ℤ → Assoc (RedisObject S Z) → List Text
  keys_of now [] = []
  keys_of now ((key, o) ∷ m) =
      let rest = keys_of now m in if is_expired now o then rest else key ∷ rest

  unfoldable pub get_all_keys : ℤ → KvStore S Z → List Text
  get_all_keys now st = keys_of now st.sync_map

  -- `syncMap.LoadOrStore` and `lruTracker.Access`: the object, and whether it was there
  unfoldable pub load_or_store :
      Text → RValue S Z → KvStore S Z → (RedisObject S Z × Bool) × KvStore S Z
  load_or_store key fresh st = elim (lookup key st.sync_map) [
    | some o ↦ ((o, true), record st { lru_tracker = access key st.lru_tracker })
    | none ↦ ((lasting fresh, false), put key (lasting fresh) st)
  ]

  -- The new value of the counter `old` holds, with the object to store.
  unfoldable pub incremented :
      ℤ → Option (RedisObject S Z) → Result StoreError (ℤ × RedisObject S Z)
  incremented now none = ok (pos 1, lasting (string_value (bytes "1")))
  incremented now (some o) =
      if is_expired now o
      then ok (pos 1, lasting (string_value (bytes "1")))
      else elim (as_string o.value) [
        | none ↦ err not_an_integer
        | some text ↦ elim (atoi text) [
          | none ↦ err not_an_integer
          | some count ↦
              let new_count = wrap (count +ℤ pos 1) in
              ok (new_count, record { value = string_value (itoa new_count); ttl = o.ttl })
        ]
      ]

  unfoldable pub viewed {ℓ} :
      {A : Type ℓ}
      → (RValue S Z → Option A)
      → (RedisObject S Z × Bool) × KvStore S Z
      → (Option A × Bool) × KvStore S Z
  viewed view ((o, loaded), st) =
      (elim (view o.value) [ none ↦ (none, false) | some a ↦ (some a, loaded) ], st)

  unfoldable pub counted :
      Text
      → KvStore S Z
      → Result StoreError (ℤ × RedisObject S Z)
      → Result StoreError ℤ × KvStore S Z
  counted key st (err e) = (err e, st)
  counted key st (ok (n, o)) = (ok n, put key o st)

  -- The operations that make room first.
  module _ (fuel : ℕ) (memory : ℕ → ℤ) (limits : Limits) where
    -- `Store`
    unfoldable pub store : Text → RedisObject S Z → KvStore S Z → Result StoreError (KvStore S Z)
    store key o st = do roomy ← evict_if_needed fuel memory limits st; ok (put key o roomy)

    -- `LoadOrStoreList`, `LoadOrStoreStream` and `LoadOrStoreSortedSet`; `fresh` is the new value, and
    -- a value of another kind is no result.
    unfoldable pub load_or_store_as {ℓ} :
        {A : Type ℓ}
        → (RValue S Z → Option A)
        → RValue S Z
        → Text
        → KvStore S Z
        → Result StoreError ((Option A × Bool) × KvStore S Z)
    load_or_store_as view fresh key st = do
      roomy ← evict_if_needed fuel memory limits st
      ok (viewed view (load_or_store key fresh roomy))

    unfoldable pub load_or_store_list :
        Text → KvStore S Z → Result StoreError ((Option Deque × Bool) × KvStore S Z)
    load_or_store_list key st = load_or_store_as as_list (list_value new_deque) key st

    -- `IncrementString`. The store after an error is the one behind the eviction.
    unfoldable pub increment_string :
        ℤ → Text → KvStore S Z → Result StoreError (Result StoreError ℤ × KvStore S Z)
    increment_string now key st = do
      roomy ← evict_if_needed fuel memory limits st
      ok (counted key roomy (incremented now (lookup key roomy.sync_map)))
