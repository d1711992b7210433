-- ===== src/KvStore/Evict.antt =====
-- The loop of evictIfNeeded: what holds when it ends, and where it does not.
use simis.Prelude.{
  All, Assoc, Bool, Bool-cases, List, Option-cases, Result, Text, [], arith, err, false,
  injective_some, inl, inr, lookup, none, ok, refl, some, suc, text_eq, true, zero, ℕ, ◌+◌, ◌<◌,
  ◌==◌, ◌>>=◌, ◌∷◌, ◌≡◌, ◌⊎◌,
}
use simis.Prelude.Int.{ℤ, ltb_ℤ}
use simis.Lru.{tracked, iterate_from_lru}
use simis.KvStore.{
  KvStore, RedisObject, Limits, diverges, EvictionPolicy, no_eviction, all_keys_lru, volatile_lru,
  all_keys_random, volatile_random, volatile_ttl, has_ttl, volatile_or, evict_while, first_volatile,
  any_volatile, least_ttl, evict_named, evict_one, evict_loop,
}

-- The policies that evict only keys with an expiry.
abbrev pub is_volatile : EvictionPolicy → Bool
is_volatile volatile_lru = true
is_volatile volatile_random = true
is_volatile volatile_ttl = true
is_volatile p = false

ok_injective {ℓ κ} : {E : Type κ} {A : Type ℓ} {a b : A} → Path (Result E A) (ok a) (ok b) → a ≡ b
ok_injective h = cc

bind_ok {ℓ κ} :
    {E : Type κ} {A B : Type ℓ} (r : Result E A) (f : A → Result E B) (b : B)
    → (r >>= f) ≡ ok b
    → (a : A) × (r ≡ ok a) × (f a ≡ ok b)
bind_ok (ok a) f b e = (a, refl, e)
bind_ok (err x) f b e = cc

module _ {S Z : Type 0} where
  abbrev pub IsLasting : Text × RedisObject S Z → Type 0
  IsLasting (key, o) = o.ttl ≡ none

  lookup-lasting :
      (key : Text) (m : Assoc (RedisObject S Z)) (o : RedisObject S Z)
      → All IsLasting m
      → lookup key m ≡ some o
      → has_ttl o ≡ false
  unfolding lookup
  lookup-lasting key [] o h e = cc
  lookup-lasting key ((j, x) ∷ m) o h e = elim (Bool-cases (text_eq j key)) [
    | inl same ↦ let q : x ≡ o = injective_some (rw same at e) in rw (← q, h.0)
    | inr other ↦ lookup-lasting key m o h.1 (rw other at e)
  ]

  first_volatile_none :
      (keys : List Text) (m : Assoc (RedisObject S Z))
      → All IsLasting m
      → first_volatile keys m ≡ []
  unfolding first_volatile volatile_or
  first_volatile_none [] m h = refl
  first_volatile_none (key ∷ keys) m h = elim (Option-cases (lookup key m)) [
    | inl e ↦ rw (e, first_volatile_none keys m h)
    | inr (o, e) ↦ rw (e, lookup-lasting key m o h e, first_volatile_none keys m h)
  ]

  any_volatile_none : (m : Assoc (RedisObject S Z)) → All IsLasting m → any_volatile m ≡ []
  unfolding any_volatile
  any_volatile_none [] h = refl
  any_volatile_none ((key, o) ∷ m) h = rw (h.0, any_volatile_none m h.1)

  least_ttl-none : (m : Assoc (RedisObject S Z)) → All IsLasting m → least_ttl ([], none) m ≡ []
  unfolding least_ttl
  least_ttl-none [] h = refl
  least_ttl-none ((key, o) ∷ m) h = rw (h.0, least_ttl-none m h.1)

  evict_nothing :
      (p : EvictionPolicy) (st : KvStore S Z)
      → is_volatile p ≡ true
      → All IsLasting st.sync_map
      → evict_one p st ≡ ok st
  unfolding evict_one evict_named text_eq
  evict_nothing no_eviction st v h = cc
  evict_nothing all_keys_lru st v h = cc
  evict_nothing all_keys_random st v h = cc
  evict_nothing volatile_lru st v h =
      rw (first_volatile_none (iterate_from_lru st.lru_tracker) st.sync_map h)
  evict_nothing volatile_random st v h = rw (any_volatile_none st.sync_map h)
  evict_nothing volatile_ttl st v h = rw (least_ttl-none st.sync_map h)

  -- With a volatile policy and no key that has an expiry, the loop does not end while the memory in
  -- use stays above the limit, however many rounds it is given.
  pub evict_loop_diverges :
      (fuel i : ℕ) (memory : ℕ → ℤ) (limits : Limits) (st : KvStore S Z)
      → is_volatile limits.eviction_policy ≡ true
      → All IsLasting st.sync_map
      → 0 < tracked st.lru_tracker
      → ((j : ℕ) → ltb_ℤ limits.max_memory (memory j) ≡ true)
      → evict_loop fuel memory i limits st ≡ err diverges
  unfolding evict_loop evict_while
  evict_loop_diverges zero i memory limits st v h some_key full = refl
  evict_loop_diverges (suc fuel) i memory limits st v h some_key full =
      let busy : (tracked st.lru_tracker == 0) ≡ false = ground arith in
      rw (
        full i,
        busy,
        evict_nothing limits.eviction_policy st v h,
        evict_loop_diverges fuel (i + 1) memory limits st v h some_key full,
      )

  -- When the loop ends without an error, a reading of the memory was within the limit, or no key is
  -- tracked any more.
  pub evict_loop_ends :
      (fuel i : ℕ) (memory : ℕ → ℤ) (limits : Limits) (st st' : KvStore S Z)
      → evict_loop fuel memory i limits st ≡ ok st'
      → (j : ℕ) × ((ltb_ℤ limits.max_memory (memory j) ≡ false) ⊎ (tracked st'.lru_tracker ≡ 0))
  unfolding evict_loop evict_while
  evict_loop_ends zero i memory limits st st' e = cc
  evict_loop_ends (suc fuel) i memory limits st st' e =
      elim (Bool-cases (ltb_ℤ limits.max_memory (memory i))) [
        | inr low ↦ (i, inl low)
        | inl high ↦ elim (Bool-cases (tracked st.lru_tracker == 0)) [
          | inl empty ↦
              let same : st ≡ st' = ok_injective (rw (high, empty) at e) in
              (i, inr (rw (← same) (ground arith)))
          | inr busy ↦
              let (s, one, rest) =
                bind_ok (evict_one limits.eviction_policy st)
                  (λ s. evict_loop fuel memory (i + 1) limits s) st' (rw (high, busy) at e) in
              evict_loop_ends fuel (i + 1) memory limits s st' rest
        ]
      ]
