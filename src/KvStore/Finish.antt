-- ===== src/KvStore/Finish.antt =====
-- With the policy allkeys-lru the eviction loop ends.
use simis.Prelude.{
  Bool-cases, List, Text, [], arith, false, injective_some, inl, inr, length, not, ok, refl, some,
  suc, text_eq_refl, true, zero, ℕ, ◌&&◌, ◌+◌, ◌<◌, ◌==◌, ◌∙◌, ◌∷◌, ◌≡◌,
}
use simis.Prelude.Int.{ℤ, ltb_ℤ}
use simis.Lru.{peek_lru, tracked}
use simis.Lru.Order.{has, without, last_or, Tracks}
use simis.Lru.Use.{remove-Tracks, length-without}
use simis.KvStore.{
  KvStore, Limits, all_keys_lru, delete_key, evict, evict_one, evict_while, evict_loop,
}

last_member :
    (k : Text) (ks : List Text) (p : Text) → last_or (some k) ks ≡ some p → has p (k ∷ ks) ≡ true
unfolding last_or has
last_member k [] p e = let q : k ≡ p = injective_some e in rw (q, text_eq_refl p)
last_member k (j ∷ ks) p e = ground (arith, last_member j ks p e)

last_exists : (k : Text) (ks : List Text) → (p : Text) × (last_or (some k) ks ≡ some p)
unfolding last_or
last_exists k [] = (k, refl)
last_exists k (j ∷ ks) = last_exists j ks

module _ {S Z : Type 0} (memory : ℕ → ℤ) (limits : Limits)
    (lru : limits.eviction_policy ≡ all_keys_lru) where
  evict_last :
      (st : KvStore S Z) (p : Text)
      → st.lru_tracker.tail ≡ some p
      → evict_one limits.eviction_policy st ≡ ok (evict p st)
  unfolding evict_one peek_lru
  evict_last st p e = rw (lru, e)

  -- The policy allkeys-lru ends with a result within one round more than there are keys, whatever
  -- the readings of the memory.
  pub evict_loop-all_keys_lru :
      (fuel i : ℕ) (ks : List Text) (st : KvStore S Z)
      → Tracks st.lru_tracker ks
      → length ks < fuel
      → (st' : KvStore S Z) × (evict_loop fuel memory i limits st ≡ ok st')
  unfolding evict_loop evict_while tracked
  evict_loop-all_keys_lru zero i ks st h enough = absurd (omega arith)
  evict_loop-all_keys_lru (suc fuel) i [] st h enough =
      let idle : (st.lru_tracker.size == 0) ≡ true = ground (arith, h.size) in
      let stop : (ltb_ℤ limits.max_memory (memory i) && not true) ≡ false = ground arith in
      (st, rw (idle, stop))
  evict_loop-all_keys_lru (suc fuel) i (k ∷ ks) st h enough =
      let (p, last) = last_exists k ks in
      let tail : st.lru_tracker.tail ≡ some p = h.tail ∙ unfold last_or in last in
      let less : length (k ∷ ks) ≡ length (without p (k ∷ ks)) + 1 =
        length-without p (k ∷ ks) (last_member k ks p last) in
      let kept : Tracks (evict p st).lru_tracker (without p (k ∷ ks)) =
        unfold evict delete_key in remove-Tracks h p in
      let (st', rest) =
        evict_loop-all_keys_lru fuel (i + 1) (without p (k ∷ ks)) (evict p st) kept
          (omega (arith, less)) in
      elim (Bool-cases (ltb_ℤ limits.max_memory (memory i) && not (st.lru_tracker.size == 0))) [
        | inl go ↦ (st', rw (go, evict_last st p tail) rest)
        | inr stop ↦ (st, rw stop)
      ]
