-- ===== src/Handlers/Pushed.antt =====
-- RPUSH and LPUSH: the list behind them.
use simis.Prelude.{
  Bool, List, Option, Text, [], ap, arith, bytes, false, if◌then◌else◌, length, lookup, min, ok,
  refl, some, sym, take-length, text_eq, text_eq_refl, true, ℕ, ◌++◌, ◌-◌, ◌∙◌, ◌∷◌, ◌≡◌,
}
use simis.Prelude.Int.{ℤ, pos, negsuc}
use simis.Resp.{to_resp_int, to_resp_array}
use simis.GoText.{atoi}
use simis.Deque.Range.{lrange_lem}
use simis.Deque.{lrange, Deque, push_front, push_back}
use simis.KvStore.{
  KvStore, get_list, get_as, get_value, is_expired, evict_if_needed, load_or_store_as,
  load_or_store_list,
}
use simis.Handlers.{Env, Executed, responding, modifying, write_list}
use simis.Handlers.Lists.{
  reverse_onto, handle_lrange, range_of, range_found, ranged, pushed, push_loaded, push_by,
  handle_rpush, handle_lpush,
}
use simis.Handlers.Loaded.{list_object, held, Loaded, loaded_lem, pushed_lem}

zero_lem : atoi (bytes "0") ≡ some (pos 0)
unfolding atoi
zero_lem = refl

minus_one_lem : atoi (bytes "-1") ≡ some (negsuc 0)
unfolding atoi
minus_one_lem = refl

whole : (d : Deque) → lrange (pos 0) (negsuc 0) d ≡ some d.items
whole d =
    let front : min 0 (length d.items - 1) ≡ 0 = omega arith in
    rw (lrange_lem (pos 0) (negsuc 0) d, front) (ap some (take-length d.items _ (omega arith)))

reverse_onto-append : (xs ys zs : List Text) → reverse_onto xs (ys ++ zs) ≡ reverse_onto xs ys ++ zs
unfolding reverse_onto
reverse_onto-append [] ys zs = refl
reverse_onto-append (x ∷ xs) ys zs = reverse_onto-append xs (x ∷ ys) zs

if_else {ℓ} :
    {A : Type ℓ} (b : Bool) (x y z : A)
    → (b ≡ false → y ≡ z)
    → (if b then x else y) ≡ (if b then x else z)
if_else true x y z h = refl
if_else false x y z h = h refl

module _ {S Z : Type 0} where
  push_loaded_lem :
      (push : Deque → Deque × ℕ) (key : Text) (d : Deque) (ttl : Option ℤ) (st roomy : KvStore S Z)
      (r : (Option Deque × Bool) × KvStore S Z)
      → Loaded key d ttl roomy r
      → (st' : KvStore S Z) × (push_loaded push key st (ok r)
          ≡ some (modifying (to_resp_int (pos (push d).1)) key, st'))
        × ((j : Text)
            → lookup j st'.sync_map ≡ (
                if text_eq key j
                then some (list_object (push d).0 ttl)
                else lookup j roomy.sync_map))
  unfolding push_loaded pushed
  push_loaded_lem push key d ttl st roomy ((found, loaded), st₁) (e, h) = (
    write_list key (push d).0 st₁,
    rw (e, push_loaded) refl,
    λ j.
        pushed_lem key d (push d).0 ttl st₁ (rw (h key, text_eq_refl key) refl) j
        ∙ if_else (text_eq key j) _ _ _ (λ other. h j ∙ rw other refl),
  )

  pub push_by_lem :
      (push : Deque → Deque × ℕ) (env : Env) (key : Text) (d : Deque) (ttl : Option ℤ)
      (st roomy : KvStore S Z)
      → evict_if_needed env.fuel env.memory env.limits st ≡ ok roomy
      → held (lookup key roomy.sync_map) ≡ some (d, ttl)
      → (st' : KvStore S Z) × (push_by push env key st
          ≡ some (modifying (to_resp_int (pos (push d).1)) key, st'))
        × ((j : Text)
            → lookup j st'.sync_map ≡ (
                if text_eq key j
                then some (list_object (push d).0 ttl)
                else lookup j roomy.sync_map))
  unfolding push_by load_or_store_list load_or_store_as
  push_by_lem push env key d ttl st roomy room h = rw room (
      push_loaded_lem push key d ttl st roomy _
        (loaded_lem (lookup key roomy.sync_map) key d ttl roomy refl h))

  range_whole :
      (later : Env) (key : Text) (d : Deque) (ttl : Option ℤ) (st : KvStore S Z)
      → lookup key st.sync_map ≡ some (list_object d ttl)
      → is_expired later.now (list_object {S = S} {Z = Z} d ttl) ≡ false
      → (st' : KvStore S Z) × (handle_lrange later (key ∷ bytes "0" ∷ bytes "-1" ∷ []) st
          ≡ some (responding (to_resp_array (some d.items)), st'))
  unfolding handle_lrange range_of range_found ranged get_list get_as get_value
  range_whole later key d ttl st e fresh =
      ((get_value later.now key st).1, rw (zero_lem, minus_one_lem, e, fresh, whole d) refl)

  -- What RPUSH and LPUSH have made of the list that a key held: the answer is the new length, the key is
  -- reported as changed, and every other key is as it was.
  pub record Pushed (key : Text) (d : Deque) (ttl : Option ℤ) (roomy : KvStore S Z)
      (r : Executed S Z) : Type 0 where
    pub st' : KvStore S Z
    pub answer : r ≡ some (modifying (to_resp_int (pos (length d.items))) key, st')
    pub others :
        (j : Text) → text_eq key j ≡ false → lookup j st'.sync_map ≡ lookup j roomy.sync_map
    pub shown :
        (later : Env)
        → is_expired later.now (list_object {S = S} {Z = Z} d ttl) ≡ false
        → (st'' : KvStore S Z) × (handle_lrange later (key ∷ bytes "0" ∷ bytes "-1" ∷ []) st'
            ≡ some (responding (to_resp_array (some d.items)), st''))

  push_by-Pushed :
      (push : Deque → Deque × ℕ) (env : Env) (key : Text) (d : Deque) (ttl : Option ℤ)
      (st roomy : KvStore S Z)
      → evict_if_needed env.fuel env.memory env.limits st ≡ ok roomy
      → held (lookup key roomy.sync_map) ≡ some (d, ttl)
      → (push d).1 ≡ length (push d).0.items
      → Pushed key (push d).0 ttl roomy (push_by push env key st)
  push_by-Pushed push env key d ttl st roomy room h count =
      let (st', answer, at) = push_by_lem push env key d ttl st roomy room h in
      record {
        st' = st';
        answer = rw (sym count) answer;
        others = λ j other. at j ∙ rw other refl;
        shown = λ later fresh.
            range_whole later key (push d).0 ttl st' (at key ∙ rw (text_eq_refl key) refl) fresh;
      }

  -- RPUSH and LPUSH, once there is room, on a key that holds a list or is missing: LRANGE of the whole
  -- gives, as long as the key has not expired, the old strings with the new ones behind them for RPUSH,
  -- and the new ones in front of them for LPUSH, the last of its arguments first. The answer is the new
  -- length, and no other key changes.
  pub push_lem :
      (env : Env) (key value : Text) (values : List Text) (d : Deque) (ttl : Option ℤ)
      (st roomy : KvStore S Z)
      → evict_if_needed env.fuel env.memory env.limits st ≡ ok roomy
      → held (lookup key roomy.sync_map) ≡ some (d, ttl)
      → Pushed key
          (record { items = d.items ++ (value ∷ values) })
          ttl
          roomy
          (handle_rpush env (key ∷ value ∷ values) st)
        × Pushed key
            (record { items = reverse_onto (value ∷ values) d.items })
            ttl
            roomy
            (handle_lpush env (key ∷ value ∷ values) st)
  unfolding handle_rpush handle_lpush push_back push_front
  push_lem env key value values d ttl st roomy room h = (
    push_by-Pushed (push_back (value ∷ values)) env key d ttl st roomy room h refl,
    rw (reverse_onto-append (value ∷ values) [] d.items) (
        push_by-Pushed (push_front (reverse_onto (value ∷ values) [])) env key d ttl st roomy room h
          refl),
  )
