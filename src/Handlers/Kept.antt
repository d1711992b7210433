-- ===== src/Handlers/Kept.antt =====
-- SET, and what GET finds afterwards.
use simis.Prelude.{
  Bool-cases, List, Option, Text, bytes, if◌then◌else◌, inl, inr, none, ok, refl, some, sym, ◌∷◌,
  ◌≡◌,
}
use simis.Prelude.Int.{ℤ}
use simis.Resp.{to_simple_string, to_bulk_string, to_null_bulk_string}
use simis.KvStore.{
  KvStore, RedisObject, string_value, is_expired, as_string, put, store, evict_if_needed, get_value,
  get_as, get_string,
}
use simis.KvStore.Values.{live, get_value-put}
use simis.Handlers.{Env, responding, modifying}
use simis.Handlers.Strings.{
  SetParams, expiry_at, stored, set_object, execute_set, string_or_null, got_string, handle_get,
}

module _ {S Z : Type 0} where
  abbrev pub object : Text → Option ℤ → RedisObject S Z
  object value ttl = record { value = string_value value; ttl = ttl }

  found_string :
      (o : RedisObject S Z) (now : ℤ) (value : Text)
      → o.value ≡ string_value value
      → string_or_null (elim (live now (some o)) [ none ↦ none | some o ↦ as_string o.value ])
        ≡ (if is_expired now o then to_null_bulk_string else to_bulk_string value)
  unfolding string_or_null
  found_string o now value v = elim (Bool-cases (is_expired now o)) [
    | inl e ↦ rw e refl
    | inr e ↦ rw (e, v) refl
  ]

  get_behind_put :
      (env : Env) (key value : Text) (ttl : Option ℤ) (args : List Text) (st : KvStore S Z)
      → (st' : KvStore S Z) × (handle_get env (key ∷ args) (put key (object value ttl) st)
          ≡ some (
            responding (
                if is_expired env.now (object value ttl)
                then to_null_bulk_string
                else to_bulk_string value),
            st',
          ))
  unfolding handle_get got_string get_string get_as
  get_behind_put env key value ttl args st =
      let found = get_value-put env.now key (object value ttl) st in
      (
        (get_value env.now key (put key (object value ttl) st)).1,
        rw (sym (found_string (object value ttl) env.now value refl), sym found) refl,
      )

  -- SET, once there is room and with a known type of expiry or none, and then GET of the same key at
  -- any time: the value that was set until the expiry is past, and a null from then on.
  pub set_get_lem :
      (env : Env) (p : SetParams) (ttl : Option ℤ) (st roomy : KvStore S Z)
      → evict_if_needed env.fuel env.memory env.limits st ≡ ok roomy
      → expiry_at env.now p.expiry ≡ some ttl
      → (st' : KvStore S Z) × (execute_set env p st
          ≡ some (modifying (to_simple_string (bytes "OK")) p.key, st'))
        × ((later : Env) (args : List Text)
            → (st'' : KvStore S Z) × (handle_get later (p.key ∷ args) st'
                ≡ some (
                  responding (
                      if is_expired later.now (object p.value ttl)
                      then to_null_bulk_string
                      else to_bulk_string p.value),
                  st'',
                )))
  unfolding execute_set set_object stored store
  set_get_lem env p ttl st roomy room timed = (
    put p.key (object p.value ttl) roomy,
    rw (timed, set_object, room) refl,
    λ later args. get_behind_put later p.key p.value ttl args roomy,
  )
