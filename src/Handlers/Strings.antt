-- ===== src/Handlers/Strings.antt =====
-- set.go, get.go, incr.go, type.go, keys.go, echo.go and ping.go
use simis.Prelude.{
  List, Option, Result, Text, [], bytes, err, if◌then◌else◌, leb, length, none, ok, some, suc,
  text_eq, ℕ, ◌*◌, ◌-◌, ◌∷◌,
}
use simis.Prelude.Int.{ℤ, pos, negsuc, ◌+ℤ◌, wrap}
use simis.GoText.{atoi}
use simis.Resp.{to_simple_string, to_bulk_string, to_null_bulk_string, to_resp_int, to_resp_array}
use simis.KvStore.{
  KvStore, RedisObject, string_value, list_value, stream_value, sorted_set_value, StoreError, store,
  get_value, get_string, increment_string, get_all_keys,
}
use simis.Handlers.{Env, Executed, invalid_arguments, responding, modifying, store_failed, refused}

-- `setParams`; the expiry is its type and its number.
pub record SetParams : Type 0 where
  pub key : Text
  pub value : Text
  pub expiry : Option (Text × ℤ)

unfoldable pub with_expiry : Text → Text → Text → Option ℤ → Option SetParams
with_expiry key value exp_type none = none
with_expiry key value exp_type (some n) =
    some (record { key = key; value = value; expiry = some (exp_type, n) })

-- `parseSet`
unfoldable pub parse_set : List Text → Option SetParams
parse_set [] = none
parse_set (key ∷ []) = none
parse_set (key ∷ value ∷ exp_type ∷ exp_time ∷ args) =
    with_expiry key value exp_type (atoi exp_time)
parse_set (key ∷ value ∷ args) = some (record { key = key; value = value; expiry = none })

-- A number of units as a `time.Duration`
abbrev pub scaled : ℕ → ℤ → ℤ
scaled k (pos n) = wrap (pos (n * k))
scaled k (negsuc n) = wrap (negsuc (suc n * k - 1))

-- The expiry of the new object; `none` where its type is neither EX nor PX
unfoldable pub expiry_at : ℤ → Option (Text × ℤ) → Option (Option ℤ)
expiry_at now none = some none
expiry_at now (some (exp_type, n)) =
    if text_eq exp_type (bytes "EX")
    then some (some (now +ℤ scaled 1000000000 n))
    else if text_eq exp_type (bytes "PX")
    then some (some (now +ℤ scaled 1000000 n))
    else none

unfoldable pub string_or_null : Option Text → Text
string_or_null none = to_null_bulk_string
string_or_null (some s) = to_bulk_string s

module _ {S Z : Type 0} where
  unfoldable pub stored : Text → KvStore S Z → Result StoreError (KvStore S Z) → Executed S Z
  stored key st (err e) = store_failed e st
  stored key st (ok st') = some (modifying (to_simple_string (bytes "OK")) key, st')

  unfoldable pub set_object : Env → SetParams → Option (Option ℤ) → KvStore S Z → Executed S Z
  set_object env p none st = refused invalid_arguments st
  set_object env p (some ttl) st = stored p.key st (
      store env.fuel env.memory env.limits p.key
        (record { value = string_value p.value; ttl = ttl }) st)

  -- `executeSet`
  unfoldable pub execute_set : Env → SetParams → KvStore S Z → Executed S Z
  execute_set env p st = set_object env p (expiry_at env.now p.expiry) st

  unfoldable pub set_with : Env → Option SetParams → Text → KvStore S Z → Executed S Z
  set_with env none text st = refused text st
  set_with env (some p) text st = execute_set env p st

  -- `SetHandler`; `syntax` is the error of `strconv.Atoi` on the expiry.
  unfoldable pub handle_set : Env → Text → List Text → KvStore S Z → Executed S Z
  handle_set env syntax args st =
      set_with env (parse_set args) (if leb 4 (length args) then syntax else invalid_arguments) st

  unfoldable pub got_string : Option Text × KvStore S Z → Executed S Z
  got_string (found, st) = some (responding (string_or_null found), st)

  -- `GetHandler`
  unfoldable pub handle_get : Env → List Text → KvStore S Z → Executed S Z
  handle_get env [] st = refused invalid_arguments st
  handle_get env (key ∷ args) st = got_string (get_string env.now key st)

  unfoldable pub counted_up :
      KvStore S Z → Result StoreError (Result StoreError ℤ × KvStore S Z) → Executed S Z
  counted_up st (err e) = store_failed e st
  counted_up st (ok (err e, st')) = store_failed e st'
  counted_up st (ok (ok n, st')) = some (responding (to_resp_int n), st')

  -- `IncrHandler`
  unfoldable pub handle_incr : Env → List Text → KvStore S Z → Executed S Z
  handle_incr env (key ∷ []) st =
      counted_up st (increment_string env.fuel env.memory env.limits env.now key st)
  handle_incr env args st = refused invalid_arguments st

  unfoldable pub type_name : Option (RedisObject S Z) → Text
  type_name none = bytes "none"
  type_name (some o) = elim o.value [
    | string_value s ↦ bytes "string"
    | list_value d ↦ bytes "list"
    | stream_value s ↦ bytes "stream"
    | sorted_set_value z ↦ bytes "set"
  ]

  unfoldable pub typed : Option (RedisObject S Z) × KvStore S Z → Executed S Z
  typed (found, st) = some (responding (to_simple_string (type_name found)), st)

  -- `TypeHandler`
  unfoldable pub handle_type : Env → List Text → KvStore S Z → Executed S Z
  handle_type env [] st = refused invalid_arguments st
  handle_type env (key ∷ args) st = typed (get_value env.now key st)

  -- `KeysHandler`
  unfoldable pub handle_keys : Env → List Text → KvStore S Z → Executed S Z
  handle_keys env [] st = refused invalid_arguments st
  handle_keys env (pattern_text ∷ args) st =
      if text_eq pattern_text (bytes "*")
      then some (responding (to_resp_array (some (get_all_keys env.now st))), st)
      else refused invalid_arguments st

  -- `EchoHandler`
  unfoldable pub handle_echo : List Text → KvStore S Z → Executed S Z
  handle_echo [] st = refused invalid_arguments st
  handle_echo (message ∷ args) st = some (responding (to_bulk_string message), st)

  -- `PingHandler`
  unfoldable pub handle_ping : List Text → KvStore S Z → Executed S Z
  handle_ping args st = some (responding (to_simple_string (bytes "PONG")), st)
