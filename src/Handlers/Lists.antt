-- ===== src/Handlers/Lists.antt =====
-- rpush.go, lpush.go, llen.go, lpop.go, lrange.go and blpop.go
use simis.Prelude.{
  Bool, List, Option, Result, Text, [], bytes, err, if◌then◌else◌, none, ok, some, ℕ, ◌&&◌, ◌++◌,
  ◌∷◌,
}
use simis.Prelude.Int.{ℤ, pos, leb_ℤ}
use simis.GoText.{atoi}
use simis.Resp.{to_null_bulk_string, to_resp_int, to_resp_array}
use simis.Deque.{Deque, push_front, push_back, pop_front, pop_n_front, lrange, len}
use simis.KvStore.{KvStore, StoreError, load_or_store_list, get_list}
use simis.Executor.{new_execution_result}
use simis.Handlers.{
  Env, Executed, invalid_arguments, failed_to_load_list, responding, modifying, store_failed,
  refused, write_list,
}
use simis.Handlers.Strings.{string_or_null}

-- `slices.Reverse`
unfoldable pub reverse_onto : List Text → List Text → List Text
reverse_onto [] ys = ys
reverse_onto (x ∷ xs) ys = reverse_onto xs (x ∷ ys)

abbrev pub empty_array : Text
empty_array = bytes "*0" ++ (13 ∷ 10 ∷ [])

-- What `strconv.ParseFloat` makes of a timeout: an error, a number below 0, or the milliseconds.
pub data Timeout : Type 0 where
  no_number negative : Timeout
  milliseconds : ℤ → Timeout

unfoldable pub last_of : Text → List Text → Text
last_of x [] = x
last_of x (y ∷ ys) = last_of y ys

unfoldable pub without_last : Text → List Text → List Text
without_last x [] = []
without_last x (y ∷ ys) = x ∷ without_last y ys

module _ {S Z : Type 0} where
  unfoldable pub pushed : Text → KvStore S Z → Deque × ℕ → Executed S Z
  pushed key st (d, n) = some (modifying (to_resp_int (pos n)) key, write_list key d st)

  -- A push, given what the load has made of the key
  unfoldable pub push_loaded :
      (Deque → Deque × ℕ)
      → Text
      → KvStore S Z
      → Result StoreError ((Option Deque × Bool) × KvStore S Z)
      → Executed S Z
  push_loaded push key st (err e) = store_failed e st
  push_loaded push key st (ok ((none, loaded), st')) = refused failed_to_load_list st'
  push_loaded push key st (ok ((some d, loaded), st')) = pushed key st' (push d)

  unfoldable pub push_by : (Deque → Deque × ℕ) → Env → Text → KvStore S Z → Executed S Z
  push_by push env key st =
      push_loaded push key st (load_or_store_list env.fuel env.memory env.limits key st)

  -- `RPushHandler`
  unfoldable pub handle_rpush : Env → List Text → KvStore S Z → Executed S Z
  handle_rpush env (key ∷ value ∷ values) st = push_by (push_back (value ∷ values)) env key st
  handle_rpush env args st = refused invalid_arguments st

  -- `LPushHandler`
  unfoldable pub handle_lpush : Env → List Text → KvStore S Z → Executed S Z
  handle_lpush env (key ∷ value ∷ values) st =
      push_by (push_front (reverse_onto (value ∷ values) [])) env key st
  handle_lpush env args st = refused invalid_arguments st

  unfoldable pub length_of : Option Deque × KvStore S Z → Executed S Z
  length_of (none, st) = some (responding (to_resp_int (pos 0)), st)
  length_of (some d, st) = some (responding (to_resp_int (pos (len d))), st)

  -- `LLENHandler`
  unfoldable pub handle_llen : Env → List Text → KvStore S Z → Executed S Z
  handle_llen env (key ∷ []) st = length_of (get_list env.now key st)
  handle_llen env args st = refused invalid_arguments st

  unfoldable pub popped_n : Text → KvStore S Z → Option ((List Text × ℤ) × Deque) → Executed S Z
  popped_n key st none = none
  popped_n key st (some ((values, n), d)) = some (
    responding (
        if leb_ℤ (pos 0) n && leb_ℤ n (pos 0)
        then to_null_bulk_string
        else to_resp_array (some values)),
    write_list key d st,
  )

  unfoldable pub popped_one : Text → KvStore S Z → Option Text × Deque → Executed S Z
  popped_one key st (value, d) = some (responding (string_or_null value), write_list key d st)

  -- `executeLPop`; a count below 0 is a panic.
  unfoldable pub pop_found : Text → Option ℤ → Option Deque × KvStore S Z → Executed S Z
  pop_found key count (none, st) = some (responding to_null_bulk_string, st)
  pop_found key none (some d, st) = popped_one key st (pop_front d)
  pop_found key (some n) (some d, st) = popped_n key st (pop_n_front n d)

  unfoldable pub pop_counted : Env → Text → Option ℤ → KvStore S Z → Executed S Z
  pop_counted env key none st = refused invalid_arguments st
  pop_counted env key (some n) st = pop_found key (some n) (get_list env.now key st)

  -- `LPopHandler`
  unfoldable pub handle_lpop : Env → List Text → KvStore S Z → Executed S Z
  handle_lpop env [] st = refused invalid_arguments st
  handle_lpop env (key ∷ []) st = pop_found key none (get_list env.now key st)
  handle_lpop env (key ∷ count ∷ args) st = pop_counted env key (atoi count) st

  unfoldable pub ranged : KvStore S Z → Option (List Text) → Executed S Z
  ranged st none = none
  ranged st (some values) = some (responding (to_resp_array (some values)), st)

  unfoldable pub range_found : ℤ → ℤ → Option Deque × KvStore S Z → Executed S Z
  range_found left right (none, st) = some (responding empty_array, st)
  range_found left right (some d, st) = ranged st (lrange left right d)

  unfoldable pub range_of : Env → Text → Option ℤ → Option ℤ → KvStore S Z → Executed S Z
  range_of env key (some left) (some right) st = range_found left right (get_list env.now key st)
  range_of env key left right st = refused invalid_arguments st

  -- `LRangeHandler`
  unfoldable pub handle_lrange : Env → List Text → KvStore S Z → Executed S Z
  handle_lrange env (key ∷ left ∷ right ∷ args) st = range_of env key (atoi left) (atoi right) st
  handle_lrange env args st = refused invalid_arguments st

  -- What follows the loop of `executeBLPop`
  unfoldable pub blocked_for : List Text → Timeout → KvStore S Z → Executed S Z
  blocked_for keys no_number st = refused invalid_arguments st
  blocked_for keys negative st = some (responding (to_resp_array none), st)
  blocked_for keys (milliseconds ms) st =
      some (record new_execution_result { blocking_timeout = ms; waiting_keys = keys }, st)

  -- A turn of that loop, with the turns behind it
  unfoldable pub blpop_popped :
      Text → KvStore S Z → (KvStore S Z → Executed S Z) → Option Text × Deque → Executed S Z
  blpop_popped key st rest (none, d) = rest (write_list key d st)
  blpop_popped key st rest (some value, d) =
      some (modifying (to_resp_array (some (key ∷ value ∷ []))) key, write_list key d st)

  unfoldable pub blpop_loaded :
      Text
      → KvStore S Z
      → (KvStore S Z → Executed S Z)
      → Result StoreError ((Option Deque × Bool) × KvStore S Z)
      → Executed S Z
  blpop_loaded key st rest (err e) = store_failed e st
  blpop_loaded key st rest (ok ((none, loaded), st')) = refused failed_to_load_list st'
  blpop_loaded key st rest (ok ((some d, loaded), st')) = blpop_popped key st' rest (pop_front d)

  unfoldable pub blpop_loop :
      Env → List Text → (KvStore S Z → Executed S Z) → KvStore S Z → Executed S Z
  blpop_loop env [] after st = after st
  blpop_loop env (key ∷ keys) after st =
      blpop_loaded key st (λ st'. blpop_loop env keys after st')
        (load_or_store_list env.fuel env.memory env.limits key st)

  unfoldable pub blpop_with : Env → List Text → Timeout → KvStore S Z → Executed S Z
  blpop_with env keys no_number st = refused invalid_arguments st
  blpop_with env keys timeout st = blpop_loop env keys (blocked_for keys timeout) st

  -- `BLPopHandler`; `timeout_of` is the reading of the number.
  unfoldable pub handle_blpop : Env → (Text → Timeout) → List Text → KvStore S Z → Executed S Z
  handle_blpop env timeout_of (key ∷ arg ∷ args) st =
      blpop_with env (without_last key (arg ∷ args)) (timeout_of (last_of key (arg ∷ args))) st
  handle_blpop env timeout_of args st = refused invalid_arguments st
