-- ===== src/Resp.antt =====
-- The texts of the protocol: the writers of internal/utils/resp.go, FromSimpleString, and
-- FlattenRESPArray. `none` stands for a slice that is nil.
use simis.Prelude.{
  Bool, List, Option, Result, Text, [], bytes, drop, err, if◌then◌else◌, length, ltb, none, not, ok,
  some, take, text_eq, ℕ, ◌++◌, ◌-◌, ◌∷◌,
}
use simis.Prelude.Int.{ℤ, pos}
pub mod Simple
pub mod Reader
pub mod Parse
pub mod Requests
pub mod Lines
pub mod RoundTrip
pub mod Pipeline
pub mod Within
pub mod Ends
mod Tests
use simis.GoText.{itoa}

abbrev pub crlf : Text
crlf = 13 ∷ 10 ∷ []

-- `ToSimpleString`
unfoldable pub to_simple_string : Text → Text
to_simple_string s = b'+' ∷ s ++ crlf

pub data RespError : Type 0 where
  too_short bad_start bad_end : RespError

-- `strings.HasSuffix(resp, "\r\n")`, for a text of at least two bytes
abbrev has_end : Text → Bool
has_end resp = text_eq (drop (length resp - 2) resp) crlf

-- `FromSimpleString`
unfoldable pub from_simple_string : Text → Result RespError Text
from_simple_string resp =
    if ltb (length resp) 3
    then err too_short
    else if not (text_eq (take 1 resp) (b'+' ∷ []))
    then err bad_start
    else if not (has_end resp)
    then err bad_end
    else ok (take (length resp - 3) (drop 1 resp))

-- `ToBulkString`
unfoldable pub to_bulk_string : Text → Text
to_bulk_string s = b'$' ∷ itoa (pos (length s)) ++ (crlf ++ (s ++ crlf))

-- `ToNullBulkString`
unfoldable pub to_null_bulk_string : Text
to_null_bulk_string = bytes "$-1" ++ crlf

-- `ToRespInt`
unfoldable pub to_resp_int : ℤ → Text
to_resp_int n = b':' ∷ itoa n ++ crlf

unfoldable pub joined : List Text → Text
joined [] = []
joined (e ∷ es) = e ++ joined es

unfoldable pub bulks : List Text → List Text
bulks [] = []
bulks (e ∷ es) = to_bulk_string e ∷ bulks es

unfoldable pub array_of : ℕ → Text → Text
array_of n body = b'*' ∷ itoa (pos n) ++ (crlf ++ body)

-- `ToRespArray`
unfoldable pub to_resp_array : Option (List Text) → Text
unfolding joined bulks array_of
to_resp_array none = bytes "*-1" ++ crlf
to_resp_array (some elements) = array_of (length elements) (joined (bulks elements))

-- `ToSimpleRespArray` and `ToArrayFromRESP`
unfoldable pub to_simple_resp_array : Option (List Text) → Text
unfolding joined array_of
to_simple_resp_array none = bytes "*-1" ++ crlf
to_simple_resp_array (some elements) = array_of (length elements) (joined elements)

abbrev pub to_array_from_resp : Option (List Text) → Text
to_array_from_resp = to_simple_resp_array

-- `ToError`
unfoldable pub to_error : Text → Text
to_error s = bytes "-ERR " ++ (s ++ crlf)

-- `interface{}`, as the parser makes it: a string, an array, or nil
mutual
  pub data RespValue : Type 0 where
    bulk : Text → RespValue
    nested : RespValues → RespValue
    null : RespValue

  pub data RespValues : Type 0 where
    nothing : RespValues
    more : RespValue → RespValues → RespValues

-- `FlattenRESPArray`
unfoldable mutual
  pub flatten_value : RespValue → List Text
  flatten_value (bulk s) = s ∷ []
  flatten_value (nested vs) = flatten_resp_array vs
  flatten_value null = []

  pub flatten_resp_array : RespValues → List Text
  flatten_resp_array nothing = []
  flatten_resp_array (more v vs) = flatten_value v ++ flatten_resp_array vs
