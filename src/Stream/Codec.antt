-- ===== src/Stream/Codec.antt =====
-- EncodeEntry and DecodeEntry of internal/datastructure/stream.go: an entry as bytes. `panics` is
-- Go's fault at a slice out of range.
use simis.Prelude.{
  Assoc, Option, Result, Text, [], drop, err, if◌then◌else◌, insert, length, ltb, none, ok, some,
  suc, take, zero, ℕ, ◌++◌, ◌+◌, ◌∷◌, ◌>>=◌,
}
use simis.Prelude.Int.{pos, ◌+ℤ◌, ltb_ℤ, of_bits, wrap}
pub mod RoundTrip
use simis.StreamId.{StreamId, encode_to_bytes, decode_from_bytes}
use simis.Varint.{put_uvarint, uvarint}

pub record Entry : Type 0 where
  pub id : StreamId
  pub fields : Assoc Text

pub data DecodeError : Type 0 where
  too_short bad_field_count bad_length truncated panics : DecodeError

-- `appendVarString(dst, s)`
unfoldable pub append_var_string : Text → Text → Text
append_var_string dst s = (dst ++ put_uvarint (length s)) ++ s

-- The loop over the fields; the order of Go's map is that of the list.
unfoldable pub append_fields : Text → Assoc Text → Text
append_fields buf [] = buf
append_fields buf ((k, v) ∷ fields) =
    append_fields (append_var_string (append_var_string buf k) v) fields

-- `EncodeEntry`
unfoldable pub encode_entry : Entry → Text
encode_entry e = append_fields (encode_to_bytes e.id ++ put_uvarint (length e.fields)) e.fields

unfoldable pub string_behind : Text → ℕ → Option (ℕ × ℕ) → Result DecodeError (Text × ℕ)
string_behind b start none = err bad_length
string_behind b start (some (length', n)) =
    let end = wrap (pos (start + n) +ℤ of_bits length') in
    if ltb_ℤ (pos (length b)) end
    then err truncated
    else if ltb_ℤ end (pos (start + n))
    then err panics
    else ok (take length' (drop (start + n) b), n + length')

-- `readVarString(b, pos)`: the string, and the bytes that it took
unfoldable pub read_var_string : Text → ℕ → Result DecodeError (Text × ℕ)
read_var_string b start = string_behind b start (uvarint (drop start b))

-- The loop over `count` fields from `start` on.
unfoldable pub read_fields : Text → ℕ → ℕ → Assoc Text → Result DecodeError (Assoc Text)
read_fields b zero start fields = ok fields
read_fields b (suc count) start fields = do
  (k, nk) ← read_var_string b start
  (v, nv) ← read_var_string b (start + nk)
  read_fields b count (start + nk + nv) (insert k v fields)

decode_id : Option StreamId → Result DecodeError StreamId
decode_id none = err too_short
decode_id (some id) = ok id

decode_count : Option (ℕ × ℕ) → Result DecodeError (ℕ × ℕ)
decode_count none = err bad_field_count
decode_count (some r) = ok r

-- `DecodeEntry`
unfoldable pub decode_entry : Text → Result DecodeError Entry
unfolding decode_id decode_count
decode_entry b = if ltb (length b) 16 then err too_short else do
  id ← decode_id (decode_from_bytes (take 16 b))
  (count, n) ← decode_count (uvarint (drop 16 b))
  fields ← read_fields b count (16 + n) []
  ok (record { id = id; fields = fields })
