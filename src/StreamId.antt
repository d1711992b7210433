-- ===== src/StreamId.antt =====
-- internal/datastructure/streamid.go: the IDs of stream entries, a time in milliseconds and a
-- sequence number, both uint64.
use simis.Prelude.{
  Bool, List, Option, Result, Text, [], bytes, drop, err, false, if◌then◌else◌, length, ltb, none,
  ok, some, suc, take, text_eq, true, zero, ℕ, ◌%◌, ◌*◌, ◌++◌, ◌+◌, ◌-◌, ◌/◌, ◌<◌, ◌==◌, ◌^◌, ◌∷◌,
  ◌>>=◌,
}
use simis.Prelude.Int.{ℤ, pos, negsuc, leb_ℤ}
pub mod Order
pub mod Next
pub mod Parse
mod Tests
use simis.GoText.{trim_space, split, parse_uint, format_uint}

pub record StreamId : Type 0 where
  pub ms : ℕ
  pub seq : ℕ

pub data IdError : Type 0 where
  invalid_format not_greater_than_top must_be_greater_than_00 : IdError

abbrev pub max_uint64 : ℕ
max_uint64 = 2 ^ 64 - 1

abbrev pub make_id : ℕ → ℕ → StreamId
make_id m s = record { ms = m; seq = s }

-- Both parts fit 64 bits.
abbrev pub IsU64 : StreamId → Type 0
IsU64 id = (id.ms < 2 ^ 64) × (id.seq < 2 ^ 64)

-- `String`, "ms-seq"
unfoldable pub to_string : StreamId → Text
to_string id = format_uint id.ms ++ (b'-' ∷ format_uint id.seq)

-- `Compare`: -1, 0 or 1
unfoldable pub compare_id : StreamId → StreamId → ℤ
compare_id a b =
    if ltb a.ms b.ms
    then negsuc 0
    else if ltb b.ms a.ms
    then pos 1
    else if ltb a.seq b.seq
    then negsuc 0
    else if ltb b.seq a.seq
    then pos 1
    else pos 0

pub record ParsedId : Type 0 where
  pub exact : Bool
  pub partial : Bool
  pub wildcard : Bool
  pub id : StreamId

-- `strconv.ParseUint` with its error made `ErrInvalidFormat`
unfoldable pub uint_part : Text → Result IdError ℕ
uint_part s = elim (parse_uint s) [ none ↦ err invalid_format | some n ↦ ok n ]

unfoldable pub parse_id_parts : List Text → Result IdError ParsedId
parse_id_parts (ms_part ∷ seq_part ∷ []) = do
  m ← uint_part ms_part
  if text_eq seq_part (bytes "*")
      then ok (record { exact = false; partial = true; wildcard = false; id = make_id m 0 })
      else do
        s ← uint_part seq_part
        ok (record { exact = true; partial = false; wildcard = false; id = make_id m s })
parse_id_parts _ = err invalid_format

-- `parseID`
unfoldable pub parse_id : Text → Result IdError ParsedId
parse_id id_str =
    let s = trim_space id_str in
    if text_eq s (bytes "*")
    then ok (record { exact = false; partial = false; wildcard = true; id = make_id 0 0 })
    else parse_id_parts (split b'-' s)

-- `uint64` addition wraps.
unfoldable pub next_seq : ℕ → ℕ
next_seq seq = (seq + 1) % 2 ^ 64

unfoldable pub next_wildcard : ℕ → Option StreamId → StreamId
next_wildcard now none = make_id now 0
next_wildcard now (some last) =
    if ltb last.ms now then make_id now 0 else make_id last.ms (next_seq last.seq)

unfoldable pub next_partial : Option StreamId → ℕ → Result IdError StreamId
next_partial none req = ok (if req == 0 then make_id 0 1 else make_id req 0)
next_partial (some last) req =
    if ltb req last.ms
    then err not_greater_than_top
    else if req == last.ms
    then ok (make_id req (next_seq last.seq))
    else ok (make_id req 0)

abbrev not_after : Option StreamId → StreamId → Bool
not_after none req = false
not_after (some last) req = leb_ℤ (compare_id req last) (pos 0)

unfoldable pub next_exact : Option StreamId → StreamId → Result IdError StreamId
next_exact last req =
    if leb_ℤ (compare_id req (make_id 0 0)) (pos 0)
    then err must_be_greater_than_00
    else if not_after last req
    then err not_greater_than_top
    else ok req

unfoldable pub next_of_parsed : ℕ → Option StreamId → ParsedId → Result IdError StreamId
next_of_parsed now last parsed =
    if parsed.wildcard
    then ok (next_wildcard now last)
    else if parsed.partial
    then next_partial last parsed.id.ms
    else next_exact last parsed.id

-- `GenerateNextID`; `now` is the clock's reading in milliseconds, as a uint64.
unfoldable pub generate_next_id : ℕ → Option StreamId → Text → Result IdError StreamId
generate_next_id now last requested = do parsed ← parse_id requested; next_of_parsed now last parsed

-- The last `k` bytes of `n`, high byte first: `binary.BigEndian.PutUint64` at `k = 8`.
unfoldable pub big_endian : ℕ → ℕ → Text
big_endian zero n = []
big_endian (suc k) n = big_endian k (n / 256) ++ ((n % 256) ∷ [])

-- `binary.BigEndian.Uint64`
unfoldable pub from_big_endian : ℕ → Text → ℕ
from_big_endian acc [] = acc
from_big_endian acc (b ∷ s) = from_big_endian (acc * 256 + b) s

-- `EncodeToBytes`
unfoldable pub encode_to_bytes : StreamId → Text
encode_to_bytes id = big_endian 8 id.ms ++ big_endian 8 id.seq

-- `DecodeFromBytes`; the error is that of a length which is not 16.
unfoldable pub decode_from_bytes : Text → Option StreamId
decode_from_bytes b =
    if length b == 16
    then some (make_id (from_big_endian 0 (take 8 b)) (from_big_endian 0 (drop 8 b)))
    else none

-- The parsers of range bounds: an ID whose sequence number may be left out.
unfoldable pub parse_bound : ℕ → List Text → Result IdError StreamId
parse_bound default_seq (ms_part ∷ []) = do m ← uint_part ms_part; ok (make_id m default_seq)
parse_bound default_seq (ms_part ∷ seq_part ∷ []) = do
  m ← uint_part ms_part
  s ← uint_part seq_part
  ok (make_id m s)
parse_bound default_seq _ = err invalid_format

unfoldable pub id_or_zero : Option StreamId → StreamId
id_or_zero none = make_id 0 0
id_or_zero (some id) = id

-- `ParseStartStreamID`
unfoldable pub parse_start_stream_id : Text → Option StreamId → Result IdError StreamId
unfolding id_or_zero
parse_start_stream_id text last =
    let s = trim_space text in
    if text_eq s []
    then err invalid_format
    else if text_eq s (bytes "$")
    then ok (id_or_zero last)
    else if text_eq s (bytes "-")
    then ok (make_id 0 0)
    else parse_bound 0 (split b'-' s)

-- `ParseEndStreamID`
unfoldable pub parse_end_stream_id : Text → Result IdError StreamId
parse_end_stream_id text =
    let s = trim_space text in
    if text_eq s []
    then err invalid_format
    else if text_eq s (bytes "+")
    then ok (make_id max_uint64 max_uint64)
    else parse_bound max_uint64 (split b'-' s)

unfoldable pub parse_both : List Text → Result IdError StreamId
parse_both (ms_part ∷ seq_part ∷ []) = do
  m ← uint_part ms_part
  s ← uint_part seq_part
  ok (make_id m s)
parse_both _ = err invalid_format

-- `ParseStreamID`
unfoldable pub parse_stream_id : Text → Result IdError StreamId
parse_stream_id text = parse_both (split b'-' (trim_space text))
