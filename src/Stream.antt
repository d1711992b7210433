-- ===== src/Stream.antt =====
-- internal/datastructure/stream.go: the entries of a stream, its index and the scan of a range. The
-- lines that print to the standard output are left out.
use simis.Prelude.{
  Assoc, Bool, List, Option, Result, Text, [], err, if◌then◌else◌, insert, length, ltb, none, ok,
  some, suc, true, zero, ℕ, ◌&&◌, ◌+◌, ◌-◌, ◌==◌, ◌∷◌, ◌>>=◌,
}
use simis.Prelude.Int.{ℤ, pos, ltb_ℤ}
pub mod Index
pub mod ListIndex
pub mod InRange
pub mod Codec
pub mod Scan
pub mod Append
pub mod Range
pub mod Groups
mod Tests
use simis.StreamId.{
  StreamId, IdError, not_greater_than_top, max_uint64, compare_id, generate_next_id,
  encode_to_bytes,
}
use simis.ListPack.{ListPack, LpError, new_list_pack, append, get}
use simis.Stream.Index.{Radix}
use simis.Stream.Codec.{Entry, DecodeError, encode_entry, decode_entry}

pub data StreamError : Type 0 where
  bad_id : IdError → StreamError
  bad_list_pack : LpError → StreamError
  bad_entry : DecodeError → StreamError
  end_not_found busy_group no_group panics : StreamError

pub record PendingEntry : Type 0 where
  pub id : StreamId
  pub consumer : Text
  pub delivered_time : ℤ
  pub delivery_count : ℕ

pub record Consumer : Type 0 where
  pub name : Text
  pub last_seen_time : ℤ
  pub pending_entries_num : ℤ

pub record ConsumerGroup : Type 0 where
  pub name : Text
  pub last_delivered_id : StreamId
  pub consumers : Assoc Consumer
  pub pending_entries : Assoc PendingEntry

pub record Stream (R : Radix) : Type 0 where
  pub index : R.Tree
  pub entries : ListPack
  pub last_stream_id : Option StreamId
  pub consumer_groups : Assoc ConsumerGroup

-- `NewStream`
abbrev pub new_stream : (R : Radix) → Stream R
new_stream R = record {
  index = R.new;
  entries = new_list_pack;
  last_stream_id = none;
  consumer_groups = [];
}

-- The loop over `values` by twos; `values[i+1]` panics behind an odd last value.
unfoldable pub make_fields : Assoc Text → List Text → Result StreamError (Assoc Text)
make_fields fields [] = ok fields
make_fields fields (k ∷ []) = err panics
make_fields fields (k ∷ v ∷ values) = make_fields (insert k v fields) values

lift_id {ℓ} : {A : Type ℓ} → Result IdError A → Result StreamError A
lift_id (ok a) = ok a
lift_id (err e) = err (bad_id e)

lift_lp {ℓ} : {A : Type ℓ} → Result LpError A → Result StreamError A
lift_lp (ok a) = ok a
lift_lp (err e) = err (bad_list_pack e)

lift_entry {ℓ} : {A : Type ℓ} → Result DecodeError A → Result StreamError A
lift_entry (ok a) = ok a
lift_entry (err e) = err (bad_entry e)

-- A bound of no entry is below every ID.
unfoldable pub is_after : StreamId → Option StreamId → Bool
is_after id none = true
is_after id (some last) = ltb_ℤ (pos 0) (compare_id id last)

-- The loop of RangeScan over `count` entries from place `i` on.
unfoldable pub collect : ℕ → ℕ → ListPack → Result StreamError (List Entry)
unfolding lift_lp lift_entry
collect zero i lp = ok []
collect (suc count) i lp = do
  entry_bytes ← lift_lp (get (pos i) lp)
  entry ← lift_entry (decode_entry entry_bytes)
  rest ← collect count (i + 1) lp
  ok (entry ∷ rest)

-- The allocation for `end - start + 1` entries panics at a negative size.
unfoldable pub scan_between : ℕ → ℕ → ListPack → Result StreamError (List Entry)
scan_between start end lp =
    if ltb (end + 1) start then err panics else collect (end + 1 - start) start lp

abbrev pub is_max_id : StreamId → Bool
is_max_id id = (id.ms == max_uint64) && (id.seq == max_uint64)

module _ {R : Radix} where
  -- `CreateEntry`; `now` is the clock's reading.
  unfoldable pub create_entry : ℕ → Text → List Text → Stream R → Result StreamError Entry
  unfolding lift_id
  create_entry now id values s = do
    entry_id ← lift_id (generate_next_id now s.last_stream_id id)
    fields ← make_fields [] values
    ok (record { id = entry_id; fields = fields })

  unfoldable pub appended : Entry → Stream R → Stream R
  appended e s =
      let lp = append (encode_entry e) s.entries in
      record s {
        entries = lp;
        last_stream_id = some e.id;
        index = R.insert_key (encode_to_bytes e.id) (length lp.offsets - 1) s.index;
      }

  -- `AppendEntry`
  unfoldable pub append_entry : Entry → Stream R → Result StreamError (Stream R)
  append_entry e s =
      if is_after e.id s.last_stream_id
      then ok (appended e s)
      else err (bad_id not_greater_than_top)

  -- The first place at or behind an ID, by the index.
  unfoldable pub seek_place : StreamId → Stream R → Option ℕ
  seek_place id s = elim (R.seek (encode_to_bytes id) s.index) [
    | none ↦ none
    | some (k, i) ↦ some i
  ]

  -- The place of the end bound; for the largest ID that of the last entry.
  unfoldable pub end_place : StreamId → StreamId → Stream R → Result StreamError ℕ
  end_place end last s =
      if is_max_id end
      then (elim (seek_place last s) [ none ↦ ok (length s.entries.offsets - 1) | some i ↦ ok i ])
      else (elim (seek_place end s) [ none ↦ err end_not_found | some i ↦ ok i ])

  unfoldable pub scan_from :
      Option ℕ → StreamId → StreamId → Stream R → Result StreamError (List Entry)
  scan_from none end last s = ok []
  scan_from (some start_place) end last s = do
    stop ← end_place end last s
    scan_between start_place stop s.entries

  unfoldable pub scan_behind :
      Option StreamId → StreamId → StreamId → Stream R → Result StreamError (List Entry)
  scan_behind none start end s = ok []
  scan_behind (some last) start end s = scan_from (seek_place start s) end last s

  -- `RangeScan`
  unfoldable pub range_scan : StreamId → StreamId → Stream R → Result StreamError (List Entry)
  range_scan start end s = scan_behind s.last_stream_id start end s
