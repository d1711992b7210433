-- ===== src/ListPack.antt =====
-- internal/datastructure/listpack.go: entries of bytes, each behind its length, in one byte slice,
-- with a slice of the offsets at which they start. What Go does on a fault is an error here:
-- `panics` for a slice or an allocation out of range, `diverges` for a loop with no end.
use simis.Prelude.{
  List, Option, Result, Text, [], bytes, drop, err, get_elem?, if◌then◌else◌, leb, length, ltb, map,
  none, ok, some, suc, take, text_eq, zero, ℕ, ◌%◌, ◌&&◌, ◌*◌, ◌++◌, ◌+◌, ◌-◌, ◌/◌, ◌==◌, ◌^◌, ◌||◌,
  ◌∷◌, ◌>>=◌,
}
use simis.Prelude.Int.{ℤ, pos, negsuc, ◌+ℤ◌, pos_part, ltb_ℤ, leb_ℤ, of_bits, wrap}
pub mod Layout
pub mod Entry
pub mod Update
pub mod Bytes
pub mod Int
mod Tests
use simis.Varint.{put_uvarint, uvarint, little_endian}

pub data LpError : Type 0 where
  empty out_of_range bad_length truncated corrupt_integer panics diverges : LpError

pub record ListPack : Type 0 where
  pub content : Text
  pub offsets : List ℕ

abbrev pub new_list_pack : ListPack
new_list_pack = record { content = []; offsets = [] }

-- `[uvarint(len)][payload]`
unfoldable pub encode_entry : Text → Text
encode_entry payload = put_uvarint (length payload) ++ payload

unfoldable pub number_of_entries : ListPack → ℕ
number_of_entries lp = length lp.offsets

-- `normalizeIndex`
unfoldable pub normalize_index : ℤ → ListPack → Result LpError ℕ
normalize_index index lp =
    let n = length lp.offsets in
    if n == 0
    then err empty
    else let i = if ltb_ℤ index (pos 0) then pos n +ℤ index else index in
      if ltb_ℤ i (pos 0) || leb_ℤ (pos n) i then err out_of_range else ok (pos_part i)

-- `lp.offsets[i]`
unfoldable pub offset_at : ℕ → ListPack → Result LpError ℕ
offset_at i lp = elim (get_elem? lp.offsets i) [ none ↦ err panics | some start ↦ ok start ]

-- The `payloadEnd` tests: `int(length)` and the sum are 64-bit integers, and an allocation of a
-- negative or too large length panics.
unfoldable pub cut_payload : ℕ → ℕ → Text → Result LpError Text
cut_payload start length' content =
    let end = wrap (pos start +ℤ of_bits length') in
    if ltb_ℤ (pos (length content)) end
    then err truncated
    else if ltb length' (2 ^ 63) && leb_ℤ (pos 0) end
    then ok (take length' (drop start content))
    else err panics

unfoldable pub payload_behind : ℕ → Text → Option (ℕ × ℕ) → Result LpError (ℕ × Text)
payload_behind start content none = err bad_length
payload_behind start content (some (length', lbytes)) = do
  payload ← cut_payload (start + lbytes) length' content
  ok (lbytes, payload)

-- The payload of the entry at offset `start`, with the number of bytes of its length.
unfoldable pub read_entry : ℕ → Text → Result LpError (ℕ × Text)
read_entry start content =
    if ltb (length content) start
    then err panics
    else payload_behind start content (uvarint (drop start content))

-- `Get`
unfoldable pub get : ℤ → ListPack → Result LpError Text
get index lp = do
  i ← normalize_index index lp
  start ← offset_at i lp
  (_, payload) ← read_entry start lp.content
  ok payload

unfoldable pub append_bytes : Text → ListPack → ListPack
append_bytes entry lp = record {
  content = lp.content ++ entry;
  offsets = lp.offsets ++ (length lp.content ∷ []);
}

-- `Append`
unfoldable pub append : Text → ListPack → ListPack
append payload lp = append_bytes (encode_entry payload) lp

-- `insertAtBytes`
unfoldable pub insert_at_bytes : ℕ → Text → ListPack → Result LpError ListPack
insert_at_bytes index entry lp =
    if index == length lp.offsets then ok (append_bytes entry lp) else do
      start ← offset_at index lp
      ok (record {
        content = take start lp.content ++ (entry ++ drop start lp.content);
        offsets =
            take index lp.offsets ++ (start ∷ map (λ o. o + length entry) (drop index lp.offsets));
      })

-- The index that `InsertAt` makes of a negative one.
unfoldable pub insert_index : ℤ → ListPack → ℤ
insert_index index lp =
    let i = if ltb_ℤ index (pos 0) then pos (length lp.offsets + 1) +ℤ index else index in
    if ltb_ℤ i (pos 0) then pos 0 else i

unfoldable pub insert_entry_at : ℤ → Text → ListPack → Result LpError ListPack
insert_entry_at index entry lp =
    let i = insert_index index lp in
    if ltb_ℤ (pos (length lp.offsets)) i
    then err out_of_range
    else insert_at_bytes (pos_part i) entry lp

-- `InsertAt`
unfoldable pub insert_at : ℤ → Text → ListPack → Result LpError ListPack
insert_at index payload lp = insert_entry_at index (encode_entry payload) lp

-- `DeleteAt`. The offsets behind an entry are not smaller than its length.
unfoldable pub delete_at : ℤ → ListPack → Result LpError (Text × ListPack)
delete_at index lp = do
  i ← normalize_index index lp
  start ← offset_at i lp
  (lbytes, payload) ← read_entry start lp.content
  let entry_len = lbytes + length payload
  ok (
    payload,
    record {
      content = take start lp.content ++ drop (start + entry_len) lp.content;
      offsets = take i lp.offsets ++ map (λ o. o - entry_len) (drop (suc i) lp.offsets);
    },
  )

-- The loop of `GetAll` over `Iter`: `n` entries from index `i` on.
unfoldable pub get_from : ℕ → ℕ → ListPack → Result LpError (List Text)
get_from zero i lp = ok []
get_from (suc n) i lp = do
  payload ← get (pos i) lp
  rest ← get_from n (i + 1) lp
  ok (payload ∷ rest)

-- `GetAll`
unfoldable pub get_all : ListPack → Result LpError (List Text)
get_all lp = get_from (length lp.offsets) 0 lp

unfoldable pub after_length : ℕ → Text → Option (ℕ × ℕ) → Result LpError ℕ
after_length start content none = err bad_length
after_length start content (some (length', lbytes)) =
    let next = wrap (pos (start + lbytes) +ℤ of_bits length') in
    if ltb_ℤ (pos (length content)) next
    then err truncated
    else if ltb_ℤ next (pos 0)
    then err panics
    else ok (pos_part next)

-- The loop of `rebuildOffsets` from `start` on. A length above 2 ^ 63 is a negative `int`, so the
-- position can go back, and the loop need not end.
unfoldable pub rebuild_from : ℕ → ℕ → Text → Result LpError (List ℕ)
rebuild_from zero start content = err diverges
rebuild_from (suc fuel) start content =
    let more = do
      next ← after_length start content (uvarint (drop start content))
      rest ← rebuild_from fuel next content
      ok (start ∷ rest)
    in if ltb start (length content) then more else ok []

-- `rebuildOffsets`; forward steps pass the last byte within `length content` rounds.
unfoldable pub rebuild_offsets : Text → Result LpError (List ℕ)
rebuild_offsets content = rebuild_from (length content + 1) 0 content

abbrev pub footer_magic : Text
footer_magic = bytes "LPF1"

unfoldable pub last_or_zero : List ℕ → ℕ
last_or_zero [] = 0
last_or_zero (o ∷ []) = o
last_or_zero (o ∷ p ∷ os) = last_or_zero (p ∷ os)

-- `Bytes`
unfoldable pub to_bytes : ListPack → Text
to_bytes lp =
    lp.content
    ++ (footer_magic
        ++ (little_endian 8 (length lp.offsets) ++ little_endian 8 (last_or_zero lp.offsets)))

unfoldable pub with_offsets : Text → Result LpError ListPack
with_offsets content = do
  offsets ← rebuild_offsets content
  ok (record { content = content; offsets = offsets })

-- `FromBytes`. A count in the footer that does not fit only makes it rebuild once more, with the
-- same result.
unfoldable pub from_bytes : Text → Result LpError ListPack
from_bytes b =
    let start = length b - 20 in
    if length b == 0
    then ok new_list_pack
    else if leb 20 (length b) && text_eq (take 4 (drop start b)) footer_magic
    then with_offsets (take start b)
    else with_offsets b

-- `binary.PutVarint` maps signed integers to unsigned ones, 0, -1, 1, -2 ... to 0, 1, 2, 3 ...
unfoldable pub zigzag : ℤ → ℕ
zigzag (pos n) = 2 * n
zigzag (negsuc n) = 2 * n + 1

unfoldable pub unzigzag : ℕ → ℤ
unzigzag u = if u % 2 == 0 then pos (u / 2) else negsuc (u / 2)

-- `encodeIntEntry`: the marker 0x01 and the varint, as a payload
unfoldable pub encode_int_entry : ℤ → Text
encode_int_entry v = encode_entry (0x01 ∷ put_uvarint (zigzag v))

-- `AppendInt`
unfoldable pub append_int : ℤ → ListPack → ListPack
append_int v lp = append_bytes (encode_int_entry v) lp

-- `InsertIntAt`
unfoldable pub insert_int_at : ℤ → ℤ → ListPack → Result LpError ListPack
insert_int_at index v lp = insert_entry_at index (encode_int_entry v) lp

-- `none` for an entry that is not stored as an integer.
unfoldable pub decode_int : Text → Result LpError (Option ℤ)
decode_int [] = ok none
decode_int (m ∷ raw) =
    if m == 0x01
    then elim (uvarint raw) [ none ↦ err corrupt_integer | some (u, n) ↦ ok (some (unzigzag u)) ]
    else ok none

-- `GetInt`
unfoldable pub get_int : ℤ → ListPack → Result LpError (Option ℤ)
get_int index lp = do raw ← get index lp; decode_int raw
