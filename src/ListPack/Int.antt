-- ===== src/ListPack/Int.antt =====
-- Entries that hold an integer.
use simis.Prelude.{
  List, Text, [], append-nil, arith, get_elem?-append, length, ok, refl, some, ◌+◌, ◌<◌, ◌^◌, ◌∷◌,
  ◌≡◌,
}
use simis.Prelude.Int.{ℤ, pos, negsuc, IsInt}
use simis.Varint.{put_uvarint, uvarint, uvarint-put_uvarint}
use simis.ListPack.{
  ListPack, encode_int_entry, append, append_int, zigzag, unzigzag, decode_int, get_int,
}
use simis.ListPack.Layout.{Represents}
use simis.ListPack.Entry.{get_at_place}
use simis.ListPack.Update.{append-Represents}

unzigzag-zigzag : (v : ℤ) → unzigzag (zigzag v) ≡ v
unfolding zigzag unzigzag
unzigzag-zigzag (pos n) = ground arith
unzigzag-zigzag (negsuc n) = ground arith

zigzag-lt : (v : ℤ) → IsInt v → zigzag v < 2 ^ 64
unfolding zigzag
zigzag-lt (pos n) h = omega arith
zigzag-lt (negsuc n) h = omega arith

abbrev int_payload : ℤ → Text
int_payload v = 0x01 ∷ put_uvarint (zigzag v)

decode_int-int_payload : (v : ℤ) → IsInt v → decode_int (int_payload v) ≡ ok (some v)
unfolding decode_int
decode_int-int_payload v h =
    let e : uvarint (put_uvarint (zigzag v)) ≡ some (zigzag v, length (put_uvarint (zigzag v))) =
      rw append-nil at (uvarint-put_uvarint (zigzag v) [] (zigzag-lt v h)) in
    rw (e, unzigzag-zigzag v)

append_int_lem : (v : ℤ) (lp : ListPack) → append_int v lp ≡ append (int_payload v) lp
unfolding append_int append encode_int_entry
append_int_lem v lp = refl

-- GetInt reads at the end of the list pack the integer that AppendInt put there, for every value of
-- an int64, as long as the bytes still fit an `int`.
pub get_int-append_int :
    {lp : ListPack} {ps : List Text} (v : ℤ)
    → Represents lp ps
    → IsInt v
    → length lp.content + length (encode_int_entry v) < 2 ^ 63
    → get_int (pos (length ps)) (append_int v lp) ≡ ok (some v)
unfolding get_int encode_int_entry
get_int-append_int {lp} {ps} v r h small =
    rw
      (
        append_int_lem v lp,
        get_at_place (length ps) (int_payload v) (append-Represents (int_payload v) r small)
            (get_elem?-append ps [] (int_payload v) (length ps) refl),
      )
      (decode_int-int_payload v h)
