-- ===== src/ListPack/Tests.antt =====
-- The theorems on list packs at concrete values.
use simis.Prelude.{List, Text, [], arith, bytes, get_elem?, ok, refl, some, ◌∷◌, ◌≡◌}
use simis.Prelude.Int.{pos, negsuc}
use simis.Varint.{groups}
use simis.ListPack.{
  ListPack, new_list_pack, encode_entry, append_bytes, append, insert_at, delete_at, get, to_bytes,
  from_bytes,
}
use simis.ListPack.Layout.{body, layout, Represents}
use simis.ListPack.Entry.{get-Represents}
use simis.ListPack.Update.{insert_at-Represents, delete_at-Represents}
use simis.ListPack.Bytes.{from_bytes-to_bytes}

abbrev two : ListPack
two = append (bytes "bcd") (append (bytes "a") new_list_pack)

abbrev two_items : List Text
two_items = bytes "a" ∷ bytes "bcd" ∷ []

two-Represents : Represents two two_items
unfolding append append_bytes encode_entry body layout groups
two-Represents = record { content = refl; offsets = refl; small = omega arith }

insert_at-Represents_example :
    (lp' : ListPack) × (insert_at (pos 1) (bytes "e") two ≡ ok lp')
    × Represents lp' (bytes "a" ∷ bytes "e" ∷ bytes "bcd" ∷ [])
unfolding append append_bytes encode_entry groups
insert_at-Represents_example =
    insert_at-Represents (pos 1) (bytes "e") two-Represents (omega arith) (omega arith)

delete_at-Represents_example :
    (p : Text) × (lp' : ListPack) × (delete_at (negsuc 1) two ≡ ok (p, lp'))
    × (get_elem? two_items 0 ≡ some p)
    × Represents lp' (bytes "bcd" ∷ [])
delete_at-Represents_example = delete_at-Represents (negsuc 1) 0 two-Represents refl

get-Represents_example : get (negsuc 0) two ≡ ok (bytes "bcd")
get-Represents_example = get-Represents (negsuc 0) two-Represents

from_bytes-to_bytes_example : from_bytes (to_bytes two) ≡ ok two
from_bytes-to_bytes_example = from_bytes-to_bytes two-Represents
