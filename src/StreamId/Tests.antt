-- ===== src/StreamId/Tests.antt =====
-- Runs of the ID functions, and their theorems at concrete values.
use simis.Prelude.{arith, bytes, err, none, ok, refl, some, text_eq, ◌≡◌}
use simis.Prelude.Int.{pos, negsuc}
use simis.GoText.{trim_space, split, parse_uint}
use simis.StreamId.{
  make_id, max_uint64, compare_id, uint_part, parse_id_parts, parse_id, next_seq, next_wildcard,
  next_partial, next_exact, next_of_parsed, generate_next_id, encode_to_bytes, not_greater_than_top,
  must_be_greater_than_00, invalid_format,
}
use simis.StreamId.Order.{compare_bytes, compare_bytes-encode_to_bytes}
use simis.StreamId.Next.{generate_next_id_grows, generate_next_id_wraps}

next_runs :
    (generate_next_id 7 none (bytes "*") ≡ ok (make_id 7 0))
    × (generate_next_id 7 (some (make_id 9 4)) (bytes "*") ≡ ok (make_id 9 5))
    × (generate_next_id 7 (some (make_id 9 4)) (bytes "12-*") ≡ ok (make_id 12 0))
    × (generate_next_id 7 (some (make_id 9 4)) (bytes "9-4") ≡ err not_greater_than_top)
    × (generate_next_id 7 none (bytes "0-0") ≡ err must_be_greater_than_00)
    × (generate_next_id 7 none (bytes "x") ≡ err invalid_format)
unfolding generate_next_id parse_id parse_id_parts trim_space split text_eq uint_part parse_uint
    next_of_parsed next_wildcard next_partial next_exact next_seq compare_id
next_runs = (refl, refl, refl, refl, refl, refl)

generate_next_id_grows_example : compare_id (make_id 9 5) (make_id 9 4) ≡ pos 1
unfolding generate_next_id parse_id parse_id_parts trim_space split text_eq uint_part parse_uint
    next_of_parsed next_wildcard next_seq
generate_next_id_grows_example =
    generate_next_id_grows 7 (make_id 9 4) (make_id 9 5) (bytes "*") (omega arith) refl

generate_next_id_wraps_example :
    (generate_next_id 7 (some (make_id 9 max_uint64)) (bytes "*") ≡ ok (make_id 9 0))
    × (compare_id (make_id 9 0) (make_id 9 max_uint64) ≡ negsuc 0)
generate_next_id_wraps_example = generate_next_id_wraps 7 (make_id 9 max_uint64) refl (omega arith)

compare_bytes-encode_to_bytes_example :
    compare_bytes (encode_to_bytes (make_id 255 1)) (encode_to_bytes (make_id 256 0))
    ≡ compare_id (make_id 255 1) (make_id 256 0)
compare_bytes-encode_to_bytes_example =
    compare_bytes-encode_to_bytes (make_id 255 1) (make_id 256 0) (omega arith) (omega arith)
