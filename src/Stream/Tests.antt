-- ===== src/Stream/Tests.antt =====
-- The theorems on streams at concrete values, over the index of `ListIndex`.
use simis.Prelude.{
  List, Text, [], arith, bytes, false, get_elem?, if◌then◌else◌, injective_some, insert, length,
  length-append, lookup, none, ok, refl, some, suc, text_eq, true, zero, ℕ, ◌++◌, ◌+◌, ◌<◌, ◌∷◌,
  ◌≡◌,
}
use simis.Prelude.Int.{pos}
use simis.GoText.{split, trim_space, parse_uint}
use simis.Varint.{groups}
use mathlib.Core.Option
use simis.StreamId.{
  next_seq, parse_stream_id, parse_both, uint_part, to_string, make_id, compare_id, big_endian,
  encode_to_bytes,
}
use simis.ListPack.{ListPack, append, append_bytes}
use simis.ListPack
use simis.Stream.ListIndex.{list_index}
use simis.Stream.Codec.{Entry, append_var_string, append_fields, encode_entry, decode_entry}
use simis.Stream.Codec.RoundTrip.{decode_entry-encode_entry}
use simis.Stream.{Stream, new_stream, is_after, appended, append_entry, range_scan}
use simis.Stream.Append.{Holds, IsStorable, Holds-new_stream, appended-Holds, append_entry-Holds}
use simis.Stream.Scan.{position}
use simis.Stream.Range.{range_scan_lem}
use simis.Stream.{PendingEntry, Consumer, ConsumerGroup}
use simis.Stream.Groups.{
  next_after, limited, read_group_new_entries, ack_entries, delete_consumer, get_pending_entries,
  claim_entries, pending_of, set_group, id_or_default,
}
use simis.Stream.Groups.Read.{HasNext, IsPendingFor, Holds-set_group, read_group_new_entries_lem}
use simis.Stream.Groups.Pending.{is_named, released, ack_entries_lem, delete_consumer_lem}
use simis.Stream.Groups.Counts.{IsCounted}
use simis.Stream.Groups.Claiming.{claim_if_idle, claimed_entries}
use simis.Stream.Groups.Claim.{claim_entries_lem}
use simis.Stream.InRange.{range_scan-in_range}

abbrev entry : ℕ → Entry
entry n = record { id = make_id n 0; fields = (bytes "k", bytes "v") ∷ [] }

decode_entry-encode_entry_example : decode_entry (encode_entry (entry 300)) ≡ ok (entry 300)
unfolding encode_entry append_fields append_var_string encode_to_bytes big_endian groups lookup
decode_entry-encode_entry_example =
    decode_entry-encode_entry (entry 300) (omega arith) (refl, tt) (omega arith)

entry-IsStorable : (n : ℕ) → n < 256 → IsStorable (entry n)
unfolding encode_entry append_fields append_var_string encode_to_bytes big_endian groups lookup
entry-IsStorable n h = record { u64 = omega arith; fresh = (refl, tt); small = omega arith }

length-entry : (n : ℕ) → length (ListPack.encode_entry (encode_entry (entry n))) ≡ 22
unfolding ListPack.encode_entry encode_entry append_fields append_var_string encode_to_bytes
    big_endian groups
length-entry n = refl

abbrev empty : Stream list_index
empty = new_stream list_index

append_entry-Holds_example :
    (s' : Stream list_index) × (append_entry (entry 1) empty ≡ ok s') × Holds s' (entry 1 ∷ [])
unfolding is_after
append_entry-Holds_example =
    append_entry-Holds (Holds-new_stream list_index) (entry 1) (entry-IsStorable 1 (omega arith))
      refl (omega (arith, length-entry 1))

length-grown :
    (n : ℕ) (s : Stream list_index)
    → length (appended (entry n) s).entries.content ≡ length s.entries.content + 22
unfolding appended ListPack.append ListPack.append_bytes
length-grown n s = omega (
  arith,
  length-append s.entries.content (ListPack.encode_entry (encode_entry (entry n))),
  length-entry n,
)

grow :
    (n : ℕ) {s : Stream list_index} {es : List Entry}
    → n < 256
    → length s.entries.content < 1000
    → is_after (make_id n 0) s.last_stream_id ≡ true
    → Holds s es
    → Holds (appended (entry n) s) (es ++ (entry n ∷ []))
grow n small few after h =
    appended-Holds h (entry n) (entry-IsStorable n small) after (omega (arith, length-entry n))

-- The entries 1-0, 5-0, 10-0 and 20-0.
abbrev full : Stream list_index
full = appended (entry 20) (appended (entry 10) (appended (entry 5) (appended (entry 1) empty)))

abbrev full_entries : List Entry
full_entries = entry 1 ∷ entry 5 ∷ entry 10 ∷ entry 20 ∷ []

last_after :
    (n m : ℕ) (s : Stream list_index)
    → n < m
    → is_after (make_id m 0) (appended (entry n) s).last_stream_id ≡ true
unfolding appended is_after compare_id
last_after n m s h = ground arith

full-Holds : Holds full full_entries
full-Holds = grow 20 (omega arith) (omega (arith, c1, c2, c3)) (last_after 10 20 _ (omega arith)) (
    grow 10 (omega arith) (omega (arith, c1, c2)) (last_after 5 10 _ (omega arith)) (
      grow 5 (omega arith) (omega (arith, c1)) (last_after 1 5 _ (omega arith)) (
        grow 1 (omega arith) (omega arith) (unfold is_after in refl)
          (Holds-new_stream list_index))))
  where
    c1 : length (appended (entry 1) empty).entries.content ≡ 22
    c1 = length-grown 1 empty

    c2 : length (appended (entry 5) (appended (entry 1) empty)).entries.content ≡ 44
    c2 = omega (arith, length-grown 5 (appended (entry 1) empty), c1)

    c3 :
        length (appended (entry 10) (appended (entry 5) (appended (entry 1) empty))).entries.content
        ≡ 66
    c3 = omega (arith, length-grown 10 (appended (entry 5) (appended (entry 1) empty)), c2)

range_scan_lem_example : range_scan (make_id 2 0) (make_id 10 0) full ≡ ok (entry 5 ∷ entry 10 ∷ [])
unfolding position compare_id
range_scan_lem_example =
    range_scan_lem (make_id 2 0) (make_id 10 0) full-Holds (omega arith) (omega arith)

range_scan-in_range_example :
    range_scan (make_id 2 0) (make_id 7 0) full ≡ ok (entry 5 ∷ entry 10 ∷ [])
unfolding position compare_id
range_scan-in_range_example =
    range_scan-in_range (make_id 2 0) (make_id 7 0) (entry 10) full-Holds (omega arith)
      (omega arith) refl refl (omega arith)

full-HasNext : (i : ℕ) (e : Entry) → get_elem? full_entries i ≡ some e → HasNext e.id
full-HasNext zero e at = rw (← injective_some at) (omega arith)
full-HasNext (suc zero) e at = rw (← injective_some at) (omega arith)
full-HasNext (suc (suc zero)) e at = rw (← injective_some at) (omega arith)
full-HasNext (suc (suc (suc zero))) e at = rw (← injective_some at) (omega arith)
full-HasNext (suc (suc (suc (suc i)))) e at = cc

-- Two entries are pending, for two consumers.
abbrev waiting : ℕ → Text → PendingEntry
waiting n consumer = record {
  id = make_id n 0;
  consumer = consumer;
  delivered_time = pos 7;
  delivery_count = 1;
}

abbrev worker : Text → Consumer
worker name = record { name = name; last_seen_time = pos 7; pending_entries_num = pos 1 }

abbrev workers : ConsumerGroup
workers = record {
  name = bytes "g";
  last_delivered_id = make_id 5 0;
  consumers = (bytes "a", worker (bytes "a")) ∷ (bytes "b", worker (bytes "b")) ∷ [];
  pending_entries =
      (bytes "1-0", waiting 1 (bytes "a")) ∷ (bytes "5-0", waiting 5 (bytes "b")) ∷ [];
}

abbrev grouped : Stream list_index
grouped = set_group (bytes "g") workers full

grouped-Holds : Holds grouped full_entries
grouped-Holds = Holds-set_group (bytes "g") workers full-Holds

grouped_group : lookup (bytes "g") grouped.consumer_groups ≡ some workers
unfolding insert lookup text_eq appended
grouped_group = refl

read_group_new_entries_lem_example :
    (s' : Stream list_index) × (g' : ConsumerGroup) × (read_group_new_entries
        (bytes "g")
        (bytes "a")
        (pos 1)
        (pos 8)
        (pos 9)
        grouped
      ≡ (ok (entry 10 ∷ []), s'))
    × Holds s' full_entries
    × (lookup (bytes "g") s'.consumer_groups ≡ some g')
    × HasNext g'.last_delivered_id
    × (position (next_after g'.last_delivered_id) full_entries ≡ 3)
    × ((i : ℕ) (e : Entry)
        → get_elem? (entry 10 ∷ []) i ≡ some e
        → IsPendingFor (bytes "a") (pos 9) (to_string e.id) g')
unfolding limited
read_group_new_entries_lem_example =
    read_group_new_entries_lem grouped-Holds full-HasNext (bytes "g") (bytes "a") (pos 1) (pos 8)
      (pos 9) 2 workers grouped_group (omega arith)
      (unfold position next_after next_seq compare_id in refl)

ack_entries_lem_example :
    (n : ℕ) × (s' : Stream list_index) × (g' : ConsumerGroup) × (s'' : Stream list_index)
    × (ack_entries (bytes "g") (bytes "5-0" ∷ []) grouped ≡ ok (n, s'))
    × (lookup (bytes "g") s'.consumer_groups ≡ some g')
    × ((j : Text)
        → lookup j g'.pending_entries
          ≡ (if is_named j (bytes "5-0" ∷ []) then none else lookup j workers.pending_entries))
    × ((j : Text)
        → text_eq (bytes "g") j ≡ false
        → lookup j s'.consumer_groups ≡ lookup j grouped.consumer_groups)
    × (ack_entries (bytes "g") (bytes "5-0" ∷ []) s' ≡ ok (0, s''))
ack_entries_lem_example =
    ack_entries_lem (bytes "g") (bytes "5-0" ∷ []) grouped workers grouped_group

delete_consumer_lem_example :
    (n : ℕ) × (s' : Stream list_index) × (g' : ConsumerGroup) × (ps : List PendingEntry)
    × (delete_consumer (bytes "g") (bytes "b") grouped ≡ ok (n, s'))
    × (get_pending_entries (bytes "g") (bytes "b") grouped ≡ ok ps)
    × (length ps ≡ n)
    × (get_pending_entries (bytes "g") (bytes "b") s' ≡ ok [])
    × (lookup (bytes "g") s'.consumer_groups ≡ some g')
    × (lookup (bytes "b") g'.consumers ≡ none)
    × ((j : Text)
        → lookup j g'.pending_entries
          ≡ Option.map (released (bytes "b")) (lookup j workers.pending_entries))
delete_consumer_lem_example =
    delete_consumer_lem (bytes "g") (bytes "b") grouped workers (worker (bytes "b"))
      (unfold text_eq in refl) grouped_group (unfold lookup text_eq in refl)

workers-IsCounted : IsCounted workers
unfolding lookup pending_of text_eq
workers-IsCounted n named = ground arith

claim_entries_lem_example :
    (s' : Stream list_index) × (g' : ConsumerGroup) × (s'' : Stream list_index) × (claim_entries
        (bytes "g")
        (bytes "a")
        (pos 10)
        (bytes "5-0" ∷ [])
        (pos 20)
        (pos 20)
        grouped
      ≡ ok (
        claimed_entries
            (bytes "a")
            (pos 20)
            (pos 10)
            full_entries
            workers.pending_entries
            []
            (bytes "5-0" ∷ []),
        s',
      ))
    × (lookup (bytes "g") s'.consumer_groups ≡ some g')
    × ((j : Text)
        → lookup j g'.pending_entries ≡ (
            if is_named j (bytes "5-0" ∷ [])
            then Option.map
                (claim_if_idle (bytes "a") (pos 20) (pos 10))
                (lookup j workers.pending_entries)
            else lookup j workers.pending_entries))
    × IsCounted g'
    × ((j : Text)
        → text_eq (bytes "g") j ≡ false
        → lookup j s'.consumer_groups ≡ lookup j grouped.consumer_groups)
    × Holds s' full_entries
    × (claim_entries (bytes "g") (bytes "a") (pos 10) (bytes "5-0" ∷ []) (pos 21) (pos 20) s'
        ≡ ok ([], s''))
claim_entries_lem_example =
    claim_entries_lem (bytes "g") (bytes "a") (pos 10) (pos 20) (pos 21) (pos 20) (bytes "5-0" ∷ [])
      workers grouped-Holds grouped_group workers-IsCounted refl

-- The entry 5-0 is the one that is claimed.
claimed_entries_five :
    claimed_entries
      (bytes "a")
      (pos 20)
      (pos 10)
      full_entries
      workers.pending_entries
      []
      (bytes "5-0" ∷ [])
    ≡ entry 5 ∷ []
unfolding lookup text_eq position compare_id id_or_default parse_stream_id parse_both split
    trim_space uint_part parse_uint
claimed_entries_five = refl
