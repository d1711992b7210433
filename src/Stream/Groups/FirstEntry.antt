-- ===== src/Stream/Groups/FirstEntry.antt =====
-- The scan of ClaimEntries for the entry of one ID, in internal/datastructure/stream.go.
use simis.Prelude.{
  Bool-cases, List, Result, Text, [], ap, arith, drop, drop_all, err, false, if◌then◌else◌, inl,
  inr, length, ltb, ltb→lt, lt→ltb, ok, refl, suc, take, true, ℕ, ◌+◌, ◌-◌, ◌<◌, ◌∙◌, ◌∷◌, ◌≡◌,
}
use simis.StreamId.{StreamId, IsU64, IdError, parse_stream_id}
use simis.StreamId.Parse.{FitsU64, parse_stream_id-FitsU64}
use simis.Stream.Index.{Radix}
use simis.Stream.Codec.{Entry}
use simis.Stream.{Stream, range_scan, is_max_id}
use simis.Stream.Append.{Holds}
use simis.Stream.Scan.{position}
use simis.Stream.Range.{range_scan_lem, answer, end_position}
use simis.Stream.Groups.{first_entry, id_or_default}

id_or_default-IsU64 : (r : Result IdError StreamId) → FitsU64 r → IsU64 (id_or_default r)
unfolding id_or_default
id_or_default-IsU64 (ok id) h = h
id_or_default-IsU64 (err e) h = (omega arith, omega arith)

-- The entry that an ID leads to: the first that is not below it, if there is one.
abbrev pub entry_at : Text → List Entry → List Entry
entry_at id es = take 1 (drop (position (id_or_default (parse_stream_id id)) es) es)

first_entry_taken : (n : ℕ) (es : List Entry) → first_entry (ok (take (suc n) es)) ≡ ok (take 1 es)
unfolding first_entry
first_entry_taken n [] = refl
first_entry_taken n (e ∷ es) = refl

first_entry_answer :
    (id : StreamId) (es : List Entry)
    → position id es < length es
    → first_entry (answer (position id es) (end_position id es) es)
      ≡ ok (take 1 (drop (position id es) es))
first_entry_answer id es h =
    let p = position id es in
    let inside : ltb p (length es) ≡ true = lt→ltb _ _ h in
    elim (Bool-cases (is_max_id id)) [
      | inl m ↦
          let near : ltb (length es - 1 + 1) p ≡ false = ground arith in
          let some_left : length es - 1 + 1 - p ≡ suc (length es - 1 - p) = omega arith in
          rw (m, near, some_left) (first_entry_taken _ (drop p es))
      | inr m ↦
          let near : ltb (p + 1) p ≡ false = ground arith in
          let one : p + 1 - p ≡ suc 0 = omega arith in
          rw (m, inside, near, one) (first_entry_taken 0 (drop p es))
    ]

first_entry_scanned :
    {R : Radix} {s : Stream R} {es : List Entry} (id : StreamId)
    → Holds s es
    → IsU64 id
    → first_entry (range_scan id id s) ≡ ok (take 1 (drop (position id es) es))
first_entry_scanned {s = s} {es = es} id h u =
    let p = position id es in
    let full = range_scan_lem id id h u u in
    elim (Bool-cases (ltb p (length es))) [
      | inl inside ↦
          let within : (if ltb p (length es) then answer p (end_position id es) es else ok [])
              ≡ answer p (end_position id es) es =
            rw inside refl in
          ap first_entry (full ∙ within) ∙ first_entry_answer id es (ltb→lt _ _ inside)
      | inr outside ↦ rw (full, outside, drop_all es p (ground arith)) (unfold first_entry in refl)
    ]

pub scanned :
    {R : Radix} {s : Stream R} {es : List Entry} (id : Text)
    → Holds s es
    → let sid = id_or_default (parse_stream_id id) in
      first_entry (range_scan sid sid s) ≡ ok (entry_at id es)
scanned id h =
    first_entry_scanned _ h (id_or_default-IsU64 (parse_stream_id id) (parse_stream_id-FitsU64 id))
