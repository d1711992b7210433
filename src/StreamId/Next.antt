-- ===== src/StreamId/Next.antt =====
-- GenerateNextID: the IDs that XADD gives out.
use simis.Prelude.{
  Result, Text, arith, bytes, err, false, ok, some, text_eq, true, ℕ, ◌<◌, ◌>>=◌, ◌↔◌, ◌≡◌, ◌≤◌,
  ◌⊎◌,
}
use simis.Prelude.Int.{pos, negsuc, leb_ℤ}
use simis.GoText.{trim_space}
use simis.StreamId.{
  StreamId, IdError, make_id, max_uint64, compare_id, ParsedId, parse_id, next_seq, next_wildcard,
  next_partial, next_exact, generate_next_id, next_of_parsed,
}

next_wildcard_grows :
    (now : ℕ) (last : StreamId)
    → last.seq < max_uint64
    → compare_id (next_wildcard now (some last)) last ≡ pos 1
unfolding next_wildcard compare_id next_seq
next_wildcard_grows now last h = ground arith

next_partial_grows :
    (req : ℕ) (last id : StreamId)
    → last.seq < max_uint64
    → next_partial (some last) req ≡ ok id
    → compare_id id last ≡ pos 1
unfolding next_partial compare_id next_seq
next_partial_grows req last id h e = ground arith

compare_id-cases :
    (a b : StreamId) → (compare_id a b ≡ pos 1) ⊎ (leb_ℤ (compare_id a b) (pos 0) ≡ true)
unfolding compare_id
compare_id-cases a b = ground arith

next_exact_grows :
    (last req id : StreamId) → next_exact (some last) req ≡ ok id → compare_id id last ≡ pos 1
unfolding next_exact
next_exact_grows last req id e = ground (arith, compare_id-cases req last)

next_of_parsed_grows :
    (now : ℕ) (last id : StreamId) (p : ParsedId)
    → last.seq < max_uint64
    → next_of_parsed now (some last) p ≡ ok id
    → compare_id id last ≡ pos 1
unfolding next_of_parsed
next_of_parsed_grows now last id p h e = ground (
  arith,
  next_wildcard_grows now last h,
  next_partial_grows p.id.ms last id h,
  next_exact_grows last p.id id,
)

-- Whatever is asked for, an ID that GenerateNextID returns for a stream with a last ID is greater
-- than that ID, if the sequence number of the last ID is not the largest of 64 bits.
pub generate_next_id_grows :
    (now : ℕ) (last id : StreamId) (requested : Text)
    → last.seq < max_uint64
    → generate_next_id now (some last) requested ≡ ok id
    → compare_id id last ≡ pos 1
unfolding generate_next_id
generate_next_id_grows now last id requested h e = go (parse_id requested) e
  where
    go :
        (r : Result IdError ParsedId)
        → (r >>= next_of_parsed now (some last)) ≡ ok id
        → compare_id id last ≡ pos 1
    go (ok p) q = next_of_parsed_grows now last id p h q
    go (err x) q = cc

-- After an ID with the largest sequence number, "*" at a clock that has not passed that ID gives
-- an ID which is smaller than the last one: the sequence number wraps to 0.
pub generate_next_id_wraps :
    (now : ℕ) (last : StreamId)
    → last.seq ≡ max_uint64
    → now ≤ last.ms
    → (generate_next_id now (some last) (bytes "*") ≡ ok (make_id last.ms 0))
      × (compare_id (make_id last.ms 0) last ≡ negsuc 0)
unfolding generate_next_id parse_id trim_space text_eq next_of_parsed next_wildcard next_seq
    compare_id
generate_next_id_wraps now last h g = ground arith

-- An exact ID is taken exactly when it is greater than 0-0 and than the last ID, and then it is
-- returned as it is.
pub generate_next_id_exact :
    (now : ℕ) (last req id : StreamId) (requested : Text)
    → parse_id requested ≡ ok (record { exact = true; partial = false; wildcard = false; id = req })
    → (generate_next_id now (some last) requested ≡ ok id)
      ↔ ((id ≡ req) × (compare_id req (make_id 0 0) ≡ pos 1) × (compare_id req last ≡ pos 1))
unfolding generate_next_id next_of_parsed next_exact
generate_next_id_exact now last req id requested e = rw e (
  (λ h. ground (arith, compare_id-cases req last, compare_id-cases req (make_id 0 0))),
  (λ h. ground (arith, compare_id-cases req last, compare_id-cases req (make_id 0 0))),
)
