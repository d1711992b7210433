-- ===== src/Stream/Groups/Claim.antt =====
-- ClaimEntries of internal/datastructure/stream.go.
use simis.Prelude.{
  Assoc, List, Text, [], ap, arith, false, if◌then◌else◌, lookup, lookup-insert, ok, refl, some,
  text_eq, text_eq_refl, true, ◌∙◌, ◌∷◌, ◌≡◌,
}
use simis.Prelude.Int.{ℤ, pos, ltb_ℤ}
use mathlib.Core.Option
use simis.Stream.Index.{Radix}
use simis.Stream.Codec.{Entry}
use simis.Stream.{Stream, PendingEntry, ConsumerGroup}
use simis.Stream.Append.{Holds}
use simis.Stream.Groups.{claim_entries, get_group, set_group, ensure_consumer}
use simis.Stream.Groups.Read.{Holds-set_group}
use simis.Stream.Groups.Pending.{is_named, lookup-set_group}
use simis.Stream.Groups.Counts.{IsCounted, ensure_consumer-IsCounted}
use simis.Stream.Groups.Claiming.{
  is_idle, claim_if_idle, claimed_entries, map-is_idle, claim_all_lem,
}

module _ (consumer : Text) (now min_idle : ℤ) (long : ltb_ℤ (pos 0) min_idle ≡ true) where
  claimed_nothing :
      (es : List Entry) (pending : Assoc PendingEntry) (ids named : List Text)
      → ((j : Text) → is_named j ids ≡ true → is_idle now min_idle (lookup j pending) ≡ false)
      → claimed_entries consumer now min_idle es pending named ids ≡ []
  claimed_nothing es pending [] named h = refl
  claimed_nothing es pending (id ∷ ids) named h =
      rw (h id (rw (text_eq_refl id) refl))
        (claimed_nothing es pending ids (id ∷ named) (λ j k. h j (ground arith)))

  claim_entries_step :
      {R : Radix} {s : Stream R} {es : List Entry} (name : Text) (seen : ℤ) (ids : List Text)
      (g : ConsumerGroup)
      → Holds s es
      → lookup name s.consumer_groups ≡ some g
      → IsCounted g
      → (g' : ConsumerGroup) × (claim_entries name consumer min_idle ids seen now s
          ≡ ok (
            claimed_entries consumer now min_idle es g.pending_entries [] ids,
            set_group name g' s,
          ))
        × IsCounted g'
        × ((j : Text)
            → lookup j g'.pending_entries ≡ (
                if is_named j ids
                then Option.map (claim_if_idle consumer now min_idle) (lookup j g.pending_entries)
                else lookup j g.pending_entries))
  unfolding claim_entries get_group
  claim_entries_step {s = s} {es = es} name seen ids g h found counted =
      let (counted₁, known, same) = ensure_consumer-IsCounted consumer seen g counted in
      let g₁ = ensure_consumer consumer seen g in
      let (g', run, counted', after) =
        claim_all_lem consumer now min_idle long {s = s} {es = es} ids [] g g₁ h known counted₁
          (λ j. rw same refl) in
      (g', rw (found, claim_entries, get_group, run) refl, counted', λ j. after j ∙ ground arith)

-- ClaimEntries with a minimal idle time above 0, on a group in which the count of every name but the
-- empty one is the number of its pending entries. For each ID that is named, the first time, and
-- whose pending entry is idle, it returns the first entry of the stream that is not below the ID, if
-- there is one. The pending entries of these IDs then belong to the consumer, with the delivery
-- time `now` and a delivery count that is higher by 1; no other one changes. The counts are again
-- the numbers of the pending entries, the other groups and the entries stay as they are, and a
-- second claim of the same IDs with the same `now` returns no entry.
pub claim_entries_lem :
    {R : Radix} {s : Stream R} {es : List Entry} (name consumer : Text)
    (min_idle seen seen_again now : ℤ) (ids : List Text) (g : ConsumerGroup)
    → Holds s es
    → lookup name s.consumer_groups ≡ some g
    → IsCounted g
    → ltb_ℤ (pos 0) min_idle ≡ true
    → (s' : Stream R) × (g' : ConsumerGroup) × (s'' : Stream R) × (claim_entries name consumer
          min_idle ids seen now s
        ≡ ok (claimed_entries consumer now min_idle es g.pending_entries [] ids, s'))
      × (lookup name s'.consumer_groups ≡ some g')
      × ((j : Text)
          → lookup j g'.pending_entries ≡ (
              if is_named j ids
              then Option.map (claim_if_idle consumer now min_idle) (lookup j g.pending_entries)
              else lookup j g.pending_entries))
      × IsCounted g'
      × ((j : Text)
          → text_eq name j ≡ false
          → lookup j s'.consumer_groups ≡ lookup j s.consumer_groups)
      × Holds s' es
      × (claim_entries name consumer min_idle ids seen_again now s' ≡ ok ([], s''))
claim_entries_lem {s = s} {es = es} name consumer min_idle seen seen_again now ids g h found counted
      long =
    let (g', run, counted', after) =
      claim_entries_step consumer now min_idle long {s = s} {es = es} name seen ids g h found
        counted in
    let s' = set_group name g' s in
    let h' : Holds s' es = Holds-set_group name g' h in
    let found' = lookup-set_group name g' s in
    let (g'', run', counted'', after') =
      claim_entries_step consumer now min_idle long {s = s'} {es = es} name seen_again ids g' h'
        found' counted' in
    let done_before =
      claimed_nothing consumer now min_idle long es g'.pending_entries ids [] (λ j k.
        rw (after j, k) (map-is_idle consumer now min_idle long (lookup j g.pending_entries))) in
    (
      s',
      g',
      set_group name g'' s',
      run,
      found',
      after,
      counted',
      λ j other. rw (lookup-insert name j, other) refl,
      h',
      run' ∙ ap (λ out. ok (out, set_group name g'' s')) done_before,
    )
