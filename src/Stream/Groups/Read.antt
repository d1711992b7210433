-- ===== src/Stream/Groups/Read.antt =====
-- ReadGroupNewEntries: which entries it delivers, and what it leaves behind.
use simis.Prelude.{
  drop_all, Bool-cases, List, Text, [], ap, arith, drop, false, get_elem?, injective_some, inl, inr,
  length, lookup, lookup-insert, ltb, ltb→lt, ok, refl, some, suc, sym, take, take-length, text_eq,
  text_eq_refl, true, zero, ℕ, ◌&&◌, ◌+◌, ◌<◌, ◌∙◌, ◌∷◌, ◌≡◌, ◌≤◌,
}
use simis.Prelude.Int.{ℤ, pos, negsuc, pos_part, ltb_ℤ}
use native.Mathlib.Decide.{ℕ_discrete}
use simis.StreamId.{StreamId, IsU64, make_id, max_uint64, compare_id, next_seq, to_string}
use simis.ListPack.Layout.{get_elem?_cases, lt_of_get_elem?, drop_at}
use simis.Stream.Index.{Radix}
use simis.Stream.Codec.{Entry}
use simis.Stream.{Stream, PendingEntry, ConsumerGroup, range_scan}
use simis.Stream.Append.{Holds}
use simis.Stream.Scan.{position, position_at, position_all, is_below}
use simis.Stream.Range.{range_scan_to_end}
use simis.Stream.Groups.{
  next_after, limited, deliver, deliver_all, touch_consumer, deliver_read, read_group_new_entries,
  set_group,
}

-- An ID that another one can follow in its millisecond.
abbrev pub HasNext : StreamId → Type 0
HasNext id = IsU64 id × (id.seq < max_uint64)

not_below_next :
    (a b : StreamId)
    → IsU64 b
    → compare_id a b ≡ negsuc 0
    → a.seq < max_uint64
    → is_below b (next_after a) ≡ false
unfolding compare_id next_after next_seq
not_below_next a b u h k = ground arith

below_next : (a : StreamId) → a.seq < max_uint64 → is_below a (next_after a) ≡ true
unfolding compare_id next_after next_seq
below_next a k = ground arith

below_next_trans :
    (a b : StreamId)
    → compare_id a b ≡ negsuc 0
    → b.seq < max_uint64
    → is_below a (next_after b) ≡ true
unfolding compare_id next_after next_seq
below_next_trans a b h k = ground arith

gt_of_next :
    (a b : StreamId)
    → a.seq < max_uint64
    → is_below b (next_after a) ≡ false
    → ltb_ℤ (pos 0) (compare_id b a) ≡ true
unfolding compare_id next_after next_seq
gt_of_next a b k h = ground arith

IsU64-next_after : (a : StreamId) → HasNext a → IsU64 (next_after a)
unfolding next_after next_seq
IsU64-next_after a h = omega arith

position_here :
    (bound : StreamId) (es : List Entry) (e : Entry)
    → get_elem? es (position bound es) ≡ some e
    → is_below e.id bound ≡ false
unfolding position
position_here bound [] e h = cc
position_here bound (x ∷ es) e h = elim (Bool-cases (is_below x.id bound)) [
  | inl t ↦ position_here bound es e (rw t at h)
  | inr f ↦ let q : x ≡ e = injective_some (rw f at h) in rw (← q, f)
]

position-le-length : (bound : StreamId) (es : List Entry) → position bound es ≤ length es
unfolding position
position-le-length bound [] = omega arith
position-le-length bound (e ∷ es) = ground (arith, position-le-length bound es)

-- The entry is pending for the consumer, delivered to it once, at `now`.
pub IsPendingFor : Text → ℤ → Text → ConsumerGroup → Type 0
IsPendingFor consumer now id g =
    (p : PendingEntry) × (lookup id g.pending_entries ≡ some p)
    × (p.consumer ≡ consumer)
    × (p.delivered_time ≡ now)
    × (p.delivery_count ≡ 1)

deliver-IsPendingFor :
    (consumer : Text) (now : ℤ) (e : Entry) (g : ConsumerGroup)
    → IsPendingFor consumer now (to_string e.id) (deliver consumer now e g)
unfolding deliver IsPendingFor
deliver-IsPendingFor consumer now e g = (
  record { id = e.id; consumer = consumer; delivered_time = now; delivery_count = 1 },
  rw (lookup-insert (to_string e.id) (to_string e.id), text_eq_refl (to_string e.id)),
  refl,
  refl,
  refl,
)

deliver_keeps :
    (consumer : Text) (now : ℤ) (e : Entry) (id : Text) (g : ConsumerGroup)
    → IsPendingFor consumer now id g
    → IsPendingFor consumer now id (deliver consumer now e g)
unfolding deliver IsPendingFor
deliver_keeps consumer now e id g (p, at, of, time, n) =
    elim (Bool-cases (text_eq (to_string e.id) id)) [
      | inl same ↦ (
        record { id = e.id; consumer = consumer; delivered_time = now; delivery_count = 1 },
        rw (lookup-insert (to_string e.id) id, same),
        refl,
        refl,
        refl,
      )
      | inr other ↦ (p, rw (lookup-insert (to_string e.id) id, other) at, of, time, n)
    ]

deliver_all_keeps :
    (consumer : Text) (now : ℤ) (es : List Entry) (id : Text) (g : ConsumerGroup)
    → IsPendingFor consumer now id g
    → IsPendingFor consumer now id (deliver_all consumer now es g)
unfolding deliver_all
deliver_all_keeps consumer now [] id g h = h
deliver_all_keeps consumer now (e ∷ es) id g h =
    deliver_all_keeps consumer now es id (deliver consumer now e g)
      (deliver_keeps consumer now e id g h)

deliver_all-IsPendingFor :
    (consumer : Text) (now : ℤ) (es : List Entry) (g : ConsumerGroup) (i : ℕ) (e : Entry)
    → get_elem? es i ≡ some e
    → IsPendingFor consumer now (to_string e.id) (deliver_all consumer now es g)
unfolding deliver_all
deliver_all-IsPendingFor consumer now [] g i e at = cc
deliver_all-IsPendingFor consumer now (a ∷ es) g zero e at =
    let q : a ≡ e = injective_some at in
    deliver_all_keeps consumer now es (to_string e.id) (deliver consumer now a g)
      (rw (← q) (deliver-IsPendingFor consumer now a g))
deliver_all-IsPendingFor consumer now (a ∷ es) g (suc i) e at =
    deliver_all-IsPendingFor consumer now es (deliver consumer now a g) i e at

limited-take : (count : ℤ) (es : List Entry) → (m : ℕ) × (limited count es ≡ take m es)
unfolding limited
limited-take count es = elim (Bool-cases (ltb_ℤ (pos 0) count && ltb_ℤ count (pos (length es)))) [
  | inl t ↦ (pos_part count, rw t)
  | inr f ↦ (length es, rw f (sym (take-length es (length es) (omega arith))))
]

-- The groups are apart from the entries.
pub Holds-set_group :
    {R : Radix} {s : Stream R} {es : List Entry} (name : Text) (g : ConsumerGroup)
    → Holds s es
    → Holds (set_group name g s) es
Holds-set_group name g h = record {
  stored = h.stored;
  last = h.last;
  storable = h.storable;
  rising = h.rising;
  indexed = h.indexed;
  index_only = h.index_only;
}

read_step :
    {R : Radix} (s : Stream R) (name consumer : Text) (count seen now : ℤ) (g : ConsumerGroup)
    (es : List Entry)
    → lookup name s.consumer_groups ≡ some g
    → range_scan (next_after g.last_delivered_id) (make_id max_uint64 max_uint64) s ≡ ok es
    → read_group_new_entries name consumer count seen now s ≡ (
      ok (limited count es),
      set_group name
          (deliver_all consumer now (limited count es) (touch_consumer consumer seen g))
          s,
    )
unfolding read_group_new_entries deliver_read
read_step s name consumer count seen now g es found scan =
    rw (found, read_group_new_entries, scan, deliver_read)

module _ {R : Radix} {s : Stream R} {es : List Entry} (h : Holds s es)
    (next : (i : ℕ) (e : Entry) → get_elem? es i ≡ some e → HasNext e.id) where
  below_here :
      (k : ℕ) (e : Entry)
      → get_elem? es k ≡ some e
      → (i : ℕ) (a : Entry) → get_elem? es i ≡ some a
      → i < suc k
      → is_below a.id (next_after e.id) ≡ true
  below_here k e at i a ati lt = elim (ℕ_discrete i k) [
    | yes same ↦
        let q : a ≡ e = injective_some (sym ati ∙ ap (get_elem? es) same ∙ at) in
        rw q (below_next e.id (next k e at).1)
    | no other ↦ below_next_trans a.id e.id (h.rising i k a e ati at (omega arith)) (next k e at).1
  ]

  -- Right behind the entry at a place stands the next place.
  position_next :
      (k : ℕ) (e : Entry) → get_elem? es k ≡ some e → position (next_after e.id) es ≡ suc k
  position_next k e at = elim (Bool-cases (ltb (suc k) (length es))) [
    | inl more ↦
        let (b, atb) = get_elem?_cases es (suc k) (ltb→lt _ _ more) in
        position_at (next_after e.id) es (suc k) b atb
          (not_below_next e.id b.id (next (suc k) b atb).0
            (h.rising k (suc k) e b at atb (omega arith)) (next k e at).1)
          (below_here k e at)
    | inr end ↦
        let len : suc k ≡ length es = ground (arith, lt_of_get_elem? es k e at) in
        position_all (next_after e.id) es
          (λ i a ati. below_here k e at i a ati (omega (arith, lt_of_get_elem? es i a ati)))
        ∙ sym len
  ]

  -- The loop moves the last delivered ID over the entries that it goes through.
  deliver_all_moves :
      (consumer : Text) (now : ℤ) (m k : ℕ) (g : ConsumerGroup)
      → g.last_delivered_id.seq < max_uint64
      → position (next_after g.last_delivered_id) es ≡ k
      → let g' = deliver_all consumer now (take m (drop k es)) g in
        (position (next_after g'.last_delivered_id) es ≡ k + length (take m (drop k es)))
        × (IsU64 g.last_delivered_id → HasNext g'.last_delivered_id)
  unfolding deliver_all deliver
  deliver_all_moves consumer now zero k g t e = (omega arith, λ u. (u, t))
  deliver_all_moves consumer now (suc m) k g t e = elim (Bool-cases (ltb k (length es))) [
    | inr end ↦ rw (drop_all es k (ground arith)) (omega arith, λ u. (u, t))
    | inl more ↦
        let (a, at) = get_elem?_cases es k (ltb→lt _ _ more) in
        let after : ltb_ℤ (pos 0) (compare_id a.id g.last_delivered_id) ≡ true =
          gt_of_next g.last_delivered_id a.id t
            (position_here (next_after g.last_delivered_id) es a (rw e at)) in
        let moved : (deliver consumer now a g).last_delivered_id ≡ a.id = rw after in
        let rest =
          deliver_all_moves consumer now m (k + 1) (deliver consumer now a g)
            (rw moved (next k a at).1) (rw moved (position_next k a at ∙ omega arith)) in
        rw (drop_at es k a at) (rest.0 ∙ omega arith, λ u. rest.1 (rw moved (next k a at).0))
  ]

  -- ReadGroupNewEntries of a group that has had the first `k` entries returns those behind, up to the
  -- count; the stream keeps its entries, the group has had them all then, and each of them is pending
  -- for the consumer, if no ID has the largest sequence number.
  pub read_group_new_entries_lem :
      (name consumer : Text) (count seen now : ℤ) (k : ℕ) (g : ConsumerGroup)
      → lookup name s.consumer_groups ≡ some g
      → HasNext g.last_delivered_id
      → position (next_after g.last_delivered_id) es ≡ k
      → let read = limited count (drop k es) in
        (s' : Stream R) × (g' : ConsumerGroup) × (read_group_new_entries name consumer count seen
            now s
          ≡ (ok read, s'))
        × Holds s' es
        × (lookup name s'.consumer_groups ≡ some g')
        × HasNext g'.last_delivered_id
        × (position (next_after g'.last_delivered_id) es ≡ k + length read)
        × ((i : ℕ) (e : Entry)
            → get_elem? read i ≡ some e
            → IsPendingFor consumer now (to_string e.id) g')
  unfolding touch_consumer
  read_group_new_entries_lem name consumer count seen now k g found last here =
      let read = limited count (drop k es) in
      let seen_group = touch_consumer consumer seen g in
      let g' = deliver_all consumer now read seen_group in
      let (m, cut) = limited-take count (drop k es) in
      let moved = deliver_all_moves consumer now m k seen_group last.1 here in
      (
        set_group name g' s,
        g',
        read_step s name consumer count seen now g (drop k es) found (
            range_scan_to_end (next_after g.last_delivered_id) h
              (IsU64-next_after g.last_delivered_id last)
            ∙ ap (λ n. ok (drop n es)) here),
        Holds-set_group name g' h,
        rw (lookup-insert name name, text_eq_refl name),
        rw cut (moved.1 last.0),
        rw cut moved.0,
        deliver_all-IsPendingFor consumer now read seen_group,
      )
