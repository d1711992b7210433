-- ===== src/Stream/Groups.antt =====
-- The consumer groups of internal/datastructure/stream.go. An operation that changes the stream and
-- then fails returns the changed stream with the error; `now` is a reading of the clock.
pub mod Read
pub mod Pending
pub mod Counts
pub mod FirstEntry
pub mod Claiming
pub mod Claim
use simis.Prelude.{
  Assoc, Bool, List, Option, Result, Text, [], bytes, delete, err, false, if◌then◌else◌, insert,
  length, lookup, none, ok, some, suc, take, text_eq, true, ℕ, ◌&&◌, ◌++◌, ◌+◌, ◌>>=◌, ◌||◌, ◌∷◌,
}
use simis.Prelude.Int.{ℤ, pos, negsuc, ◌+ℤ◌, ◌-ℤ◌, pos_part, ltb_ℤ}
use simis.StreamId.{
  StreamId, IdError, make_id, max_uint64, compare_id, next_seq, id_or_zero, parse_stream_id,
  to_string,
}
use simis.Stream.Index.{Radix}
use simis.ListPack.{LpError}
use simis.Stream.Codec.{Entry, DecodeError}
use simis.Stream.{
  Stream, StreamError, bad_list_pack, bad_entry, panics, busy_group, no_group, PendingEntry,
  Consumer, ConsumerGroup, range_scan, lift_id,
}

-- The ID that `startID` names; `zero_names` are the texts for the beginning.
unfoldable pub group_start : Text → Option StreamId → Result StreamError StreamId
unfolding lift_id
group_start start_id last =
    if text_eq start_id (bytes "$")
    then ok (id_or_zero last)
    else if text_eq start_id (bytes "0") || text_eq start_id (bytes "0-0")
    then ok (make_id 0 0)
    else lift_id (parse_stream_id start_id)

unfoldable pub group_end : Text → Option StreamId → Result StreamError StreamId
unfolding lift_id
group_end new_id last =
    if text_eq new_id (bytes "$") then ok (id_or_zero last) else lift_id (parse_stream_id new_id)

unfoldable pub new_group : Text → StreamId → ConsumerGroup
new_group name start = record {
  name = name;
  last_delivered_id = start;
  consumers = [];
  pending_entries = [];
}

-- `PendingEntriesNum` of a consumer, changed by `d`. Nothing happens to a consumer that is missing.
unfoldable pub count_pending : Text → ℤ → Assoc Consumer → Assoc Consumer
count_pending name d consumers = elim (lookup name consumers) [
  | none ↦ consumers
  | some c ↦ insert name (record c { pending_entries_num = c.pending_entries_num +ℤ d }) consumers
]

unfoldable pub new_consumer : Text → ℤ → Consumer
new_consumer name now = record { name = name; last_seen_time = now; pending_entries_num = pos 0 }

-- The consumer is there, and was seen now.
unfoldable pub touch_consumer : Text → ℤ → ConsumerGroup → ConsumerGroup
touch_consumer name now g =
    let c : Consumer = elim (lookup name g.consumers) [
      | none ↦ new_consumer name now
      | some c ↦ record c { last_seen_time = now }
    ] in
    record g { consumers = insert name c g.consumers }

unfoldable pub ensure_consumer : Text → ℤ → ConsumerGroup → ConsumerGroup
ensure_consumer name now g = elim (lookup name g.consumers) [
  | none ↦ record g { consumers = insert name (new_consumer name now) g.consumers }
  | some c ↦ g
]

-- `startID.Seq++`
unfoldable pub next_after : StreamId → StreamId
next_after id = make_id id.ms (next_seq id.seq)

unfoldable pub limited : ℤ → List Entry → List Entry
limited count entries =
    if ltb_ℤ (pos 0) count && ltb_ℤ count (pos (length entries))
    then take (pos_part count) entries
    else entries

-- The body of the loop over the entries read.
unfoldable pub deliver : Text → ℤ → Entry → ConsumerGroup → ConsumerGroup
deliver consumer now e g = record g {
  pending_entries =
      insert (to_string e.id)
        (record { id = e.id; consumer = consumer; delivered_time = now; delivery_count = 1 })
        g.pending_entries;
  consumers = count_pending consumer (pos 1) g.consumers;
  last_delivered_id =
      if ltb_ℤ (pos 0) (compare_id e.id g.last_delivered_id) then e.id else g.last_delivered_id;
}

unfoldable pub deliver_all : Text → ℤ → List Entry → ConsumerGroup → ConsumerGroup
deliver_all consumer now [] g = g
deliver_all consumer now (e ∷ es) g = deliver_all consumer now es (deliver consumer now e g)

-- The decrement for an entry that leaves its consumer; "" stands for no consumer.
unfoldable pub leave_consumer : Text → Assoc Consumer → Assoc Consumer
leave_consumer name consumers =
    if text_eq name [] then consumers else count_pending name (negsuc 0) consumers

-- The body of the loop of `AckEntries`: whether the ID was pending, and the group.
unfoldable pub ack : Text → ConsumerGroup → ℕ × ConsumerGroup
ack id g = elim (lookup id g.pending_entries) [
  | none ↦ (0, g)
  | some p ↦ (
    1,
    record g {
      consumers = leave_consumer p.consumer g.consumers;
      pending_entries = delete id g.pending_entries;
    },
  )
]

unfoldable pub ack_all : List Text → ConsumerGroup → ℕ × ConsumerGroup
ack_all [] g = (0, g)
ack_all (id ∷ ids) g = let (n, g') = ack id g in let (m, g'') = ack_all ids g' in (n + m, g'')

-- The loop of `DeleteConsumer`: the entries of the consumer, and the map with them given up.
unfoldable pub give_up : Text → Assoc PendingEntry → ℕ × Assoc PendingEntry
give_up name [] = (0, [])
give_up name ((id, p) ∷ pending) =
    let (n, rest) = give_up name pending in
    if text_eq p.consumer name
    then (suc n, (id, record p { consumer = [] }) ∷ rest)
    else (n, (id, p) ∷ rest)

unfoldable pub without_consumer : Text → ConsumerGroup → ℕ × ConsumerGroup
without_consumer name g = elim (lookup name g.consumers) [
  | none ↦ (0, g)
  | some c ↦
      let (n, pending) = give_up name g.pending_entries in
      (n, record g { consumers = delete name g.consumers; pending_entries = pending })
]

-- The loop of `GetPendingEntries`, with "" for every consumer.
unfoldable pub pending_of : Text → Assoc PendingEntry → List PendingEntry
pending_of consumer [] = []
pending_of consumer ((id, p) ∷ pending) =
    let rest = pending_of consumer pending in
    if text_eq consumer [] || text_eq p.consumer consumer then p ∷ rest else rest

-- The part of the loop of `ClaimEntries` that changes the group: whether the entry is claimed.
unfoldable pub claim : Text → ℤ → ℤ → Text → ConsumerGroup → Bool × ConsumerGroup
claim consumer now min_idle id g = elim (lookup id g.pending_entries) [
  | none ↦ (false, g)
  | some p ↦ if ltb_ℤ (now -ℤ p.delivered_time) min_idle then (false, g) else (
    true,
    record g {
      pending_entries =
          insert id
            (record p {
              consumer = consumer;
              delivered_time = now;
              delivery_count = p.delivery_count + 1;
            })
            g.pending_entries;
      consumers = count_pending consumer (pos 1) (leave_consumer p.consumer g.consumers);
    },
  )
]

-- Go's panics, apart from its errors
is_panic : StreamError → Bool
is_panic panics = true
is_panic (bad_list_pack LpError.panics) = true
is_panic (bad_entry DecodeError.panics) = true
is_panic e = false

-- `entries, _ := s.RangeScan(id, id)`, of which the first is taken; an error counts as no entries.
unfoldable pub first_entry : Result StreamError (List Entry) → Result StreamError (List Entry)
unfolding is_panic
first_entry (ok []) = ok []
first_entry (ok (e ∷ es)) = ok (e ∷ [])
first_entry (err x) = if is_panic x then err x else ok []

-- `id, _ := ParseStreamID(idStr)`
unfoldable pub id_or_default : Result IdError StreamId → StreamId
id_or_default (ok id) = id
id_or_default (err e) = make_id 0 0

module _ {R : Radix} where
  abbrev pub set_group : Text → ConsumerGroup → Stream R → Stream R
  set_group name g s = record s { consumer_groups = insert name g s.consumer_groups }

  -- `CreateGroup`
  unfoldable pub create_group : Text → Text → Stream R → Result StreamError (Stream R)
  create_group name start_id s = elim (lookup name s.consumer_groups) [
    | some g ↦ err busy_group
    | none ↦
        group_start start_id s.last_stream_id >>= (λ id. ok (set_group name (new_group name id) s))
  ]

  -- `GetGroup`
  unfoldable pub get_group : Text → Stream R → Result StreamError ConsumerGroup
  get_group name s = elim (lookup name s.consumer_groups) [ none ↦ err no_group | some g ↦ ok g ]

  -- `DestroyGroup`
  unfoldable pub destroy_group : Text → Stream R → Result StreamError (Stream R)
  destroy_group name s = elim (lookup name s.consumer_groups) [
    | none ↦ err no_group
    | some g ↦ ok (record s { consumer_groups = delete name s.consumer_groups })
  ]

  -- `SetGroupID`
  unfoldable pub set_group_id : Text → Text → Stream R → Result StreamError (Stream R)
  set_group_id name new_id s = do
    g ← get_group name s
    id ← group_end new_id s.last_stream_id
    ok (set_group name (record g { last_delivered_id = id }) s)

  -- `DeleteConsumer`
  unfoldable pub delete_consumer : Text → Text → Stream R → Result StreamError (ℕ × Stream R)
  delete_consumer name consumer s = do
    g ← get_group name s
    let (n, g') = without_consumer consumer g
    ok (n, set_group name g' s)

  unfoldable pub deliver_read :
      Text
      → Text
      → ℤ
      → ℤ
      → ConsumerGroup
      → Stream R
      → Result StreamError (List Entry)
      → Result StreamError (List Entry) × Stream R
  deliver_read name consumer count now g s (err x) = (err x, set_group name g s)
  deliver_read name consumer count now g s (ok entries) =
      let read = limited count entries in
      (ok read, set_group name (deliver_all consumer now read g) s)

  -- `ReadGroupNewEntries`; the clock is read twice.
  unfoldable pub read_group_new_entries :
      Text → Text → ℤ → ℤ → ℤ → Stream R → Result StreamError (List Entry) × Stream R
  read_group_new_entries name consumer count seen now s = elim (lookup name s.consumer_groups) [
    | none ↦ (err no_group, s)
    | some g ↦
        deliver_read name consumer count now (touch_consumer consumer seen g) s
          (range_scan (next_after g.last_delivered_id) (make_id max_uint64 max_uint64) s)
  ]

  -- `AckEntries`
  unfoldable pub ack_entries : Text → List Text → Stream R → Result StreamError (ℕ × Stream R)
  ack_entries name ids s = do
    g ← get_group name s
    let (n, g') = ack_all ids g
    ok (n, set_group name g' s)

  -- `GetPendingEntries`
  unfoldable pub get_pending_entries :
      Text → Text → Stream R → Result StreamError (List PendingEntry)
  get_pending_entries name consumer s = do
    g ← get_group name s
    ok (pending_of consumer g.pending_entries)

  -- The loop of `ClaimEntries`.
  unfoldable pub claim_all :
      Text
      → ℤ
      → ℤ
      → List Text
      → ConsumerGroup
      → Stream R
      → Result StreamError (List Entry × ConsumerGroup)
  claim_all consumer now min_idle [] g s = ok ([], g)
  claim_all consumer now min_idle (id ∷ ids) g s = do
    let (claimed, g') = claim consumer now min_idle id g
    let sid = id_or_default (parse_stream_id id)
    entry ← if claimed then first_entry (range_scan sid sid s) else ok []
    (rest, g'') ← claim_all consumer now min_idle ids g' s
    ok (entry ++ rest, g'')

  -- `ClaimEntries`; the clock is read twice.
  unfoldable pub claim_entries :
      Text → Text → ℤ → List Text → ℤ → ℤ → Stream R → Result StreamError (List Entry × Stream R)
  claim_entries name consumer min_idle ids seen now s = do
    g ← get_group name s
    (entries, g') ← claim_all consumer now min_idle ids (ensure_consumer consumer seen g) s
    ok (entries, set_group name g' s)
