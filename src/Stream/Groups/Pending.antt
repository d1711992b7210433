-- ===== src/Stream/Groups/Pending.antt =====
-- The pending entries of a group: AckEntries and DeleteConsumer.
use simis.Prelude.{
  Assoc, Bool, Bool-cases, List, Option-cases, Text, [], ap, arith, delete, false, if◌then◌else◌,
  inl, inr, length, lookup, lookup-delete, lookup-insert, none, ok, refl, some, sym, text_eq,
  text_eq_iff, text_eq_refl, true, ℕ, ◌||◌, ◌∙◌, ◌∷◌, ◌≡◌,
}
use mathlib.Core.Option
use simis.Stream.Index.{Radix}
use simis.Stream.{Stream, PendingEntry, Consumer, ConsumerGroup}
use simis.Stream.Groups.{
  ack, ack_all, ack_entries, give_up, without_consumer, delete_consumer, pending_of, get_group,
  get_pending_entries, set_group,
}

abbrev pub is_named : Text → List Text → Bool
is_named j [] = false
is_named j (id ∷ ids) = text_eq id j || is_named j ids

lookup-ack :
    (id j : Text) (g : ConsumerGroup)
    → lookup j (ack id g).1.pending_entries
      ≡ (if text_eq id j then none else lookup j g.pending_entries)
unfolding ack
lookup-ack id j g = elim (Option-cases (lookup id g.pending_entries)) [
  | inl gone ↦ elim (Bool-cases (text_eq id j)) [
    | inl same ↦ let q : id ≡ j = (text_eq_iff id j).0 same in rw (gone, ack, same, ← q, gone)
    | inr other ↦ rw (gone, ack, other)
  ]
  | inr (p, at) ↦ rw (at, ack, lookup-delete id j)
]

lookup-ack_all :
    (ids : List Text) (j : Text) (g : ConsumerGroup)
    → lookup j (ack_all ids g).1.pending_entries
      ≡ (if is_named j ids then none else lookup j g.pending_entries)
unfolding ack_all
lookup-ack_all [] j g = refl
lookup-ack_all (id ∷ ids) j g = ground (arith, lookup-ack_all ids j (ack id g).1, lookup-ack id j g)

ack_nothing :
    (id : Text) (g : ConsumerGroup) → lookup id g.pending_entries ≡ none → ack id g ≡ (0, g)
unfolding ack
ack_nothing id g h = rw (h, ack)

ack_all_nothing :
    (ids : List Text) (g : ConsumerGroup)
    → ((j : Text) → is_named j ids ≡ true → lookup j g.pending_entries ≡ none)
    → ack_all ids g ≡ (0, g)
unfolding ack_all
ack_all_nothing [] g h = refl
ack_all_nothing (id ∷ ids) g h = rw (
  ack_nothing id g (h id (rw (text_eq_refl id))),
  ack_all_nothing ids g (λ j named. h j (ground arith)),
)

again :
    (ids : List Text) (g : ConsumerGroup) → ack_all ids (ack_all ids g).1 ≡ (0, (ack_all ids g).1)
again ids g = ack_all_nothing ids (ack_all ids g).1 (λ j named. rw (lookup-ack_all ids j g, named))

ack_step :
    {R : Radix} (name : Text) (ids : List Text) (s : Stream R) (g : ConsumerGroup)
    → lookup name s.consumer_groups ≡ some g
    → ack_entries name ids s ≡ ok ((ack_all ids g).0, set_group name (ack_all ids g).1 s)
unfolding ack_entries get_group
ack_step name ids s g found = rw (found, ack_entries, get_group)

pub lookup-set_group :
    {R : Radix} (name : Text) (g : ConsumerGroup) (s : Stream R)
    → lookup name (set_group name g s).consumer_groups ≡ some g
lookup-set_group name g s = rw (lookup-insert name name, text_eq_refl name)

-- AckEntries on a group that exists takes the named entries from the pending ones and leaves the
-- others; the other groups stay as they are, and a second acknowledgement counts nothing.
pub ack_entries_lem :
    {R : Radix} (name : Text) (ids : List Text) (s : Stream R) (g : ConsumerGroup)
    → lookup name s.consumer_groups ≡ some g
    → (n : ℕ) × (s' : Stream R) × (g' : ConsumerGroup) × (s'' : Stream R) × (ack_entries name ids s
        ≡ ok (n, s'))
      × (lookup name s'.consumer_groups ≡ some g')
      × ((j : Text)
          → lookup j g'.pending_entries
            ≡ (if is_named j ids then none else lookup j g.pending_entries))
      × ((j : Text)
          → text_eq name j ≡ false
          → lookup j s'.consumer_groups ≡ lookup j s.consumer_groups)
      × (ack_entries name ids s' ≡ ok (0, s''))
ack_entries_lem name ids s g found =
    let g' = (ack_all ids g).1 in
    let s' = set_group name g' s in
    (
      (ack_all ids g).0,
      s',
      g',
      set_group name g' s',
      ack_step name ids s g found,
      lookup-set_group name g' s,
      λ j. lookup-ack_all ids j g,
      λ j other. rw (lookup-insert name j, other),
      ack_step name ids s' g' (lookup-set_group name g' s) ∙ rw (again ids g),
    )

-- What DeleteConsumer makes of a pending entry.
abbrev pub released : Text → PendingEntry → PendingEntry
released name p = if text_eq p.consumer name then record p { consumer = [] } else p

lookup-give_up :
    (name j : Text) (m : Assoc PendingEntry)
    → lookup j (give_up name m).1 ≡ Option.map (released name) (lookup j m)
unfolding give_up lookup
lookup-give_up name j [] = refl
lookup-give_up name j ((id, p) ∷ m) = ground (arith, lookup-give_up name j m)

length-pending_of :
    (name : Text) (m : Assoc PendingEntry)
    → text_eq name [] ≡ false
    → (give_up name m).0 ≡ length (pending_of name m)
unfolding give_up pending_of
length-pending_of name [] h = refl
length-pending_of name ((id, p) ∷ m) h = ground (arith, length-pending_of name m h)

pub text_eq_nil_left : (name : Text) → text_eq name [] ≡ false → text_eq [] name ≡ false
unfolding text_eq
text_eq_nil_left [] h = h
text_eq_nil_left (c ∷ name) h = refl

pending_of-give_up :
    (name : Text) (m : Assoc PendingEntry)
    → text_eq name [] ≡ false
    → pending_of name (give_up name m).1 ≡ []
unfolding give_up pending_of
pending_of-give_up name [] h = refl
pending_of-give_up name ((id, p) ∷ m) h =
    ground (arith, pending_of-give_up name m h, text_eq_nil_left name h)

delete_step :
    {R : Radix} (name consumer : Text) (s : Stream R) (g : ConsumerGroup) (c : Consumer)
    → lookup name s.consumer_groups ≡ some g
    → lookup consumer g.consumers ≡ some c
    → delete_consumer name consumer s
      ≡ ok (
        (give_up consumer g.pending_entries).0,
        set_group name
            (record g {
              consumers = delete consumer g.consumers;
              pending_entries = (give_up consumer g.pending_entries).1;
            })
            s,
      )
unfolding delete_consumer get_group without_consumer
delete_step name consumer s g c found known =
    rw (found, delete_consumer, get_group, without_consumer, known)

pending_step :
    {R : Radix} (name consumer : Text) (s : Stream R) (g : ConsumerGroup)
    → lookup name s.consumer_groups ≡ some g
    → get_pending_entries name consumer s ≡ ok (pending_of consumer g.pending_entries)
unfolding get_pending_entries get_group
pending_step name consumer s g found = rw (found, get_pending_entries, get_group)

-- DeleteConsumer of a known consumer with a name that is not empty returns the number of the entries
-- that are pending for it; then none is, and every entry that was pending still is, those of the
-- consumer without one.
pub delete_consumer_lem :
    {R : Radix} (name consumer : Text) (s : Stream R) (g : ConsumerGroup) (c : Consumer)
    → text_eq consumer [] ≡ false
    → lookup name s.consumer_groups ≡ some g
    → lookup consumer g.consumers ≡ some c
    → (n : ℕ) × (s' : Stream R) × (g' : ConsumerGroup) × (ps : List PendingEntry) × (delete_consumer
          name consumer s
        ≡ ok (n, s'))
      × (get_pending_entries name consumer s ≡ ok ps)
      × (length ps ≡ n)
      × (get_pending_entries name consumer s' ≡ ok [])
      × (lookup name s'.consumer_groups ≡ some g')
      × (lookup consumer g'.consumers ≡ none)
      × ((j : Text)
          → lookup j g'.pending_entries
            ≡ Option.map (released consumer) (lookup j g.pending_entries))
delete_consumer_lem name consumer s g c named found known =
    let g' = record g {
      consumers = delete consumer g.consumers;
      pending_entries = (give_up consumer g.pending_entries).1;
    } in
    let s' = set_group name g' s in
    let found' = lookup-set_group name g' s in
    (
      (give_up consumer g.pending_entries).0,
      s',
      g',
      pending_of consumer g.pending_entries,
      delete_step name consumer s g c found known,
      pending_step name consumer s g found,
      sym (length-pending_of consumer g.pending_entries named),
      pending_step name consumer s' g' found'
          ∙ ap ok (pending_of-give_up consumer g.pending_entries named),
      found',
      rw (lookup-delete consumer consumer, text_eq_refl consumer),
      λ j. lookup-give_up consumer j g.pending_entries,
    )
