-- ===== src/Stream/Groups/Counts.antt =====
-- The counts of the consumers of a group, `PendingEntriesNum`, beside its pending entries.
use simis.Prelude.{
  Assoc, Bool, Bool-cases, Option-cases, Text, [], arith, false, if◌then◌else◌, injective_some, inl,
  inr, insert, length, lookup, lookup-insert, none, refl, some, text_eq, text_eq_iff, text_eq_refl,
  true, ℕ, ◌&&◌, ◌+◌, ◌∙◌, ◌∷◌, ◌≡◌,
}
use simis.Prelude.Int.{ℤ, pos, negsuc, ◌+ℤ◌, ◌-ℤ◌, ltb_ℤ}
use simis.Stream.{PendingEntry, Consumer, ConsumerGroup}
use simis.Stream.Groups.{
  pending_of, claim, count_pending, leave_consumer, ensure_consumer, new_consumer,
}
use simis.Stream.Groups.Pending.{text_eq_nil_left}

-- The count that a group keeps for a name, 0 if it has no consumer of that name.
abbrev pub num_of : Text → Assoc Consumer → ℤ
num_of n consumers = elim (lookup n consumers) [ none ↦ pos 0 | some c ↦ c.pending_entries_num ]

abbrev pub is_known : Text → Assoc Consumer → Bool
is_known n consumers = elim (lookup n consumers) [ none ↦ false | some c ↦ true ]

-- The group counts for every name that is not empty the entries that are pending for it.
abbrev pub IsCounted : ConsumerGroup → Type 0
IsCounted g =
    (n : Text)
    → text_eq n [] ≡ false
    → num_of n g.consumers ≡ pos (length (pending_of n g.pending_entries))

abbrev one_if : Bool → ℕ
one_if b = if b then 1 else 0

length-pending_of-insert :
    (n id : Text) (p q : PendingEntry) (m : Assoc PendingEntry)
    → text_eq n [] ≡ false
    → lookup id m ≡ some p
    → length (pending_of n (insert id q m)) + one_if (text_eq p.consumer n)
      ≡ length (pending_of n m) + one_if (text_eq q.consumer n)
unfolding pending_of insert lookup
length-pending_of-insert n id p q [] h e = absurd cc
length-pending_of-insert n id p q ((i, r) ∷ m) h e = elim (Bool-cases (text_eq i id)) [
  | inl same ↦ let here : r ≡ p = injective_some (ground arith) in rw (same, h, here) (ground arith)
  | inr other ↦
      let rest = length-pending_of-insert n id p q m h (ground arith) in
      rw (other, h) (ground arith)
]

num-count_pending :
    (name n : Text) (d : ℤ) (cs : Assoc Consumer)
    → num_of n (count_pending name d cs)
      ≡ (if text_eq name n && is_known name cs then num_of n cs +ℤ d else num_of n cs)
unfolding count_pending
num-count_pending name n d cs = elim (Option-cases (lookup name cs)) [
  | inl gone ↦ rw (gone, count_pending) (ground arith)
  | inr (c, at) ↦ elim (Bool-cases (text_eq name n)) [
    | inl same ↦
        let e : name ≡ n = (text_eq_iff name n).0 same in
        rw (at, count_pending, num_of, is_known, lookup-insert name n, same, ← e, at) refl
    | inr other ↦ rw (at, count_pending, num_of, is_known, lookup-insert name n, other) refl
  ]
]

known-count_pending :
    (name n : Text) (d : ℤ) (cs : Assoc Consumer)
    → is_known n (count_pending name d cs) ≡ is_known n cs
unfolding count_pending
known-count_pending name n d cs = elim (Option-cases (lookup name cs)) [
  | inl gone ↦ rw (gone, count_pending)
  | inr (c, at) ↦ elim (Bool-cases (text_eq name n)) [
    | inl same ↦
        let e : name ≡ n = (text_eq_iff name n).0 same in
        rw (at, count_pending, is_known, lookup-insert name n, same, ← e, at) refl
    | inr other ↦ rw (at, count_pending, is_known, lookup-insert name n, other) refl
  ]
]

known-leave_consumer :
    (name n : Text) (cs : Assoc Consumer) → is_known n (leave_consumer name cs) ≡ is_known n cs
unfolding leave_consumer
known-leave_consumer name n cs = ground (arith, known-count_pending name n (negsuc 0) cs)

num-leave_consumer :
    (name n : Text) (cs : Assoc Consumer)
    → text_eq n [] ≡ false
    → num_of n (leave_consumer name cs)
      ≡ (if text_eq name n && is_known name cs then num_of n cs +ℤ negsuc 0 else num_of n cs)
unfolding leave_consumer
num-leave_consumer name n cs h = elim (Bool-cases (text_eq name [])) [
  | inl empty ↦
      let e : name ≡ [] = (text_eq_iff name []).0 empty in
      rw (empty, leave_consumer, e, text_eq_nil_left n h)
  | inr named ↦ rw (named, leave_consumer) (num-count_pending name n (negsuc 0) cs)
]

owner_known :
    (id : Text) (p : PendingEntry) (g : ConsumerGroup)
    → IsCounted g
    → lookup id g.pending_entries ≡ some p
    → text_eq p.consumer [] ≡ false
    → is_known p.consumer g.consumers ≡ true
owner_known id p g h at named =
    let n = p.consumer in
    let more =
      length-pending_of-insert n id p (record p { consumer = [] }) g.pending_entries named at in
    let self = text_eq_refl n in
    let count = h n named in
    let other = text_eq_nil_left n named in
    elim (Option-cases (lookup n g.consumers)) [
      | inl gone ↦
          let empty : num_of n g.consumers ≡ pos 0 = rw (gone, num_of) refl in absurd (ground arith)
      | inr (c, found) ↦ rw (found, is_known) refl
    ]

balance :
    (old new known : Bool) (before after : ℕ)
    → (old ≡ true → known ≡ true)
    → after + one_if old ≡ before + one_if new
    → (if new
        then (if old && known then pos before +ℤ negsuc 0 else pos before) +ℤ pos 1
        else if old && known
        then pos before +ℤ negsuc 0
        else pos before)
      ≡ pos after
balance old new known before after h e = ground arith

claimed_count :
    (consumer id : Text) (p q : PendingEntry) (g : ConsumerGroup) (n : Text)
    → is_known consumer g.consumers ≡ true
    → IsCounted g
    → lookup id g.pending_entries ≡ some p
    → text_eq q.consumer n ≡ text_eq consumer n
    → text_eq n [] ≡ false
    → num_of n (count_pending consumer (pos 1) (leave_consumer p.consumer g.consumers))
      ≡ pos (length (pending_of n (insert id q g.pending_entries)))
claimed_count consumer id p q g n known h at same named =
    let more = length-pending_of-insert n id p q g.pending_entries named at in
    let owner : text_eq p.consumer n ≡ true → is_known p.consumer g.consumers ≡ true = λ e.
      let q : p.consumer ≡ n = (text_eq_iff p.consumer n).0 e in
      owner_known id p g h at (rw q named) in
    num-count_pending consumer n (pos 1) (leave_consumer p.consumer g.consumers)
    ∙ rw
        (
          known-leave_consumer p.consumer consumer g.consumers,
          known,
          num-leave_consumer p.consumer n g.consumers named,
          h n named,
        )
        (balance (text_eq p.consumer n) (text_eq consumer n && true) _ _ _ owner (ground arith))

-- The body of the loop of ClaimEntries keeps the counts, for a consumer that is there.
pub claim-IsCounted :
    (consumer : Text) (now min_idle : ℤ) (id : Text) (g : ConsumerGroup)
    → is_known consumer g.consumers ≡ true
    → IsCounted g
    → IsCounted (claim consumer now min_idle id g).1
unfolding claim
claim-IsCounted consumer now min_idle id g known h =
    elim (Option-cases (lookup id g.pending_entries)) [
      | inl gone ↦ rw (gone, claim) h
      | inr (p, at) ↦ elim (Bool-cases (ltb_ℤ (now -ℤ p.delivered_time) min_idle)) [
        | inl young ↦ rw (at, claim, young) h
        | inr idle ↦
            rw (at, claim, idle)
              (λ n named. claimed_count consumer id p _ g n known h at refl named)
      ]
    ]

num-insert_new :
    (name n : Text) (seen : ℤ) (cs : Assoc Consumer)
    → lookup name cs ≡ none
    → num_of n (insert name (new_consumer name seen) cs) ≡ num_of n cs
unfolding new_consumer
num-insert_new name n seen cs gone = elim (Bool-cases (text_eq name n)) [
  | inl same ↦
      let e : name ≡ n = (text_eq_iff name n).0 same in
      rw (num_of, lookup-insert name n, same, ← e, gone) refl
  | inr other ↦ rw (num_of, lookup-insert name n, other) refl
]

-- The consumer is there after the first step of ClaimEntries, which counts as before.
pub ensure_consumer-IsCounted :
    (consumer : Text) (seen : ℤ) (g : ConsumerGroup)
    → IsCounted g
    → IsCounted (ensure_consumer consumer seen g)
      × (is_known consumer (ensure_consumer consumer seen g).consumers ≡ true)
      × ((ensure_consumer consumer seen g).pending_entries ≡ g.pending_entries)
unfolding ensure_consumer new_consumer
ensure_consumer-IsCounted consumer seen g h = elim (Option-cases (lookup consumer g.consumers)) [
  | inl gone ↦
      rw (gone, ensure_consumer)
        (
          λ n named. num-insert_new consumer n seen g.consumers gone ∙ h n named,
          rw (is_known, lookup-insert consumer consumer, text_eq_refl consumer) refl,
          refl,
        )
  | inr (c, at) ↦ rw (at, ensure_consumer) (h, rw (at, is_known) refl, refl)
]

pub claim_known :
    (consumer : Text) (now min_idle : ℤ) (id n : Text) (g : ConsumerGroup)
    → is_known n (claim consumer now min_idle id g).1.consumers ≡ is_known n g.consumers
unfolding claim
claim_known consumer now min_idle id n g = elim (Option-cases (lookup id g.pending_entries)) [
  | inl gone ↦ rw (gone, claim) refl
  | inr (p, at) ↦ elim (Bool-cases (ltb_ℤ (now -ℤ p.delivered_time) min_idle)) [
    | inl young ↦ rw (at, claim, young) refl
    | inr idle ↦
        rw (at, claim, idle)
          (known-count_pending consumer n (pos 1) (leave_consumer p.consumer g.consumers)
            ∙ known-leave_consumer p.consumer n g.consumers)
  ]
]
