-- ===== src/Stream/Groups/Claiming.antt =====
-- The loop of ClaimEntries, in internal/datastructure/stream.go.
use simis.Prelude.{
  Assoc, Bool, Bool-cases, List, Option, Option-cases, Text, [], ap, arith, false, if◌then◌else◌,
  inl, inr, lookup, lookup-insert, none, not, ok, refl, some, text_eq, text_eq_iff, true, ◌&&◌,
  ◌++◌, ◌+◌, ◌||◌, ◌∙◌, ◌∷◌, ◌≡◌,
}
use simis.Prelude.Int.{ℤ, pos, ◌-ℤ◌, ltb_ℤ}
use mathlib.Core.Option
use simis.Stream.Index.{Radix}
use simis.Stream.Codec.{Entry}
use simis.Stream.{Stream, PendingEntry, ConsumerGroup}
use simis.Stream.Append.{Holds}
use simis.Stream.Groups.{claim, claim_all}
use simis.Stream.Groups.Pending.{is_named}
use simis.Stream.Groups.Counts.{IsCounted, is_known, claim-IsCounted, claim_known}
use simis.Stream.Groups.FirstEntry.{entry_at, scanned}

-- The entry was delivered too short a time ago to be claimed.
abbrev pub is_young : ℤ → ℤ → PendingEntry → Bool
is_young now min_idle p = ltb_ℤ (now -ℤ p.delivered_time) min_idle

abbrev pub claimed : Text → ℤ → PendingEntry → PendingEntry
claimed consumer now p = record p {
  consumer = consumer;
  delivered_time = now;
  delivery_count = p.delivery_count + 1;
}

-- What ClaimEntries makes of a pending entry that is named.
abbrev pub claim_if_idle : Text → ℤ → ℤ → PendingEntry → PendingEntry
claim_if_idle consumer now min_idle p =
    if is_young now min_idle p then p else claimed consumer now p

-- A pending entry of that ID can be claimed.
abbrev pub is_idle : ℤ → ℤ → Option PendingEntry → Bool
is_idle now min_idle none = false
is_idle now min_idle (some p) = not (is_young now min_idle p)

claim-is_idle :
    (consumer : Text) (now min_idle : ℤ) (id : Text) (g : ConsumerGroup)
    → (claim consumer now min_idle id g).0 ≡ is_idle now min_idle (lookup id g.pending_entries)
unfolding claim
claim-is_idle consumer now min_idle id g = elim (Option-cases (lookup id g.pending_entries)) [
  | inl gone ↦ rw (gone, claim) refl
  | inr (p, at) ↦ rw (at, claim) (ground arith)
]

lookup-claim :
    (consumer : Text) (now min_idle : ℤ) (id j : Text) (g : ConsumerGroup)
    → lookup j (claim consumer now min_idle id g).1.pending_entries ≡ (
        if text_eq id j
        then Option.map (claim_if_idle consumer now min_idle) (lookup j g.pending_entries)
        else lookup j g.pending_entries)
unfolding claim
lookup-claim consumer now min_idle id j g = elim (Bool-cases (text_eq id j)) [
  | inl same ↦
      let e : id ≡ j = (text_eq_iff id j).0 same in
      elim (Option-cases (lookup id g.pending_entries)) [
        | inl gone ↦ rw (gone, claim, same, ← e, gone) refl
        | inr (p, at) ↦ elim (Bool-cases (is_young now min_idle p)) [
          | inl young ↦ rw (at, claim, young, same, ← e, at, young) refl
          | inr idle ↦ rw (at, claim, idle, lookup-insert id j, same, ← e, at, idle) refl
        ]
      ]
  | inr other ↦ elim (Option-cases (lookup id g.pending_entries)) [
    | inl gone ↦ rw (gone, claim, other) refl
    | inr (p, at) ↦ elim (Bool-cases (is_young now min_idle p)) [
      | inl young ↦ rw (at, claim, young, other) refl
      | inr idle ↦ rw (at, claim, idle, lookup-insert id j, other) refl
    ]
  ]
]

module _ (consumer : Text) (now min_idle : ℤ) where
  -- The entries that ClaimEntries returns, by the pending entries as they were before: for each ID
  -- that is named for the first time, and whose pending entry is idle, the entry it leads to.
  abbrev pub claimed_entries : List Entry → Assoc PendingEntry → List Text → List Text → List Entry
  claimed_entries es pending named [] = []
  claimed_entries es pending named (id ∷ ids) =
      (if is_idle now min_idle (lookup id pending) && not (is_named id named)
        then entry_at id es
        else [])
      ++ claimed_entries es pending (id ∷ named) ids

  abbrev pub AreClaimed : List Text → ConsumerGroup → ConsumerGroup → Type 0
  AreClaimed named g₀ g =
      (j : Text)
      → lookup j g.pending_entries ≡ (
          if is_named j named
          then Option.map (claim_if_idle consumer now min_idle) (lookup j g₀.pending_entries)
          else lookup j g₀.pending_entries)

  module _ (long : ltb_ℤ (pos 0) min_idle ≡ true) where
    claim_if_idle-is_young :
        (p : PendingEntry) → is_young now min_idle (claim_if_idle consumer now min_idle p) ≡ true
    claim_if_idle-is_young p = elim (Bool-cases (is_young now min_idle p)) [
      | inl young ↦ rw young young
      | inr idle ↦ rw idle (ground arith)
    ]

    pub map-is_idle :
        (o : Option PendingEntry)
        → is_idle now min_idle (Option.map (claim_if_idle consumer now min_idle) o) ≡ false
    map-is_idle none = refl
    map-is_idle (some p) = rw (claim_if_idle-is_young p)

    stays :
        (p : PendingEntry)
        → is_young now min_idle p ≡ true
        → claim_if_idle consumer now min_idle p ≡ p
    stays p young = rw young refl

    claims_once :
        (o : Option PendingEntry)
        → Option.map
            (claim_if_idle consumer now min_idle)
            (Option.map (claim_if_idle consumer now min_idle) o)
          ≡ Option.map (claim_if_idle consumer now min_idle) o
    claims_once none = refl
    claims_once (some p) = ap some (stays _ (claim_if_idle-is_young p))

    claims :
        (id : Text) (named : List Text) (g₀ g : ConsumerGroup)
        → AreClaimed named g₀ g
        → (claim consumer now min_idle id g).0
          ≡ (is_idle now min_idle (lookup id g₀.pending_entries) && not (is_named id named))
    claims id named g₀ g a = elim (Bool-cases (is_named id named)) [
      | inl again ↦
          claim-is_idle consumer now min_idle id g
          ∙ rw (a id, again, map-is_idle (lookup id g₀.pending_entries)) (ground arith)
      | inr first ↦ claim-is_idle consumer now min_idle id g ∙ rw (a id, first) (ground arith)
    ]

    claim-AreClaimed :
        (id : Text) (named : List Text) (g₀ g : ConsumerGroup)
        → AreClaimed named g₀ g
        → AreClaimed (id ∷ named) g₀ (claim consumer now min_idle id g).1
    claim-AreClaimed id named g₀ g a j =
        lookup-claim consumer now min_idle id j g
        ∙ rw (a j) (ground (arith, claims_once (lookup j g₀.pending_entries)))

    pub claim_all_lem :
        {R : Radix} {s : Stream R} {es : List Entry} (ids named : List Text) (g₀ g : ConsumerGroup)
        → Holds s es
        → is_known consumer g.consumers ≡ true
        → IsCounted g
        → AreClaimed named g₀ g
        → (g' : ConsumerGroup) × (claim_all consumer now min_idle ids g s
            ≡ ok (claimed_entries es g₀.pending_entries named ids, g'))
          × IsCounted g'
          × ((j : Text)
              → lookup j g'.pending_entries ≡ (
                  if is_named j ids || is_named j named
                  then Option.map
                      (claim_if_idle consumer now min_idle)
                      (lookup j g₀.pending_entries)
                  else lookup j g₀.pending_entries))
    unfolding claim_all
    claim_all_lem [] named g₀ g h known counted a = (g, refl, counted, a)
    claim_all_lem {s = s} {es = es} (id ∷ ids) named g₀ g h known counted a =
        let g₁ = (claim consumer now min_idle id g).1 in
        let (g', run, counted', after) =
          claim_all_lem ids (id ∷ named) g₀ g₁ h
            (claim_known consumer now min_idle id consumer g ∙ known)
            (claim-IsCounted consumer now min_idle id g known counted)
            (claim-AreClaimed id named g₀ g a) in
        (
          g',
          elim (Bool-cases
              (is_idle now min_idle (lookup id g₀.pending_entries) && not (is_named id named))) [
                | inl yes_claimed ↦ rw (claims id named g₀ g a, yes_claimed, scanned id h, run) refl
                | inr not_claimed ↦ rw (claims id named g₀ g a, not_claimed, run) refl
              ],
          counted',
          λ j. after j ∙ ground arith,
        )
