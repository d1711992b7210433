-- ===== src/Stream/InRange.antt =====
-- RangeScan beside the entries that lie in the range.
use simis.Prelude.{
  Bool-cases, List, [], ap, arith, drop, false, get_elem?, if◌then◌else◌, injective_some, inl, inr,
  length, ltb, lt→ltb, not, ok, refl, some, suc, take, true, zero, ℕ, ◌&&◌, ◌++◌, ◌+◌, ◌-◌, ◌<◌,
  ◌∙◌, ◌∷◌, ◌≡◌, ◌≤◌,
}
use simis.Prelude.Int.{negsuc}
use simis.ListPack.Layout.{lt_of_get_elem?}
use simis.StreamId.{StreamId, IsU64, compare_id}
use simis.Stream.Index.{Radix}
use simis.Stream.Codec.{Entry}
use simis.Stream.{Stream, range_scan, is_max_id}
use simis.Stream.Append.{Holds}
use simis.Stream.Scan.{position, is_below}
use simis.Stream.Range.{range_scan_lem}

-- The entries from the start to the end bound, both included.
abbrev pub in_range : StreamId → StreamId → List Entry → List Entry
in_range start end [] = []
in_range start end (e ∷ es) =
    let rest = in_range start end es in
    if not (is_below e.id start) && not (is_below end e.id) then e ∷ rest else rest

IsRising : List Entry → Type 0
IsRising es =
    (i j : ℕ) (a b : Entry)
    → get_elem? es i ≡ some a
    → get_elem? es j ≡ some b
    → i < j
    → compare_id a.id b.id ≡ negsuc 0

abbrev AreBehind : StreamId → List Entry → Type 0
AreBehind id es = (i : ℕ) (a : Entry) → get_elem? es i ≡ some a → compare_id id a.id ≡ negsuc 0

IsRising-tail : (e : Entry) (es : List Entry) → IsRising (e ∷ es) → IsRising es
unfolding IsRising
IsRising-tail e es r i j a b at bt lt = r (suc i) (suc j) a b at bt (omega arith)

IsRising-head : (e : Entry) (es : List Entry) → IsRising (e ∷ es) → AreBehind e.id es
unfolding IsRising
IsRising-head e es r i a at = r 0 (suc i) e a refl at (omega arith)

above_end :
    (end id a : StreamId)
    → is_below id end ≡ false
    → compare_id id a ≡ negsuc 0
    → is_below end a ≡ true
unfolding compare_id
above_end end id a h k = ground arith

not_below_later :
    (start id a : StreamId)
    → is_below id start ≡ false
    → compare_id id a ≡ negsuc 0
    → is_below a start ≡ false
unfolding compare_id
not_below_later start id a h k = ground arith

not_above : (end id : StreamId) → is_below id end ≡ true → is_below end id ≡ false
unfolding compare_id
not_above end id h = ground arith

in_range-behind :
    (start end id : StreamId) (es : List Entry)
    → is_below id end ≡ false
    → AreBehind id es
    → in_range start end es ≡ []
in_range-behind start end id [] h b = refl
in_range-behind start end id (a ∷ es) h b =
    let above = above_end end id a.id h (b 0 a refl) in
    let rest = in_range-behind start end id es h (λ i c at. b (suc i) c at) in ground arith

position-behind :
    (start id : StreamId) (es : List Entry)
    → is_below id start ≡ false
    → AreBehind id es
    → position start es ≡ 0
unfolding position
position-behind start id [] h b = refl
position-behind start id (a ∷ es) h b = rw (not_below_later start id a.id h (b 0 a refl)) refl

abbrev overshoot : StreamId → Entry → List Entry
overshoot end e = if is_below end e.id then e ∷ [] else []

take-drop-in_range :
    (start end : StreamId) (es : List Entry) (q : ℕ) (e : Entry)
    → IsRising es
    → position end es ≡ q
    → get_elem? es q ≡ some e
    → position start es ≤ q
    → take (q + 1 - position start es) (drop (position start es) es)
      ≡ in_range start end es ++ overshoot end e
unfolding position
take-drop-in_range start end [] q e r here at le = cc
take-drop-in_range start end (x ∷ es) zero e r here at le =
    let same : x ≡ e = injective_some at in
    let from_end : is_below x.id end ≡ false = ground arith in
    let from_start : is_below x.id start ≡ false = ground arith in
    let rest = in_range-behind start end x.id es from_end (IsRising-head x es r) in
    rw (from_start, rest, ← same) (ground arith)
take-drop-in_range start end (x ∷ es) (suc q) e r here at le =
    let below : is_below x.id end ≡ true = ground arith in
    let before = not_above end x.id below in
    let here' : position end es ≡ q = ground arith in
    elim (Bool-cases (is_below x.id start)) [
      | inl skipped ↦
          let rest =
            take-drop-in_range start end es q e (IsRising-tail x es r) here' at (ground arith) in
          rw skipped (ap (λ n. take n (drop (position start es) es)) (omega arith) ∙ rest)
      | inr taken ↦
          let first = position-behind start x.id es taken (IsRising-head x es r) in
          let rest =
            take-drop-in_range start end es q e (IsRising-tail x es r) here' at (omega arith) in
          let later : take (q + 1) es ≡ in_range start end es ++ overshoot end e =
            ap (λ n. take n es) (omega arith) ∙ (rw first at rest) in
          let more : suc q + 1 - 0 ≡ suc (q + 1) = omega arith in
          rw (taken, before, more) (ap (◌∷◌ x) later)
    ]

-- RangeScan up to a bound that is not the largest ID, with an entry at or behind that bound, the
-- first of them at no smaller place than that of the first entry at or behind the start. It returns
-- the entries from the start to the end bound and, if that first entry is above the end bound, that
-- one too, as the last.
pub range_scan-in_range :
    {R : Radix} {s : Stream R} {es : List Entry} (start end : StreamId) (e : Entry)
    → Holds s es
    → IsU64 start
    → IsU64 end
    → is_max_id end ≡ false
    → get_elem? es (position end es) ≡ some e
    → position start es ≤ position end es
    → range_scan start end s
      ≡ ok (in_range start end es ++ (if is_below end e.id then e ∷ [] else []))
unfolding IsRising
range_scan-in_range {s = s} {es = es} start end e h u v m at le =
    let p = position start es in
    let q = position end es in
    let lt = lt_of_get_elem? es q e at in
    let inside : ltb p (length es) ≡ true = lt→ltb _ _ (omega arith) in
    let inside' : ltb q (length es) ≡ true = lt→ltb _ _ lt in
    let near : ltb (q + 1) p ≡ false = ground arith in
    range_scan_lem start end h u v
    ∙ rw (inside, m, inside', near)
        (ap ok (take-drop-in_range start end es q e h.rising refl at le))
