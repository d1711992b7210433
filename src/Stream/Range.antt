-- ===== src/Stream/Range.antt =====
-- RangeScan: which entries it returns.
use simis.Prelude.{
  Bool-cases, List, Option, Option-cases, Result, [], ap, arith, drop, drop_all, err, false,
  get_elem?, if◌then◌else◌, injective_some, inl, inr, length, length-drop, ltb, ltb→lt, lt→ltb, map,
  none, ok, refl, some, suc, sym, take, take-length, true, zero, ℕ, ◌+◌, ◌-◌, ◌<◌, ◌∙◌, ◌∷◌, ◌≡◌,
  ◌≤◌,
}
use mathlib.Core.Path.{subst}
use simis.ListPack.Layout.{get_elem?_cases, drop_at}
use simis.ListPack.Entry.{get_at_place}
use simis.StreamId.{make_id, StreamId, IsU64}
use simis.Stream.Index.{Radix}
use simis.Stream.Codec.{Entry, encode_entry}
use simis.Stream.Codec.RoundTrip.{decode_entry-encode_entry}
use simis.Stream.{
  max_uint64, Stream, StreamError, end_not_found, panics, collect, scan_between, end_place,
  scan_from, range_scan, scan_behind, is_max_id,
}
use simis.Stream.Append.{Holds, IsStorable, last_id, last_id_at, compare_id_irrefl}
use simis.Stream.Scan.{position, position_at, is_below, seek_place_lem}

map_at {ℓ κ} :
    {A : Type ℓ} {B : Type κ} (f : A → B) (xs : List A) (i : ℕ) (x : A)
    → get_elem? xs i ≡ some x
    → get_elem? (map f xs) i ≡ some (f x)
map_at f [] i x h = cc
map_at f (y ∷ xs) zero x h = ap some (ap f (injective_some h))
map_at f (y ∷ xs) (suc i) x h = map_at f xs i x h

module _ {R : Radix} {s : Stream R} {es : List Entry} (h : Holds s es) where
  collect_holds : (n i : ℕ) → i + n ≤ length es → collect n i s.entries ≡ ok (take n (drop i es))
  unfolding collect
  collect_holds zero i le = refl
  collect_holds (suc n) i le =
      let (e, at) = get_elem?_cases es i (omega arith) in
      let store : IsStorable e = h.storable i e at in
      rw (
        get_at_place i (encode_entry e) h.stored (map_at encode_entry es i e at),
        decode_entry-encode_entry e store.u64 store.fresh store.small,
        collect_holds n (i + 1) (omega arith),
        drop_at es i e at,
      )

-- The answer of RangeScan, by the places `p` of the start and `q` of the end bound.
abbrev pub answer : ℕ → Option ℕ → List Entry → Result StreamError (List Entry)
answer p none es = err end_not_found
answer p (some q) es = if ltb (q + 1) p then err panics else ok (take (q + 1 - p) (drop p es))

abbrev pub end_position : StreamId → List Entry → Option ℕ
end_position end es =
    if is_max_id end
    then some (length es - 1)
    else if ltb (position end es) (length es)
    then some (position end es)
    else none

last_id-none : (es : List Entry) → last_id es ≡ none → length es ≡ 0
last_id-none [] e = refl
last_id-none (a ∷ []) e = cc
last_id-none (a ∷ b ∷ es) e = absurd (omega (arith, last_id-none (b ∷ es) e))

pub not_below_self : (id : StreamId) → is_below id id ≡ false
not_below_self id = rw (compare_id_irrefl id)

module _ {R : Radix} {s : Stream R} {es : List Entry} (h : Holds s es) where
  position_last :
      (last : StreamId)
      → last_id es ≡ some last
      → (position last es ≡ length es - 1) × (0 < length es)
  position_last last q =
      let (n, e, len, at, same) = last_id_at es last q in
      let here : position last es ≡ n =
        position_at last es n e at (rw same (not_below_self last))
          (λ i a ati lt. rw (← same, h.rising i n a e ati at lt)) in
      (omega arith, omega arith)

  last-IsU64 : (last : StreamId) → last_id es ≡ some last → IsU64 last
  last-IsU64 last q =
      let (n, e, len, at, same) = last_id_at es last q in subst IsU64 same (h.storable n e at).u64

  end_place_lem :
      (end last : StreamId)
      → IsU64 end
      → last_id es ≡ some last
      → end_place end last s
        ≡ elim (end_position end es) [ none ↦ err end_not_found | some q ↦ ok q ]
  unfolding end_place
  end_place_lem end last u q = elim (Bool-cases (is_max_id end)) [
    | inl m ↦
        let (p, some_entry) = position_last last q in
        let inside : ltb (length es - 1) (length es) ≡ true = lt→ltb _ _ (omega arith) in
        rw (m, seek_place_lem h last (last-IsU64 last q), p, inside)
    | inr m ↦ rw (m, seek_place_lem h end u) (ground arith)
  ]

  scan_between_lem :
      (p q : ℕ) → p < length es → q < length es → scan_between p q s.entries ≡ answer p (some q) es
  unfolding scan_between
  scan_between_lem p q hp hq = elim (Bool-cases (ltb (q + 1) p)) [
    | inl far ↦ rw far
    | inr near ↦ rw (near, collect_holds h (q + 1 - p) p (ground arith))
  ]

  end_position-lt :
      (end : StreamId) (q : ℕ) → 0 < length es → end_position end es ≡ some q → q < length es
  end_position-lt end q some_entry e = ground arith

  scan_from_lem :
      (p : ℕ) (end last : StreamId)
      → p < length es
      → IsU64 end
      → last_id es ≡ some last
      → scan_from (some p) end last s ≡ answer p (end_position end es) es
  unfolding scan_from
  scan_from_lem p end last hp u q = elim (Option-cases (end_position end es)) [
    | inl e ↦ rw (end_place_lem end last u q, e)
    | inr (stop, e) ↦
        rw (end_place_lem end last u q, e)
          (scan_between_lem p stop hp (end_position-lt end stop (omega arith) e))
  ]

scan_from-none :
    {R : Radix} (s : Stream R) (end last : StreamId) → scan_from none end last s ≡ ok []
unfolding scan_from
scan_from-none s end last = refl

-- RangeScan, in full: with no entry at or behind the start it returns none. Otherwise the end bound
-- goes to the first entry that is not below it, which is returned too; if there is none, the scan
-- fails, unless the bound is the largest ID; and if it lies two places or more in front of the
-- start, the scan panics.
pub range_scan_lem :
    {R : Radix} {s : Stream R} {es : List Entry} (start end : StreamId)
    → Holds s es
    → IsU64 start
    → IsU64 end
    → range_scan start end s ≡ (
        if ltb (position start es) (length es)
        then answer (position start es) (end_position end es) es
        else ok [])
unfolding range_scan scan_behind
range_scan_lem {R} {s} {es} start end h u v =
    ap (λ o. scan_behind o start end s) h.last ∙ go (last_id es) refl
  where
    go :
        (o : Option StreamId)
        → last_id es ≡ o
        → scan_behind o start end s ≡ (
            if ltb (position start es) (length es)
            then answer (position start es) (end_position end es) es
            else ok [])
    go none e =
        let none_in : ltb (position start es) (length es) ≡ false =
          ground (arith, last_id-none es e) in
        rw (scan_behind, none_in)
    go (some last) e = elim (Bool-cases (ltb (position start es) (length es))) [
      | inl inside ↦
          rw (scan_behind, seek_place_lem h start u, inside)
            (scan_from_lem h (position start es) end last (ltb→lt _ _ inside) v e)
      | inr outside ↦
          rw (scan_behind, seek_place_lem h start u, outside) (scan_from-none s end last)
    ]

-- A scan up to the largest ID returns every entry from the first that is not below the start on.
pub range_scan_to_end :
    {R : Radix} {s : Stream R} {es : List Entry} (start : StreamId)
    → Holds s es
    → IsU64 start
    → range_scan start (make_id max_uint64 max_uint64) s ≡ ok (drop (position start es) es)
range_scan_to_end {s = s} {es = es} start h u =
    elim (Bool-cases (ltb (position start es) (length es))) [
      | inl inside ↦
          let lt : position start es < length es = ltb→lt _ _ inside in
          let near : ltb (length es - 1 + 1) (position start es) ≡ false = ground arith in
          range_scan_lem start (make_id max_uint64 max_uint64) h u (omega arith)
          ∙ rw (inside, near)
              (ap ok (
                take-length (drop (position start es) es) _
                  (omega (arith, length-drop (position start es) es))))
      | inr outside ↦
          range_scan_lem start (make_id max_uint64 max_uint64) h u (omega arith)
          ∙ rw outside (ap ok (sym (drop_all es (position start es) (ground arith))))
    ]
