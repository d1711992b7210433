-- ===== src/Stream/Scan.antt =====
-- Where the index sends a bound: to the first entry that is not below it.
use simis.Prelude.{
  Bool, List, Option-cases, Text, [], ap, arith, false, get_elem?, if◌then◌else◌, injective_some,
  inl, inr, length, ltb, lt→ltb, none, refl, some, suc, true, zero, ℕ, ◌<◌, ◌↔◌, ◌∷◌, ◌≡◌, ◌≢◌, ◌⊎◌,
}
use simis.Prelude.Int.{pos, negsuc, ltb_ℤ, leb_ℤ}
use simis.StreamId.{StreamId, IsU64, compare_id, encode_to_bytes}
use simis.StreamId.Order.{compare_bytes, compare_bytes-encode_to_bytes}
use simis.ListPack.Layout.{lt_of_get_elem?}
use simis.Stream.Index.{Radix, IsBelowOrEq}
use simis.Stream.Codec.{Entry}
use simis.Stream.{Stream, seek_place}
use simis.Stream.Append.{Holds}

abbrev pub is_below : StreamId → StreamId → Bool
is_below a b = ltb_ℤ (compare_id a b) (pos 0)

-- The number of entries in front of the first that is not below the bound.
unfoldable pub position : StreamId → List Entry → ℕ
position bound [] = 0
position bound (e ∷ es) =
    let rest = position bound es in if is_below e.id bound then suc rest else 0

pub is_below-cases :
    (a b : StreamId)
    → ((is_below a b ≡ true) × (compare_id a b ≡ negsuc 0))
      ⊎ ((is_below a b ≡ false) × (leb_ℤ (compare_id b a) (pos 0) ≡ true))
unfolding compare_id
is_below-cases a b = ground arith

pub position_all :
    (bound : StreamId) (es : List Entry)
    → ((i : ℕ) (a : Entry) → get_elem? es i ≡ some a → is_below a.id bound ≡ true)
    → position bound es ≡ length es
unfolding position
position_all bound [] below = refl
position_all bound (e ∷ es) below =
    rw (below 0 e refl) (ap suc (position_all bound es (λ i a at. below (suc i) a at)))

pub position_at :
    (bound : StreamId) (es : List Entry) (v : ℕ) (e : Entry)
    → get_elem? es v ≡ some e
    → is_below e.id bound ≡ false
    → ((i : ℕ) (a : Entry) → get_elem? es i ≡ some a → i < v → is_below a.id bound ≡ true)
    → position bound es ≡ v
unfolding position
position_at bound [] v e at h below = cc
position_at bound (x ∷ es) zero e at h below = let q : x ≡ e = injective_some at in rw (q, h)
position_at bound (x ∷ es) (suc v) e at h below =
    rw (below 0 x refl (omega arith))
      (ap suc (position_at bound es v e at h (λ i a at' lt. below (suc i) a at' (omega arith))))

pub le→not_below : (a b : StreamId) → leb_ℤ (compare_id b a) (pos 0) ≡ true → is_below a b ≡ false
unfolding compare_id
le→not_below a b h = ground arith

lt→not_le : (a b : StreamId) → compare_id a b ≡ negsuc 0 → leb_ℤ (compare_id b a) (pos 0) ≢ true
unfolding compare_id
lt→not_le a b h = ground arith

-- The order of keys, as an order of IDs.
key_le :
    (a b : StreamId)
    → IsU64 a
    → IsU64 b
    → IsBelowOrEq (encode_to_bytes a) (encode_to_bytes b) ↔ (leb_ℤ (compare_id a b) (pos 0) ≡ true)
key_le a b u v =
    let q : compare_bytes (encode_to_bytes a) (encode_to_bytes b) ≡ compare_id a b =
      compare_bytes-encode_to_bytes a b u v in
    ((λ p. rw q at p), (λ p. rw q p))

module _ {R : Radix} {s : Stream R} {es : List Entry} (h : Holds s es) (bound : StreamId)
    (u : IsU64 bound) where
  -- Past the last key: every entry is below the bound.
  seek_none :
      R.seek (encode_to_bytes bound) s.index ≡ none
      → (i : ℕ) (a : Entry) → get_elem? es i ≡ some a
      → is_below a.id bound ≡ true
  seek_none q i a at = elim (is_below-cases a.id bound) [
    | inl (t, _) ↦ t
    | inr (_, le) ↦ absurd (
        R.seek_end (encode_to_bytes bound) (encode_to_bytes a.id) i s.index q (h.indexed i a at)
          ((key_le bound a.id u (h.storable i a at).u64).1 le))
  ]

  seek_some :
      (k : Text) (v : ℕ)
      → R.seek (encode_to_bytes bound) s.index ≡ some (k, v)
      → position bound es ≡ v
  seek_some k v q =
      let (found, ge, least) = R.seek_found (encode_to_bytes bound) k v s.index q in
      let (e, at, key) = h.index_only k v found in
      let eu : IsU64 e.id = (h.storable v e at).u64 in
      position_at bound es v e at
        (le→not_below e.id bound ((key_le bound e.id u eu).0 (rw key at ge)))
        (λ i a ati lt. elim (is_below-cases a.id bound) [
          | inl (t, _) ↦ t
          | inr (_, le) ↦
              let au : IsU64 a.id = (h.storable i a ati).u64 in
              let next : IsBelowOrEq k (encode_to_bytes a.id) =
                least (encode_to_bytes a.id) i (h.indexed i a ati)
                  ((key_le bound a.id u au).1 le) in
              absurd (
                lt→not_le a.id e.id (h.rising i v a e ati at lt)
                  ((key_le e.id a.id eu au).0 (rw key at next)))
        ])

  -- The index sends a bound to the place of the first entry that is not below it, and to the end of
  -- the iteration if there is none.
  pub seek_place_lem :
      seek_place bound s
      ≡ (if ltb (position bound es) (length es) then some (position bound es) else none)
  unfolding seek_place
  seek_place_lem = elim (Option-cases (R.seek (encode_to_bytes bound) s.index)) [
    | inl q ↦
        let all : position bound es ≡ length es = position_all bound es (seek_none q) in
        rw (q, seek_place, all) (ground arith)
    | inr ((k, v), q) ↦
        let here : position bound es ≡ v = seek_some k v q in
        let (found, ge, least) = R.seek_found (encode_to_bytes bound) k v s.index q in
        let (e, at, key) = h.index_only k v found in
        rw (q, seek_place, here, lt→ltb v (length es) (lt_of_get_elem? es v e at))
  ]
