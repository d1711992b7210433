-- ===== src/StreamId/Order.antt =====
-- The 16-byte keys of IDs: they decode to the ID, and are ordered as the IDs are.
use simis.Prelude.{
  Text, [], arith, drop-append, if◌then◌else◌, length, length-append, ltb, refl, some, suc, sym,
  take-append, zero, ℕ, ◌%◌, ◌*◌, ◌++◌, ◌+◌, ◌/◌, ◌<◌, ◌^◌, ◌∙◌, ◌∷◌, ◌≡◌,
}
use simis.Prelude.Int.{ℤ, pos, negsuc}
use native.Mathlib.Nat.{pow-suc}
use simis.StreamId.{
  StreamId, IsU64, compare_id, big_endian, from_big_endian, encode_to_bytes, decode_from_bytes,
}

-- The order of byte strings, as `bytes.Compare` gives it: -1, 0 or 1.
unfoldable pub compare_bytes : Text → Text → ℤ
compare_bytes [] [] = pos 0
compare_bytes [] (c ∷ t) = negsuc 0
compare_bytes (b ∷ s) [] = pos 1
compare_bytes (b ∷ s) (c ∷ t) =
    let rest = compare_bytes s t in if ltb b c then negsuc 0 else if ltb c b then pos 1 else rest

pub length-big_endian : (k n : ℕ) → length (big_endian k n) ≡ k
unfolding big_endian
length-big_endian zero n = refl
length-big_endian (suc k) n =
    omega (
      arith,
      length-append (big_endian k (n / 256)) ((n % 256) ∷ []),
      length-big_endian k (n / 256),
    )

pub length-encode_to_bytes : (id : StreamId) → length (encode_to_bytes id) ≡ 16
unfolding encode_to_bytes
length-encode_to_bytes id = omega (
  arith,
  length-append (big_endian 8 id.ms) (big_endian 8 id.seq),
  length-big_endian 8 id.ms,
  length-big_endian 8 id.seq,
)

from_big_endian-append :
    (acc : ℕ) (s t : Text)
    → from_big_endian acc (s ++ t) ≡ from_big_endian (from_big_endian acc s) t
unfolding from_big_endian
from_big_endian-append acc [] t = refl
from_big_endian-append acc (b ∷ s) t = from_big_endian-append (acc * 256 + b) s t

digit_less : (n p : ℕ) → n < p * 256 → n / 256 < p
digit_less n p h = omega arith

from_big_endian-big_endian : (k n : ℕ) → n < 256 ^ k → from_big_endian 0 (big_endian k n) ≡ n
unfolding big_endian
from_big_endian-big_endian zero n h = unfold from_big_endian in omega arith
from_big_endian-big_endian (suc k) n h =
    rw
      (
        from_big_endian-append,
        from_big_endian-big_endian k (n / 256) (digit_less n (256 ^ k) (rw pow-suc at h)),
      )
      (unfold from_big_endian in omega arith)

-- DecodeFromBytes gives back the ID that EncodeToBytes wrote.
pub decode_from_bytes-encode_to_bytes :
    (id : StreamId) → IsU64 id → decode_from_bytes (encode_to_bytes id) ≡ some id
unfolding decode_from_bytes
decode_from_bytes-encode_to_bytes id h = rw (length-encode_to_bytes id) (
    unfold encode_to_bytes in
    rw (
      take-append (big_endian 8 id.ms) (big_endian 8 id.seq) 8 (sym (length-big_endian 8 id.ms)),
      drop-append (big_endian 8 id.ms) (big_endian 8 id.seq) 8 (sym (length-big_endian 8 id.ms)),
      from_big_endian-big_endian 8 id.ms (omega arith),
      from_big_endian-big_endian 8 id.seq (omega arith),
    ))

or_else : ℤ → ℤ → ℤ
or_else (pos zero) r = r
or_else (pos (suc n)) r = pos (suc n)
or_else (negsuc n) r = negsuc n

cmp : ℕ → ℕ → ℤ
cmp a b = if ltb a b then negsuc 0 else if ltb b a then pos 1 else pos 0

compare_bytes-append :
    (xs ys s t : Text)
    → length xs ≡ length ys
    → compare_bytes (xs ++ s) (ys ++ t) ≡ or_else (compare_bytes xs ys) (compare_bytes s t)
unfolding compare_bytes or_else
compare_bytes-append [] [] s t h = refl
compare_bytes-append [] (y ∷ ys) s t h = absurd (omega arith)
compare_bytes-append (x ∷ xs) [] s t h = absurd (omega arith)
compare_bytes-append (x ∷ xs) (y ∷ ys) s t h =
    ground (arith, compare_bytes-append xs ys s t (omega arith))

cmp_split :
    (n m : ℕ)
    → or_else (cmp (n / 256) (m / 256)) (compare_bytes ((n % 256) ∷ []) ((m % 256) ∷ [])) ≡ cmp n m
unfolding or_else cmp compare_bytes
cmp_split n m = ground arith

compare_bytes-big_endian :
    (k n m : ℕ)
    → n < 256 ^ k
    → m < 256 ^ k
    → compare_bytes (big_endian k n) (big_endian k m) ≡ cmp n m
unfolding big_endian
compare_bytes-big_endian zero n m h g = unfold compare_bytes cmp in ground arith
compare_bytes-big_endian (suc k) n m h g =
    rw
      (
        compare_bytes-append (big_endian k (n / 256)) (big_endian k (m / 256)) _ _
            (length-big_endian k (n / 256) ∙ sym (length-big_endian k (m / 256))),
        compare_bytes-big_endian k (n / 256) (m / 256) (digit_less n (256 ^ k) (rw pow-suc at h))
            (digit_less m (256 ^ k) (rw pow-suc at g)),
      )
      (cmp_split n m)

compare_id-cmp : (a b : StreamId) → or_else (cmp a.ms b.ms) (cmp a.seq b.seq) ≡ compare_id a b
unfolding or_else cmp compare_id
compare_id-cmp a b = ground arith

-- The byte order of two keys is the order of the IDs that they encode, so that the index, which is
-- sorted by key, is sorted by ID.
pub compare_bytes-encode_to_bytes :
    (a b : StreamId)
    → IsU64 a
    → IsU64 b
    → compare_bytes (encode_to_bytes a) (encode_to_bytes b) ≡ compare_id a b
unfolding encode_to_bytes
compare_bytes-encode_to_bytes a b h g =
    rw
      (
        compare_bytes-append (big_endian 8 a.ms) (big_endian 8 b.ms) _ _
            (length-big_endian 8 a.ms ∙ sym (length-big_endian 8 b.ms)),
        compare_bytes-big_endian 8 a.ms b.ms (omega arith) (omega arith),
        compare_bytes-big_endian 8 a.seq b.seq (omega arith) (omega arith),
      )
      (compare_id-cmp a b)
