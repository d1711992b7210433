-- ===== src/Deque/Range.antt =====
-- LRange, the reads by index.
use simis.Prelude.{
  if◌then◌else◌, inr, sym, ap, inl, ◌==◌, Bool-cases, zero, refl, drop-append, length-append, suc,
  ◌∷◌, ◌++◌, Text, arith, ◌<◌, ◌≤◌, ℕ, ◌+◌, ◌-◌, min, List, [], ◌≡◌, some,
}
use simis.Prelude.{length, take, drop}
use simis.Prelude.Int.{◌+ℤ◌, ℤ, pos, negsuc}
use simis.Deque.{ltb_ℤ, Deque, lrange, clamp_index, slice}

-- Where an index points in a list whose last place is `last`: one past the end is held at the last
-- place, and -(i + 1) counts back from there and stops at the first.
abbrev pub place : ℤ → ℕ → ℕ
place (pos i) last = min i last
place (negsuc i) last = last - i

take_nothing {ℓ} : {A : Type ℓ} (n : ℕ) (xs : List A) → n ≡ 0 → take n xs ≡ []
take_nothing n xs e = rw e

nothing_left {ℓ} : {A : Type ℓ} (xs : List A) (n m : ℕ) → length xs ≡ 0 → take n (drop m xs) ≡ []
nothing_left [] zero m h = refl
nothing_left [] (suc n) zero h = refl
nothing_left [] (suc n) (suc m) h = refl
nothing_left (x ∷ xs) n m h = absurd (omega arith)

clamp_index-eq-place : (i : ℤ) (n : ℕ) → 0 < n → clamp_index i n ≡ pos (place i (n - 1))
unfolding clamp_index
clamp_index-eq-place (pos i) n h = ground arith
clamp_index-eq-place (negsuc i) n h = ground arith

place_in_bounds : (i : ℤ) (n : ℕ) → 0 < n → place i (n - 1) < n
place_in_bounds (pos i) n h = omega arith
place_in_bounds (negsuc i) n h = omega arith

slice_in_bounds :
    (l r : ℕ) (xs : List Text)
    → l ≤ r
    → r < length xs
    → slice (pos l) (pos r +ℤ pos 1) xs ≡ some (take (r + 1 - l) (drop l xs))
unfolding slice
slice_in_bounds l r xs h k = ground arith

-- The last two tests of LRange, on places that lie in the list.
cut_places :
    (l r : ℕ) (xs : List Text)
    → r < length xs
    → (if ltb_ℤ (pos r) (pos l) then some [] else slice (pos l) (pos r +ℤ pos 1) xs)
      ≡ some (take (r + 1 - l) (drop l xs))
cut_places l r xs k = elim (Bool-cases (ltb_ℤ (pos r) (pos l))) [
  | inl e ↦ rw e (ap some (sym (take_nothing (r + 1 - l) (drop l xs) (ground arith))))
  | inr e ↦ rw e (slice_in_bounds l r xs (ground arith) k)
]

-- LRange panics for no indices: it returns the strings from the place of `left` to the place of
-- `right`, both included, and none where the first lies behind the second or the deque is empty.
pub lrange_lem :
    (left right : ℤ) (d : Deque)
    → let last = length d.items - 1 in
      lrange left right d
      ≡ some (take (place right last + 1 - place left last) (drop (place left last) d.items))
unfolding lrange
lrange_lem left right d = elim (Bool-cases (length d.items == 0)) [
  | inl e ↦ rw e (ap some (sym (nothing_left d.items _ _ (ground arith))))
  | inr e ↦
      rw
        (
          e,
          clamp_index-eq-place right (length d.items) (ground arith),
          clamp_index-eq-place left (length d.items) (ground arith),
        )
        (cut_places _ _ d.items (place_in_bounds right (length d.items) (ground arith)))
]

-- Indices that all lie past the end still give the last string.
pub lrange_past_end :
    (i j : ℕ) (d : Deque) (front : List Text) (x : Text)
    → d.items ≡ front ++ (x ∷ [])
    → length d.items ≤ i
    → length d.items ≤ j
    → lrange (pos i) (pos j) d ≡ some (x ∷ [])
lrange_past_end i j d front x e hi hj =
    let len : length d.items ≡ length front + 1 = rw e (length-append front (x ∷ [])) in
    let p : min i (length d.items - 1) ≡ length front = omega arith in
    let q : min j (length d.items - 1) ≡ length front = omega arith in
    let one : length front + 1 - length front ≡ 1 = omega arith in
    rw (lrange_lem, p, q, e, one, drop-append front (x ∷ []) (length front) refl)
