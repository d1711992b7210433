-- ===== src/Deque.antt =====
-- internal/datastructure/deque.go: the list value, a slice of strings. A method that changes the
-- deque returns the new one. A slice expression out of range panics, which is `none` here.
pub mod Range
pub mod Ends
mod Tests
use simis.Prelude.{ℕ, ◌-◌, Text, List, [], ◌∷◌, ◌++◌, Option, none, some, ◌&&◌, ◌==◌}
use simis.Prelude.{length, take, drop, if◌then◌else◌}
use simis.Prelude.Int.{ℤ, pos, negsuc, ◌+ℤ◌, pos_part, ltb_ℤ, leb_ℤ, min_ℤ, max_ℤ}

pub record Deque : Type 0 where
  pub items : List Text

abbrev pub new_deque : Deque
new_deque = record { items = [] }

-- `s[lo:hi]`, which panics unless 0 <= lo <= hi <= len(s). (Go admits `hi` up to the capacity;
-- no caller passes more than the length.)
unfoldable pub slice {ℓ} : {A : Type ℓ} → ℤ → ℤ → List A → Option (List A)
slice lo hi xs =
    if leb_ℤ (pos 0) lo && leb_ℤ lo hi && leb_ℤ hi (pos (length xs))
    then some (take (pos_part hi - pos_part lo) (drop (pos_part lo) xs))
    else none

unfoldable pub push_front : List Text → Deque → Deque × ℕ
push_front xs d = let all = xs ++ d.items in (record { items = all }, length all)

unfoldable pub push_back : List Text → Deque → Deque × ℕ
push_back xs d = let all = d.items ++ xs in (record { items = all }, length all)

pop_first : List Text → Option Text × Deque
pop_first [] = (none, record { items = [] })
pop_first (x ∷ xs) = (some x, record { items = xs })

-- `none` for `"", false`
unfoldable pub pop_front : Deque → Option Text × Deque
unfolding pop_first
pop_front d = pop_first d.items

pop_last : List Text → Option Text × List Text
pop_last [] = (none, [])
pop_last (x ∷ []) = (some x, [])
pop_last (x ∷ y ∷ xs) = let (last, front) = pop_last (y ∷ xs) in (last, x ∷ front)

unfoldable pub pop_back : Deque → Option Text × Deque
unfolding pop_last
pop_back d = let (last, front) = pop_last d.items in (last, record { items = front })

-- A negative `n` panics in `d.data[:n]`.
unfoldable pub pop_n_front : ℤ → Deque → Option ((List Text × ℤ) × Deque)
unfolding slice
pop_n_front n d =
    let len = pos (length d.items) in
    let n' = if ltb_ℤ len n then len else n in
    elim (slice (pos 0) n' d.items) [
      | none ↦ none
      | some values ↦ some ((values, n'), record { items = drop (pos_part n') d.items })
    ]

-- An index counted from the back if it is negative, held within 0 and n - 1.
unfoldable pub clamp_index : ℤ → ℕ → ℤ
clamp_index i n =
    let i' = if ltb_ℤ i (pos 0) then pos n +ℤ i else i in
    max_ℤ (pos 0) (min_ℤ i' (pos n +ℤ negsuc 0))

unfoldable pub lrange : ℤ → ℤ → Deque → Option (List Text)
lrange left right d =
    let n = length d.items in
    if n == 0
    then some []
    else let right' = clamp_index right n in
      let left' = clamp_index left n in
      if ltb_ℤ right' left' then some [] else slice left' (right' +ℤ pos 1) d.items

unfoldable pub len : Deque → ℕ
len d = length d.items

unfoldable pub clear : Deque → Deque
clear d = record { items = [] }
