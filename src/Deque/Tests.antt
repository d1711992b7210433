-- ===== src/Deque/Tests.antt =====
-- Runs of the deque, and its theorems at concrete values.
use simis.Prelude.{[], bytes, refl, some, ◌∷◌, ◌≡◌}
use simis.Prelude.Int.{pos, negsuc}
use simis.Deque.{Deque, push_front, pop_front, slice, clamp_index, lrange}
use simis.Deque.Ends.{pop_front-push_front}
use simis.Deque.Range.{lrange_lem}

abbrev three : Deque
three = record { items = bytes "a" ∷ bytes "b" ∷ bytes "c" ∷ [] }

lrange_runs :
    (lrange (pos 0) (negsuc 0) three ≡ some (bytes "a" ∷ bytes "b" ∷ bytes "c" ∷ []))
    × (lrange (negsuc 1) (pos 7) three ≡ some (bytes "b" ∷ bytes "c" ∷ []))
    × (lrange (pos 2) (pos 1) three ≡ some [])
unfolding lrange clamp_index slice
lrange_runs = (refl, refl, refl)

pop_front-push_front_example :
    (pop_front (push_front (bytes "x" ∷ bytes "y" ∷ []) three).0
      ≡ (some (bytes "x"), (push_front (bytes "y" ∷ []) three).0))
    × ((push_front (bytes "x" ∷ bytes "y" ∷ []) three).1 ≡ 5)
pop_front-push_front_example = pop_front-push_front (bytes "x") (bytes "y" ∷ []) three

lrange_lem_example : lrange (pos 1) (negsuc 0) three ≡ some (bytes "b" ∷ bytes "c" ∷ [])
lrange_lem_example = lrange_lem (pos 1) (negsuc 0) three
