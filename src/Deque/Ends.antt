-- ===== src/Deque/Ends.antt =====
-- Pushing and popping at the ends of a deque.
use simis.Prelude.{ℕ, ◌+◌, min, Text, List, [], ◌∷◌, ◌++◌, ◌≡◌, ap, refl, Option, none, some, arith}
use simis.Prelude.{length, take, drop, length-append, length-take, take-append-drop}
use simis.Prelude.Int.{pos, negsuc}
use simis.Deque.{Deque, push_front, push_back, pop_front, pop_last, pop_back, pop_n_front}

-- PopFront takes back the first string that PushFront put in front, and what is left is as if that
-- string had not been pushed; PushFront returns the new length.
pub pop_front-push_front :
    (x : Text) (xs : List Text) (d : Deque)
    → (pop_front (push_front (x ∷ xs) d).0 ≡ (some x, (push_front xs d).0))
      × ((push_front (x ∷ xs) d).1 ≡ length xs + length d.items + 1)
unfolding push_front pop_front
pop_front-push_front x xs d = (refl, omega (arith, length-append xs d.items))

pop_last-append : (xs : List Text) (x : Text) → pop_last (xs ++ (x ∷ [])) ≡ (some x, xs)
unfolding pop_last
pop_last-append [] x = refl
pop_last-append (y ∷ []) x = refl
pop_last-append (y ∷ z ∷ xs) x =
    ap (λ (p : Option Text × List Text). (p.0, y ∷ p.1)) (pop_last-append (z ∷ xs) x)

-- PopBack undoes PushBack of one string.
pub pop_back-push_back : (x : Text) (d : Deque) → pop_back (push_back (x ∷ []) d).0 ≡ (some x, d)
unfolding push_back pop_back
pop_back-push_back x d = rw (pop_last-append d.items x)

-- PopNFront with a count that is not negative does not panic: it returns the first min(n, len)
-- strings and their number, and with what stays they make up the deque.
pub pop_n_front_splits :
    (n : ℕ) (d : Deque)
    → (values : List Text) × (d' : Deque) × (pop_n_front (pos n) d
        ≡ some ((values, pos (min n (length d.items))), d'))
      × (values ++ d'.items ≡ d.items)
      × (length values ≡ min n (length d.items))
unfolding pop_n_front
pop_n_front_splits n d =
    let m = min n (length d.items) in
    (
      take m d.items,
      record { items = drop m d.items },
      ground arith,
      take-append-drop m d.items,
      omega (arith, length-take m d.items),
    )

-- PopNFront with a negative count panics on every deque.
pub pop_n_front_negative : (n : ℕ) (d : Deque) → pop_n_front (negsuc n) d ≡ none
unfolding pop_n_front
pop_n_front_negative n d = ground arith
