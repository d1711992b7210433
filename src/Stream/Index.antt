-- ===== src/Stream/Index.antt =====
-- The index of a stream, `radix.Tree[int]` of github.com/hashicorp/go-immutable-radix: a parameter
-- of the model. Its documented behaviour: `Insert` sets the value of one key, and an iterator that
-- is sent to a lower bound gives next the first key, in byte order, that is not below the bound.
use simis.Prelude.{Option, Text, if◌then◌else◌, none, some, text_eq, true, ℕ, ◌≡◌}
use simis.Prelude.Int.{pos, leb_ℤ}
use simis.StreamId.Order.{compare_bytes}

-- `bytes.Compare(a, b) <= 0`
abbrev pub IsBelowOrEq : Text → Text → Type 0
IsBelowOrEq a b = leb_ℤ (compare_bytes a b) (pos 0) ≡ true

pub record Radix : Type 1 where
  pub Tree : Type 0
  pub new : Tree
  -- the value under a key
  pub find : Text → Tree → Option ℕ
  pub insert_key : Text → ℕ → Tree → Tree
  -- `Root().Iterator()`, `SeekLowerBound(k)`, `Next()`
  pub seek : Text → Tree → Option (Text × ℕ)
  pub find-new : (k : Text) → find k new ≡ none
  pub find-insert_key :
      (k j : Text) (v : ℕ) (t : Tree)
      → find j (insert_key k v t) ≡ (if text_eq k j then some v else find j t)
  pub seek_found :
      (k j : Text) (v : ℕ) (t : Tree)
      → seek k t ≡ some (j, v)
      → (find j t ≡ some v)
        × IsBelowOrEq k j
        × ((i : Text) (w : ℕ) → find i t ≡ some w → IsBelowOrEq k i → IsBelowOrEq j i)
  pub seek_end :
      (k i : Text) (w : ℕ) (t : Tree) → seek k t ≡ none → find i t ≡ some w → ¬ (IsBelowOrEq k i)
