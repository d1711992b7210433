-- ===== src/Lru/Order.antt =====
-- What a tracker stands for: the keys by their use, the last used first.
use simis.Prelude.{
  Assoc, Bool, List, Option, Text, [], false, if◌then◌else◌, length, lookup, none, some, text_eq,
  ◌||◌, ◌∷◌, ◌≡◌,
}
use simis.Lru.{LruNode, LruTracker}

unfoldable pub has : Text → List Text → Bool
has key [] = false
has key (k ∷ ks) = text_eq k key || has key ks

-- The list without a key that it has at most once.
unfoldable pub without : Text → List Text → List Text
without key [] = []
without key (k ∷ ks) = let rest = without key ks in if text_eq k key then ks else k ∷ rest

unfoldable pub IsDistinct : List Text → Type 0
IsDistinct [] = Unit
IsDistinct (k ∷ ks) = (has k ks ≡ false) × IsDistinct ks

abbrev pub node : Option Text → Option Text → LruNode
node prev next = record { prev = prev; next = next }

-- The first key of a list, or what comes behind it; the last key, or what comes in front.
unfoldable pub first_or : Option Text → List Text → Option Text
first_or back [] = back
first_or back (k ∷ ks) = some k

unfoldable pub last_or : Option Text → List Text → Option Text
last_or front [] = front
last_or front (k ∷ ks) = last_or (some k) ks

-- The nodes of the keys point to each other, from a node that comes in front to one behind.
unfoldable pub Linked : Option Text → Option Text → List Text → Assoc LruNode → Type 0
Linked front back [] nodes = Unit
Linked front back (k ∷ ks) nodes =
    (lookup k nodes ≡ some (node front (first_or back ks))) × Linked (some k) back ks nodes

-- The tracker holds exactly these keys, in this order.
pub record Tracks (t : LruTracker) (ks : List Text) : Type 0 where
  pub linked : Linked none none ks t.nodes
  pub head : t.head ≡ first_or none ks
  pub tail : t.tail ≡ last_or none ks
  pub distinct : IsDistinct ks
  pub only : (key : Text) → has key ks ≡ false → lookup key t.nodes ≡ none
  pub size : t.size ≡ length ks
