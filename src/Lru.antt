-- ===== src/Lru.antt =====
-- internal/datastructure/lru.go: the order in which keys were used. The nodes of the doubly linked
-- list are those of the map, so that the key of a node stands for the pointer to it.
pub mod Order
pub mod Unlink
pub mod Refine
pub mod Use
mod Tests
use simis.Prelude.{
  Assoc, List, Option, Text, [], delete, insert, length, lookup, none, some, suc, zero, ℕ, ◌+◌, ◌-◌,
  ◌∷◌,
}

pub record LruNode : Type 0 where
  pub prev : Option Text
  pub next : Option Text

pub record LruTracker : Type 0 where
  pub head : Option Text
  pub tail : Option Text
  pub nodes : Assoc LruNode
  pub size : ℕ

-- `NewLRUTracker`
abbrev pub new_lru_tracker : LruTracker
new_lru_tracker = record { head = none; tail = none; nodes = []; size = 0 }

-- `node.prev = to` and `node.next = to`
unfoldable pub set_prev : Text → Option Text → Assoc LruNode → Assoc LruNode
set_prev key to nodes = elim (lookup key nodes) [
  | none ↦ nodes
  | some n ↦ insert key (record n { prev = to }) nodes
]

unfoldable pub set_next : Text → Option Text → Assoc LruNode → Assoc LruNode
set_next key to nodes = elim (lookup key nodes) [
  | none ↦ nodes
  | some n ↦ insert key (record n { next = to }) nodes
]

-- `addToHead`
unfoldable pub add_to_head : Text → LruTracker → LruTracker
add_to_head key t =
    let nodes = insert key (record { prev = none; next = t.head }) t.nodes in
    record t {
      nodes = elim t.head [ none ↦ nodes | some h ↦ set_prev h (some key) nodes ];
      head = some key;
      tail = elim t.tail [ none ↦ some key | some last ↦ some last ];
    }

-- The two halves of `removeFromList`: the neighbour in front, and the one behind.
unfoldable pub unlink_front : LruNode → LruTracker → LruTracker
unlink_front node t = elim node.prev [
  | some p ↦ record t { nodes = set_next p node.next t.nodes }
  | none ↦ record t { head = node.next }
]

unfoldable pub unlink_back : LruNode → LruTracker → LruTracker
unlink_back node t = elim node.next [
  | some n ↦ record t { nodes = set_prev n node.prev t.nodes }
  | none ↦ record t { tail = node.prev }
]

-- `removeFromList`
unfoldable pub remove_from_list : Text → LruNode → LruTracker → LruTracker
remove_from_list key node t =
    let t' = unlink_back node (unlink_front node t) in
    record t' { nodes = insert key (record { prev = none; next = none }) t'.nodes }

-- `insertNew`
unfoldable pub insert_new : Text → LruTracker → LruTracker
insert_new key t =
    let t' =
      add_to_head key
        (record t { nodes = insert key (record { prev = none; next = none }) t.nodes }) in
    record t' { size = t'.size + 1 }

-- `Access`
unfoldable pub access : Text → LruTracker → LruTracker
access key t = elim (lookup key t.nodes) [
  | some node ↦ add_to_head key (remove_from_list key node t)
  | none ↦ insert_new key t
]

-- `Remove`. The size is not 0 while a key is tracked.
unfoldable pub remove : Text → LruTracker → LruTracker
remove key t = elim (lookup key t.nodes) [
  | none ↦ t
  | some node ↦
      let t' = remove_from_list key node t in
      record t' { nodes = delete key t'.nodes; size = t'.size - 1 }
]

-- `PeekLRU` returns the key of the tail.
unfoldable pub peek_lru : LruTracker → Option Text
peek_lru t = t.tail

-- `PeekRandom`
unfoldable pub peek_random : LruTracker → Option Text
peek_random t = elim t.nodes [ [] ↦ none | (key, _) ∷ rest ↦ some key ]

-- The keys that `IterateFromLRU` goes through, from a node on, for as many nodes as there are.
unfoldable pub keys_from : ℕ → Option Text → Assoc LruNode → List Text
keys_from zero at nodes = []
keys_from (suc fuel) none nodes = []
keys_from (suc fuel) (some key) nodes =
    let rest = λ (to : Option Text). keys_from fuel to nodes in
    elim (lookup key nodes) [ none ↦ [] | some node ↦ key ∷ rest node.prev ]

unfoldable pub iterate_from_lru : LruTracker → List Text
iterate_from_lru t = keys_from (length t.nodes) t.tail t.nodes

-- `Len`
unfoldable pub tracked : LruTracker → ℕ
tracked t = t.size
