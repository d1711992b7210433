-- ===== src/Lru/Tests.antt =====
-- The theorems on the tracker at concrete keys.
use simis.Prelude.{[], bytes, text_eq, ◌∷◌}
use simis.Lru.{LruTracker, new_lru_tracker, access, remove}
use simis.Lru.Order.{without, Tracks}
use simis.Lru.Use.{access-Tracks, remove-Tracks, Tracks-new_lru_tracker}

-- "a", "b" and "c", used in this order
abbrev three : LruTracker
three = access (bytes "c") (access (bytes "b") (access (bytes "a") new_lru_tracker))

three-Tracks : Tracks three (bytes "c" ∷ bytes "b" ∷ bytes "a" ∷ [])
unfolding without text_eq
three-Tracks =
    access-Tracks (access-Tracks (access-Tracks Tracks-new_lru_tracker (bytes "a")) (bytes "b"))
      (bytes "c")

access-Tracks_example : Tracks (access (bytes "a") three) (bytes "a" ∷ bytes "c" ∷ bytes "b" ∷ [])
unfolding without text_eq
access-Tracks_example = access-Tracks three-Tracks (bytes "a")

remove-Tracks_example : Tracks (remove (bytes "b") three) (bytes "c" ∷ bytes "a" ∷ [])
unfolding without text_eq
remove-Tracks_example = remove-Tracks three-Tracks (bytes "b")
