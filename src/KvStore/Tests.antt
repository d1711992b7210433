-- ===== src/KvStore/Tests.antt =====
-- The theorems on the store at concrete values.
use simis.Prelude.{
  Text, [], arith, bytes, err, false, if◌then◌else◌, lookup, none, ok, refl, some, suc, text_eq,
  true, zero, ℕ, ◌&&◌, ◌-◌, ◌^◌, ◌∷◌, ◌≡◌,
}
use simis.Prelude.Int.{ℤ, pos, negsuc}
use simis.Lru.{new_lru_tracker, access, insert_new, add_to_head, tracked}
use simis.KvStore.{
  KvStore, list_value, Limits, diverges, no_eviction, all_keys_lru, volatile_ttl, evict_while,
  evict_one, evict_named, least_ttl, put, get_value, load_or_store_list, increment_string,
  evict_loop, evict_if_needed,
}
use simis.KvStore.Values.{
  counter, get_value_lem, get_value-put, increment_string_lem, load_or_store_list_over,
}
use simis.Lru.Order.{without, Tracks}
use simis.Lru.Use.{access-Tracks, Tracks-new_lru_tracker}
use simis.KvStore.Finish.{evict_loop-all_keys_lru}
use simis.KvStore.Evict.{evict_loop_diverges}

abbrev Store : Type 0
Store = KvStore Text Text

-- "n" is the largest `int`, "l" a list until 5.
abbrev stored : Store
stored = record {
  sync_map =
      (bytes "n", counter (pos (2 ^ 63 - 1)) none)
      ∷ (
        bytes "l",
        record { value = list_value (record { items = bytes "x" ∷ [] }); ttl = some (pos 5) },
      )
      ∷ [];
  lru_tracker = access (bytes "l") (access (bytes "n") new_lru_tracker);
  total_evictions = 0;
}

abbrev unlimited : Limits
unlimited = record { max_memory = pos 0; eviction_policy = no_eviction }

abbrev tight : Limits
tight = record { max_memory = pos 10; eviction_policy = volatile_ttl }

abbrev steady : ℕ → ℤ
steady i = pos 11

room : evict_if_needed 1 steady unlimited stored ≡ ok stored
unfolding evict_if_needed
room = refl

get_value_lem_example :
    ((get_value (pos 9) (bytes "l") stored).0 ≡ none)
    × ((j : Text)
        → lookup j (get_value (pos 9) (bytes "l") stored).1.sync_map
          ≡ (if text_eq (bytes "l") j && true then none else lookup j stored.sync_map))
unfolding lookup text_eq
get_value_lem_example = get_value_lem (pos 9) (bytes "l") stored

get_value-put_example :
    (get_value (pos 9) (bytes "k") (put (bytes "k") (counter (pos 3) (some (pos 9))) stored)).0
    ≡ some (counter (pos 3) (some (pos 9)))
get_value-put_example = get_value-put (pos 9) (bytes "k") (counter (pos 3) (some (pos 9))) stored

increment_string_lem_example :
    (st' : Store) × (increment_string 1 steady unlimited (pos 9) (bytes "n") stored
      ≡ ok (ok (negsuc (2 ^ 63 - 1)), st'))
    × (lookup (bytes "n") st'.sync_map ≡ some (counter (negsuc (2 ^ 63 - 1)) none))
    × ((j : Text)
        → text_eq (bytes "n") j ≡ false
        → lookup j st'.sync_map ≡ lookup j stored.sync_map)
increment_string_lem_example =
    increment_string_lem 1 steady unlimited (pos 9) (pos (2 ^ 63 - 1)) none (bytes "n") stored
      stored room (unfold lookup text_eq in refl) (omega arith) refl

load_or_store_list_over_example :
    (st' : Store) × (load_or_store_list 1 steady unlimited (bytes "l") stored
      ≡ ok ((some (record { items = bytes "x" ∷ [] }), true), st'))
    × ((get_value (pos 9) (bytes "l") st').0 ≡ none)
load_or_store_list_over_example =
    load_or_store_list_over 1 steady unlimited (pos 9) (bytes "l") stored stored
      (record { items = bytes "x" ∷ [] }) (pos 5) room (unfold lookup text_eq in refl) refl

-- "n" alone, without an expiry
abbrev lasting_only : Store
lasting_only = record {
  sync_map = (bytes "n", counter (pos 1) none) ∷ [];
  lru_tracker = access (bytes "n") new_lru_tracker;
  total_evictions = 0;
}

one_key : tracked lasting_only.lru_tracker ≡ 1
unfolding tracked access insert_new add_to_head lookup
one_key = refl

evict_loop_diverges_example : evict_loop 1000 steady 0 tight lasting_only ≡ err diverges
evict_loop_diverges_example =
    evict_loop_diverges 1000 0 steady tight lasting_only refl (refl, tt) (omega (arith, one_key))
      (λ j. refl)

-- The memory in use goes down at the second reading.
abbrev falling : ℕ → ℤ
falling zero = pos 11
falling (suc i) = pos 9

settled : evict_loop 3 falling 0 tight lasting_only ≡ ok lasting_only
unfolding evict_loop evict_while evict_one evict_named least_ttl tracked access insert_new
    add_to_head lookup text_eq
settled = refl

abbrev by_use : Limits
by_use = record { max_memory = pos 10; eviction_policy = all_keys_lru }

lasting_only-Tracks : Tracks lasting_only.lru_tracker (bytes "n" ∷ [])
unfolding without
lasting_only-Tracks = access-Tracks Tracks-new_lru_tracker (bytes "n")

evict_loop-all_keys_lru_example :
    (st' : Store) × (evict_loop 2 steady 0 by_use lasting_only ≡ ok st')
evict_loop-all_keys_lru_example =
    evict_loop-all_keys_lru steady by_use refl 2 0 (bytes "n" ∷ []) lasting_only lasting_only-Tracks
      (omega arith)
