-- ===== src/Stream/Append.antt =====
-- What a stream stands for, a list of entries in the order of their IDs, and that AppendEntry adds
-- to its end.
use simis.Prelude.{
  Bool-cases, List, Option, Text, [], ap, arith, false, get_elem?, get_elem?-append, injective_some,
  inl, inr, length, length-append, map, none, ok, refl, some, suc, sym, text_eq, text_eq_iff,
  text_eq_refl, true, zero, ℕ, ◌++◌, ◌+◌, ◌-◌, ◌<◌, ◌^◌, ◌∙◌, ◌∷◌, ◌≡◌, ◌≢◌, ◌⊎◌,
}
use simis.Prelude.Int.{pos, negsuc}
use native.Mathlib.Decide.{ℕ_discrete}
use mathlib.Core.List.{map-append}
use mathlib.Core.Path.{subst}
use simis.StreamId.{StreamId, IsU64, compare_id, encode_to_bytes, decode_from_bytes}
use simis.StreamId.Order.{decode_from_bytes-encode_to_bytes}
use simis.ListPack.{ListPack, append}
use simis.ListPack.Layout.{Represents, lt_of_get_elem?}
use simis.ListPack.Entry.{len_represents}
use simis.ListPack.Update.{append-Represents}
use simis.Stream.Index.{Radix}
use simis.Stream.Codec.{Entry, encode_entry}
use simis.Stream.Codec.RoundTrip.{Fresh}
use simis.Stream.{Stream, new_stream, is_after, appended, append_entry}
use simis.ListPack

-- An entry that the codec keeps: 64-bit parts, different keys, bytes that fit an `int`.
pub record IsStorable (e : Entry) : Type 0 where
  pub u64 : IsU64 e.id
  pub fresh : Fresh [] e.fields
  pub small : length (encode_entry e) < 2 ^ 63

abbrev pub last_id : List Entry → Option StreamId
last_id [] = none
last_id (e ∷ []) = some e.id
last_id (e ∷ f ∷ es) = last_id (f ∷ es)

-- The stream holds exactly the entries `es`, by rising ID, and its index has the place of each.
pub record Holds {R : Radix} (s : Stream R) (es : List Entry) : Type 0 where
  pub stored : Represents s.entries (map encode_entry es)
  pub last : s.last_stream_id ≡ last_id es
  pub storable : (i : ℕ) (e : Entry) → get_elem? es i ≡ some e → IsStorable e
  pub rising :
      (i j : ℕ) (a b : Entry)
      → get_elem? es i ≡ some a
      → get_elem? es j ≡ some b
      → i < j
      → compare_id a.id b.id ≡ negsuc 0
  pub indexed :
      (i : ℕ) (e : Entry) → get_elem? es i ≡ some e → R.find (encode_to_bytes e.id) s.index ≡ some i
  pub index_only :
      (k : Text) (i : ℕ)
      → R.find k s.index ≡ some i
      → (e : Entry) × (get_elem? es i ≡ some e) × (k ≡ encode_to_bytes e.id)

pub compare_id_trans :
    (a b c : StreamId)
    → compare_id a b ≡ negsuc 0
    → compare_id b c ≡ negsuc 0
    → compare_id a c ≡ negsuc 0
unfolding compare_id
compare_id_trans a b c h g = ground arith

pub compare_id_flip : (a b : StreamId) → compare_id a b ≡ pos 1 → compare_id b a ≡ negsuc 0
unfolding compare_id
compare_id_flip a b h = ground arith

pub compare_id_irrefl : (a : StreamId) → compare_id a a ≡ pos 0
unfolding compare_id
compare_id_irrefl a = ground arith

is_after→gt : (id last : StreamId) → is_after id (some last) ≡ true → compare_id last id ≡ negsuc 0
unfolding is_after compare_id
is_after→gt id last h = ground arith

-- A key belongs to one ID.
pub encode_to_bytes-injective :
    (a b : StreamId) → IsU64 a → IsU64 b → encode_to_bytes a ≡ encode_to_bytes b → a ≡ b
encode_to_bytes-injective a b u v e = injective_some (
    sym (decode_from_bytes-encode_to_bytes a u)
    ∙ ap decode_from_bytes e
    ∙ decode_from_bytes-encode_to_bytes b v)

-- The element at a place of a list with one more at the end.
at_end {ℓ} :
    {A : Type ℓ} (xs : List A) (x y : A) (i : ℕ)
    → get_elem? (xs ++ (x ∷ [])) i ≡ some y
    → (get_elem? xs i ≡ some y) ⊎ ((i ≡ length xs) × (x ≡ y))
at_end [] x y zero h = inr (refl, injective_some h)
at_end [] x y (suc i) h = cc
at_end (z ∷ xs) x y zero h = inl h
at_end (z ∷ xs) x y (suc i) h = elim (at_end xs x y i h) [
  | inl e ↦ inl e
  | inr (e, f) ↦ inr (ap suc e, f)
]

last_id_end : (es : List Entry) (e : Entry) → last_id (es ++ (e ∷ [])) ≡ some e.id
last_id_end [] e = refl
last_id_end (a ∷ []) e = refl
last_id_end (a ∷ b ∷ es) e = last_id_end (b ∷ es) e

-- The last ID is that of the entry at the last place.
pub last_id_at :
    (es : List Entry) (last : StreamId)
    → last_id es ≡ some last
    → (n : ℕ) × (e : Entry) × (suc n ≡ length es) × (get_elem? es n ≡ some e) × (e.id ≡ last)
last_id_at [] last h = cc
last_id_at (a ∷ []) last h = (0, a, refl, refl, injective_some h)
last_id_at (a ∷ b ∷ es) last h =
    let (n, e, p, q, r) = last_id_at (b ∷ es) last h in (suc n, e, ap suc p, q, r)

pub last_id_exists :
    (es : List Entry) (i : ℕ) (a : Entry)
    → get_elem? es i ≡ some a
    → (last : StreamId) × (last_id es ≡ some last)
last_id_exists [] i a h = cc
last_id_exists (b ∷ []) i a h = (b.id, refl)
last_id_exists (b ∷ c ∷ es) i a h = last_id_exists (c ∷ es) 0 c refl

module _ {R : Radix} {s : Stream R} {es : List Entry} (h : Holds s es) (e : Entry) where
  module _ (after : is_after e.id s.last_stream_id ≡ true) where
    below_new_last :
        (last : StreamId) → s.last_stream_id ≡ some last → compare_id last e.id ≡ negsuc 0
    below_new_last last q = is_after→gt e.id last (rw q at after)

    -- Every entry so far is below the new one.
    below_new : (i : ℕ) (a : Entry) → get_elem? es i ≡ some a → compare_id a.id e.id ≡ negsuc 0
    below_new i a at =
        let (last, q) = last_id_exists es i a at in
        let (n, b, len, bt, same) = last_id_at es last q in
        let below : compare_id b.id e.id ≡ negsuc 0 = rw same (below_new_last last (h.last ∙ q)) in
        elim (ℕ_discrete i n) [
          | yes p ↦ let ab : b ≡ a = injective_some (sym bt ∙ rw p at at) in rw (← ab) below
          | no p ↦
              compare_id_trans a.id b.id e.id
                (h.rising i n a b at bt (omega (arith, lt_of_get_elem? es i a at))) below
        ]

  -- The new entry's key is none of those that the index has.
  new_key :
      (i : ℕ) (a : Entry)
      → get_elem? es i ≡ some a
      → IsU64 e.id
      → compare_id a.id e.id ≡ negsuc 0
      → text_eq (encode_to_bytes e.id) (encode_to_bytes a.id) ≡ false
  new_key i a at u lt = elim (Bool-cases (text_eq (encode_to_bytes e.id) (encode_to_bytes a.id))) [
    | inl same ↦
        let q : e.id ≡ a.id =
          encode_to_bytes-injective e.id a.id u (h.storable i a at).u64
            ((text_eq_iff _ _).0 same) in
        let r : compare_id a.id a.id ≡ negsuc 0 = rw q at lt in cc (r, compare_id_irrefl a.id)
    | inr other ↦ other
  ]

length-map {ℓ κ} :
    {A : Type ℓ} {B : Type κ} (f : A → B) (xs : List A) → length (map f xs) ≡ length xs
length-map f [] = refl
length-map f (x ∷ xs) = ap suc (length-map f xs)

before_end {ℓ} :
    {A : Type ℓ} (xs : List A) (x y : A) (i : ℕ)
    → get_elem? xs i ≡ some y
    → get_elem? (xs ++ (x ∷ [])) i ≡ some y
before_end [] x y i h = cc
before_end (z ∷ xs) x y zero h = h
before_end (z ∷ xs) x y (suc i) h = before_end xs x y i h

module _ {R : Radix} {s : Stream R} {es : List Entry} (h : Holds s es) (e : Entry)
    (ok_entry : IsStorable e) (after : is_after e.id s.last_stream_id ≡ true)
    (room : length s.entries.content + length (ListPack.encode_entry (encode_entry e))
      < 2 ^ 63) where
  stored' : Represents (append (encode_entry e) s.entries) (map encode_entry (es ++ (e ∷ [])))
  stored' = rw map-append (append-Represents (encode_entry e) h.stored room)

  place_of_new : length (append (encode_entry e) s.entries).offsets - 1 ≡ length es
  place_of_new = omega (
    arith,
    len_represents stored',
    length-map encode_entry (es ++ (e ∷ [])),
    length-append es (e ∷ []),
  )

  rising' :
      (i j : ℕ) (a b : Entry)
      → get_elem? (es ++ (e ∷ [])) i ≡ some a
      → get_elem? (es ++ (e ∷ [])) j ≡ some b
      → i < j
      → compare_id a.id b.id ≡ negsuc 0
  rising' i j a b at bt lt = elim (at_end es e b j bt) [
    | inl bt' ↦ elim (at_end es e a i at) [
      | inl at' ↦ h.rising i j a b at' bt' lt
      | inr (p, q) ↦ absurd (omega (arith, lt_of_get_elem? es j b bt'))
    ]
    | inr (p, q) ↦ elim (at_end es e a i at) [
      | inl at' ↦ rw (← q) (below_new h e after i a at')
      | inr (p', q') ↦ absurd (omega arith)
    ]
  ]

  storable' : (i : ℕ) (a : Entry) → get_elem? (es ++ (e ∷ [])) i ≡ some a → IsStorable a
  storable' i a at = elim (at_end es e a i at) [
    | inl at' ↦ h.storable i a at'
    | inr (p, q) ↦ subst IsStorable q ok_entry
  ]

  indexed' :
      (i : ℕ) (a : Entry)
      → get_elem? (es ++ (e ∷ [])) i ≡ some a
      → R.find (encode_to_bytes a.id) (appended e s).index ≡ some i
  unfolding appended
  indexed' i a at = elim (at_end es e a i at) [
    | inl at' ↦
        rw (R.find-insert_key, new_key h e i a at' ok_entry.u64 (below_new h e after i a at'))
          (h.indexed i a at')
    | inr (p, q) ↦
        let same : text_eq (encode_to_bytes e.id) (encode_to_bytes a.id) ≡ true =
          rw q (text_eq_refl (encode_to_bytes a.id)) in
        rw (R.find-insert_key, same) (ap some (place_of_new ∙ sym p))
  ]

  index_only' :
      (k : Text) (i : ℕ)
      → R.find k (appended e s).index ≡ some i
      → (a : Entry) × (get_elem? (es ++ (e ∷ [])) i ≡ some a) × (k ≡ encode_to_bytes a.id)
  unfolding appended
  index_only' k i found = elim (Bool-cases (text_eq (encode_to_bytes e.id) k)) [
    | inl same ↦
        let at : some (length (append (encode_entry e) s.entries).offsets - 1) ≡ some i =
          rw (R.find-insert_key, same) at found in
        (
          e,
          get_elem?-append es [] e i (sym (injective_some at) ∙ place_of_new),
          sym ((text_eq_iff _ _).0 same),
        )
    | inr other ↦
        let old : R.find k s.index ≡ some i = rw (R.find-insert_key, other) at found in
        let (a, at, q) = h.index_only k i old in (a, before_end es e a i at, q)
  ]

  pub appended-Holds : Holds (appended e s) (es ++ (e ∷ []))
  unfolding appended
  appended-Holds = record {
    stored = stored';
    last = sym (last_id_end es e);
    storable = storable';
    rising = rising';
    indexed = indexed';
    index_only = index_only';
  }

  -- AppendEntry accepts an entry whose ID is above the last one, and the stream then holds it behind
  -- the entries that it held, as long as the bytes fit an `int`.
  pub append_entry-Holds : (s' : Stream R) × (append_entry e s ≡ ok s') × Holds s' (es ++ (e ∷ []))
  unfolding append_entry
  append_entry-Holds = (appended e s, rw after, appended-Holds)

-- A new stream holds nothing.
pub Holds-new_stream : (R : Radix) → Holds (new_stream R) []
Holds-new_stream R = record {
  stored = record {
    content = unfold ListPack.Layout.body in refl;
    offsets = unfold ListPack.Layout.layout in refl;
    small = omega arith;
  };
  last = refl;
  storable = λ i e at. cc;
  rising = λ i j a b at bt lt. cc;
  indexed = λ i e at. cc;
  index_only = λ k i found. absurd (not_found k i found);
}
  where
    not_found : (k : Text) (i : ℕ) → R.find k R.new ≢ some i
    not_found k i found = cc (R.find-new k, found)
