-- ===== src/ListPack/Entry.antt =====
-- Reading the entries of a list pack.
use simis.Prelude.{
  drop_all, List, Option, Text, ap, append_assoc, arith, drop, drop-append, err, false, get_elem?,
  if◌then◌else◌, length, length-append, ltb, lt→ltb, none, ok, refl, some, suc, sym, take,
  take-drop_middle, true, zero, ℕ, ◌++◌, ◌+◌, ◌-◌, ◌<◌, ◌==◌, ◌^◌, ◌∙◌, ◌∷◌, ◌≡◌, ◌≤◌,
}
use simis.Prelude.Int.{ℤ, pos, negsuc}
use simis.Varint.{put_uvarint, uvarint-put_uvarint}
use simis.ListPack.{
  ListPack, LpError, empty, out_of_range, encode_entry, normalize_index, offset_at, cut_payload,
  payload_behind, read_entry, get, get_from, get_all,
}
use simis.ListPack.Layout.{
  drop_at, lt_of_get_elem?, layout_at, body, Represents, body-append, length-layout, cut_at,
  get_elem?_cases,
}

cut_payload_in :
    (start n : ℕ) (content : Text)
    → start + n ≤ length content
    → length content < 2 ^ 63
    → cut_payload start n content ≡ ok (take n (drop start content))
unfolding cut_payload
cut_payload_in start n content h small = ground arith

pub length-encode_entry :
    (payload : Text)
    → length (encode_entry payload) ≡ length (put_uvarint (length payload)) + length payload
unfolding encode_entry
length-encode_entry payload = length-append (put_uvarint (length payload)) payload

pub encode_entry-append :
    (payload post : Text)
    → encode_entry payload ++ post ≡ put_uvarint (length payload) ++ (payload ++ post)
unfolding encode_entry
encode_entry-append payload post = append_assoc (put_uvarint (length payload)) payload post

-- An entry reads back as its payload, wherever it stands.
pub read_entry_in :
    (pre payload post content : Text)
    → content ≡ pre ++ (encode_entry payload ++ post)
    → length content < 2 ^ 63
    → read_entry (length pre) content ≡ ok (length (put_uvarint (length payload)), payload)
unfolding read_entry payload_behind
read_entry_in pre payload post content e small =
    let room : length pre + (length size + length payload) ≤ length content = omega (
      arith,
      ap length e,
      length-append pre (encode_entry payload ++ post),
      length-append (encode_entry payload) post,
      length_encode,
    ) in
    let inside : ltb (length content) (length pre) ≡ false = ground arith in
    rw (
      inside,
      behind,
      uvarint-put_uvarint (length payload) (payload ++ post) (omega arith),
      cut_payload_in (length pre + length size) (length payload) content (omega arith) small,
      last,
    )
  where
    size : Text
    size = put_uvarint (length payload)

    length_encode : length (encode_entry payload) ≡ length size + length payload
    length_encode = length-encode_entry payload

    behind : drop (length pre) content ≡ size ++ (payload ++ post)
    behind =
        ap (drop (length pre)) e
        ∙ drop-append pre (encode_entry payload ++ post) (length pre) refl
        ∙ encode_entry-append payload post

    split_here : content ≡ (pre ++ size) ++ (payload ++ post)
    split_here =
        e
        ∙ ap (◌++◌ pre) (encode_entry-append payload post)
        ∙ sym (append_assoc pre size (payload ++ post))

    last : take (length payload) (drop (length pre + length size) content) ≡ payload
    last =
        ap (λ c. take (length payload) (drop (length pre + length size) c)) split_here
        ∙ take-drop_middle (pre ++ size) payload post (length pre + length size)
            (sym (length-append pre size))

module _ {lp : ListPack} {ps : List Text} (r : Represents lp ps) where
  pub len_represents : length lp.offsets ≡ length ps
  len_represents = rw r.offsets (length-layout 0 ps)

  -- The entry at a place of the list starts behind the bytes of those in front of it.
  pub offset_at_represents :
      (i : ℕ) (p : Text) → get_elem? ps i ≡ some p → offset_at i lp ≡ ok (length (body (take i ps)))
  unfolding offset_at
  offset_at_represents i p h =
      let e : get_elem? lp.offsets i ≡ some (length (body (take i ps))) =
        ap (λ os. get_elem? os i) r.offsets ∙ layout_at 0 ps i p h ∙ ap some (omega arith) in
      rw (e, offset_at)

  pub content_at :
      (i : ℕ) (p : Text)
      → get_elem? ps i ≡ some p
      → lp.content ≡ body (take i ps) ++ (encode_entry p ++ body (drop (suc i) ps))
  content_at i p h =
      r.content
      ∙ ap body (cut_at ps i p h)
      ∙ body-append (take i ps) (p ∷ drop (suc i) ps)
      ∙ ap (◌++◌ (body (take i ps))) (unfold body in refl)

  pub read_entry_represents :
      (i : ℕ) (p : Text)
      → get_elem? ps i ≡ some p
      → read_entry (length (body (take i ps))) lp.content ≡ ok (length (put_uvarint (length p)), p)
  read_entry_represents i p h =
      read_entry_in (body (take i ps)) p (body (drop (suc i) ps)) lp.content (content_at i p h)
        r.small

-- Where an index points in a list of `n`: from the front, or for -(i + 1) from the back.
abbrev pub index_in : ℤ → ℕ → Option ℕ
index_in (pos i) n = if ltb i n then some i else none
index_in (negsuc i) n = if ltb i n then some (n - 1 - i) else none

pub index_in-lt : (index : ℤ) (n i : ℕ) → index_in index n ≡ some i → i < n
index_in-lt (pos j) n i h = ground arith
index_in-lt (negsuc j) n i h = ground arith

abbrev pub index_error : ℕ → LpError
index_error n = if n == 0 then empty else out_of_range

pub normalize_index_lem :
    (index : ℤ) (lp : ListPack) (n : ℕ)
    → length lp.offsets ≡ n
    → normalize_index index lp
      ≡ elim (index_in index n) [ some i ↦ ok i | none ↦ err (index_error n) ]
unfolding normalize_index
normalize_index_lem (pos i) lp n e = ground arith
normalize_index_lem (negsuc i) lp n e = ground arith

abbrev pub element : ℤ → List Text → Option Text
element index ps = elim (index_in index (length ps)) [ some i ↦ get_elem? ps i | none ↦ none ]

-- Get returns the payload at the index, which counts from the end if it is negative, and fails on
-- an empty list pack and on every other index.
pub get-Represents :
    {lp : ListPack} {ps : List Text} (index : ℤ)
    → Represents lp ps
    → get index lp
      ≡ elim (element index ps) [ some p ↦ ok p | none ↦ err (index_error (length ps)) ]
unfolding get
get-Represents {lp} {ps} index r = go (index_in index (length ps)) refl
  where
    go :
        (o : Option ℕ)
        → index_in index (length ps) ≡ o
        → get index lp
          ≡ elim (element index ps) [ some p ↦ ok p | none ↦ err (index_error (length ps)) ]
    go none e = rw (normalize_index_lem index lp (length ps) (len_represents r), e)
    go (some i) e =
        let (p, h) = get_elem?_cases ps i (index_in-lt index (length ps) i e) in
        rw (
          normalize_index_lem index lp (length ps) (len_represents r),
          e,
          offset_at_represents r i p h,
          read_entry_represents r i p h,
          h,
        )

pub get_at_place :
    {lp : ListPack} {ps : List Text} (i : ℕ) (p : Text)
    → Represents lp ps
    → get_elem? ps i ≡ some p
    → get (pos i) lp ≡ ok p
unfolding get
get_at_place {lp} {ps} i p r h =
    let inside : ltb i (length ps) ≡ true = lt→ltb i (length ps) (lt_of_get_elem? ps i p h) in
    rw (
      normalize_index_lem (pos i) lp (length ps) (len_represents r),
      inside,
      offset_at_represents r i p h,
      read_entry_represents r i p h,
    )

get_from-Represents :
    {lp : ListPack} {ps : List Text} (r : Represents lp ps) (n i : ℕ)
    → i + n ≡ length ps
    → get_from n i lp ≡ ok (drop i ps)
unfolding get_from
get_from-Represents {lp} {ps} r zero i e = ap ok (sym (drop_all ps i (omega arith)))
get_from-Represents {lp} {ps} r (suc n) i e =
    let (p, h) = get_elem?_cases ps i (omega arith) in
    let next : get_from n (i + 1) lp ≡ ok (drop (i + 1) ps) =
      get_from-Represents r n (i + 1) (omega arith) in
    rw (get_at_place i p r h, next, drop_at ps i p h)

-- GetAll returns exactly the payloads, in order.
pub get_all-Represents : {lp : ListPack} {ps : List Text} → Represents lp ps → get_all lp ≡ ok ps
unfolding get_all
get_all-Represents r = rw (len_represents r) (get_from-Represents r _ 0 (omega arith))
