-- ===== src/ListPack/Update.antt =====
-- Appending, inserting and deleting: what the list pack then holds.
use simis.Prelude.{
  drop_all, List, Text, [], ap, append-nil, append_assoc, arith, drop, drop-append, err, false,
  get_elem?, length, length-append, ltb, map, none, ok, refl, some, suc, sym, take, take-append,
  take-append-drop, take-length, ℕ, ◌++◌, ◌+◌, ◌-◌, ◌<◌, ◌==◌, ◌^◌, ◌∙◌, ◌∷◌, ◌≡◌, ◌≤◌,
}
use simis.Prelude.Int.{ℤ, pos, negsuc}
use native.Mathlib.Decide.{ℕ_discrete}
use simis.ListPack.{
  ListPack, encode_entry, normalize_index, append_bytes, append, insert_at_bytes, insert_index,
  insert_entry_at, insert_at, delete_at,
}
use simis.ListPack.Layout.{
  take-suc, layout_cons, body_cons, drop-layout, take-layout, body, layout, Represents, body-append,
  layout-append, layout_up, layout_down, get_elem?_cases, lt_of_get_elem?,
}
use simis.ListPack.Entry.{
  len_represents, offset_at_represents, read_entry_represents, content_at, length-encode_entry,
  index_in, index_in-lt, index_error, normalize_index_lem,
}

zero-add : (n : ℕ) → 0 + n ≡ n
zero-add n = omega arith

body_single : (p : Text) → body (p ∷ []) ≡ encode_entry p
unfolding body
body_single p = append-nil (encode_entry p)

layout_single : (start : ℕ) (p : Text) → layout start (p ∷ []) ≡ start ∷ []
unfolding layout
layout_single start p = refl

-- Append adds the payload at the end, as long as the bytes still fit an `int`.
pub append-Represents :
    {lp : ListPack} {ps : List Text} (p : Text)
    → Represents lp ps
    → length lp.content + length (encode_entry p) < 2 ^ 63
    → Represents (append p lp) (ps ++ (p ∷ []))
unfolding append append_bytes
append-Represents {lp} {ps} p r small = record {
  content = rw (body-append, body_single p, r.content);
  offsets = rw (layout-append, r.offsets, r.content, layout_single, zero-add);
  small = omega (arith, length-append lp.content (encode_entry p));
}

module _ {lp : ListPack} {ps : List Text} (r : Represents lp ps) (i : ℕ) where
  -- Where the bytes divide between the first `i` entries and the others.
  seam : ℕ
  seam = length (body (take i ps))

  content_split : lp.content ≡ body (take i ps) ++ body (drop i ps)
  content_split =
      r.content ∙ ap body (sym (take-append-drop i ps)) ∙ body-append (take i ps) (drop i ps)

  take_content : take seam lp.content ≡ body (take i ps)
  unfolding seam
  take_content = rw content_split (take-append (body (take i ps)) (body (drop i ps)) seam refl)

  drop_content : drop seam lp.content ≡ body (drop i ps)
  unfolding seam
  drop_content = rw content_split (drop-append (body (take i ps)) (body (drop i ps)) seam refl)

  take_offsets : take i lp.offsets ≡ layout 0 (take i ps)
  take_offsets = rw r.offsets (take-layout 0 i ps)

  drop_offsets : drop i lp.offsets ≡ layout seam (drop i ps)
  unfolding seam
  drop_offsets = rw r.offsets (drop-layout 0 i ps ∙ ap (λ s. layout s (drop i ps)) (zero-add seam))

  length_content : length lp.content ≡ length (body (take i ps)) + length (body (drop i ps))
  length_content = rw content_split (length-append (body (take i ps)) (body (drop i ps)))

  inserted : Text → ListPack
  inserted p = record {
    content = take seam lp.content ++ (encode_entry p ++ drop seam lp.content);
    offsets =
        take i lp.offsets ++ (seam ∷ map (λ o. o + length (encode_entry p)) (drop i lp.offsets));
  }

  inserted-Represents :
      (p : Text)
      → length lp.content + length (encode_entry p) < 2 ^ 63
      → Represents (inserted p) (take i ps ++ (p ∷ drop i ps))
  unfolding inserted
  inserted-Represents p small = record {
    content = rw (take_content, drop_content, body-append, body_cons);
    offsets =
        rw
          (
            take_offsets,
            drop_offsets,
            layout_up seam (length (encode_entry p)) (drop i ps),
            layout-append,
            layout_cons,
            zero-add,
          )
          (unfold seam in refl);
    small =
        rw (take_content, drop_content, length-append, length-append)
          (omega (arith, length_content));
  }

  inserted_eq :
      (p q : Text)
      → get_elem? ps i ≡ some q
      → insert_at_bytes i (encode_entry p) lp ≡ ok (inserted p)
  unfolding insert_at_bytes inserted
  inserted_eq p q h =
      let inside : (i == length lp.offsets) ≡ false =
        ground (arith, len_represents r, lt_of_get_elem? ps i q h) in
      rw (inside, offset_at_represents r i q h) (unfold seam in refl)

  deleted : Text → ListPack
  deleted p = record {
    content = take seam lp.content ++ drop (seam + length (encode_entry p)) lp.content;
    offsets = take i lp.offsets ++ map (λ o. o - length (encode_entry p)) (drop (suc i) lp.offsets);
  }

  module _ (p : Text) (h : get_elem? ps i ≡ some p) where
    seam-suc : length (body (take (suc i) ps)) ≡ seam + length (encode_entry p)
    unfolding seam
    seam-suc = rw (take-suc ps i p h, body-append, body_single, length-append)

    drop_content_suc : drop (seam + length (encode_entry p)) lp.content ≡ body (drop (suc i) ps)
    unfolding seam
    drop_content_suc =
        rw (content_at r i p h, ← append_assoc)
          (drop-append (body (take i ps) ++ encode_entry p) (body (drop (suc i) ps)) _
            (sym (length-append (body (take i ps)) (encode_entry p))))

    drop_offsets_suc :
        drop (suc i) lp.offsets ≡ layout (seam + length (encode_entry p)) (drop (suc i) ps)
    drop_offsets_suc = rw r.offsets (
        drop-layout 0 (suc i) ps
        ∙ ap (λ s. layout s (drop (suc i) ps))
            (zero-add (length (body (take (suc i) ps))) ∙ seam-suc))

    deleted-Represents : Represents (deleted p) (take i ps ++ drop (suc i) ps)
    unfolding deleted
    deleted-Represents = record {
      content = rw (take_content, drop_content_suc, body-append);
      offsets =
          rw
            (
              take_offsets,
              drop_offsets_suc,
              layout_down seam (length (encode_entry p)) (drop (suc i) ps),
              layout-append,
              zero-add,
            )
            (unfold seam in refl);
      small =
          rw (take_content, drop_content_suc, length-append)
            (omega (
              arith,
              r.small,
              ap length (content_at r i p h),
              length-append (body (take i ps)) (encode_entry p ++ body (drop (suc i) ps)),
              length-append (encode_entry p) (body (drop (suc i) ps)),
            ));
    }

-- The place before which InsertAt inserts in a list of `n`: -1 is behind the last, and an index
-- before the first place is the first place.
abbrev pub insert_place : ℤ → ℕ → ℕ
insert_place (pos i) n = i
insert_place (negsuc i) n = n - i

insert_index_lem :
    (index : ℤ) (lp : ListPack) (n : ℕ)
    → length lp.offsets ≡ n
    → insert_index index lp ≡ pos (insert_place index n)
unfolding insert_index
insert_index_lem (pos i) lp n e = ground arith
insert_index_lem (negsuc i) lp n e = ground arith

insert_entry_at_lem :
    (index : ℤ) (i : ℕ) (entry : Text) (lp : ListPack)
    → insert_index index lp ≡ pos i
    → i ≤ length lp.offsets
    → insert_entry_at index entry lp ≡ insert_at_bytes i entry lp
unfolding insert_entry_at
insert_entry_at_lem index i entry lp e h =
    let inside : ltb (length lp.offsets) i ≡ false = ground arith in
    let inside' : ltb (length lp.offsets + 0) (i + 0) ≡ false = ground arith in rw e (ground arith)

insert_at_end :
    (lp : ListPack) (p : Text) (i : ℕ)
    → i ≡ length lp.offsets
    → insert_at_bytes i (encode_entry p) lp ≡ ok (append p lp)
unfolding insert_at_bytes append append_bytes
insert_at_end lp p i e = ground arith

-- InsertAt puts the payload at its place, and the payloads from there on come behind it; this for
-- every index whose place is within the list or right behind it, as long as the bytes still fit.
pub insert_at-Represents :
    {lp : ListPack} {ps : List Text} (index : ℤ) (p : Text)
    → Represents lp ps
    → insert_place index (length ps) ≤ length ps
    → length lp.content + length (encode_entry p) < 2 ^ 63
    → let i = insert_place index (length ps) in
      (lp' : ListPack) × (insert_at index p lp ≡ ok lp')
      × Represents lp' (take i ps ++ (p ∷ drop i ps))
unfolding insert_at
insert_at-Represents {lp} {ps} index p r h small =
    let i = insert_place index (length ps) in
    let step : insert_entry_at index (encode_entry p) lp ≡ insert_at_bytes i (encode_entry p) lp =
      insert_entry_at_lem index i (encode_entry p) lp
        (insert_index_lem index lp (length ps) (len_represents r))
        (omega (arith, len_represents r)) in
    elim (ℕ_discrete i (length ps)) [
      | yes end ↦ (
        append p lp,
        step ∙ insert_at_end lp p i (end ∙ sym (len_represents r)),
        rw (take-length ps i (omega arith), drop_all ps i (omega arith))
            (append-Represents p r small),
      )
      | no inside ↦
          let (q, at) = get_elem?_cases ps i (omega arith) in
          (inserted r i p, step ∙ inserted_eq r i p q at, inserted-Represents r i p small)
    ]

-- DeleteAt returns the payload at the index and leaves the others in their order.
pub delete_at-Represents :
    {lp : ListPack} {ps : List Text} (index : ℤ) (i : ℕ)
    → Represents lp ps
    → index_in index (length ps) ≡ some i
    → (p : Text) × (lp' : ListPack) × (delete_at index lp ≡ ok (p, lp'))
      × (get_elem? ps i ≡ some p)
      × Represents lp' (take i ps ++ drop (suc i) ps)
unfolding delete_at
delete_at-Represents {lp} {ps} index i r e =
    let (p, h) = get_elem?_cases ps i (index_in-lt index (length ps) i e) in
    let place : normalize_index index lp ≡ ok i =
      rw (normalize_index_lem index lp (length ps) (len_represents r), e) in
    (
      p,
      deleted r i p,
      rw
          (
            place,
            offset_at_represents r i p h,
            read_entry_represents r i p h,
            ← length-encode_entry p,
          )
          (unfold deleted seam in refl),
      h,
      deleted-Represents r i p h,
    )

-- On an index that points nowhere DeleteAt fails as Get does.
pub delete_at_fails :
    {lp : ListPack} {ps : List Text} (index : ℤ)
    → Represents lp ps
    → index_in index (length ps) ≡ none
    → delete_at index lp ≡ err (index_error (length ps))
unfolding delete_at
delete_at_fails {lp} {ps} index r e =
    rw (normalize_index_lem index lp (length ps) (len_represents r), e)
