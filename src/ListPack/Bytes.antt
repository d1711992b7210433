-- ===== src/ListPack/Bytes.antt =====
-- The serialised form: the entries and a footer, read back by a scan.
use simis.Prelude.{
  List, Text, [], ap, append_assoc, arith, drop, drop-append, err, false, leb, length,
  length-append, ltb, lt→ltb, ok, refl, some, suc, sym, take-append, text_eq_refl, true, zero, ℕ,
  ◌++◌, ◌+◌, ◌-◌, ◌<◌, ◌==◌, ◌^◌, ◌∙◌, ◌∷◌, ◌≡◌, ◌≤◌,
}
use simis.Varint.{groups, put_uvarint, uvarint, uvarint-put_uvarint, put_uvarint-ne-nil}
use simis.Varint.{little_endian, length-little_endian}
use simis.ListPack.{
  ListPack, diverges, encode_entry, after_length, rebuild_from, rebuild_offsets, footer_magic,
  last_or_zero, to_bytes, with_offsets, from_bytes,
}
use simis.ListPack.Layout.{body, layout, Represents, body_cons, layout_cons}
use simis.ListPack.Entry.{length-encode_entry, encode_entry-append}

after_length_in :
    (start n lb : ℕ) (content : Text)
    → start + lb + n ≤ length content
    → length content < 2 ^ 63
    → after_length start content (some (n, lb)) ≡ ok (start + lb + n)
unfolding after_length
after_length_in start n lb content h small = ground arith

rebuild_step :
    (fuel start next : ℕ) (content : Text) (rest : List ℕ)
    → start < length content
    → after_length start content (uvarint (drop start content)) ≡ ok next
    → rebuild_from fuel next content ≡ ok rest
    → rebuild_from (suc fuel) start content ≡ ok (start ∷ rest)
unfolding rebuild_from
rebuild_step fuel start next content rest h e f =
    let inside : ltb start (length content) ≡ true = ground arith in rw (inside, e, f)

rebuild_end :
    (fuel start : ℕ) (content : Text)
    → length content ≤ start
    → rebuild_from (suc fuel) start content ≡ ok []
unfolding rebuild_from
rebuild_end fuel start content h = ground arith

body_nil : body [] ≡ []
unfolding body
body_nil = refl

layout_nil : (start : ℕ) → layout start [] ≡ []
unfolding layout
layout_nil start = refl

length-le-body : (ps : List Text) → length ps ≤ length (body ps)
length-le-body [] = omega arith
length-le-body (p ∷ ps) = omega (
  arith,
  ap length (body_cons p ps),
  length-append (encode_entry p) (body ps),
  length-encode_entry p,
  put_uvarint-ne-nil (length p),
  length-le-body ps,
)

rebuild_from_entries :
    (ps : List Text) (fuel start : ℕ) (pre content : Text)
    → content ≡ pre ++ body ps
    → start ≡ length pre
    → length ps < fuel
    → length content < 2 ^ 63
    → rebuild_from fuel start content ≡ ok (layout start ps)
rebuild_from_entries ps zero start pre content e s h small = absurd (omega arith)
rebuild_from_entries [] (suc fuel) start pre content e s h small =
    rebuild_end fuel start content
      (omega (arith, ap length e, length-append pre (body []), ap length body_nil))
    ∙ ap ok (sym (layout_nil start))
rebuild_from_entries (p ∷ ps) (suc fuel) start pre content e s h small = rw layout_cons (
    rebuild_step fuel start (start + length (encode_entry p)) content _ inside next (
      rebuild_from_entries ps fuel (start + length (encode_entry p)) (pre ++ encode_entry p) content
        (e ∙ ap (◌++◌ pre) (body_cons p ps) ∙ sym (append_assoc pre (encode_entry p) (body ps)))
        (omega (arith, length-append pre (encode_entry p))) (omega arith) small))
  where
    size : Text
    size = put_uvarint (length p)

    whole : length content ≡ length pre + (length size + length p + length (body ps))
    whole = omega (
      arith,
      ap length e,
      length-append pre (body (p ∷ ps)),
      ap length (body_cons p ps),
      length-append (encode_entry p) (body ps),
      length-encode_entry p,
    )

    inside : start < length content
    inside = omega (arith, whole, put_uvarint-ne-nil (length p))

    behind : drop start content ≡ size ++ (p ++ body ps)
    behind =
        ap (drop start) e
        ∙ drop-append pre (body (p ∷ ps)) start s
        ∙ body_cons p ps
        ∙ encode_entry-append p (body ps)

    next :
        after_length start content (uvarint (drop start content))
        ≡ ok (start + length (encode_entry p))
    next =
        rw (behind, uvarint-put_uvarint (length p) (p ++ body ps) (omega (arith, whole)))
          (after_length_in start (length p) (length size) content (omega (arith, whole)) small
            ∙ ap ok (omega (arith, length-encode_entry p)))

-- The scan of `rebuildOffsets` over the bytes of a list pack ends, and finds its offsets.
pub rebuild_offsets-Represents :
    {lp : ListPack} {ps : List Text} → Represents lp ps → rebuild_offsets lp.content ≡ ok lp.offsets
unfolding rebuild_offsets
rebuild_offsets-Represents {lp} {ps} r =
    rebuild_from_entries ps (length lp.content + 1) 0 [] lp.content r.content refl
      (omega (arith, length-le-body ps, ap length r.content)) r.small
    ∙ ap ok (sym r.offsets)

footer : ListPack → Text
footer lp = little_endian 8 (length lp.offsets) ++ little_endian 8 (last_or_zero lp.offsets)

length-footer : (lp : ListPack) → length (footer lp) ≡ 16
unfolding footer
length-footer lp = omega (
  arith,
  length-append (little_endian 8 (length lp.offsets)) (little_endian 8 (last_or_zero lp.offsets)),
  length-little_endian 8 (length lp.offsets),
  length-little_endian 8 (last_or_zero lp.offsets),
)

to_bytes_lem : (lp : ListPack) → to_bytes lp ≡ lp.content ++ (footer_magic ++ footer lp)
unfolding to_bytes footer
to_bytes_lem lp = refl

length-to_bytes : (lp : ListPack) → length (to_bytes lp) ≡ length lp.content + 20
length-to_bytes lp =
    rw to_bytes_lem
      (omega (arith, length-append lp.content (footer_magic ++ footer lp), length-footer lp))

-- FromBytes reads back the list pack that Bytes wrote.
pub from_bytes-to_bytes :
    {lp : ListPack} {ps : List Text} → Represents lp ps → from_bytes (to_bytes lp) ≡ ok lp
unfolding from_bytes with_offsets
from_bytes-to_bytes {lp} {ps} r =
    let n : length (to_bytes lp) - 20 ≡ length lp.content = omega (arith, length-to_bytes lp) in
    let full : (length (to_bytes lp) == 0) ≡ false = ground (arith, length-to_bytes lp) in
    let long : leb 20 (length (to_bytes lp)) ≡ true = ground (arith, length-to_bytes lp) in
    rw (
      full,
      long,
      n,
      to_bytes_lem,
      drop-append lp.content (footer_magic ++ footer lp) (length lp.content) refl,
      take-append footer_magic (footer lp) 4 refl,
      text_eq_refl footer_magic,
      take-append lp.content (footer_magic ++ footer lp) (length lp.content) refl,
      rebuild_offsets-Represents r,
    )

-- The length 2 ^ 64 - 10, in ten bytes: as an `int` it is -10, and takes the scan back to its start.
abbrev pub back_jump : Text
back_jump = put_uvarint (2 ^ 64 - 10)

length-back_jump : length (put_uvarint (2 ^ 64 - 10)) ≡ 10
unfolding groups
length-back_jump = refl

back_jump_stays :
    (rest : Text) → after_length 0 (back_jump ++ rest) (uvarint (back_jump ++ rest)) ≡ ok 0
unfolding after_length
back_jump_stays rest =
    rw (uvarint-put_uvarint (2 ^ 64 - 10) rest (omega arith), length-back_jump) (ground arith)

-- On every input that begins with the length 2 ^ 64 - 10 the scan of `rebuildOffsets` does not end,
-- however many rounds it is given.
pub rebuild_diverges :
    (fuel : ℕ) (rest : Text) → rebuild_from fuel 0 (back_jump ++ rest) ≡ err diverges
unfolding rebuild_from
rebuild_diverges zero rest = refl
rebuild_diverges (suc fuel) rest =
    let inside : ltb 0 (length (back_jump ++ rest)) ≡ true =
      lt→ltb _ _ (omega (arith, length-append back_jump rest, put_uvarint-ne-nil (2 ^ 64 - 10))) in
    rw (inside, back_jump_stays rest, rebuild_diverges fuel rest)
