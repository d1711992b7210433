-- ===== src/Stream/Codec/RoundTrip.antt =====
-- An entry decodes to what was encoded.
use simis.Prelude.{
  Assoc, Text, [], ap, append-nil, append_assoc, ap₂, arith, drop, drop-append, false, insert,
  length, length-append, lookup, ltb, none, ok, refl, some, sym, take, take-append,
  take-drop_middle, ℕ, ◌++◌, ◌+◌, ◌<◌, ◌^◌, ◌∙◌, ◌∷◌, ◌≡◌, ◌≤◌,
}
use simis.Varint.{put_uvarint-ne-nil, put_uvarint, uvarint-put_uvarint}
use simis.StreamId.{IsU64, encode_to_bytes}
use simis.StreamId.Order.{length-encode_to_bytes, decode_from_bytes-encode_to_bytes}
use simis.Stream.Codec.{
  Entry, append_var_string, append_fields, encode_entry, string_behind, read_var_string,
  read_fields, decode_entry,
}

string_bytes : Text → Text
string_bytes s = put_uvarint (length s) ++ s

unfoldable pub field_bytes : Assoc Text → Text
unfolding string_bytes
field_bytes [] = []
field_bytes ((k, v) ∷ fs) = string_bytes k ++ (string_bytes v ++ field_bytes fs)

append_var_string_lem : (dst s : Text) → append_var_string dst s ≡ dst ++ string_bytes s
unfolding append_var_string string_bytes
append_var_string_lem dst s = append_assoc dst (put_uvarint (length s)) s

append_fields_lem : (fs : Assoc Text) (buf : Text) → append_fields buf fs ≡ buf ++ field_bytes fs
append_fields_lem [] buf = unfold append_fields field_bytes in sym (append-nil buf)
append_fields_lem ((k, v) ∷ fs) buf =
    step
    ∙ append_fields_lem fs (append_var_string (append_var_string buf k) v)
    ∙ rw (append_var_string_lem, append_var_string_lem, append_assoc, append_assoc)
        (unfold field_bytes in refl)
  where
    step :
        append_fields buf ((k, v) ∷ fs)
        ≡ append_fields (append_var_string (append_var_string buf k) v) fs
    step = unfold append_fields in refl

length-string_bytes :
    (s : Text) → length (string_bytes s) ≡ length (put_uvarint (length s)) + length s
unfolding string_bytes
length-string_bytes s = length-append (put_uvarint (length s)) s

string_behind_in :
    (b : Text) (start n len : ℕ)
    → start + n + len ≤ length b
    → length b < 2 ^ 63
    → string_behind b start (some (len, n)) ≡ ok (take len (drop (start + n) b), n + len)
unfolding string_behind
string_behind_in b start n len h small = ground arith

read_var_string_in :
    (pre s post b : Text)
    → b ≡ pre ++ (string_bytes s ++ post)
    → length b < 2 ^ 63
    → read_var_string b (length pre) ≡ ok (s, length (string_bytes s))
unfolding read_var_string
read_var_string_in pre s post b e small =
    rw (behind, uvarint-put_uvarint (length s) (s ++ post) (omega (arith, room)))
      (string_behind_in b (length pre) (length size) (length s) (omega (arith, room)) small
        ∙ ap ok (ap₂ (λ (t : Text) (n : ℕ). (t, n)) last (sym (length-string_bytes s))))
  where
    size : Text
    size = put_uvarint (length s)

    parts : string_bytes s ++ post ≡ size ++ (s ++ post)
    parts = unfold string_bytes in append_assoc size s post

    room : length b ≡ length pre + (length size + (length s + length post))
    room = omega (
      arith,
      ap length e,
      length-append pre (string_bytes s ++ post),
      length-append (string_bytes s) post,
      length-string_bytes s,
    )

    behind : drop (length pre) b ≡ size ++ (s ++ post)
    behind =
        ap (drop (length pre)) e
        ∙ drop-append pre (string_bytes s ++ post) (length pre) refl
        ∙ parts

    last : take (length s) (drop (length pre + length size) b) ≡ s
    last =
        ap (λ c. take (length s) (drop (length pre + length size) c))
          (e ∙ ap (◌++◌ pre) parts ∙ sym (append_assoc pre size (s ++ post)))
        ∙ take-drop_middle (pre ++ size) s post (length pre + length size)
            (sym (length-append pre size))

-- The keys of `fs` differ from one another and from those of `m`.
abbrev pub Fresh : Assoc Text → Assoc Text → Type 0
Fresh m [] = Unit
Fresh m ((k, v) ∷ fs) = (lookup k m ≡ none) × Fresh (m ++ ((k, v) ∷ [])) fs

insert_fresh : (k v : Text) (m : Assoc Text) → lookup k m ≡ none → insert k v m ≡ m ++ ((k, v) ∷ [])
unfolding lookup insert
insert_fresh k v [] h = refl
insert_fresh k v ((j, w) ∷ m) h = ground (arith, insert_fresh k v m)

read_fields_in :
    (fs m : Assoc Text) (pre b : Text)
    → b ≡ pre ++ field_bytes fs
    → length b < 2 ^ 63
    → Fresh m fs
    → read_fields b (length fs) (length pre) m ≡ ok (m ++ fs)
unfolding read_fields
read_fields_in [] m pre b e small f = ap ok (sym (append-nil m))
read_fields_in ((k, v) ∷ fs) m pre b e small f =
    rw (first, second, insert_fresh k v m f.0)
      (ap (λ n. read_fields b (length fs) n (m ++ ((k, v) ∷ []))) (sym here)
        ∙ read_fields_in fs (m ++ ((k, v) ∷ [])) (pre ++ (string_bytes k ++ string_bytes v)) b
            (e' ∙ simp append_assoc) small f.1
        ∙ ap ok (append_assoc m ((k, v) ∷ []) fs))
  where
    e' : b ≡ pre ++ (string_bytes k ++ (string_bytes v ++ field_bytes fs))
    e' = e ∙ unfold field_bytes in refl

    first : read_var_string b (length pre) ≡ ok (k, length (string_bytes k))
    first = read_var_string_in pre k (string_bytes v ++ field_bytes fs) b e' small

    second :
        read_var_string b (length pre + length (string_bytes k)) ≡ ok (v, length (string_bytes v))
    second =
        ap (read_var_string b) (sym (length-append pre (string_bytes k)))
        ∙ read_var_string_in (pre ++ string_bytes k) v (field_bytes fs) b
            (e' ∙ sym (append_assoc pre (string_bytes k) (string_bytes v ++ field_bytes fs))) small

    here :
        length (pre ++ (string_bytes k ++ string_bytes v))
        ≡ length pre + length (string_bytes k) + length (string_bytes v)
    here = omega (
      arith,
      length-append pre (string_bytes k ++ string_bytes v),
      length-append (string_bytes k) (string_bytes v),
    )

-- The bytes of an entry: its key, the number of fields, and the fields.
encode_entry_lem :
    (e : Entry)
    → encode_entry e
      ≡ encode_to_bytes e.id ++ (put_uvarint (length e.fields) ++ field_bytes e.fields)
unfolding encode_entry
encode_entry_lem e =
    append_fields_lem e.fields (encode_to_bytes e.id ++ put_uvarint (length e.fields))
    ∙ append_assoc (encode_to_bytes e.id) (put_uvarint (length e.fields)) (field_bytes e.fields)

-- Each field takes a byte at least.
field_bytes_cons :
    (k v : Text) (fs : Assoc Text)
    → field_bytes ((k, v) ∷ fs) ≡ string_bytes k ++ (string_bytes v ++ field_bytes fs)
unfolding field_bytes
field_bytes_cons k v fs = refl

length-le-field_bytes : (fs : Assoc Text) → length fs ≤ length (field_bytes fs)
length-le-field_bytes [] = omega arith
length-le-field_bytes ((k, v) ∷ fs) =
    let e : field_bytes ((k, v) ∷ fs) ≡ string_bytes k ++ (string_bytes v ++ field_bytes fs) =
      field_bytes_cons k v fs in
    omega (
      arith,
      ap length e,
      length-append (string_bytes k) (string_bytes v ++ field_bytes fs),
      length-append (string_bytes v) (field_bytes fs),
      length-string_bytes k,
      put_uvarint-ne-nil (length k),
      length-le-field_bytes fs,
    )

-- DecodeEntry gives back the entry that EncodeEntry wrote, with the fields in the order in which the
-- map was walked, if its keys differ, its ID has 64-bit parts and the bytes fit an `int`.
pub decode_entry-encode_entry :
    (e : Entry)
    → IsU64 e.id
    → Fresh [] e.fields
    → length (encode_entry e) < 2 ^ 63
    → decode_entry (encode_entry e) ≡ ok e
unfolding decode_entry
decode_entry-encode_entry e u f small = rw (
  long,
  id_part,
  decode_from_bytes-encode_to_bytes e.id u,
  count_part,
  uvarint-put_uvarint (length e.fields) (field_bytes e.fields)
      (omega (arith, whole, length-le-field_bytes e.fields)),
  fields_part,
)
  where
    key : Text
    key = encode_to_bytes e.id

    size : Text
    size = put_uvarint (length e.fields)

    sixteen : length key ≡ 16
    sixteen = length-encode_to_bytes e.id

    whole : length (encode_entry e) ≡ 16 + (length size + length (field_bytes e.fields))
    whole = omega (
      arith,
      ap length (encode_entry_lem e),
      length-append key (size ++ field_bytes e.fields),
      length-append size (field_bytes e.fields),
      sixteen,
    )

    long : ltb (length (encode_entry e)) 16 ≡ false
    long = ground (arith, whole)

    id_part : take 16 (encode_entry e) ≡ key
    id_part =
        ap (take 16) (encode_entry_lem e)
        ∙ take-append key (size ++ field_bytes e.fields) 16 (sym sixteen)

    count_part : drop 16 (encode_entry e) ≡ size ++ field_bytes e.fields
    count_part =
        ap (drop 16) (encode_entry_lem e)
        ∙ drop-append key (size ++ field_bytes e.fields) 16 (sym sixteen)

    fields_part : read_fields (encode_entry e) (length e.fields) (16 + length size) [] ≡ ok e.fields
    fields_part =
        ap (λ n. read_fields (encode_entry e) (length e.fields) n [])
          (omega (arith, sixteen, length-append key size))
        ∙ read_fields_in e.fields [] (key ++ size) (encode_entry e)
            (encode_entry_lem e ∙ sym (append_assoc key size (field_bytes e.fields))) small f
