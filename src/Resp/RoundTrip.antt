-- ===== src/Resp/RoundTrip.antt =====
-- The parser reads what the writers write.
use simis.Prelude.{
  All, List, Text, [], append_assoc, arith, false, leb, length, length-append, refl, some, suc,
  take-append, zero, ℕ, ◌++◌, ◌+◌, ◌<◌, ◌^◌, ◌∷◌, ◌≡◌, ◌≤◌,
}
use simis.GoText.{format_uint, is_space}
use simis.Resp.{
  RespValues, bulk, nothing, more, crlf, to_bulk_string, to_resp_array, joined, bulks, array_of,
}
use simis.Resp.Reader.{Reader, Outcome, done}
use simis.Resp.Parse.{
  zeros, bulk_data, bulk_behind, read_bulk, parse_array, parse_elements, element_by, element_at,
  counted_by,
}
use simis.Resp.Lines.{reader, itoa_pos, read_number_lem, read_front, peek_front}

abbrev pub IsSmall : Text → Type 0
IsSmall s = length s + 2 < 2 ^ 63

bulk_data_lem :
    (s t unread : Text)
    → bulk_data (length s) (reader ((s ++ crlf) ++ t) unread) ≡ done (bulk s) (reader t unread)
unfolding bulk_data
bulk_data_lem s t unread =
    let n : length s + 2 ≡ length (s ++ crlf) = rw (length-append s crlf) in
    let got = read_front (s ++ crlf) t unread (omega (arith, n)) in
    rw (
      n,
      got,
      append_assoc s crlf (zeros (length (s ++ crlf))),
      take-append s (crlf ++ zeros (length (s ++ crlf))) (length s) refl,
    )

pub bulk_string_behind :
    (s t : Text)
    → to_bulk_string s ++ t ≡ (b'$' ∷ format_uint (length s)) ++ (crlf ++ ((s ++ crlf) ++ t))
unfolding to_bulk_string
bulk_string_behind s t = rw (
  itoa_pos,
  append_assoc (b'$' ∷ format_uint (length s)) (crlf ++ (s ++ crlf)) t,
  append_assoc crlf (s ++ crlf) t,
)

pub read_bulk_lem :
    (s t unread : Text)
    → IsSmall s
    → read_bulk (reader ((b'$' ∷ format_uint (length s)) ++ (crlf ++ ((s ++ crlf) ++ t))) unread)
      ≡ done (bulk s) (reader t unread)
unfolding read_bulk bulk_behind
read_bulk_lem s t unread small =
    let fits : leb (2 ^ 63) (length s + 2) ≡ false = ground arith in
    rw
      (
        read_number_lem b'$' (length s) _ _ ((s ++ crlf) ++ t) unread (unfold is_space in refl) refl
            (omega arith),
        fits,
      )
      (bulk_data_lem s t unread)

abbrev pub values : List Text → RespValues
values [] = nothing
values (s ∷ xs) = more (bulk s) (values xs)

element_lem :
    (array : Reader → Outcome RespValues) (s t unread : Text)
    → IsSmall s
    → element_by array (reader (to_bulk_string s ++ t) unread) ≡ done (bulk s) (reader t unread)
unfolding element_by element_at
element_lem array s t unread small =
    rw (bulk_string_behind s t, peek_front) (read_bulk_lem s t unread small)

parse_elements_lem :
    (fuel : ℕ) (xs : List Text) (t unread : Text)
    → All IsSmall xs
    → length xs ≤ fuel
    → parse_elements fuel (length xs) (reader (joined (bulks xs) ++ t) unread)
      ≡ done (values xs) (reader t unread)
unfolding parse_elements joined bulks
parse_elements_lem fuel [] t unread small enough = refl
parse_elements_lem zero (s ∷ xs) t unread small enough = absurd (omega arith)
parse_elements_lem (suc fuel) (s ∷ xs) t unread small enough = rw (
  append_assoc (to_bulk_string s) (joined (bulks xs)) t,
  element_lem _ s (joined (bulks xs) ++ t) unread small.0,
  parse_elements_lem fuel xs t unread small.1 (omega arith),
)

pub array_behind :
    (xs : List Text) (t : Text)
    → to_resp_array (some xs) ++ t
      ≡ (b'*' ∷ format_uint (length xs)) ++ (crlf ++ (joined (bulks xs) ++ t))
unfolding to_resp_array array_of
array_behind xs t =
    rw (itoa_pos, append_assoc (b'*' ∷ format_uint (length xs)) (crlf ++ joined (bulks xs)) t)

-- The parser reads from its buffer the array of bulk strings that ToRespArray wrote, and leaves what
-- comes behind it.
pub parse_array-to_resp_array :
    (fuel : ℕ) (xs : List Text) (t unread : Text)
    → All IsSmall xs
    → length xs < fuel
    → fuel < 2 ^ 63
    → parse_array fuel (reader (to_resp_array (some xs) ++ t) unread)
      ≡ done (values xs) (reader t unread)
unfolding parse_array counted_by
parse_array-to_resp_array zero xs t unread small enough fits = absurd (omega arith)
parse_array-to_resp_array (suc fuel) xs t unread small enough fits =
    rw
      (
        array_behind xs t,
        read_number_lem b'*' (length xs) _ _ (joined (bulks xs) ++ t) unread
            (unfold is_space in refl) refl (omega arith),
      )
      (parse_elements_lem fuel xs t unread small (omega arith))
