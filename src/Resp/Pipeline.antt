-- ===== src/Resp/Pipeline.antt =====
-- ParseMultipleRequests on requests that arrive together, and on those that arrive in part.
use simis.Prelude.{
  All, List, Text, [], ap, arith, drop, drop_all, false, leb, length, length-append, none, refl,
  some, suc, take, take-append-drop, take-length, zero, ℕ, ◌*◌, ◌++◌, ◌+◌, ◌<◌, ◌==◌, ◌^◌, ◌∙◌, ◌∷◌,
  ◌≡◌, ◌≤◌,
}
use simis.GoText.{trim_space, to_upper, format_uint, is_space}
use simis.Resp.{
  bulk, crlf, to_bulk_string, to_resp_array, joined, bulks, array_of, flatten_resp_array,
}
use simis.Resp.Reader.{
  Reader, remaining, new_reader, done, failed, end_of_data, peek, filled, read, read_string,
  line_to, index_of,
}
use simis.Resp.Parse.{parse_array, read_bulk, bulk_behind, bulk_data, zeros, read_number}
use simis.Resp.Requests.{
  ParseCommand, command_of, add_command, next_request, loop_requests, parse_requests,
  parse_multiple_requests,
}
use simis.Resp.Lines.{reader, itoa_pos, peek_front, read_number_lem, IsNotNewline}
use simis.Resp.RoundTrip.{IsSmall, values, array_behind, parse_array-to_resp_array}

-- Commands with their arguments, and what a client sends for them.
abbrev pub Sent : Type 0
Sent = List (Text × List Text)

abbrev pub wire : Sent → Text
wire [] = []
wire ((c, args) ∷ rs) = to_resp_array (some (c ∷ args)) ++ wire rs

abbrev pub received : Sent → List ParseCommand
received [] = []
received ((c, args) ∷ rs) = record { name = to_upper (trim_space c); args = args } ∷ received rs

flatten_values : (xs : List Text) → flatten_resp_array (values xs) ≡ xs
unfolding flatten_resp_array
flatten_values [] = refl
flatten_values (s ∷ xs) = ap (◌∷◌ s) (flatten_values xs)

length-to_bulk_string : (s : Text) → length s + 3 ≤ length (to_bulk_string s)
unfolding to_bulk_string
length-to_bulk_string s = rw itoa_pos (
    omega
      (arith, length-append (format_uint (length s)) (crlf ++ (s ++ crlf)), length-append s crlf))

length-joined : (xs : List Text) → length xs ≤ length (joined (bulks xs))
unfolding joined bulks
length-joined [] = omega arith
length-joined (s ∷ xs) = omega (
  arith,
  length-append (to_bulk_string s) (joined (bulks xs)),
  length-to_bulk_string s,
  length-joined xs,
)

IsSmall-bulks : (xs : List Text) → length (joined (bulks xs)) < 2 ^ 63 → All IsSmall xs
unfolding joined bulks
IsSmall-bulks [] h = tt
IsSmall-bulks (s ∷ xs) h =
    let n = length-append (to_bulk_string s) (joined (bulks xs)) in
    (omega (arith, n, length-to_bulk_string s), IsSmall-bulks xs (omega (arith, n)))

length-to_resp_array :
    (xs : List Text) → length (joined (bulks xs)) < length (to_resp_array (some xs))
unfolding to_resp_array array_of
length-to_resp_array xs =
    rw itoa_pos (omega (arith, length-append (format_uint (length xs)) (crlf ++ joined (bulks xs))))

peek_array :
    (xs : List Text) (t unread : Text)
    → let r = reader (to_resp_array (some xs) ++ t) unread in peek r ≡ done b'*' r
peek_array xs t unread = rw (array_behind xs t, peek_front)

parse_requests_lem :
    (fuel : ℕ) (rs : Sent)
    → length (wire rs) < fuel
    → fuel < 2 ^ 63
    → parse_requests fuel (reader (wire rs) []) ≡ done (received rs) (reader [] [])
unfolding parse_requests loop_requests next_request command_of add_command
parse_requests_lem zero rs enough fits = absurd (omega arith)
parse_requests_lem (suc fuel) [] enough fits = unfold peek filled in refl
parse_requests_lem (suc fuel) ((c, args) ∷ rs) enough fits =
    let xs = c ∷ args in
    let n = length-append (to_resp_array (some xs)) (wire rs) in
    let m = length-to_resp_array xs in
    let small = IsSmall-bulks xs (omega (arith, n, m)) in
    rw (
      peek_array xs (wire rs) [],
      parse_array-to_resp_array fuel xs (wire rs) [] small (omega (arith, n, m, length-joined xs))
          (omega arith),
      flatten_values xs,
      parse_requests_lem fuel rs (omega (arith, n, m)) (omega arith),
    )

-- The first look takes the whole of a short input into the buffer.
parse_requests_filled :
    (fuel : ℕ) (input : Text)
    → length input ≤ 4096
    → parse_requests fuel (reader [] input) ≡ parse_requests fuel (reader input [])
unfolding parse_requests peek filled
parse_requests_filled zero input short = refl
parse_requests_filled (suc fuel) [] short = refl
parse_requests_filled (suc fuel) (b ∷ s) short =
    rw (take-length s 4095 (omega arith), drop_all s 4095 (omega arith))

-- ParseMultipleRequests finds in what a client has sent, if it fits the buffer, all the commands with
-- their arguments and in their order, and leaves nothing over.
pub parse_multiple_requests-wire :
    (rs : Sent)
    → length (wire rs) ≤ 4096
    → parse_multiple_requests (wire rs) ≡ done (received rs) (reader [] [])
unfolding parse_multiple_requests
parse_multiple_requests-wire rs short =
    parse_requests_filled (2 * length (wire rs) + 1) (wire rs) short
    ∙ parse_requests_lem (2 * length (wire rs) + 1) rs (omega arith) (omega arith)

index_of-none : (s : Text) → All IsNotNewline s → index_of 10 s ≡ none
unfolding index_of
index_of-none [] h = refl
index_of-none (c ∷ s) h = rw (h.0, index_of-none s h.1)

cut_array :
    (fuel : ℕ) (r : Reader)
    → All IsNotNewline (remaining r)
    → parse_array (suc fuel) r ≡ failed end_of_data (new_reader [])
unfolding parse_array read_number read_string line_to
cut_array fuel r h = rw (index_of-none (remaining r) h)

cut_requests :
    (fuel : ℕ) (b : ℕ) (s : Text)
    → All IsNotNewline (b ∷ s)
    → parse_requests (suc (suc fuel)) (reader [] (b ∷ s)) ≡ done [] (reader [] [])
unfolding parse_requests loop_requests peek filled next_request
cut_requests fuel b s h = rw (
    cut_array fuel (reader (b ∷ take 4095 s) (drop 4095 s)) (h.0, rw (take-append-drop 4095 s) h.1))

-- A request that has come without the end of its first line is dropped: neither a command nor a rest
-- is left of it.
pub parse_multiple_requests_cut :
    (input : Text) → All IsNotNewline input → parse_multiple_requests input ≡ done [] (reader [] [])
unfolding parse_multiple_requests
parse_multiple_requests_cut [] h = unfold parse_requests loop_requests peek filled in refl
parse_multiple_requests_cut (b ∷ s) h =
    let fuel : 2 * length (b ∷ s) + 1 ≡ suc (suc (2 * length s + 1)) = omega arith in
    rw fuel (cut_requests (2 * length s + 1) b s h)

take-zeros : (m n : ℕ) → m ≤ n → take m (zeros n) ≡ zeros m
unfolding zeros
take-zeros zero n h = refl
take-zeros (suc m) zero h = absurd (omega arith)
take-zeros (suc m) (suc n) h = ap (◌∷◌ 0) (take-zeros m n (omega arith))

take_past : (s u : Text) (m : ℕ) → take (length s + m) (s ++ u) ≡ s ++ take m u
take_past [] u m = ap (λ k. take k u) (omega arith)
take_past (c ∷ s) u m =
    let e : length (c ∷ s) + m ≡ suc (length s + m) = omega arith in
    rw e (ap (◌∷◌ c) (take_past s u m))

-- What the buffer has, if it is less than what is asked for.
read_all :
    (n : ℕ) (s : Text) → 0 < length s → length s ≤ n → read n (reader s []) ≡ done s (reader [] [])
unfolding read filled
read_all n [] h k = absurd (omega arith)
read_all n (b ∷ s) h k =
    let some_left : (length (remaining (reader (b ∷ s) [])) == 0) ≡ false = ground arith in
    let buffered : (length (b ∷ s) == 0) ≡ false = ground arith in
    rw (some_left, buffered, take-length (b ∷ s) n k, drop_all (b ∷ s) n k)

-- A bulk string of which only a part has come is accepted as one of full length, with zeros for what
-- is missing.
pub read_bulk_cut :
    (s t : Text)
    → IsSmall (s ++ t)
    → 0 < length s
    → read_bulk (reader ((b'$' ∷ format_uint (length (s ++ t))) ++ (crlf ++ s)) [])
      ≡ done (bulk (s ++ zeros (length t))) (reader [] [])
unfolding read_bulk bulk_behind bulk_data
read_bulk_cut s t small some_come =
    let n : length (s ++ t) ≡ length s + length t = length-append s t in
    let fits : leb (2 ^ 63) (length (s ++ t) + 2) ≡ false = ground arith in
    rw (
      read_number_lem b'$' (length (s ++ t)) _ _ s [] (unfold is_space in refl) refl (omega arith),
      fits,
      read_all (length (s ++ t) + 2) s some_come (omega (arith, n)),
      n,
      take_past s (zeros (length s + length t + 2)) (length t),
      take-zeros (length t) (length s + length t + 2) (omega arith),
    )
