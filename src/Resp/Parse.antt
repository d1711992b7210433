-- ===== src/Resp/Parse.antt =====
-- The parser of internal/utils/resp.go, and the requests of internal/command/parser.go.
use simis.Prelude.{
  Text, [], if◌then◌else◌, leb, none, not, some, suc, take, zero, ℕ, ◌++◌, ◌+◌, ◌==◌, ◌^◌, ◌∷◌,
}
use simis.Prelude.Int.{ℤ, pos, negsuc}
use simis.GoText.{atoi, trim_space}
use simis.Resp.{RespValue, RespValues, bulk, nested, null, nothing, more}
use simis.Resp.Reader.{
  Reader, ParseError, no_array, bad_count, bad_bulk, bad_length, unsupported, Outcome, done, failed,
  panics, out_of_fuel, Parser, and_then, read_string, peek, read,
}

-- The number behind the first byte of a line, which is `mark`.
unfoldable pub number_behind : ℕ → ParseError → ParseError → Text → Reader → Outcome ℤ
number_behind mark no_mark no_number [] r = failed no_mark r
number_behind mark no_mark no_number (c ∷ digits) r =
    if not (c == mark)
    then failed no_mark r
    else elim (atoi digits) [ none ↦ failed no_number r | some n ↦ done n r ]

-- A line, without the space around it, and its number.
unfoldable pub read_number : ℕ → ParseError → ParseError → Parser ℤ
read_number mark no_mark no_number r =
    and_then (read_string r) (λ line. number_behind mark no_mark no_number (trim_space line))

unfoldable pub zeros : ℕ → Text
zeros zero = []
zeros (suc n) = 0 ∷ zeros n

-- `data[:strLen]` of the `strLen + 2` bytes, which are 0 where `Read` has put none
unfoldable pub bulk_data : ℕ → Parser RespValue
bulk_data n r = and_then (read (n + 2) r) (λ got. done (bulk (take n (got ++ zeros (n + 2)))))

-- A length of -1 stands for null; another negative one, or one that overflows, is a panic.
unfoldable pub bulk_behind : ℤ → Parser RespValue
bulk_behind (pos n) r = if leb (2 ^ 63) (n + 2) then panics else bulk_data n r
bulk_behind (negsuc zero) r = done null r
bulk_behind (negsuc (suc n)) r = panics

-- The branch of `$`
unfoldable pub read_bulk : Parser RespValue
read_bulk r = and_then (read_number b'$' bad_bulk bad_length r) bulk_behind

-- One element, given the parser of arrays; `c` is the byte that the reader shows.
unfoldable pub element_at : Parser RespValues → ℕ → Parser RespValue
element_at array c r =
    let inner = and_then (array r) (λ vs. done (nested vs)) in
    if c == b'*' then inner else if c == b'$' then read_bulk r else failed unsupported r

unfoldable pub element_by : Parser RespValues → Parser RespValue
element_by array r = and_then (peek r) (element_at array)

-- The elements behind the count, given their loop. A null array counts as an empty one: the two
-- differ for no reader of the result. A capacity below 0 is a panic.
unfoldable pub counted_by : (ℕ → Parser RespValues) → ℤ → Parser RespValues
counted_by elements (pos n) r = elements n r
counted_by elements (negsuc zero) r = done nothing r
counted_by elements (negsuc (suc n)) r = panics

-- `ParseRESPArrayRecursive` and its loop over the elements
unfoldable mutual
  pub parse_array : ℕ → Parser RespValues
  parse_array zero r = out_of_fuel
  parse_array (suc fuel) r =
      and_then (read_number b'*' no_array bad_count r)
        (counted_by (λ n r'. parse_elements fuel n r'))

  pub parse_elements : ℕ → ℕ → Parser RespValues
  parse_elements fuel zero r = done nothing r
  parse_elements zero (suc n) r = out_of_fuel
  parse_elements (suc fuel) (suc n) r =
      and_then (element_by (λ r'. parse_array fuel r') r)
        (λ v r'. and_then (parse_elements fuel n r') (λ vs. done (more v vs)))
