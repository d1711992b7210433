-- ===== src/Resp/Reader.antt =====
-- What the parser uses of Go's `bufio.Reader`, with its buffer of 4096 bytes, over a `bytes.Buffer`:
-- the bytes in the buffer and those that the buffer has not taken in. A parser may fail, and then
-- leaves its reader behind too.
use simis.Prelude.{
  Option, Text, [], drop, if◌then◌else◌, leb, length, none, some, suc, take, ℕ, ◌&&◌, ◌*◌, ◌++◌,
  ◌+◌, ◌-◌, ◌/◌, ◌==◌, ◌∷◌,
}
use mathlib.Core.Option

pub record Reader : Type 0 where
  pub buffered : Text
  pub unread : Text

abbrev pub buffer_size : ℕ
buffer_size = 4096

-- All that is left to read.
abbrev pub remaining : Reader → Text
remaining r = r.buffered ++ r.unread

abbrev pub new_reader : Text → Reader
new_reader input = record { buffered = []; unread = input }

pub data ParseError : Type 0 where
  end_of_data no_array bad_count bad_bulk bad_length unsupported : ParseError

-- `panics` is Go's fault at a slice or an allocation of negative size.
pub data Outcome {ℓ} (A : Type ℓ) : Type ℓ where
  done : A → Reader → Outcome A
  failed : ParseError → Reader → Outcome A
  panics out_of_fuel : Outcome A

abbrev pub Parser {ℓ} : Type ℓ → Type ℓ
Parser A = Reader → Outcome A

module _ {ℓ κ} {A : Type ℓ} {B : Type κ} where
  abbrev pub and_then : Outcome A → (A → Reader → Outcome B) → Outcome B
  and_then (done a r) f = f a r
  and_then (failed e r) f = failed e r
  and_then panics f = panics
  and_then out_of_fuel f = out_of_fuel

unfoldable pub index_of : ℕ → Text → Option ℕ
index_of c [] = none
index_of c (b ∷ s) = if b == c then some 0 else Option.map suc (index_of c s)

-- The reader behind the first `n` bytes, when the buffer was filled for the byte in front of them:
-- a full buffer is given up before the next one is filled.
unfoldable pub behind : ℕ → Reader → Reader
behind n r =
    let all = remaining r in
    let seen =
      if leb n (length r.buffered)
      then length r.buffered
      else (n - 1) / buffer_size * buffer_size + buffer_size in
    record { buffered = take (seen - n) (drop n all); unread = drop seen all }

-- `ReadString('\n')`; without a newline all is read, and the end is an error.
unfoldable pub line_to : Option ℕ → Parser Text
line_to none r = failed end_of_data (new_reader [])
line_to (some k) r = done (take (k + 1) (remaining r)) (behind (k + 1) r)

unfoldable pub read_string : Parser Text
read_string r = line_to (index_of 10 (remaining r)) r

-- The buffer takes in bytes when it is empty.
unfoldable pub filled : Reader → Reader
filled r = elim r.buffered [
  | [] ↦ record { buffered = take buffer_size r.unread; unread = drop buffer_size r.unread }
  | b ∷ s ↦ r
]

-- `Peek(1)`
unfoldable pub peek : Parser ℕ
peek r = let r' = filled r in elim r'.buffered [ [] ↦ failed end_of_data r' | b ∷ s ↦ done b r' ]

-- `Read` into `n` bytes: what the buffer has of them, or past an empty buffer, if `n` is its size
-- or more, what is left.
unfoldable pub read : ℕ → Parser Text
read n r =
    let r' = filled r in
    let direct = (length r.buffered == 0) && leb buffer_size n in
    if length (remaining r) == 0
    then failed end_of_data r
    else if direct
    then done (take n r.unread) (record { buffered = []; unread = drop n r.unread })
    else done (take n r'.buffered) (record { buffered = drop n r'.buffered; unread = r'.unread })
