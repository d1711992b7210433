-- ===== src/GoText.antt =====
-- What the program uses of Go's `strings` and `strconv`, on the bytes of a string. `TrimSpace` is
-- modelled on ASCII white space; the two Unicode spaces below 256 come as bytes above 127 and are
-- left in place.
use simis.Prelude.{
  Bool, List, Option, Text, [], false, if◌then◌else◌, leb, ltb, none, some, suc, true, zero, ℕ, ◌%◌,
  ◌&&◌, ◌*◌, ◌++◌, ◌+◌, ◌-◌, ◌/◌, ◌==◌, ◌^◌, ◌||◌, ◌∷◌,
}
use simis.Prelude.Int.{ℤ, pos, negsuc, sub_ℕ}
pub mod Decimal
pub mod Split
pub mod Signed

unfoldable pub is_space : ℕ → Bool
is_space c = (c == 32) || (leb 9 c && leb c 13)

trim_left : Text → Text
trim_left [] = []
trim_left (c ∷ s) = let rest = trim_left s in if is_space c then rest else c ∷ s

is_empty : Text → Bool
is_empty [] = true
is_empty (c ∷ s) = false

trim_right : Text → Text
trim_right [] = []
trim_right (c ∷ s) = let rest = trim_right s in if is_space c && is_empty rest then [] else c ∷ rest

-- `strings.TrimSpace`
unfoldable pub trim_space : Text → Text
unfolding is_space trim_left is_empty trim_right
trim_space s = trim_right (trim_left s)

cons_part : ℕ → List Text → List Text
cons_part c [] = (c ∷ []) ∷ []
cons_part c (p ∷ ps) = (c ∷ p) ∷ ps

-- `strings.Split` at a separator of one byte
unfoldable pub split : ℕ → Text → List Text
unfolding cons_part
split sep [] = [] ∷ []
split sep (c ∷ s) = let rest = split sep s in if c == sep then [] ∷ rest else cons_part c rest

-- The digits after those that make `acc`; a value past 64 bits is an error.
parse_digits : ℕ → Text → Option ℕ
parse_digits acc [] = some acc
parse_digits acc (c ∷ s) =
    let rest = parse_digits (acc * 10 + (c - 48)) s in
    if leb 48 c && leb c 57 && ltb (acc * 10 + (c - 48)) (2 ^ 64) then rest else none

-- `strconv.ParseUint(s, 10, 64)`
unfoldable pub parse_uint : Text → Option ℕ
unfolding parse_digits
parse_uint [] = none
parse_uint (c ∷ s) = parse_digits 0 (c ∷ s)

-- The last `k` decimal digits of `n`, with no zeros in front.
unfoldable pub decimal : ℕ → ℕ → Text
decimal zero n = []
decimal (suc k) n =
    let rest = decimal k (n / 10) in
    if ltb n 10 then (48 + n) ∷ [] else rest ++ ((48 + n % 10) ∷ [])

-- `strconv.FormatUint(n, 10)`, `%d`: 20 digits hold every 64-bit value.
abbrev pub format_uint : ℕ → Text
format_uint n = decimal 20 n

pos_int : Option ℕ → Option ℤ
pos_int none = none
pos_int (some n) = if ltb n (2 ^ 63) then some (pos n) else none

neg_int : Option ℕ → Option ℤ
neg_int none = none
neg_int (some n) = if leb n (2 ^ 63) then some (sub_ℕ 0 n) else none

-- `strconv.Atoi`: a sign, then digits, within the range of `int`
unfoldable pub atoi : Text → Option ℤ
unfolding parse_uint pos_int neg_int
atoi [] = none
atoi (c ∷ s) =
    if c == 45
    then neg_int (parse_uint s)
    else if c == 43
    then pos_int (parse_uint s)
    else pos_int (parse_uint (c ∷ s))

-- `strconv.Itoa`
unfoldable pub itoa : ℤ → Text
itoa (pos n) = format_uint n
itoa (negsuc n) = 45 ∷ format_uint (suc n)

-- `strings.ToUpper` on ASCII
unfoldable pub to_upper : Text → Text
to_upper [] = []
to_upper (c ∷ s) = (if leb 97 c && leb c 122 then c - 32 else c) ∷ to_upper s
