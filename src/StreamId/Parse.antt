-- ===== src/StreamId/Parse.antt =====
-- The textual form of IDs, printed and parsed.
use simis.Prelude.{
  All, All-append, List, Option, Option-cases, Result, Text, [], ap, arith, err, false, inl, inr,
  ok, refl, some, text_eq, ℕ, ◌<◌, ◌>>=◌, ◌^◌, ◌∙◌, ◌∷◌, ◌≡◌, ◌≢◌,
}
use simis.GoText.{trim_space, split, parse_uint, format_uint, is_space}
use simis.GoText.Decimal.{IsDigit, parse_uint_small, parse_uint-format_uint, All-format_uint}
use simis.GoText.Split.{split-append, split_single, trim_space_id}
use simis.StreamId.{
  StreamId, IsU64, IdError, make_id, max_uint64, to_string, uint_part, parse_bound, parse_both,
  parse_stream_id, parse_start_stream_id, parse_end_stream_id,
}

not_dash : (c : ℕ) → IsDigit c → c ≢ b'-'
not_dash c h e = absurd (omega arith)

not_space : (c : ℕ) → IsDigit c → is_space c ≡ false
unfolding is_space
not_space c h = ground arith

trim_space-format_uint : (n : ℕ) → trim_space (format_uint n) ≡ format_uint n
trim_space-format_uint n =
    trim_space_id (format_uint n) (All-format_uint (λ c. is_space c ≡ false) not_space n)

split-format_uint : (n : ℕ) → split b'-' (format_uint n) ≡ format_uint n ∷ []
split-format_uint n = split_single b'-' (format_uint n) (All-format_uint (λ c. c ≢ b'-') not_dash n)

trim_space-to_string : (id : StreamId) → trim_space (to_string id) ≡ to_string id
unfolding to_string
trim_space-to_string id = trim_space_id (to_string id) (
    All-append (λ c. is_space c ≡ false) (format_uint id.ms) (b'-' ∷ format_uint id.seq)
      (All-format_uint (λ c. is_space c ≡ false) not_space id.ms)
      (unfold is_space in refl, All-format_uint (λ c. is_space c ≡ false) not_space id.seq))

split-to_string :
    (id : StreamId) → split b'-' (to_string id) ≡ format_uint id.ms ∷ format_uint id.seq ∷ []
unfolding to_string
split-to_string id =
    split-append b'-' (format_uint id.ms) (format_uint id.seq)
      (All-format_uint (λ c. c ≢ b'-') not_dash id.ms)
    ∙ ap (◌∷◌ (format_uint id.ms)) (split-format_uint id.seq)

uint_part-format_uint : (n : ℕ) → n < 2 ^ 64 → uint_part (format_uint n) ≡ ok n
unfolding uint_part
uint_part-format_uint n h = rw (parse_uint-format_uint n h, uint_part)

-- A printed number is none of the special texts.
text_eq_digits : (s : Text) (c : ℕ) → All IsDigit s → c < 48 → text_eq s (c ∷ []) ≡ false
unfolding text_eq
text_eq_digits [] c h k = refl
text_eq_digits (d ∷ s) c h k = ground arith

text_eq_nil : (s : Text) (n : ℕ) → parse_uint s ≡ some n → text_eq s [] ≡ false
unfolding parse_uint text_eq
text_eq_nil [] n h = cc
text_eq_nil (c ∷ s) n h = refl

IsDigit-format_uint : (n : ℕ) → All IsDigit (format_uint n)
IsDigit-format_uint n = All-format_uint IsDigit (λ c h. h) n

-- ParseStreamID reads back what String prints of an ID of 64-bit parts.
pub parse_stream_id-to_string : (id : StreamId) → IsU64 id → parse_stream_id (to_string id) ≡ ok id
unfolding parse_stream_id parse_both
parse_stream_id-to_string id h = rw (
  trim_space-to_string id,
  split-to_string id,
  uint_part-format_uint id.ms h.0,
  uint_part-format_uint id.seq h.1,
)

-- A bound with its sequence number left out: ParseStartStreamID fills in 0, and ParseEndStreamID the
-- largest sequence number, so that the range takes in every ID of that millisecond.
pub bounds_of_ms :
    (n : ℕ) (last : Option StreamId)
    → n < 2 ^ 64
    → (parse_start_stream_id (format_uint n) last ≡ ok (make_id n 0))
      × (parse_end_stream_id (format_uint n) ≡ ok (make_id n max_uint64))
unfolding parse_start_stream_id parse_end_stream_id parse_bound
bounds_of_ms n last h = (
  rw (
    trim,
    empty,
    special b'$' (omega arith),
    special b'-' (omega arith),
    split-format_uint n,
    number,
  ),
  rw (trim, empty, special b'+' (omega arith), split-format_uint n, number),
)
  where
    trim : trim_space (format_uint n) ≡ format_uint n
    trim = trim_space-format_uint n

    number : uint_part (format_uint n) ≡ ok n
    number = uint_part-format_uint n h

    empty : text_eq (format_uint n) [] ≡ false
    empty = text_eq_nil (format_uint n) n (parse_uint-format_uint n h)

    special : (c : ℕ) → c < 48 → text_eq (format_uint n) (c ∷ []) ≡ false
    special c k = text_eq_digits (format_uint n) c (IsDigit-format_uint n) k

abbrev IsSmall : Result IdError ℕ → Type 0
IsSmall (ok n) = n < 2 ^ 64
IsSmall (err e) = Unit

abbrev pub FitsU64 : Result IdError StreamId → Type 0
FitsU64 (ok id) = IsU64 id
FitsU64 (err e) = Unit

uint_part-IsSmall : (s : Text) → IsSmall (uint_part s)
unfolding uint_part
uint_part-IsSmall s = elim (Option-cases (parse_uint s)) [
  | inl failed ↦ rw (failed, uint_part) tt
  | inr (n, parsed) ↦ rw (parsed, uint_part) (parse_uint_small s n parsed)
]

make_id-FitsU64 :
    (m s : Result IdError ℕ)
    → IsSmall m
    → IsSmall s
    → FitsU64 (m >>= (λ a. s >>= (λ b. ok (make_id a b))))
make_id-FitsU64 (err e) s h k = tt
make_id-FitsU64 (ok a) (err e) h k = tt
make_id-FitsU64 (ok a) (ok b) h k = (h, k)

parse_both-FitsU64 : (parts : List Text) → FitsU64 (parse_both parts)
unfolding parse_both
parse_both-FitsU64 [] = tt
parse_both-FitsU64 (a ∷ []) = tt
parse_both-FitsU64 (a ∷ b ∷ []) =
    make_id-FitsU64 (uint_part a) (uint_part b) (uint_part-IsSmall a) (uint_part-IsSmall b)
parse_both-FitsU64 (a ∷ b ∷ c ∷ parts) = tt

-- The parts of an ID that ParseStreamID reads fit 64 bits.
pub parse_stream_id-FitsU64 : (s : Text) → FitsU64 (parse_stream_id s)
unfolding parse_stream_id
parse_stream_id-FitsU64 s = parse_both-FitsU64 (split b'-' (trim_space s))
