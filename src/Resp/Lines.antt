-- ===== src/Resp/Lines.antt =====
-- Reading a line that is a mark, a number and the end of line.
use simis.Prelude.{
  All, All-append, Text, [], ap, append_assoc, arith, drop-append, false, leb, length,
  length-append, refl, some, sym, take, take-append, true, ℕ, ◌++◌, ◌+◌, ◌-◌, ◌<◌, ◌==◌, ◌^◌, ◌∙◌,
  ◌∷◌, ◌≡◌,
}
use simis.Prelude.Int.{pos}
use simis.GoText.{is_space, atoi, itoa, format_uint}
use simis.GoText.Split.{trim_space-line}
use simis.GoText.Decimal.{All-format_uint, IsDigit}
use simis.GoText.Signed.{atoi-itoa}
use simis.Resp.{crlf}
use simis.Resp.Reader.{
  Reader, remaining, ParseError, done, index_of, behind, line_to, read_string, filled, peek, read,
}
use simis.Resp.Parse.{number_behind, read_number}

abbrev pub reader : Text → Text → Reader
reader buffered unread = record { buffered = buffered; unread = unread }

abbrev pub IsNotNewline : ℕ → Type 0
IsNotNewline c = (c == 10) ≡ false

index_of_newline : (s t : Text) → All IsNotNewline s → index_of 10 (s ++ (10 ∷ t)) ≡ some (length s)
unfolding index_of
index_of_newline [] t h = refl
index_of_newline (c ∷ s) t h = rw (h.0, index_of_newline s t h.1)

read_string_step :
    (s t unread : Text)
    → All IsNotNewline s
    → read_string (reader (s ++ (10 ∷ t)) unread)
      ≡ done
          (take (length s + 1) ((s ++ (10 ∷ t)) ++ unread))
          (behind (length s + 1) (reader (s ++ (10 ∷ t)) unread))
unfolding read_string line_to
read_string_step s t unread h =
    let e : index_of 10 ((s ++ (10 ∷ t)) ++ unread) ≡ some (length s) =
      rw append_assoc (index_of_newline s (t ++ unread) h) in
    rw e

snoc_length : (s : Text) (c : ℕ) → length s + 1 ≡ length (s ++ (c ∷ []))
snoc_length s c = rw (length-append s (c ∷ []))

-- The reader behind the bytes at the front of its buffer.
behind_front : (s t unread : Text) → behind (length s) (reader (s ++ t) unread) ≡ reader t unread
unfolding behind
behind_front s t unread =
    let n : length (s ++ t) ≡ length s + length t = length-append s t in
    let inside : leb (length s) (length (s ++ t)) ≡ true = ground (arith, n) in
    let k : length (s ++ t) - length s ≡ length t = omega (arith, n) in
    rw (
      inside,
      k,
      drop-append (s ++ t) unread (length (s ++ t)) refl,
      append_assoc s t unread,
      drop-append s (t ++ unread) (length s) refl,
      take-append t unread (length t) refl,
    )

-- A line that the buffer has in full.
pub read_string_lem :
    (s t unread : Text)
    → All IsNotNewline s
    → read_string (reader (s ++ (10 ∷ t)) unread) ≡ done (s ++ (10 ∷ [])) (reader t unread)
unfolding behind
read_string_lem s t unread h =
    let line = s ++ (10 ∷ []) in
    let front : s ++ (10 ∷ t) ≡ line ++ t = sym (append_assoc s (10 ∷ []) t) in
    read_string_step s t unread h
    ∙ rw (
      snoc_length s 10,
      front,
      behind_front line t unread,
      append_assoc line t unread,
      take-append line (t ++ unread) (length line) refl,
    )

pub filled_front :
    (b : ℕ) (s unread : Text) → filled (reader (b ∷ s) unread) ≡ reader (b ∷ s) unread
unfolding filled
filled_front b s unread = refl

pub peek_front :
    (b : ℕ) (s unread : Text) → peek (reader (b ∷ s) unread) ≡ done b (reader (b ∷ s) unread)
unfolding peek filled
peek_front b s unread = refl

digit_plain : (c : ℕ) → IsDigit c → (is_space c ≡ false) × IsNotNewline c
unfolding is_space
digit_plain c h = ground arith

plain_digits : (n : ℕ) → All (λ c. is_space c ≡ false) (format_uint n)
plain_digits n = All-format_uint (λ c. is_space c ≡ false) (λ c h. (digit_plain c h).0) n

line_digits : (n : ℕ) → All IsNotNewline (format_uint n)
line_digits n = All-format_uint IsNotNewline (λ c h. (digit_plain c h).1) n

-- The line of a mark and a number, without the end of line.
read_line :
    (mark n : ℕ) (t unread : Text)
    → IsNotNewline mark
    → read_string (reader ((mark ∷ format_uint n) ++ (crlf ++ t)) unread)
      ≡ done ((mark ∷ format_uint n) ++ crlf) (reader t unread)
read_line mark n t unread ends =
    let digits = format_uint n in
    let line = (mark ∷ digits) ++ (13 ∷ []) in
    let whole : (mark ∷ digits) ++ (crlf ++ t) ≡ line ++ (10 ∷ t) =
      sym (append_assoc (mark ∷ digits) (13 ∷ []) (10 ∷ t)) in
    let plain : All IsNotNewline line =
      All-append IsNotNewline (mark ∷ digits) (13 ∷ []) (ends, line_digits n) (refl, tt) in
    ap (λ u. read_string (reader u unread)) whole
    ∙ read_string_lem line t unread plain
    ∙ ap (λ u. done u (reader t unread)) (append_assoc (mark ∷ digits) (13 ∷ []) (10 ∷ []))

pub itoa_pos : (n : ℕ) → itoa (pos n) ≡ format_uint n
unfolding itoa
itoa_pos n = refl

number_behind_lem :
    (mark n : ℕ) (no_mark no_number : ParseError) (r : Reader)
    → n < 2 ^ 63
    → number_behind mark no_mark no_number (mark ∷ format_uint n) r ≡ done (pos n) r
unfolding number_behind
number_behind_lem mark n no_mark no_number r small =
    let same : (mark == mark) ≡ true = ground arith in
    let value : atoi (format_uint n) ≡ some (pos n) =
      rw (itoa_pos n) at (atoi-itoa (pos n) (omega arith)) in
    rw (same, value)

-- A line with a number, as the writers write it, with the reader behind it.
pub read_number_lem :
    (mark n : ℕ) (no_mark no_number : ParseError) (t unread : Text)
    → is_space mark ≡ false
    → IsNotNewline mark
    → n < 2 ^ 63
    → read_number mark no_mark no_number (reader ((mark ∷ format_uint n) ++ (crlf ++ t)) unread)
      ≡ done (pos n) (reader t unread)
unfolding read_number
read_number_lem mark n no_mark no_number t unread plain ends small =
    rw (read_line mark n t unread ends, trim_space-line mark (format_uint n) plain (plain_digits n))
      (number_behind_lem mark n no_mark no_number (reader t unread) small)

-- Bytes that the buffer has in full.
pub read_front :
    (s t unread : Text)
    → 0 < length s
    → read (length s) (reader (s ++ t) unread) ≡ done s (reader t unread)
unfolding read
read_front [] t unread h = absurd (omega arith)
read_front (b ∷ s) t unread h =
    let some_left : (length (remaining (reader (b ∷ s ++ t) unread)) == 0) ≡ false = ground arith in
    let buffered : (length (b ∷ s ++ t) == 0) ≡ false = ground arith in
    rw (
      some_left,
      buffered,
      filled_front b (s ++ t) unread,
      take-append (b ∷ s) t (length (b ∷ s)) refl,
      drop-append (b ∷ s) t (length (b ∷ s)) refl,
    )
