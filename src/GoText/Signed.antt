-- ===== src/GoText/Signed.antt =====
-- Atoi reads what Itoa prints, for every `int`.
use simis.Prelude.{
  All, Text, [], arith, false, leb, ltb, lt→ltb, some, suc, true, ℕ, ◌<◌, ◌==◌, ◌^◌, ◌∷◌, ◌≡◌, ◌≢◌,
}
use simis.Prelude.Int.{ℤ, pos, negsuc, IsInt}
use simis.GoText.{parse_uint, atoi, itoa, format_uint, pos_int, neg_int}
use simis.GoText.Decimal.{IsDigit, decimal-IsDigit, parse_uint-format_uint}

no_digits : (n : ℕ) → parse_uint [] ≢ some n
unfolding parse_uint
no_digits n e = cc

atoi_digits :
    (t : Text) (n : ℕ) → All IsDigit t → parse_uint t ≡ some n → n < 2 ^ 63 → atoi t ≡ some (pos n)
unfolding atoi pos_int
atoi_digits [] n d e h = absurd (no_digits n e)
atoi_digits (c ∷ s) n d e h =
    let digit : IsDigit c = d.0 in
    let plain : (c == 45) ≡ false = ground arith in
    let plain' : (c == 43) ≡ false = ground arith in
    let small : ltb n (2 ^ 63) ≡ true = lt→ltb _ _ h in rw (plain, plain', e, small)

pub atoi-itoa : (v : ℤ) → IsInt v → atoi (itoa v) ≡ some v
unfolding itoa
atoi-itoa (pos n) h =
    atoi_digits (format_uint n) n (decimal-IsDigit 20 n) (parse_uint-format_uint n (omega arith))
      h.0
atoi-itoa (negsuc n) h =
    unfold atoi neg_int in
    let small : leb (suc n) (2 ^ 63) ≡ true = ground arith in
    rw (parse_uint-format_uint (suc n) (omega arith), small) (ground arith)
