-- ===== src/Resp/Simple.antt =====
-- FromSimpleString reads what ToSimpleString writes.
use simis.Prelude.{
  Text, [], arith, drop-append, false, length, length-append, ltb, ok, refl, suc, take-append,
  text_eq_refl, ◌++◌, ◌+◌, ◌-◌, ◌∷◌, ◌≡◌,
}
use simis.Resp.{crlf, to_simple_string, from_simple_string}

-- FromSimpleString gives back the string that ToSimpleString wrote, whatever its bytes.
pub from_simple_string-to_simple_string :
    (s : Text) → from_simple_string (to_simple_string s) ≡ ok s
unfolding from_simple_string to_simple_string
from_simple_string-to_simple_string s =
    let n : length (s ++ crlf) ≡ length s + 2 = length-append s crlf in
    let long : ltb (suc (length (s ++ crlf))) 3 ≡ false = ground (arith, n) in
    let cut : suc (length (s ++ crlf)) - 2 ≡ suc (length s) = omega (arith, n) in
    let all : suc (length (s ++ crlf)) - 3 ≡ length s = omega (arith, n) in
    rw (
      long,
      cut,
      all,
      drop-append s crlf (length s) refl,
      take-append s crlf (length s) refl,
      text_eq_refl crlf,
      text_eq_refl (b'+' ∷ []),
    )
