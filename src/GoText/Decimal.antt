-- ===== src/GoText/Decimal.antt =====
-- Printing a number and reading it back.
use simis.Prelude.{
  All, List, Option, Text, [], ap, arith, injective_some, length, length-append, none, refl, some,
  suc, zero, ℕ, ◌%◌, ◌*◌, ◌++◌, ◌+◌, ◌-◌, ◌/◌, ◌<◌, ◌^◌, ◌∷◌, ◌≡◌, ◌≢◌, ◌≤◌,
}
use native.Mathlib.Nat.{pow-suc}
use native.Mathlib.Decide.{dec_lt}
use simis.GoText.{parse_digits, parse_uint, decimal, format_uint}

abbrev pub IsDigit : ℕ → Type 0
IsDigit c = (48 ≤ c) × (c ≤ 57)

abbrev after : Option ℕ → Text → Option ℕ
after none s = none
after (some n) s = parse_digits n s

parse_digits-append :
    (acc : ℕ) (s t : Text) → parse_digits acc (s ++ t) ≡ after (parse_digits acc s) t
unfolding parse_digits
parse_digits-append acc [] t = refl
parse_digits-append acc (c ∷ s) t = ground (arith, parse_digits-append (acc * 10 + (c - 48)) s t)

last_digit :
    (n acc : ℕ) → n < 2 ^ 64 → acc ≡ n / 10 → parse_digits acc ((48 + n % 10) ∷ []) ≡ some n
unfolding parse_digits
last_digit n acc h e = ground arith

tenth : (n p : ℕ) → n < p * 10 → n / 10 < p
tenth n p h = omega arith

decimal_small : (k n : ℕ) → n < 10 → decimal (suc k) n ≡ (48 + n) ∷ []
unfolding decimal
decimal_small k n h = ground arith

decimal_step : (k n : ℕ) → 10 ≤ n → decimal (suc k) n ≡ decimal k (n / 10) ++ ((48 + n % 10) ∷ [])
unfolding decimal
decimal_step k n h = ground arith

one_digit : (n : ℕ) → n < 10 → parse_digits 0 ((48 + n) ∷ []) ≡ some n
unfolding parse_digits
one_digit n h = ground arith

parse_digits-decimal :
    (k n : ℕ) → n < 10 ^ suc k → n < 2 ^ 64 → parse_digits 0 (decimal (suc k) n) ≡ some n
parse_digits-decimal zero n h b =
    rw (decimal_small zero n (omega arith)) (one_digit n (omega arith))
parse_digits-decimal (suc k) n h b = elim (dec_lt n 10) [
  | yes small ↦ rw (decimal_small (suc k) n small) (one_digit n small)
  | no big ↦
      rw
        (
          decimal_step (suc k) n (omega arith),
          parse_digits-append,
          parse_digits-decimal k (n / 10) (tenth n (10 ^ suc k) (rw pow-suc at h)) (omega arith),
        )
        (last_digit n (n / 10) b refl)
]

All-append {ℓ} :
    {A : Type ℓ} (P : A → Type 0) (xs ys : List A) → All P xs → All P ys → All P (xs ++ ys)
All-append P [] ys h k = k
All-append P (x ∷ xs) ys h k = (h.0, All-append P xs ys h.1 k)

pub decimal-IsDigit : (k n : ℕ) → All IsDigit (decimal k n)
decimal-IsDigit zero n = unfold decimal in tt
decimal-IsDigit (suc k) n = elim (dec_lt n 10) [
  | yes small ↦ rw (decimal_small k n small) (omega arith)
  | no big ↦
      rw (decimal_step k n (omega arith))
        (All-append IsDigit (decimal k (n / 10)) _ (decimal-IsDigit k (n / 10)) (omega arith))
]

-- a digit at least, so that ParseUint does not see the empty text
parse_uint_of_digits :
    (s : Text) (n : ℕ) → s ≢ [] → parse_digits 0 s ≡ some n → parse_uint s ≡ some n
unfolding parse_uint
parse_uint_of_digits [] n h e = absurd (h refl)
parse_uint_of_digits (c ∷ s) n h e = e

decimal-ne-nil : (k n : ℕ) → decimal (suc k) n ≢ []
decimal-ne-nil k n e = elim (dec_lt n 10) [
  | yes small ↦ cc (decimal_small k n small, e)
  | no big ↦ absurd (
      omega (
        arith,
        ap length (decimal_step k n (omega arith)),
        ap length e,
        length-append (decimal k (n / 10)) ((48 + n % 10) ∷ []),
      ))
]

-- What `%d` prints of a 64-bit number, ParseUint reads back.
pub parse_uint-format_uint : (n : ℕ) → n < 2 ^ 64 → parse_uint (format_uint n) ≡ some n
parse_uint-format_uint n h =
    parse_uint_of_digits (decimal 20 n) n (decimal-ne-nil 19 n)
      (parse_digits-decimal 19 n (omega arith) h)

parse_digits-lt : (s : Text) (acc n : ℕ) → acc < 2 ^ 64 → parse_digits acc s ≡ some n → n < 2 ^ 64
unfolding parse_digits
parse_digits-lt [] acc n b e = ground arith
parse_digits-lt (c ∷ s) acc n b e = ground (arith, parse_digits-lt s (acc * 10 + (c - 48)) n)

-- A number that ParseUint accepts fits 64 bits.
pub parse_uint-lt : (s : Text) (n : ℕ) → parse_uint s ≡ some n → n < 2 ^ 64
unfolding parse_uint
parse_uint-lt [] n e = cc
parse_uint-lt (c ∷ s) n e = parse_digits-lt (c ∷ s) 0 n (omega arith) e

-- What the printed number holds is no separator and no white space.
module _ (P : ℕ → Type 0) (digit : (c : ℕ) → IsDigit c → P c) where
  All-of_digits : (s : Text) → All IsDigit s → All P s
  All-of_digits [] h = tt
  All-of_digits (c ∷ s) h = (digit c h.0, All-of_digits s h.1)

  pub All-format_uint : (n : ℕ) → All P (format_uint n)
  All-format_uint n = All-of_digits (decimal 20 n) (decimal-IsDigit 20 n)

parse_digits_small :
    (acc : ℕ) (s : Text) (n : ℕ) → acc < 2 ^ 64 → parse_digits acc s ≡ some n → n < 2 ^ 64
unfolding parse_digits
parse_digits_small acc [] n h e = let q : acc ≡ n = injective_some e in omega arith
parse_digits_small acc (c ∷ s) n h e = ground (arith, parse_digits_small (acc * 10 + (c - 48)) s n)

-- A number that parses fits 64 bits.
pub parse_uint_small : (s : Text) (n : ℕ) → parse_uint s ≡ some n → n < 2 ^ 64
unfolding parse_uint
parse_uint_small [] n e = cc
parse_uint_small (c ∷ s) n e = parse_digits_small 0 (c ∷ s) n (omega arith) e
