-- ===== src/Resp/Within.antt =====
-- What the parts of the parser leave of their input, and that they end.
use simis.Prelude.{
  Bool-cases, Option-cases, Text, [], ap, arith, drop, inl, inr, leb, leb→le, length, length-append,
  length-drop, length-take, refl, suc, take, take-append-drop, zero, ℕ, ◌&&◌, ◌*◌, ◌++◌, ◌+◌, ◌-◌,
  ◌/◌, ◌<◌, ◌==◌, ◌^◌, ◌∷◌, ◌≡◌, ◌≤◌,
}
use simis.Prelude.Int.{ℤ, pos, negsuc}
use simis.GoText.{atoi, trim_space}
use simis.Resp.{RespValues}
use simis.Resp.Reader.{
  Reader, remaining, ParseError, Outcome, done, failed, panics, out_of_fuel, Parser, and_then,
  index_of, behind, line_to, read_string, filled, peek, read,
}
use simis.Resp.Parse.{
  number_behind, read_number, bulk_data, bulk_behind, read_bulk, element_at, element_by, counted_by,
}

abbrev reader : Text → Text → Reader
reader b u = record { buffered = b; unread = u }

abbrev pub left : Reader → ℕ
left r = length (remaining r)

-- The parser did not run out of fuel, and left at most `n` bytes.
abbrev pub Within {ℓ} : {A : Type ℓ} → ℕ → Outcome A → Type 0
Within n (done a r) = left r ≤ n
Within n (failed e r) = Unit
Within n panics = Unit
Within n out_of_fuel = ⊥

pub Within-and_then {ℓ κ} :
    {A : Type ℓ} {B : Type κ} (n m : ℕ) (o : Outcome A) (f : A → Reader → Outcome B)
    → Within n o
    → ((a : A) (r : Reader) → left r ≤ n → Within m (f a r))
    → Within m (and_then o f)
Within-and_then n m (done a r) f h k = k a r h
Within-and_then n m (failed e r) f h k = tt
Within-and_then n m panics f h k = tt
Within-and_then n m out_of_fuel f h k = absurd h

pub Within-le {ℓ} : {A : Type ℓ} (n m : ℕ) (o : Outcome A) → n ≤ m → Within n o → Within m o
Within-le n m (done a r) k h = omega arith
Within-le n m (failed e r) k h = tt
Within-le n m panics k h = tt
Within-le n m out_of_fuel k h = h

length-cut :
    (n seen : ℕ) (all : Text)
    → n ≤ seen
    → length (take (seen - n) (drop n all) ++ drop seen all) ≤ length all - n
length-cut n seen all h = omega (
  arith,
  length-append (take (seen - n) (drop n all)) (drop seen all),
  length-take (seen - n) (drop n all),
  length-drop n all,
  length-drop seen all,
)

left-behind : (n : ℕ) (r : Reader) → left (behind n r) ≤ left r - n
unfolding behind
left-behind n r = elim (Bool-cases (leb n (length r.buffered))) [
  | inl e ↦ rw e (length-cut n (length r.buffered) (remaining r) (leb→le _ _ e))
  | inr e ↦ rw e (length-cut n ((n - 1) / 4096 * 4096 + 4096) (remaining r) (omega arith))
]

-- A line that was read had a byte at least.
read_string-Within : (r : Reader) → Within (left r - 1) (read_string r)
unfolding read_string line_to
read_string-Within r = elim (Option-cases (index_of 10 (remaining r))) [
  | inl e ↦ rw e tt
  | inr (k, e) ↦ rw e (omega (arith, left-behind (k + 1) r))
]

number_behind-Within :
    (mark : ℕ) (no_mark no_number : ParseError) (s : Text) (r : Reader)
    → Within (left r) (number_behind mark no_mark no_number s r)
unfolding number_behind
number_behind-Within mark no_mark no_number [] r = tt
number_behind-Within mark no_mark no_number (c ∷ s) r = elim (Bool-cases (c == mark)) [
  | inl same ↦ elim (Option-cases (atoi s)) [
    | inl e ↦ rw (same, e) tt
    | inr (n, e) ↦ rw (same, e) (omega arith)
  ]
  | inr other ↦ rw other tt
]

pub read_number-Within :
    (mark : ℕ) (no_mark no_number : ParseError) (r : Reader)
    → Within (left r - 1) (read_number mark no_mark no_number r)
unfolding read_number
read_number-Within mark no_mark no_number r =
    Within-and_then (left r - 1) (left r - 1) (read_string r) _ (read_string-Within r) (λ line r' h.
      Within-le (left r') (left r - 1) _ h
        (number_behind-Within mark no_mark no_number (trim_space line) r'))

left-filled : (b u : Text) → left (filled (reader b u)) ≡ length (b ++ u)
unfolding filled
left-filled [] u = ap length (take-append-drop 4096 u)
left-filled (c ∷ b) u = refl

read-Within : (n : ℕ) (r : Reader) → Within (left r) (read n r)
unfolding read
read-Within n r = elim (Bool-cases (left r == 0)) [
  | inl e ↦ rw e tt
  | inr e ↦ elim (Bool-cases ((length r.buffered == 0) && leb 4096 n)) [
    | inl d ↦ rw (e, d) (omega (arith, length-drop n r.unread, length-append r.buffered r.unread))
    | inr d ↦
        rw (e, d)
          (omega (
            arith,
            length-append (drop n (filled r).buffered) (filled r).unread,
            length-drop n (filled r).buffered,
            length-append (filled r).buffered (filled r).unread,
            left-filled r.buffered r.unread,
          ))
  ]
]

-- A byte that was seen is there.
abbrev pub HasByte : Outcome ℕ → Type 0
HasByte (done c r) = 0 < left r
HasByte o = Unit

pub peek-Within :
    (b u : Text) → Within (length (b ++ u)) (peek (reader b u)) × HasByte (peek (reader b u))
unfolding peek filled
peek-Within [] [] = (tt, tt)
peek-Within [] (c ∷ u) =
    let n : length (take 4095 u ++ drop 4095 u) ≡ length u = ap length (take-append-drop 4095 u) in
    (omega arith, omega arith)
peek-Within (c ∷ b) u = (omega arith, omega arith)

bulk_data-Within : (n : ℕ) (r : Reader) → Within (left r) (bulk_data n r)
unfolding bulk_data
bulk_data-Within n r =
    Within-and_then (left r) (left r) (read (n + 2) r) _ (read-Within (n + 2) r) (λ got r' h. h)

bulk_behind-Within : (n : ℤ) (r : Reader) → Within (left r) (bulk_behind n r)
unfolding bulk_behind
bulk_behind-Within (pos n) r = elim (Bool-cases (leb (2 ^ 63) (n + 2))) [
  | inl e ↦ rw e tt
  | inr e ↦ rw e (bulk_data-Within n r)
]
bulk_behind-Within (negsuc zero) r = omega arith
bulk_behind-Within (negsuc (suc n)) r = tt

read_bulk-Within : (r : Reader) → Within (left r - 1) (read_bulk r)
unfolding read_bulk
read_bulk-Within r =
    Within-and_then (left r - 1) (left r - 1) _ bulk_behind (read_number-Within _ _ _ r)
      (λ n r' h. Within-le (left r') (left r - 1) _ h (bulk_behind-Within n r'))

abbrev ArrayWithin : Parser RespValues → ℕ → Type 0
ArrayWithin array n = (r : Reader) → 0 < left r → left r ≤ n → Within (left r - 1) (array r)

element_at-Within :
    (array : Parser RespValues) (c : ℕ) (r : Reader)
    → Within (left r - 1) (array r)
    → Within (left r - 1) (element_at array c r)
unfolding element_at
element_at-Within array c r h = elim (Bool-cases (c == b'*')) [
  | inl e ↦ rw e (Within-and_then (left r - 1) (left r - 1) (array r) _ h (λ vs r' k. k))
  | inr e ↦ elim (Bool-cases (c == b'$')) [
    | inl d ↦ rw (e, d) (read_bulk-Within r)
    | inr d ↦ rw (e, d) tt
  ]
]

-- Bytes were taken, where it did not fail.
abbrev pub Below {ℓ} : {A : Type ℓ} → ℕ → Outcome A → Type 0
Below n (done a r) = left r < n
Below n (failed e r) = Unit
Below n panics = Unit
Below n out_of_fuel = ⊥

pub Within-Below {ℓ} :
    {A : Type ℓ} (n m : ℕ) (o : Outcome A) → 0 < n → n ≤ m → Within (n - 1) o → Below m o
Within-Below n m (done a r) some_left k h = omega arith
Within-Below n m (failed e r) some_left k h = tt
Within-Below n m panics some_left k h = tt
Within-Below n m out_of_fuel some_left k h = h

abbrev pub Below-and_then {ℓ κ} :
    {A : Type ℓ} {B : Type κ} (n m : ℕ) (o : Outcome A) (f : A → Reader → Outcome B)
    → Below n o
    → ((a : A) (r : Reader) → left r < n → Within m (f a r))
    → Within m (and_then o f)
Below-and_then n m (done a r) f h k = k a r h
Below-and_then n m (failed e r) f h k = tt
Below-and_then n m panics f h k = tt
Below-and_then n m out_of_fuel f h k = absurd h

peeked-Below :
    (array : Parser RespValues) (n : ℕ) (o : Outcome ℕ)
    → ArrayWithin array n
    → Within n o
    → HasByte o
    → Below n (and_then o (element_at array))
peeked-Below array n (done c r) h k b =
    Within-Below (left r) n _ b k (element_at-Within array c r (h r b k))
peeked-Below array n (failed e r) h k b = tt
peeked-Below array n panics h k b = tt
peeked-Below array n out_of_fuel h k b = k

-- An element takes a byte at least, if an array does.
pub element_by-Below :
    (array : Parser RespValues) (r : Reader)
    → ArrayWithin array (left r)
    → Below (left r) (element_by array r)
unfolding element_by
element_by-Below array r h =
    let (k, b) = peek-Within r.buffered r.unread in peeked-Below array (left r) (peek r) h k b

pub counted_by-Within :
    (elements : ℕ → Parser RespValues) (count : ℤ) (r : Reader)
    → ((n : ℕ) → Within (left r) (elements n r))
    → Within (left r) (counted_by elements count r)
unfolding counted_by
counted_by-Within elements (pos n) r h = h n
counted_by-Within elements (negsuc zero) r h = omega arith
counted_by-Within elements (negsuc (suc n)) r h = tt
