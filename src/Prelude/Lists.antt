-- ===== src/Prelude/Lists.antt =====
-- Lists measured and cut by native numbers, under the library's names.
use Prim.Native.Nat.{ℕ, zero, suc, ◌+◌, ◌-◌, ◌≤◌, ◌<◌, min}
use mathlib.Core.Path.{◌≡◌, refl, ap}
use mathlib.Core.List.{List, [], ◌∷◌, ◌++◌}
use mathlib.Core.Option.{Option, none, some}
use native.Mathlib.Omega.{arith}

module _ {ℓ} {A : Type ℓ} where
  abbrev pub length : List A → ℕ
  length [] = 0
  length (x ∷ xs) = suc (length xs)

  abbrev pub get_elem? : List A → ℕ → Option A
  get_elem? [] i = none
  get_elem? (x ∷ xs) zero = some x
  get_elem? (x ∷ xs) (suc i) = get_elem? xs i

  abbrev pub take : ℕ → List A → List A
  take zero xs = []
  take (suc n) [] = []
  take (suc n) (x ∷ xs) = x ∷ take n xs

  abbrev pub drop : ℕ → List A → List A
  drop zero xs = xs
  drop (suc n) [] = []
  drop (suc n) (x ∷ xs) = drop n xs

  abbrev pub All {κ} : (A → Type κ) → List A → Type κ
  All P [] = Unit {κ}
  All P (x ∷ xs) = P x × All P xs

module _ {ℓ} {A : Type ℓ} where
  pub length-append : (xs ys : List A) → length (xs ++ ys) ≡ length xs + length ys
  length-append [] ys = omega arith
  length-append (x ∷ xs) ys = omega (arith, length-append xs ys)

  pub take-append-drop : (n : ℕ) (xs : List A) → take n xs ++ drop n xs ≡ xs
  take-append-drop zero xs = refl
  take-append-drop (suc n) [] = refl
  take-append-drop (suc n) (x ∷ xs) = ap (◌∷◌ x) (take-append-drop n xs)

  pub length-take : (n : ℕ) (xs : List A) → length (take n xs) ≡ min n (length xs)
  length-take zero xs = omega arith
  length-take (suc n) [] = omega arith
  length-take (suc n) (x ∷ xs) = omega (arith, length-take n xs)

  pub length-drop : (n : ℕ) (xs : List A) → length (drop n xs) ≡ length xs - n
  length-drop zero xs = omega arith
  length-drop (suc n) [] = omega arith
  length-drop (suc n) (x ∷ xs) = omega (arith, length-drop n xs)

  -- Cutting at the seam of an append; the length is a variable, so that any equal number serves.
  pub take-append : (xs ys : List A) (n : ℕ) → n ≡ length xs → take n (xs ++ ys) ≡ xs
  take-append [] ys zero h = refl
  take-append [] ys (suc n) h = absurd (omega arith)
  take-append (x ∷ xs) ys zero h = absurd (omega arith)
  take-append (x ∷ xs) ys (suc n) h = ap (◌∷◌ x) (take-append xs ys n (omega arith))

  pub drop-append : (xs ys : List A) (n : ℕ) → n ≡ length xs → drop n (xs ++ ys) ≡ ys
  drop-append [] ys zero h = refl
  drop-append [] ys (suc n) h = absurd (omega arith)
  drop-append (x ∷ xs) ys zero h = absurd (omega arith)
  drop-append (x ∷ xs) ys (suc n) h = drop-append xs ys n (omega arith)

  pub get_elem?-append :
      (xs ys : List A) (y : A) (n : ℕ) → n ≡ length xs → get_elem? (xs ++ (y ∷ ys)) n ≡ some y
  get_elem?-append [] ys y zero h = refl
  get_elem?-append [] ys y (suc n) h = absurd (omega arith)
  get_elem?-append (x ∷ xs) ys y zero h = absurd (omega arith)
  get_elem?-append (x ∷ xs) ys y (suc n) h = get_elem?-append xs ys y n (omega arith)

  pub get_elem?-drop : (xs : List A) (i n : ℕ) → get_elem? (drop i xs) n ≡ get_elem? xs (i + n)
  get_elem?-drop xs zero n = ap (get_elem? xs) (omega arith)
  get_elem?-drop [] (suc i) n = refl
  get_elem?-drop (x ∷ xs) (suc i) n =
      let e : suc i + n ≡ suc (i + n) = omega arith in rw e (get_elem?-drop xs i n)

  pub get_elem?-take : (xs : List A) (k n : ℕ) → n < k → get_elem? (take k xs) n ≡ get_elem? xs n
  get_elem?-take xs zero n h = absurd (omega arith)
  get_elem?-take [] (suc k) n h = refl
  get_elem?-take (x ∷ xs) (suc k) zero h = refl
  get_elem?-take (x ∷ xs) (suc k) (suc n) h = get_elem?-take xs k n (omega arith)

  pub take-length : (xs : List A) (n : ℕ) → length xs ≤ n → take n xs ≡ xs
  take-length [] zero h = refl
  take-length [] (suc n) h = refl
  take-length (x ∷ xs) zero h = absurd (omega arith)
  take-length (x ∷ xs) (suc n) h = ap (◌∷◌ x) (take-length xs n (omega arith))

module _ {ℓ} {A : Type ℓ} where
  -- The part between two others, cut out by its place and length.
  pub take-drop_middle :
      (pre mid post : List A) (n : ℕ)
      → n ≡ length pre
      → take (length mid) (drop n (pre ++ (mid ++ post))) ≡ mid
  take-drop_middle pre mid post n e =
      rw (drop-append pre (mid ++ post) n e) (take-append mid post (length mid) refl)

pub All-append {ℓ κ} :
    {A : Type ℓ} (P : A → Type κ) (xs ys : List A) → All P xs → All P ys → All P (xs ++ ys)
All-append P [] ys h k = k
All-append P (x ∷ xs) ys h k = (h.0, All-append P xs ys h.1 k)

pub drop_all {ℓ} : {A : Type ℓ} (xs : List A) (n : ℕ) → length xs ≤ n → drop n xs ≡ []
drop_all [] zero h = refl
drop_all [] (suc n) h = refl
drop_all (x ∷ xs) zero h = absurd (omega arith)
drop_all (x ∷ xs) (suc n) h = drop_all xs n (omega arith)
