-- ===== src/ListPack/Layout.antt =====
-- The bytes and the offsets of a list of payloads: what a list pack stands for.
use simis.Prelude.{
  List, Text, [], ap, append_assoc, arith, drop, get_elem?, length, length-append, map, refl, some,
  suc, sym, take, zero, ℕ, ◌++◌, ◌+◌, ◌-◌, ◌<◌, ◌^◌, ◌∙◌, ◌∷◌, ◌≡◌,
}
use simis.ListPack.{ListPack, encode_entry}

-- The bytes of the entries, one behind the other.
unfoldable pub body : List Text → Text
body [] = []
body (p ∷ ps) = encode_entry p ++ body ps

-- Where they start, if the first starts at `start`.
unfoldable pub layout : ℕ → List Text → List ℕ
layout start [] = []
layout start (p ∷ ps) = start ∷ layout (start + length (encode_entry p)) ps

-- The list pack holds exactly these payloads, in this order, and its bytes fit an `int`.
pub record Represents (lp : ListPack) (ps : List Text) : Type 0 where
  pub content : lp.content ≡ body ps
  pub offsets : lp.offsets ≡ layout 0 ps
  pub small : length lp.content < 2 ^ 63

pub body-append : (ps qs : List Text) → body (ps ++ qs) ≡ body ps ++ body qs
unfolding body
body-append [] qs = refl
body-append (p ∷ ps) qs =
    ap (◌++◌ (encode_entry p)) (body-append ps qs)
    ∙ sym (append_assoc (encode_entry p) (body ps) (body qs))

pub layout-append :
    (start : ℕ) (ps qs : List Text)
    → layout start (ps ++ qs) ≡ layout start ps ++ layout (start + length (body ps)) qs
unfolding layout body
layout-append start [] qs = ap (λ s. layout s qs) (omega arith)
layout-append start (p ∷ ps) qs = ap (◌∷◌ start) (
    layout-append (start + length (encode_entry p)) ps qs
    ∙ ap (λ s. layout (start + length (encode_entry p)) ps ++ layout s qs)
        (omega (arith, length-append (encode_entry p) (body ps))))

pub length-layout : (start : ℕ) (ps : List Text) → length (layout start ps) ≡ length ps
unfolding layout
length-layout start [] = refl
length-layout start (p ∷ ps) = ap suc (length-layout (start + length (encode_entry p)) ps)

pub layout_at :
    (start : ℕ) (ps : List Text) (i : ℕ) (p : Text)
    → get_elem? ps i ≡ some p
    → get_elem? (layout start ps) i ≡ some (start + length (body (take i ps)))
unfolding layout body
layout_at start [] i p h = cc
layout_at start (q ∷ ps) zero p h = ap some (omega arith)
layout_at start (q ∷ ps) (suc i) p h =
    layout_at (start + length (encode_entry q)) ps i p h
    ∙ ap some (omega (arith, length-append (encode_entry q) (body (take i ps))))

pub body_cons : (p : Text) (ps : List Text) → body (p ∷ ps) ≡ encode_entry p ++ body ps
unfolding body
body_cons p ps = refl

pub layout_cons :
    (start : ℕ) (p : Text) (ps : List Text)
    → layout start (p ∷ ps) ≡ start ∷ layout (start + length (encode_entry p)) ps
unfolding layout
layout_cons start p ps = refl

pub take-layout :
    (start i : ℕ) (ps : List Text) → take i (layout start ps) ≡ layout start (take i ps)
unfolding layout
take-layout start zero ps = refl
take-layout start (suc i) [] = refl
take-layout start (suc i) (p ∷ ps) =
    ap (◌∷◌ start) (take-layout (start + length (encode_entry p)) i ps)

pub drop-layout :
    (start i : ℕ) (ps : List Text)
    → drop i (layout start ps) ≡ layout (start + length (body (take i ps))) (drop i ps)
unfolding layout body
drop-layout start zero ps = ap (λ s. layout s ps) (omega arith)
drop-layout start (suc i) [] = refl
drop-layout start (suc i) (p ∷ ps) =
    drop-layout (start + length (encode_entry p)) i ps
    ∙ ap (λ s. layout s (drop i ps))
        (omega (arith, length-append (encode_entry p) (body (take i ps))))

pub layout_up :
    (start n : ℕ) (ps : List Text) → map (λ o. o + n) (layout start ps) ≡ layout (start + n) ps
unfolding layout
layout_up start n [] = refl
layout_up start n (p ∷ ps) =
    ap (◌∷◌ (start + n))
      (layout_up (start + length (encode_entry p)) n ps ∙ ap (λ s. layout s ps) (omega arith))

pub layout_down :
    (start n : ℕ) (ps : List Text) → map (λ o. o - n) (layout (start + n) ps) ≡ layout start ps
unfolding layout
layout_down start n [] = refl
layout_down start n (p ∷ ps) =
    let e : start + n + length (encode_entry p) ≡ start + length (encode_entry p) + n =
      omega arith in
    let f : start + n - n ≡ start = omega arith in
    rw (e, f) (ap (◌∷◌ start) (layout_down (start + length (encode_entry p)) n ps))

-- A list, cut at an element.
pub cut_at {ℓ} :
    {A : Type ℓ} (xs : List A) (i : ℕ) (x : A)
    → get_elem? xs i ≡ some x
    → xs ≡ take i xs ++ (x ∷ drop (suc i) xs)
cut_at [] i x h = cc
cut_at (y ∷ xs) zero x h = cc
cut_at (y ∷ xs) (suc i) x h = ap (◌∷◌ y) (cut_at xs i x h)

pub get_elem?_cases {ℓ} :
    {A : Type ℓ} (xs : List A) (i : ℕ) → i < length xs → (x : A) × (get_elem? xs i ≡ some x)
get_elem?_cases [] i h = absurd (omega arith)
get_elem?_cases (x ∷ xs) zero h = (x, refl)
get_elem?_cases (x ∷ xs) (suc i) h = get_elem?_cases xs i (omega arith)

pub lt_of_get_elem? {ℓ} :
    {A : Type ℓ} (xs : List A) (i : ℕ) (x : A) → get_elem? xs i ≡ some x → i < length xs
lt_of_get_elem? [] i x h = cc
lt_of_get_elem? (y ∷ xs) zero x h = omega arith
lt_of_get_elem? (y ∷ xs) (suc i) x h = omega (arith, lt_of_get_elem? xs i x h)

pub drop_at {ℓ} :
    {A : Type ℓ} (xs : List A) (i : ℕ) (x : A)
    → get_elem? xs i ≡ some x
    → drop i xs ≡ x ∷ drop (i + 1) xs
drop_at [] i x h = cc
drop_at (y ∷ xs) zero x h = cc
drop_at (y ∷ xs) (suc i) x h =
    let e : suc i + 1 ≡ suc (i + 1) = omega arith in rw e (drop_at xs i x h)

pub take-suc {ℓ} :
    {A : Type ℓ} (xs : List A) (i : ℕ) (x : A)
    → get_elem? xs i ≡ some x
    → take (suc i) xs ≡ take i xs ++ (x ∷ [])
take-suc [] i x h = cc
take-suc (y ∷ xs) zero x h = cc
take-suc (y ∷ xs) (suc i) x h = ap (◌∷◌ y) (take-suc xs i x h)
