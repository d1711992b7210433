-- ===== src/Stream/ListIndex.antt =====
-- An index over an association list, which meets the interface of the radix tree.
use simis.Prelude.{
  Assoc, Bool, Bool-cases, Option, Text, [], arith, false, if◌then◌else◌, injective_some, inl, inr,
  insert, lookup, lookup-insert, none, refl, some, text_eq, text_eq_iff, text_eq_refl, true, ℕ, ◌∙◌,
  ◌∷◌, ◌≡◌, ◌≢◌,
}
use simis.Prelude.Int.{pos, leb_ℤ}
use mathlib.Core.Path.{subst}
use simis.StreamId.Order.{compare_bytes}
use simis.Stream.Index.{Radix}

abbrev key_leb : Text → Text → Bool
key_leb a b = leb_ℤ (compare_bytes a b) (pos 0)

compare_bytes_refl : (a : Text) → compare_bytes a a ≡ pos 0
unfolding compare_bytes
compare_bytes_refl [] = refl
compare_bytes_refl (b ∷ s) = ground (arith, compare_bytes_refl s)

key_leb_total : (a b : Text) → key_leb a b ≡ false → key_leb b a ≡ true
unfolding compare_bytes
key_leb_total [] [] h = cc
key_leb_total [] (c ∷ t) h = cc
key_leb_total (b ∷ s) [] h = refl
key_leb_total (b ∷ s) (c ∷ t) h = ground (arith, key_leb_total s t)

key_leb_trans : (a b c : Text) → key_leb a b ≡ true → key_leb b c ≡ true → key_leb a c ≡ true
unfolding compare_bytes
key_leb_trans [] [] c h g = g
key_leb_trans [] (y ∷ b) [] h g = cc
key_leb_trans [] (y ∷ b) (z ∷ c) h g = refl
key_leb_trans (x ∷ a) [] c h g = cc
key_leb_trans (x ∷ a) (y ∷ b) [] h g = cc
key_leb_trans (x ∷ a) (y ∷ b) (z ∷ c) h g = ground (arith, key_leb_trans a b c)

abbrev lesser : Text × ℕ → Option (Text × ℕ) → Option (Text × ℕ)
lesser e none = some e
lesser (j, v) (some (i, w)) = if key_leb j i then some (j, v) else some (i, w)

-- The least key that is not below `k`.
least_from : Text → Assoc ℕ → Option (Text × ℕ)
least_from k [] = none
least_from k ((j, v) ∷ t) =
    let rest = least_from k t in if key_leb k j then lesser (j, v) rest else rest

abbrev IsLeast : Text → Assoc ℕ → Text → ℕ → Type 0
IsLeast k t j v =
    (lookup j t ≡ some v)
    × (key_leb k j ≡ true)
    × ((i : Text) (w : ℕ) → lookup i t ≡ some w → key_leb k i ≡ true → key_leb j i ≡ true)

least_none :
    (k i : Text) (w : ℕ) (t : Assoc ℕ)
    → least_from k t ≡ none
    → lookup i t ≡ some w
    → key_leb k i ≢ true
unfolding least_from lookup
least_none k i w [] h g = λ _. cc
least_none k i w ((j, v) ∷ t) h g = ground (arith, text_eq_iff j i, least_none k i w t)

key_leb_refl : (a b : Text) → text_eq a b ≡ true → key_leb a b ≡ true
key_leb_refl a b h = let q : a ≡ b = (text_eq_iff a b).0 h in rw (q, compare_bytes_refl b)

-- One more key in front: the least key stays, or is the new one.
keep-IsLeast :
    (k i j : Text) (w v : ℕ) (t : Assoc ℕ)
    → IsLeast k t j v
    → ((key_leb k i ≡ true) → (key_leb i j ≡ false))
    → IsLeast k ((i, w) ∷ t) j v
unfolding lookup
keep-IsLeast k i j w v t (at, ge, least) h = (
  ground (arith, key_leb_refl i j, text_eq_iff i j),
  ge,
  λ x y f g. ground (arith, text_eq_iff i x, key_leb_total i j, least x y),
)

new-IsLeast :
    (k i : Text) (w : ℕ) (t : Assoc ℕ)
    → key_leb k i ≡ true
    → ((x : Text) (y : ℕ) → lookup x t ≡ some y → key_leb k x ≡ true → key_leb i x ≡ true)
    → IsLeast k ((i, w) ∷ t) i w
unfolding lookup
new-IsLeast k i w t ge least = (
  rw (text_eq_refl i),
  ge,
  λ x y f g. ground (arith, text_eq_iff i x, key_leb_refl i x, least x y),
)

least_from_cons :
    (k i : Text) (w : ℕ) (t : Assoc ℕ)
    → (if key_leb k i then lesser (i, w) (least_from k t) else least_from k t)
      ≡ least_from k ((i, w) ∷ t)
unfolding least_from
least_from_cons k i w t = refl

IsLeast-cons :
    (k i j : Text) (w v : ℕ) (t : Assoc ℕ) (rest : Option (Text × ℕ))
    → least_from k t ≡ rest
    → ((j' : Text) (v' : ℕ) → rest ≡ some (j', v') → IsLeast k t j' v')
    → (if key_leb k i then lesser (i, w) rest else rest) ≡ some (j, v)
    → IsLeast k ((i, w) ∷ t) j v
IsLeast-cons k i j w v t rest r ih h = elim (Bool-cases (key_leb k i)) [
  | inr below ↦ keep-IsLeast k i j w v t (ih j v (rw below at h)) (λ p. cc)
  | inl ge ↦ go rest r ge ih (rw ge at h)
]
  where
    at_new :
        ◌≡◌ {A = Text × ℕ} (i, w) (j, v) → IsLeast k ((i, w) ∷ t) i w → IsLeast k ((i, w) ∷ t) j v
    at_new e l = subst (λ (x : Text × ℕ). IsLeast k ((i, w) ∷ t) x.0 x.1) e l

    go :
        (o : Option (Text × ℕ))
        → least_from k t ≡ o
        → key_leb k i ≡ true
        → ((j' : Text) (v' : ℕ) → o ≡ some (j', v') → IsLeast k t j' v')
        → lesser (i, w) o ≡ some (j, v)
        → IsLeast k ((i, w) ∷ t) j v
    go none n ge all e =
        at_new (injective_some (e))
          (new-IsLeast k i w t ge (λ x y f g. absurd (least_none k x y t n f g)))
    go (some (j', v')) n ge all e = elim (Bool-cases (key_leb i j')) [
      | inl first ↦ at_new (injective_some (rw first at e)) (
          new-IsLeast k i w t ge
            (λ x y f g. key_leb_trans i j' x first ((all j' v' refl).2 x y f g)))
      | inr second ↦
          let q : ◌≡◌ {A = Text × ℕ} (j', v') (j, v) = injective_some (rw second at e) in
          subst (λ (x : Text × ℕ). IsLeast k ((i, w) ∷ t) x.0 x.1) q
            (keep-IsLeast k i j' w v' t (all j' v' refl) (λ _. second))
    ]

IsLeast-some : (k j : Text) (v : ℕ) (t : Assoc ℕ) → least_from k t ≡ some (j, v) → IsLeast k t j v
IsLeast-some k j v [] h = unfold least_from in cc
IsLeast-some k j v ((i, w) ∷ t) h =
    IsLeast-cons k i j w v t (least_from k t) refl (λ j' v' e. IsLeast-some k j' v' t e)
      (least_from_cons k i w t ∙ h)

-- The interface, met by association lists.
pub list_index : Radix
list_index = record {
  Tree = Assoc ℕ;
  new = [];
  find = lookup;
  insert_key = insert;
  seek = least_from;
  find-new = λ k. unfold lookup in refl;
  find-insert_key = λ k j v t. lookup-insert k j v t;
  seek_found = λ k j v t h. IsLeast-some k j v t h;
  seek_end = λ k i w t h g. least_none k i w t h g;
}
