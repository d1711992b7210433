-- ===== src/GoText/Split.antt =====
-- Cutting a text at a separator, and trimming.
use simis.Prelude.{All, Text, [], arith, false, refl, ℕ, ◌++◌, ◌∷◌, ◌≡◌, ◌≢◌}
use simis.GoText.{trim_left, trim_right, is_empty, trim_space, is_space, split}

-- A text without the separator is the first part.
pub split-append :
    (sep : ℕ) (s t : Text) → All (λ c. c ≢ sep) s → split sep (s ++ (sep ∷ t)) ≡ s ∷ split sep t
unfolding split
split-append sep [] t h = ground arith
split-append sep (c ∷ s) t h = ground (arith, split-append sep s t h.1)

pub split_single : (sep : ℕ) (s : Text) → All (λ c. c ≢ sep) s → split sep s ≡ s ∷ []
unfolding split
split_single sep [] h = refl
split_single sep (c ∷ s) h = ground (arith, split_single sep s h.1)

trim_left_id : (s : Text) → All (λ c. is_space c ≡ false) s → trim_left s ≡ s
unfolding trim_left
trim_left_id [] h = refl
trim_left_id (c ∷ s) h = rw h.0

trim_right_id : (s : Text) → All (λ c. is_space c ≡ false) s → trim_right s ≡ s
unfolding trim_right
trim_right_id [] h = refl
trim_right_id (c ∷ s) h = rw (h.0, trim_right_id s h.1)

pub trim_space_id : (s : Text) → All (λ c. is_space c ≡ false) s → trim_space s ≡ s
unfolding trim_space
trim_space_id s h = rw (trim_left_id s h) (trim_right_id s h)

-- White space behind a text without any is taken off.
trim_right_spaces :
    (s t : Text) → All (λ c. is_space c ≡ false) s → trim_right t ≡ [] → trim_right (s ++ t) ≡ s
unfolding trim_right
trim_right_spaces [] t h e = e
trim_right_spaces (c ∷ s) t h e = rw (trim_right_spaces s t h.1 e, h.0)

pub trim_space-line :
    (c : ℕ) (s : Text)
    → is_space c ≡ false
    → All (λ b. is_space b ≡ false) s
    → trim_space ((c ∷ s) ++ (13 ∷ 10 ∷ [])) ≡ c ∷ s
unfolding trim_space trim_left
trim_space-line c s hc hs = rw hc (
    trim_right_spaces (c ∷ s) (13 ∷ 10 ∷ []) (hc, hs) (unfold trim_right is_space is_empty in refl))
