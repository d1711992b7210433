-- ===== src/Varint.antt =====
-- What the program uses of Go's `encoding/binary`: variable-length integers, and eight bytes in
-- little-endian order.
use simis.Prelude.{
  Option, Text, [], ap, ap₂, arith, if◌then◌else◌, length, ltb, none, refl, some, suc, zero, ℕ, ◌%◌,
  ◌&&◌, ◌*◌, ◌++◌, ◌+◌, ◌/◌, ◌<◌, ◌==◌, ◌^◌, ◌∙◌, ◌∷◌, ◌≡◌, ◌≤◌,
}
use native.Mathlib.Decide.{dec_lt}
use native.Mathlib.Nat.{pow-suc, div-add-mod}

-- The groups of seven bits of `v`, lowest first; all but the last have the top bit set.
unfoldable pub groups : ℕ → ℕ → Text
groups zero v = v ∷ []
groups (suc k) v =
    let rest = groups k (v / 128) in if ltb v 128 then v ∷ [] else (v % 128 + 128) ∷ rest

-- `binary.PutUvarint`; ten groups hold 64 bits.
abbrev pub put_uvarint : ℕ → Text
put_uvarint v = groups 9 v

-- The loop of `binary.Uvarint` at byte `i`, whose group has the weight `w`. The bits of `acc` lie
-- below those of the group, so that `|` is `+`.
unfoldable pub uvarint_from : Text → ℕ → ℕ → ℕ → Option (ℕ × ℕ)
uvarint_from [] i acc w = none
uvarint_from (b ∷ rest) i acc w =
    let more = uvarint_from rest (i + 1) (acc + b % 128 * w) (w * 128) in
    if i == 10
    then none
    else if ltb b 128
    then (if (i == 9) && ltb 1 b then none else some (acc + b * w, i + 1))
    else more

-- `binary.Uvarint`: the value and the number of its bytes; `none` where Go's count is not positive.
abbrev pub uvarint : Text → Option (ℕ × ℕ)
uvarint s = uvarint_from s 0 0 1

split_group : (v w : ℕ) → v % 128 * w + v / 128 * (w * 128) ≡ v * w
split_group v w = omega (arith, ap (λ (t : ℕ). t * w) (div-add-mod v 128))

last_group :
    (k v i acc w : ℕ) (rest : Text)
    → v < 128
    → i + k ≡ 9
    → (i ≡ 9 → v < 2)
    → uvarint_from (v ∷ rest) i acc w ≡ some (acc + v * w, i + 1)
unfolding uvarint_from
last_group k v i acc w rest h e f = ground arith

inner_group :
    (v i acc w : ℕ) (rest : Text)
    → i < 9
    → uvarint_from ((v % 128 + 128) ∷ rest) i acc w
      ≡ uvarint_from rest (i + 1) (acc + v % 128 * w) (w * 128)
unfolding uvarint_from
inner_group v i acc w rest h =
    let e : (v % 128 + 128) % 128 ≡ v % 128 = omega arith in rw e (ground arith)

groups_small : (k v : ℕ) → v < 128 → groups (suc k) v ≡ v ∷ []
unfolding groups
groups_small k v h = ground arith

groups_step : (k v : ℕ) → 128 ≤ v → groups (suc k) v ≡ (v % 128 + 128) ∷ groups k (v / 128)
unfolding groups
groups_step k v h = ground arith

shift_down : (v p : ℕ) → v < 2 * (p * 128) → v / 128 < 2 * p
shift_down v p h = omega arith

uvarint_from-groups :
    (k v i acc w : ℕ) (rest : Text)
    → i + k ≡ 9
    → v < 2 * 128 ^ k
    → uvarint_from (groups k v ++ rest) i acc w ≡ some (acc + v * w, i + length (groups k v))
uvarint_from-groups zero v i acc w rest e h =
    unfold groups in last_group zero v i acc w rest (omega arith) e (λ _. omega arith)
uvarint_from-groups (suc k) v i acc w rest e h = elim (dec_lt v 128) [
  | yes small ↦
      rw (groups_small k v small)
        (last_group (suc k) v i acc w rest small e (λ p. absurd (omega arith)))
  | no big ↦
      rw
        (
          groups_step k v (omega arith),
          inner_group v i acc w (groups k (v / 128) ++ rest) (omega arith),
          uvarint_from-groups k (v / 128) (i + 1) (acc + v % 128 * w) (w * 128) rest (omega arith)
              (shift_down v (128 ^ k) (rw pow-suc at h)),
        )
        (ap some (ap₂ (λ (a b : ℕ). (a, b)) (omega (arith, split_group v w)) (omega arith)))
]

-- Uvarint reads back what PutUvarint wrote, and the number of its bytes, whatever follows.
pub uvarint-put_uvarint :
    (v : ℕ) (rest : Text)
    → v < 2 ^ 64
    → uvarint (put_uvarint v ++ rest) ≡ some (v, length (put_uvarint v))
uvarint-put_uvarint v rest h =
    uvarint_from-groups 9 v 0 0 1 rest refl (omega arith)
    ∙ ap some (ap₂ (λ (a b : ℕ). (a, b)) (omega arith) (omega arith))

pub put_uvarint-ne-nil : (v : ℕ) → 0 < length (put_uvarint v)
unfolding groups
put_uvarint-ne-nil v = ground arith

-- `binary.LittleEndian.PutUint64` at `k = 8`
unfoldable pub little_endian : ℕ → ℕ → Text
little_endian zero n = []
little_endian (suc k) n = (n % 256) ∷ little_endian k (n / 256)

-- `binary.LittleEndian.Uint64`
unfoldable pub from_little_endian : Text → ℕ
from_little_endian [] = 0
from_little_endian (b ∷ s) = b + 256 * from_little_endian s

pub length-little_endian : (k n : ℕ) → length (little_endian k n) ≡ k
unfolding little_endian
length-little_endian zero n = refl
length-little_endian (suc k) n = ap suc (length-little_endian k (n / 256))

byte_less : (n p : ℕ) → n < p * 256 → n / 256 < p
byte_less n p h = omega arith

pub from_little_endian-little_endian :
    (k n : ℕ) → n < 256 ^ k → from_little_endian (little_endian k n) ≡ n
unfolding little_endian from_little_endian
from_little_endian-little_endian zero n h = omega arith
from_little_endian-little_endian (suc k) n h =
    omega (
      arith,
      from_little_endian-little_endian k (n / 256) (byte_less n (256 ^ k) (rw pow-suc at h)),
    )
