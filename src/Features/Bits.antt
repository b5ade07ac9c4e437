-- ===== src/Features/Bits.antt =====
-- A feature bit after another was set.
use native.Mathlib.Nat.{one-le-pow, zero-div}
use advcpp.Prelude.{
  ℕ, zero, suc, ◌*◌, ◌/◌, ◌%◌, ◌^◌, ◌≤◌, ◌<◌, bit_and, bit_or, ◌≡◌, refl, ap, inl, inr, Bool, false,
  ◌&&◌, ◌||◌, not, List, arith, ltb, ◌==◌, Bool-cases, ==→eq, length, get_or, set, replicate,
  length-set, get_or-set, ok, err,
}
use advcpp.Bits.{bit_and-bit, bit_or-bit}
use advcpp.Prelude.{feature_bit_out_of_range}
use advcpp.Features.{feature_is_set, set_feature}

-- The bit itself, without the mask.
pub bit_of : ℕ → ℕ → Bool
bit_of x s = x / 2 ^ s % 2 == 1

masked_bit : (x s : ℕ) → not (bit_and x (2 ^ s) == 0) ≡ bit_of x s
unfolding bit_of
masked_bit x s = elim (Bool-cases (x / 2 ^ s % 2 == 1)) [
  | inl e ↦ ground (
    arith,
    bit_and-bit s x,
    one-le-pow s 2 (omega arith),
    ap (λ (t : ℕ). t * 2 ^ s) (==→eq _ 1 e),
  )
  | inr e ↦
      let z : x / 2 ^ s % 2 ≡ 0 = ground arith in
      ground (arith, bit_and-bit s x, ap (λ (t : ℕ). t * 2 ^ s) z)
]

bit_of-bit_or : (x s t : ℕ) → bit_of (bit_or x (2 ^ s)) t ≡ (s == t || bit_of x t)
unfolding bit_of
bit_of-bit_or x s t = ground (arith, bit_or-bit s t x)

same_bit : (b c : ℕ) → (b == c) ≡ (b / 32 == c / 32 && b % 32 == c % 32)
same_bit b c = ground arith

pub feature_is_set-bit_of :
    (words : List ℕ) (c : ℕ)
    → feature_is_set words c
      ≡ (ltb (c / 32) (length words) && bit_of (get_or words (c / 32) 0) (c % 32))
unfolding feature_is_set
feature_is_set-bit_of words c =
    ap (λ (t : Bool). ltb (c / 32) (length words) && t)
      (masked_bit (get_or words (c / 32) 0) (c % 32))

get_or-zeros : (n i : ℕ) → ◌≡◌ {A = ℕ} (get_or (replicate n 0) i 0) 0
get_or-zeros zero i = refl
get_or-zeros (suc n) zero = refl
get_or-zeros (suc n) (suc i) = get_or-zeros n i

-- No bit is set in words of zeros.
pub feature_is_set-zeros : (n c : ℕ) → feature_is_set (replicate n 0) c ≡ false
unfolding bit_of
feature_is_set-zeros n c = ground (
  arith,
  feature_is_set-bit_of (replicate n 0) c,
  get_or-zeros n (c / 32),
  zero-div (2 ^ (c % 32)),
)

feature_is_set-set :
    (words : List ℕ) (b c : ℕ)
    → b / 32 < length words
    → feature_is_set (set words (b / 32) (bit_or (get_or words (b / 32) 0) (2 ^ (b % 32)))) c
      ≡ (b == c || feature_is_set words c)
feature_is_set-set words b c h =
    let x = get_or words (b / 32) 0 in
    let y = bit_or x (2 ^ (b % 32)) in
    ground (
      arith,
      feature_is_set-bit_of (set words (b / 32) y) c,
      feature_is_set-bit_of words c,
      length-set words (b / 32) y,
      get_or-set words (b / 32) (c / 32) y 0 h,
      bit_of-bit_or x (b % 32) (c % 32),
      same_bit b c,
    )

-- `set_feature` succeeds inside the words, keeps their number, sets its bit and leaves
-- every other bit as it was.
pub set_feature_lem :
    (words : List ℕ) (b : ℕ)
    → b / 32 < length words
    → (words' : List ℕ) × (set_feature words b ≡ ok words')
      × (length words' ≡ length words)
      × ((c : ℕ) → feature_is_set words' c ≡ (b == c || feature_is_set words c))
unfolding set_feature feature_is_set
set_feature_lem words b h = (
  set words (b / 32) (bit_or (get_or words (b / 32) 0) (2 ^ (b % 32))),
  ground arith,
  length-set words (b / 32) _,
  λ c. feature_is_set-set words b c h,
)

pub set_feature_outside :
    (words : List ℕ) (b : ℕ)
    → length words ≤ b / 32
    → set_feature words b ≡ err feature_bit_out_of_range
unfolding set_feature
set_feature_outside words b h = ground arith
