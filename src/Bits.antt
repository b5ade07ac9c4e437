-- ===== src/Bits.antt =====
-- `&` and `|` at variables, as arithmetic: a step for the lowest digit, masks and single bits.
mod Step
pub use Step.{bit_and_step, bit_or_step}
use mathlib.Core.WellFounded
use Prim.Native.Nat.add
use native.Mathlib.Nat.{pow-succ', one-le-pow, div-div-eq-div-mul, mod-add-div, mod-eq_of_lt}
use advcpp.Prelude.{
  ℕ, zero, suc, ◌+◌, ◌-◌, ◌*◌, ◌/◌, ◌%◌, ◌^◌, ◌≤◌, ◌<◌, ◌≡◌, refl, sym, ap, ◌∙◌, arith, bit_and,
  bit_or, ◌==◌, if◌then◌else◌,
}
use advcpp.Prelude.Order.{lt_wf}

-- What a law says of a number follows from the number without its lowest digit.
by_digits {ℓ} : (P : ℕ → Type ℓ) → P 0 → ((n : ℕ) → P (suc n / 2) → P (suc n)) → (n : ℕ) → P n
by_digits P base step n = WellFounded.induction lt_wf {C = P} n go
  where
    go : (k : ℕ) → ((m : ℕ) → m < k → P m) → P k
    go zero ih = base
    go (suc k) ih = step k (ih (suc k / 2) (omega arith))

pub bit_and-zero : (a : ℕ) → bit_and a 0 ≡ 0
bit_and-zero =
    by_digits (λ a. bit_and a 0 ≡ 0) refl λ n ih. omega (arith, bit_and_step (suc n) 0, ih)

pub bit_or-zero : (a : ℕ) → bit_or a 0 ≡ a
bit_or-zero = by_digits (λ a. bit_or a 0 ≡ a) refl λ n ih. omega (arith, bit_or_step (suc n) 0, ih)

pub bit_and_self : (a : ℕ) → bit_and a a ≡ a
bit_and_self =
    by_digits (λ a. bit_and a a ≡ a) refl λ n ih. omega (arith, bit_and_step (suc n) (suc n), ih)

-- Division and remainder by a power of two, one digit at a time.
pub div-two-pow : (k a : ℕ) → a / 2 ^ suc k ≡ a / 2 / 2 ^ k
div-two-pow k a = rw pow-succ' (sym (div-div-eq-div-mul a 2 (2 ^ k)))

pub mod-two-pow : (k a : ℕ) → a % 2 ^ suc k ≡ a / 2 % 2 ^ k * 2 + a % 2
mod-two-pow k a = omega (
  arith,
  mod-add-div a (2 ^ suc k),
  mod-add-div (a / 2) (2 ^ k),
  ap (λ (t : ℕ). 2 ^ suc k * t) (div-two-pow k a),
  ap (λ (t : ℕ). t * (a / 2 / 2 ^ k)) (pow-succ' 2 k),
)

-- The low mask of `k` ones is the remainder.
pub bit_and-low : (k a : ℕ) → bit_and a (2 ^ k - 1) ≡ a % 2 ^ k
bit_and-low zero a = omega (arith, bit_and-zero a)
bit_and-low (suc k) a = ground (
  arith,
  bit_and_step a (2 ^ suc k - 1),
  bit_and-low k (a / 2),
  mod-two-pow k a,
  pow-succ' 2 k,
  one-le-pow k 2,
)

bit_and-double : (a m : ℕ) → bit_and a (2 * m) ≡ bit_and (a / 2) m * 2
bit_and-double a m = ground (arith, bit_and_step a (2 * m))

bit_or-double : (a m : ℕ) → bit_or a (2 * m) ≡ bit_or (a / 2) m * 2 + a % 2
bit_or-double a m = ground (arith, bit_or_step a (2 * m))

-- The mask of the ones from place `k` to place `k + d` clears the low `k` bits.
pub bit_and-high :
    (k d a : ℕ) → a < 2 ^ k * 2 ^ d → bit_and a (2 ^ k * 2 ^ d - 2 ^ k) ≡ a / 2 ^ k * 2 ^ k
bit_and-high zero d a h = ground (arith, bit_and-low d a, mod-eq_of_lt {n = a} {m = 2 ^ d})
bit_and-high (suc k) d a h =
    rw (div-two-pow, pow-succ')
      (omega (
        arith,
        bit_and-double a (2 ^ k * 2 ^ d - 2 ^ k),
        bit_and-high k d (a / 2) (omega (arith, ap (λ (t : ℕ). t * 2 ^ d) (pow-succ' 2 k))),
        ap (λ (t : ℕ). bit_and a t) {x = 2 * 2 ^ k * 2 ^ d - 2 * 2 ^ k}
            {y = 2 * (2 ^ k * 2 ^ d - 2 ^ k)} (omega arith),
      ))

-- `x & (1 << s)` is that bit in its place.
pub bit_and-bit : (s a : ℕ) → bit_and a (2 ^ s) ≡ a / 2 ^ s % 2 * 2 ^ s
bit_and-bit zero a = omega (arith, bit_and_step a 1, bit_and-zero (a / 2))
bit_and-bit (suc s) a =
    rw (div-two-pow, pow-succ') (omega (arith, bit_and-double a (2 ^ s), bit_and-bit s (a / 2)))

-- Reading bit `t` after `x | (1 << s)`.
pub bit_or-bit : (s t a : ℕ) → bit_or a (2 ^ s) / 2 ^ t % 2 ≡ (if s == t then 1 else a / 2 ^ t % 2)
bit_or-bit zero zero a = omega (arith, bit_or_step a 1, bit_or-zero (a / 2))
bit_or-bit zero (suc t) a =
    rw (div-two-pow t (bit_or a 1), div-two-pow t a)
      (ap (λ (x : ℕ). x / 2 ^ t % 2) {x = bit_or a 1 / 2} {y = a / 2}
          (omega (arith, bit_or_step a 1, bit_or-zero (a / 2)))
        ∙ ground arith)
bit_or-bit (suc s) zero a = rw pow-succ' (ground (arith, bit_or-double a (2 ^ s)))
bit_or-bit (suc s) (suc t) a =
    rw (pow-succ' 2 s, div-two-pow t (bit_or a (2 * 2 ^ s)), div-two-pow t a)
      (ap (λ (x : ℕ). x / 2 ^ t % 2) {x = bit_or a (2 * 2 ^ s) / 2} {y = bit_or (a / 2) (2 ^ s)}
          (omega (arith, bit_or-double a (2 ^ s)))
        ∙ bit_or-bit s t (a / 2)
        ∙ ground arith)

-- `lo | (hi << k)` is a sum where `lo` fits `k` bits.
pub bit_or-fields : (k lo hi : ℕ) → lo < 2 ^ k → bit_or (hi * 2 ^ k) lo ≡ lo + hi * 2 ^ k
bit_or-fields zero lo hi h = ground (arith, bit_or-zero hi)
bit_or-fields (suc k) lo hi h = ground (
  arith,
  bit_or_step (hi * 2 ^ suc k) lo,
  pow-succ' 2 k,
  ap (λ (t : ℕ). hi * t) (pow-succ' 2 k),
  bit_or-fields k (lo / 2) hi,
)
