-- ===== src/Sizes/Power.antt =====
-- `is_power_of_two` decides what its name says.
use native.Mathlib.Nat.{pow-succ', one-le-pow, mod_self}
use advcpp.Prelude.{
  ℕ, suc, ◌-◌, ◌/◌, ◌%◌, ◌^◌, ◌<◌, ◌≡◌, ◌≢◌, ◌↔◌, inl, inr, ◌∙◌, true, bit_and, arith, ◌==◌,
  Bool-cases,
}
use mathlib.Core.WellFounded
use advcpp.Prelude.Order.{lt_wf}
use advcpp.Bits.{bit_and_step, bit_and_self, bit_and-low}
use advcpp.Sizes.{is_power_of_two}

bit_and-pred : (k : ℕ) → bit_and (2 ^ k) (2 ^ k - 1) ≡ 0
bit_and-pred k = bit_and-low k (2 ^ k) ∙ mod_self (2 ^ k)

pub is_power_of_two-pow : (k : ℕ) → is_power_of_two (2 ^ k) ≡ true
unfolding is_power_of_two
is_power_of_two-pow k = ground (arith, one-le-pow k 2, bit_and-pred k)

abbrev pub PowerOfTwo : ℕ → Type 0
PowerOfTwo n = (k : ℕ) × (n ≡ 2 ^ k)

-- A number that shares no bit with its predecessor is a power of two.
PowerOfTwo-step :
    (m : ℕ)
    → ((j : ℕ) → j < m → j ≢ 0 → bit_and j (j - 1) ≡ 0 → PowerOfTwo j)
    → m ≢ 0
    → bit_and m (m - 1) ≡ 0
    → PowerOfTwo m
PowerOfTwo-step m ih ne e = elim (Bool-cases (m % 2 == 0)) [
  | inl even ↦
      let half : bit_and (m / 2) (m / 2 - 1) ≡ 0 = ground (arith, bit_and_step m (m - 1)) in
      let (k, h) = ih (m / 2) (ground arith) (ground arith) half in
      (suc k, ground (arith, pow-succ' 2 k))
  | inr odd ↦ (0, ground (arith, bit_and_step m (m - 1), bit_and_self (m / 2)))
]

PowerOfTwo-of_bits : (n : ℕ) → n ≢ 0 → bit_and n (n - 1) ≡ 0 → PowerOfTwo n
PowerOfTwo-of_bits n =
    WellFounded.induction lt_wf {C = λ m. m ≢ 0 → bit_and m (m - 1) ≡ 0 → PowerOfTwo m} n
      PowerOfTwo-step

-- Exactly the powers of two pass.
pub is_power_of_two_iff : (n : ℕ) → (is_power_of_two n ≡ true) ↔ PowerOfTwo n
unfolding is_power_of_two
is_power_of_two_iff n =
    (λ h. PowerOfTwo-of_bits n (nonzero h) (disjoint h), λ (k, e). rw e (is_power_of_two-pow k))
  where
    nonzero : is_power_of_two n ≡ true → n ≢ 0
    nonzero h = ground arith

    disjoint : is_power_of_two n ≡ true → bit_and n (n - 1) ≡ 0
    disjoint h = ground arith
