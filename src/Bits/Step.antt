-- ===== src/Bits/Step.antt =====
-- The bitwise operations stand for a recursion on binary digits with fuel: here the fuel is
-- dropped, which leaves one equation for the lowest digit.
use Prim.Native.Nat.{digits, bitwise, bit_and-bitwise, bit_or-bitwise}
use advcpp.Prelude.{
  ℕ, zero, suc, ◌+◌, ◌*◌, ◌/◌, ◌%◌, ◌≤◌, ◌≡◌, refl, min, max, arith, bit_and, bit_or,
}

-- Enough fuel is as good as any.
module _ (rest : ℕ → ℕ) (op : ℕ → ℕ → ℕ) where
  digits_enough : (f g a b : ℕ) → a ≤ f → a ≤ g → digits rest op f a b ≡ digits rest op g a b
  digits_enough zero zero a b hf hg = refl
  digits_enough zero (suc g) zero b hf hg = refl
  digits_enough (suc f) zero zero b hf hg = refl
  digits_enough (suc f) (suc g) zero b hf hg = refl
  digits_enough zero (suc g) (suc a) b hf hg = absurd (omega arith)
  digits_enough (suc f) zero (suc a) b hf hg = absurd (omega arith)
  digits_enough (suc f) (suc g) (suc a) b hf hg =
      rw (digits_enough f g (suc a / 2) (b / 2) (omega arith) (omega arith))

  bitwise_lowest :
      (a b : ℕ)
      → bitwise rest op (suc a) b ≡ bitwise rest op (suc a / 2) (b / 2) * 2 + op (suc a % 2) (b % 2)
  bitwise_lowest a b =
      omega (arith, digits_enough a (suc a / 2) (suc a / 2) (b / 2) (omega arith) (omega arith))

pub bit_and_step : (x y : ℕ) → bit_and x y ≡ bit_and (x / 2) (y / 2) * 2 + min (x % 2) (y % 2)
bit_and_step zero y = simp bit_and-bitwise (omega arith)
bit_and_step (suc x) y = simp bit_and-bitwise (bitwise_lowest (λ _. 0) min x y)

pub bit_or_step : (x y : ℕ) → bit_or x y ≡ bit_or (x / 2) (y / 2) * 2 + max (x % 2) (y % 2)
bit_or_step zero y = simp bit_or-bitwise (omega arith)
bit_or_step (suc x) y = simp bit_or-bitwise (bitwise_lowest (λ n. n) max x y)
