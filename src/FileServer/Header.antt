-- ===== src/FileServer/Header.antt =====
-- The header that the server sends: the length in it is read back as the length.
use native.Mathlib.Nat.{pow-succ'}
use advcpp.Prelude.{
  ℕ, zero, suc, ◌+◌, ◌-◌, ◌*◌, ◌/◌, ◌%◌, ◌^◌, ◌<◌, ◌≡◌, refl, ◌∙◌, inl, inr, [], ◌∷◌, ◌++◌, ltb,
  Bool-cases, arith,
}
use advcpp.Arguments.{Text}
use advcpp.FileServer.{decimal_digits, decimal}

-- The number that a text of digits stands for.
abbrev pub number_from : ℕ → Text → ℕ
number_from n [] = n
number_from n (c ∷ cs) = number_from (10 * n + (c - b'0')) cs

number_from-append :
    (n : ℕ) (text : Text) (c : ℕ)
    → number_from n (text ++ c ∷ []) ≡ 10 * number_from n text + (c - b'0')
number_from-append n [] c = refl
number_from-append n (b ∷ text) c = number_from-append (10 * n + (b - b'0')) text c

pow_suc : (f : ℕ) → 10 ^ suc f ≡ 10 * 10 ^ f
pow_suc f = pow-succ' 10 f

decimal_digits-number : (fuel n : ℕ) → n < 10 ^ fuel → number_from 0 (decimal_digits fuel n) ≡ n
unfolding decimal_digits
decimal_digits-number zero n h = omega arith
decimal_digits-number (suc fuel) n h =
    let in_range : n / 10 < 10 ^ fuel = omega (arith, pow_suc fuel) in
    let ih = decimal_digits-number fuel (n / 10) in_range in
    elim (Bool-cases (ltb n 10)) [
      | inl small ↦ rw small (ground arith)
      | inr large ↦
          rw large (
            number_from-append 0 (decimal_digits fuel (n / 10)) (b'0' + n % 10) ∙ omega (arith, ih))
    ]

-- The length that the header has is the number of its digits, for every size of a file.
pub decimal-number : (n : ℕ) → n < 2 ^ 64 → number_from 0 (decimal n) ≡ n
unfolding decimal
decimal-number n h = decimal_digits-number 20 n (omega arith)
