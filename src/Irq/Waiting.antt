-- ===== src/Irq/Waiting.antt =====
-- How long the loop waits, and what it reads from an eventfd.
use advcpp.Prelude.{
  ℕ, zero, suc, ◌+◌, ◌-◌, ◌*◌, ◌≤◌, ◌<◌, ◌≡◌, ap, ◌∙◌, ◌^◌, some, List, [], ◌∷◌, length, u64, ok,
  arith,
}
use advcpp.Irq.{EventRead, empty, counted, drain_loop, drain, timeout_until, int_max}

-- The loop does not wait past its deadline, and a wait is an `int`.
pub timeout_until-le :
    (deadline now : ℕ)
    → (timeout_until deadline now * 1_000_000 ≤ deadline - now)
      × (timeout_until deadline now ≤ int_max)
unfolding timeout_until
timeout_until-le deadline now = (ground arith, ground arith)

-- An eventfd whose counter was read as these numbers, and is 0 then.
abbrev pub reads_of : List ℕ → ℕ → EventRead
reads_of [] k = empty
reads_of (c ∷ cs) zero = counted c
reads_of (c ∷ cs) (suc k) = reads_of cs k

abbrev pub sum : List ℕ → ℕ
sum [] = 0
sum (c ∷ cs) = c + sum cs

drain_loop-total :
    (read : ℕ → EventRead) (cs : List ℕ) (calls total : ℕ)
    → total < 2 ^ 64
    → ((k : ℕ) → read (calls + k) ≡ reads_of cs k)
    → drain_loop read (suc (length cs)) calls total ≡ some (ok (u64 (total + sum cs)))
unfolding drain_loop
drain_loop-total read [] calls total small reads =
    let here : read calls ≡ empty = ap read (omega arith) ∙ reads 0 in
    let same : total ≡ u64 (total + 0) = omega arith in
    rw (here, drain_loop) (ap (λ (t : ℕ). some (ok t)) same)
drain_loop-total read (c ∷ cs) calls total small reads =
    let here : read calls ≡ counted c = ap read (omega arith) ∙ reads 0 in
    let rest =
      drain_loop-total read cs (calls + 1) (u64 (total + c)) (omega arith)
        (λ k. ap read (omega arith) ∙ reads (suc k)) in
    let same : u64 (u64 (total + c) + sum cs) ≡ u64 (total + (c + sum cs)) = omega arith in
    rw (here, drain_loop) (rest ∙ ap (λ (t : ℕ). some (ok t)) same)

-- An eventfd is read until its counter is 0, and the total is the sum in 64 bits.
pub drain-total :
    (read : ℕ → EventRead) (cs : List ℕ)
    → ((k : ℕ) → read k ≡ reads_of cs k)
    → drain read (suc (length cs)) ≡ some (ok (u64 (sum cs)))
unfolding drain
drain-total read cs reads =
    drain_loop-total read cs 0 0 (omega arith) (λ k. ap read (omega arith) ∙ reads k)
    ∙ ap (λ (t : ℕ). some (ok (u64 t))) (omega arith)
