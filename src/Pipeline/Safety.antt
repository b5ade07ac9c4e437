-- ===== src/Pipeline/Safety.antt =====
-- What holds whatever the kernel answers: the two operations never share a buffer, and the loop
-- ends.
use advcpp.Prelude.{
  ℕ, zero, suc, ◌+◌, ◌-◌, ◌*◌, ◌≤◌, ◌<◌, ◌≡◌, refl, inl, inr, Bool, true, false, Bool-cases, Option,
  none, some, arith, leb, if◌then◌else◌,
}
use advcpp.Memory.{Memory}
use advcpp.Pipeline.{
  Op, Answer, moved, failed, Copy, submit_round, reaped, on_read, on_write, Kernel, complete, run,
  start, is_running,
}

abbrev pub At : ℕ → Option Op → Type 0
At slot none = Unit {0}
At slot (some op) = op.slot ≡ slot

abbrev flight : Option Op → ℕ
flight none = 0
flight (some op) = 1

-- A read fills buffer `cur`, a write empties the other one, and `left` counts them.
pub record Separate (c : Copy) : Type 0 where
  pub cur : c.cur ≤ 1
  pub reading : At c.cur c.reading
  pub writing : At (1 - c.cur) c.writing

record Sound (size : ℕ) (c : Copy) : Type 0 where
  pub separate : Separate c
  pub counted : c.left ≡ flight c.reading + flight c.writing
  pub busy : 1 ≤ c.left
  pub read_done : c.read_done ≡ leb size c.read_off
  pub draining : c.draining ≡ true → c.reading ≡ none

-- What is left to do.
abbrev todo : ℕ → Copy → ℕ
todo size c = 3 * (size - c.read_off) + c.left + (if c.draining then 0 else 2)

-- What a completion leads to.
record After (size todo_before : ℕ) (c : Copy) : Type 0 where
  pub separate : Separate c
  pub going : is_running c.status ≡ true → Sound size c
  pub falls : is_running c.status ≡ true → todo size c < todo_before

module _ (size : ℕ) where
  reaped-After :
      (c : Copy)
      → c.cur ≤ 1
      → At c.cur c.reading
      → At (1 - c.cur) c.writing
      → c.left ≡ flight c.reading + flight c.writing + 1
      → c.read_done ≡ leb size c.read_off
      → (c.draining ≡ true → c.reading ≡ none)
      → After size (todo size c) (reaped size c)
  unfolding reaped submit_round
  reaped-After c h r w counted read_done draining = ground arith

  on_read-After :
      (src : Memory) (op : Op) (answer : Answer) (c : Copy)
      → Sound size c
      → c.reading ≡ some op
      → After size (todo size c) (on_read size src op answer c)
  unfolding on_read
  on_read-After src op (failed errno) c o e = record {
    separate = ground (arith, o.separate);
    going = λ h. absurd (cc);
    falls = λ h. absurd (cc);
  }
  on_read-After src op (moved n) c o e =
      let counted : c.left ≡ 1 + flight c.writing = rw e at o.counted in
      reaped-After _ o.separate.cur tt o.separate.writing (omega (arith, counted)) o.read_done
        (λ d. refl)

  on_write-After :
      (op : Op) (answer : Answer) (c : Copy)
      → Sound size c
      → c.writing ≡ some op
      → After size (todo size c) (on_write size op answer c)
  unfolding on_write
  on_write-After op (failed errno) c o e = record {
    separate = ground (arith, o.separate);
    going = λ h. absurd (cc);
    falls = λ h. absurd (cc);
  }
  on_write-After op (moved n) c o e =
      let counted : c.left ≡ flight c.reading + 1 = rw e at o.counted in
      reaped-After _ o.separate.cur o.separate.reading tt (omega (arith, counted)) o.read_done
        o.draining

  module _ (src : Memory) (reads writes : Kernel) where
    complete-After :
        (k : ℕ) (first : Bool) (c : Copy) (rd wr : Option Op)
        → Sound size c
        → c.reading ≡ rd
        → c.writing ≡ wr
        → After size (todo size c) (complete size src reads writes k first rd wr c)
    unfolding complete
    complete-After k true c (some r) (some w) o e e' = on_read-After src r (reads k r) c o e
    complete-After k false c (some r) (some w) o e e' = on_write-After w (writes k w) c o e'
    complete-After k first c (some r) none o e e' = on_read-After src r (reads k r) c o e
    complete-After k first c none (some w) o e e' = on_write-After w (writes k w) c o e'
    complete-After k first c none none o e e' =
        let counted : c.left ≡ 0 = rw (e, e') at o.counted in absurd (omega (arith, o.busy))

    run-Separate :
        (fuel : ℕ) (first : ℕ → Bool) (k : ℕ) (c : Copy)
        → Separate c
        → (is_running c.status ≡ true → Sound size c)
        → Separate (run fuel size src reads writes first k c)
          × ((is_running c.status ≡ true → todo size c ≤ fuel)
              → is_running (run fuel size src reads writes first k c).status ≡ false)
    unfolding run
    run-Separate zero first k c s o = (
      s,
      λ h. elim (Bool-cases (is_running c.status)) [
        | inl going ↦ absurd (omega (arith, (o going).busy, h going))
        | inr over ↦ over
      ],
    )
    run-Separate (suc fuel) first k c s o = elim (Bool-cases (is_running c.status)) [
      | inl going ↦
          let next = complete-After k (first k) c c.reading c.writing (o going) refl refl in
          let rest =
            run-Separate fuel first (k + 1)
              (complete size src reads writes k (first k) c.reading c.writing c) next.separate
              next.going in
          rw going (rest.0, λ h. rest.1 (λ g. omega (arith, next.falls g, h refl)))
      | inr over ↦ rw over (s, λ h. over)
    ]

    start-Sound : (buffers dst : Memory) → Sound size (start buffers dst size)
    unfolding start
    start-Sound buffers dst = record {
      separate = record { cur = omega arith; reading = refl; writing = tt };
      counted = refl;
      busy = omega arith;
      read_done = refl;
      draining = λ h. absurd (cc);
    }

    -- Whatever the kernel answers and in whatever order, errors and short answers included: after
    -- any number of completions the read in flight is into buffer `cur` and the write in flight from
    -- the other one, and within `3 * size + 3` completions the loop has ended.
    pub run-start_any :
        (first : ℕ → Bool) (buffers dst : Memory) (fuel : ℕ)
        → Separate (run fuel size src reads writes first 0 (start buffers dst size))
          × (is_running
                (run (3 * size + 3) size src reads writes first 0 (start buffers dst size)).status
              ≡ false)
    run-start_any first buffers dst fuel =
        let sound = start-Sound buffers dst in
        let from : (n : ℕ) → _ =
          λ n. run-Separate n first 0 (start buffers dst size) sound.separate (λ h. sound) in
        ((from fuel).0, (from (3 * size + 3)).1 (λ h. unfold start in (omega arith)))
