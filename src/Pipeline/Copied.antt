-- ===== src/Pipeline/Copied.antt =====
-- The whole copy: in every order of completions it ends, with the file's bytes.
use advcpp.Prelude.{
  ℕ, zero, suc, ◌+◌, ◌-◌, ◌*◌, ◌≤◌, ◌<◌, ◌≡◌, refl, sym, subst, inl, inr, Bool, true, false, Option,
  none, some, arith, Bool-cases,
}
use advcpp.Memory.{Memory}
use advcpp.Packet.{read_bytes}
use advcpp.Pipeline.{
  Op, Answer, moved, finished, Copy, on_read, on_write, Kernel, complete, run, start, is_running,
}
use advcpp.Pipeline.Rounds.{Aligned, Phase, both, read_only, write_only, last_write, done}
use advcpp.Pipeline.Completions.{
  next_read, read_completed, write_completed, read_first, write_first, read_second, write_second,
  write_last, remaining, read_completed-remaining, write_completed-remaining, write_last-remaining,
}

-- The `size` bytes of the file are copied.
pub record Copied (src : Memory) (size : ℕ) (c : Copy) : Type 0 where
  pub over : c.status ≡ finished
  pub end : c.write_off ≡ size
  pub same : read_bytes size 0 c.dst ≡ read_bytes size 0 src

-- The kernel moves all that it is asked for: of a read, what lies within the file.
abbrev pub FullReads : ℕ → Kernel → Type 0
FullReads size reads = (k : ℕ) (op : Op) → op.offset + op.len ≤ size → reads k op ≡ moved op.len

abbrev pub FullWrites : Kernel → Type 0
FullWrites writes = (k : ℕ) (op : Op) → writes k op ≡ moved op.len

module _ (src : Memory) (size : ℕ) (reads writes : Kernel) (full_reads : FullReads size reads)
    (full_writes : FullWrites writes) where
  -- What a completion leads to.
  abbrev Falls : Copy → Copy → Type 0
  Falls c c' = Phase src size c' × (remaining src size c' < remaining src size c)

  module _ (k : ℕ) (first : Bool) (c : Copy) where
    abbrev completed : Option Op → Option Op → Copy
    completed rd wr = complete size src reads writes k first rd wr c

    abbrev write_op : ℕ → ℕ → Op
    write_op slot w = record { slot = slot; len = w; offset = c.write_off - w }

    read_Falls :
        Aligned src size c
        → Falls c (read_completed src size c)
        → Falls c (on_read size src (next_read src size c) (reads k (next_read src size c)) c)
    read_Falls a =
        subst (λ (r : Answer). Falls c (on_read size src (next_read src size c) r c))
          (sym (full_reads k (next_read src size c) (omega (arith, a.within))))

    write_Falls :
        (slot w : ℕ)
        → Falls c (write_completed src size slot w c)
        → Falls c (on_write size (write_op slot w) (writes k (write_op slot w)) c)
    write_Falls slot w =
        subst (λ (r : Answer). Falls c (on_write size (write_op slot w) r c))
          (sym (full_writes k (write_op slot w)))

    in_flight :
        (rd wr : Option Op)
        → c.reading ≡ rd
        → c.writing ≡ wr
        → Falls c (completed rd wr)
        → Falls c (completed c.reading c.writing)
    in_flight rd wr e e' f =
        subst (λ (x : Option Op). Falls c (completed x c.writing)) (sym e)
          (subst (λ (x : Option Op). Falls c (completed rd x)) (sym e') f)

    complete-Falls :
        Phase src size c → is_running c.status ≡ true → Falls c (completed c.reading c.writing)
    unfolding complete
    complete-Falls (both w a e r two) h =
        in_flight (some (next_read src size c)) (some (write_op (1 - c.cur) w)) e r.op
          (elim first
            as (λ (b : Bool). Falls c (
              complete size src reads writes k b (some (next_read src size c))
                (some (write_op (1 - c.cur) w)) c)) [
                  | true ↦ read_Falls a (
                    read_first src size c w a r two,
                    read_completed-remaining src size c a (omega arith),
                  )
                  | false ↦ write_Falls (1 - c.cur) w (
                    write_first src size c w a e r two,
                    write_completed-remaining src size c a (omega arith) (1 - c.cur) w
                        (inl (omega arith)),
                  )
                ])
    complete-Falls (read_only a e e' before one) h =
        in_flight (some (next_read src size c)) none e e' (
          read_Falls a (
            read_second src size c a e' before one,
            read_completed-remaining src size c a (omega arith),
          ))
    complete-Falls (write_only w a e amount holds r one) h =
        in_flight none (some (write_op (1 - c.cur) w)) e r.op (
          write_Falls (1 - c.cur) w (
            write_second src size c w a e amount holds r one,
            write_completed-remaining src size c a (omega arith) (1 - c.cur) w (inr amount),
          ))
    complete-Falls (last_write slot w going draining e end r one) h =
        in_flight none (some (write_op slot w)) e r.op (
          write_Falls slot w (
            write_last src size c slot w draining end r,
            write_last-remaining src size c slot w draining one,
          ))
    complete-Falls (done over end same) h = absurd (ground (arith, over))

  stopped : (c : Copy) → Phase src size c → is_running c.status ≡ false → Copied src size c
  stopped c (both w a e r two) h = absurd (ground (arith, a.status))
  stopped c (read_only a e e' before one) h = absurd (ground (arith, a.status))
  stopped c (write_only w a e amount holds r one) h = absurd (ground (arith, a.status))
  stopped c (last_write slot w going draining e end r one) h = absurd (ground (arith, going))
  stopped c (done over end same) h = record { over = over; end = end; same = same }

  out_of_work :
      (c : Copy) → Phase src size c → remaining src size c ≤ 0 → is_running c.status ≡ false
  out_of_work c (both w a e r two) h = absurd (omega arith)
  out_of_work c (read_only a e e' before one) h = absurd (omega arith)
  out_of_work c (write_only w a e amount holds r one) h = absurd (omega arith)
  out_of_work c (last_write slot w going draining e end r one) h = absurd (omega arith)
  out_of_work c (done over end same) h = rw over

  run-Copied :
      (fuel : ℕ) (first : ℕ → Bool) (k : ℕ) (c : Copy)
      → Phase src size c
      → remaining src size c ≤ fuel
      → Copied src size (run fuel size src reads writes first k c)
  unfolding run
  run-Copied zero first k c p h = stopped c p (out_of_work c p h)
  run-Copied (suc fuel) first k c p h = elim (Bool-cases (is_running c.status)) [
    | inl going ↦
        let next = complete-Falls k (first k) c p going in
        rw going (
          run-Copied fuel first (k + 1)
            (complete size src reads writes k (first k) c.reading c.writing c) next.0
            (omega (arith, next.1)))
    | inr over ↦ rw over (stopped c p over)
  ]

  start-Phase : (buffers dst : Memory) → Phase src size (start buffers dst size)
  unfolding start read_bytes
  start-Phase buffers dst =
      read_only
        (record {
          status = refl;
          going = refl;
          cur = omega arith;
          within = omega arith;
          next = omega arith;
          read_done = refl;
        })
        (ground arith) refl refl refl

  -- Where the kernel moves all that it is asked for, the loop ends within `3 * size + 1`
  -- completions, in whatever order those of a read and a write in flight together arrive, and then
  -- all `size` bytes were written and the first `size` bytes of the destination are the file's.
  pub run-start :
      (first : ℕ → Bool) (buffers dst : Memory)
      → Copied src size (run (3 * size + 1) size src reads writes first 0 (start buffers dst size))
  unfolding start
  run-start first buffers dst =
      run-Copied (3 * size + 1) first 0 (start buffers dst size) (start-Phase buffers dst)
        (omega arith)
