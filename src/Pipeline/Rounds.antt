-- ===== src/Pipeline/Rounds.antt =====
-- What holds between two completions, when every operation moves all of its bytes.
use advcpp.Prelude.{
  ℕ, ◌+◌, ◌-◌, ◌*◌, ◌≤◌, ◌≡◌, refl, sym, subst, inl, inr, min, true, false, Bool-cases, Option,
  none, some, arith, leb, ◌==◌, ==→eq,
}
use advcpp.Memory.{Memory}
use advcpp.Packet.{read_bytes}
use advcpp.Pipeline.{Op, running, finished, Copy, submit_round}

module _ (src : Memory) (size : ℕ) where
  -- The part of `dst` below `n` is that of the file.
  abbrev pub Prefix : ℕ → Memory → Type 0
  Prefix n dst = read_bytes n 0 dst ≡ read_bytes n 0 src

  -- A buffer that holds `n` bytes of the file from `offset` on.
  abbrev pub Holds : Memory → ℕ → ℕ → ℕ → Type 0
  Holds buffers slot n offset = read_bytes n (slot * 65536) buffers ≡ read_bytes n offset src

  -- The next part of the file is that behind what was handed to writes, and `read_off` is its end.
  pub record Aligned (c : Copy) : Type 0 where
    pub status : c.status ≡ running
    pub going : c.draining ≡ false
    pub cur : c.cur ≤ 1
    pub within : c.write_off ≤ size
    pub next : c.read_off ≡ c.write_off + min (size - c.write_off) 65536
    pub read_done : c.read_done ≡ leb size c.read_off

  abbrev pub part : Copy → ℕ
  part c = min (size - c.write_off) 65536

  -- A write in flight from `slot`, of the `w` bytes below `end`.
  pub record Writing (buffers dst : Memory) (writing : Option Op) (end slot w : ℕ) : Type 0 where
    pub op : writing ≡ some (record { slot = slot; len = w; offset = end - w })
    pub fits : w ≤ 65536
    pub below : w ≤ end
    pub source : Holds buffers slot w (end - w)
    pub before : Prefix (end - w) dst

  -- As it stands in a copy.
  abbrev pub WritingIn : Copy → ℕ → ℕ → Type 0
  WritingIn c slot w = Writing c.buffers c.dst c.writing c.write_off slot w

  pub data Phase (c : Copy) : Type 0 where
    both :
        (w : ℕ)
        → Aligned c
        → c.reading ≡ some (record { slot = c.cur; len = part c; offset = c.write_off })
        → WritingIn c (1 - c.cur) w
        → c.left ≡ 2
        → Phase c
    read_only :
        Aligned c
        → c.reading ≡ some (record { slot = c.cur; len = part c; offset = c.write_off })
        → c.writing ≡ none
        → Prefix c.write_off c.dst
        → c.left ≡ 1
        → Phase c
    write_only :
        (w : ℕ)
        → Aligned c
        → c.reading ≡ none
        → c.bytes_read ≡ part c
        → Holds c.buffers c.cur (part c) c.write_off
        → WritingIn c (1 - c.cur) w
        → c.left ≡ 1
        → Phase c
    last_write :
        (slot w : ℕ)
        → c.status ≡ running
        → c.draining ≡ true
        → c.reading ≡ none
        → c.write_off ≡ size
        → WritingIn c slot w
        → c.left ≡ 1
        → Phase c
    done : c.status ≡ finished → c.write_off ≡ size → Prefix size c.dst → Phase c

  -- The end of a round: everything handed to writes is in the file, and the next part is read.
  pub record Ready (c : Copy) : Type 0 where
    pub aligned : Aligned c
    pub idle : c.reading ≡ none
    pub amount : c.bytes_read ≡ part c
    pub filled : Holds c.buffers c.cur (part c) c.write_off
    pub written : Prefix c.write_off c.dst

  -- The write of what was read.
  new_write :
      (c : Copy)
      → Ready c
      → Writing c.buffers c.dst
          (some (record { slot = c.cur; len = c.bytes_read; offset = c.write_off }))
          (c.write_off + c.bytes_read)
          c.cur
          c.bytes_read
  new_write c r =
      let back : c.write_off ≡ c.write_off + c.bytes_read - c.bytes_read = omega arith in
      let filled : Holds c.buffers c.cur c.bytes_read c.write_off =
        subst (λ (n : ℕ). Holds c.buffers c.cur n c.write_off) (sym r.amount) r.filled in
      record {
        op = ground (arith, back);
        fits = omega (arith, r.amount);
        below = omega arith;
        source = subst (λ (o : ℕ). Holds c.buffers c.cur c.bytes_read o) back filled;
        before = subst (λ (o : ℕ). Prefix o c.dst) back r.written;
      }

  pub submit_round-Phase : (c : Copy) → Ready c → Phase (submit_round size c)
  unfolding submit_round
  submit_round-Phase c r =
      let a = r.aligned in
      let end : c.read_off ≡ c.write_off + c.bytes_read = omega (arith, r.amount, a.next) in
      let back : c.cur ≡ 1 - (1 - c.cur) = omega (arith, a.cur) in
      elim (Bool-cases (c.bytes_read == 0)) [
        | inl empty ↦
            let at_end : c.write_off ≡ size =
              ground (arith, r.amount, a.within, ==→eq c.bytes_read 0 empty) in
            rw empty (done refl at_end (subst (λ (n : ℕ). Prefix n c.dst) at_end r.written))
        | inr more ↦ rw more (elim (Bool-cases c.read_done) [
          | inl over ↦ rw over (
              last_write c.cur c.bytes_read a.status refl r.idle
                (ground (arith, r.amount, a.within, a.next, a.read_done)) (new_write c r) refl)
          | inr rest ↦ rw rest (
              both c.bytes_read
                (record {
                  status = a.status;
                  going = a.going;
                  cur = omega arith;
                  within = ground (arith, r.amount, a.within, a.next, a.read_done);
                  next = ground (arith, end);
                  read_done = ground (arith, end);
                })
                (ground (arith, end))
                (subst
                  (λ (s : ℕ).
                    Writing c.buffers c.dst
                      (some (record { slot = c.cur; len = c.bytes_read; offset = c.write_off }))
                      (c.write_off + c.bytes_read) s c.bytes_read)
                  back (new_write c r))
                refl)
        ])
      ]
