-- ===== src/Pipeline/Completions.antt =====
-- Each completion leads from one phase to another, and what is left to do falls.
use advcpp.Prelude.{
  ℕ, ◌+◌, ◌-◌, ◌*◌, ◌≤◌, ◌<◌, ◌≡◌, refl, sym, ap, ◌∙◌, subst, ◌⊎◌, inl, true, Option, none, some,
  arith, length,
}
use mathlib.Core.Path.{ap₂}
use mathlib.Core.List.{◌++◌}
use advcpp.Memory.{Memory}
use advcpp.Packet.{copy_bytes, read_bytes}
use advcpp.Packet.Bytes.{read_bytes-add, read_bytes-copied, read_bytes-beside, length-read_bytes}
use advcpp.Pipeline.{Op, moved, Copy, submit_round, reaped, on_read, on_write}
use advcpp.Pipeline.Rounds.{
  Prefix, Holds, Aligned, part, Writing, WritingIn, Phase, read_only, write_only, done,
  submit_round-Phase,
}

module _ (src : Memory) (size : ℕ) where
  -- The buffers after a read of `n` bytes from `offset`.
  abbrev filled : ℕ → ℕ → ℕ → Memory → Memory
  filled slot n offset buffers = copy_bytes (slot * 65536) (read_bytes n offset src) buffers

  filled-Holds :
      (slot n offset : ℕ) (buffers : Memory)
      → Holds src size (filled slot n offset buffers) slot n offset
  filled-Holds slot n offset buffers =
      read_bytes-copied n (slot * 65536) (read_bytes n offset src) buffers
        (sym (length-read_bytes n offset src))

  -- The write in flight does not see what is read into the other buffer.
  filled-Writing :
      (slot n offset : ℕ) {buffers dst : Memory} {writing : Option Op} {end w : ℕ}
      → n ≤ 65536
      → slot ≤ 1
      → Writing src size buffers dst writing end (1 - slot) w
      → Writing src size (filled slot n offset buffers) dst writing end (1 - slot) w
  filled-Writing slot n offset {buffers} {dst} {writing} {end} {w} small h r = record {
    op = r.op;
    fits = r.fits;
    below = r.below;
    source =
        read_bytes-beside w ((1 - slot) * 65536) (slot * 65536) (read_bytes n offset src) buffers
          (grind (arith, length-read_bytes n offset src, r.fits))
        ∙ r.source;
    before = r.before;
  }

  -- The end of a write.
  abbrev written : ℕ → ℕ → ℕ → Memory → Memory → Memory
  written slot w end buffers dst = copy_bytes (end - w) (read_bytes w (slot * 65536) buffers) dst

  written-Prefix :
      {buffers dst : Memory} {writing : Option Op} {end slot w : ℕ}
      → Writing src size buffers dst writing end slot w
      → Prefix src size end (written slot w end buffers dst)
  written-Prefix {buffers} {dst} {writing} {end} {slot} {w} r =
      let bytes = read_bytes w (slot * 65536) buffers in
      let len : length bytes ≡ w = length-read_bytes w (slot * 65536) buffers in
      let whole : end ≡ end - w + w = omega (arith, r.below) in
      let from : end - w ≡ 0 + (end - w) = omega arith in
      let dst' = copy_bytes (end - w) bytes dst in
      ap (λ (n : ℕ). read_bytes n 0 dst') whole
      ∙ read_bytes-add (end - w) w 0 dst'
      ∙ ap₂ ◌++◌ (read_bytes-beside (end - w) 0 (end - w) bytes dst (inl (omega arith)) ∙ r.before)
          (ap (λ (o : ℕ). read_bytes w o dst') (sym from)
            ∙ read_bytes-copied w (end - w) bytes dst (sym len)
            ∙ r.source
            ∙ ap (λ (o : ℕ). read_bytes w o src) from)
      ∙ sym (read_bytes-add (end - w) w 0 src)
      ∙ ap (λ (n : ℕ). read_bytes n 0 src) (sym whole)

  abbrev pub next_read : Copy → Op
  next_read c = record { slot = c.cur; len = part src size c; offset = c.write_off }

  abbrev pub read_completed : Copy → Copy
  read_completed c = on_read size src (next_read c) (moved (part src size c)) c

  abbrev pub write_completed : ℕ → ℕ → Copy → Copy
  write_completed slot w c =
      on_write size (record { slot = slot; len = w; offset = c.write_off - w }) (moved w) c

  pub read_first :
      (c : Copy) (w : ℕ)
      → Aligned src size c
      → WritingIn src size c (1 - c.cur) w
      → c.left ≡ 2
      → Phase src size (read_completed c)
  unfolding on_read reaped
  read_first c w a r two =
      rw (two, a.going)
        (write_only w
          (record {
            status = a.status;
            going = refl;
            cur = a.cur;
            within = a.within;
            next = a.next;
            read_done = a.read_done;
          })
          refl refl (filled-Holds c.cur (part src size c) c.write_off c.buffers)
          (filled-Writing c.cur (part src size c) c.write_off (omega arith) a.cur r) refl)

  pub write_first :
      (c : Copy) (w : ℕ)
      → Aligned src size c
      → c.reading ≡ some (next_read c)
      → WritingIn src size c (1 - c.cur) w
      → c.left ≡ 2
      → Phase src size (write_completed (1 - c.cur) w c)
  unfolding on_write reaped
  write_first c w a e r two =
      rw (two, a.going)
        (read_only
          (record {
            status = a.status;
            going = refl;
            cur = a.cur;
            within = a.within;
            next = a.next;
            read_done = a.read_done;
          })
          e refl (written-Prefix r) refl)

  pub read_second :
      (c : Copy)
      → Aligned src size c
      → c.writing ≡ none
      → Prefix src size c.write_off c.dst
      → c.left ≡ 1
      → Phase src size (read_completed c)
  unfolding on_read reaped
  read_second c a e before one =
      rw (one, a.going)
        (submit_round-Phase src size _ (record {
          aligned = record {
            status = a.status;
            going = refl;
            cur = a.cur;
            within = a.within;
            next = a.next;
            read_done = a.read_done;
          };
          idle = refl;
          amount = refl;
          filled = filled-Holds c.cur (part src size c) c.write_off c.buffers;
          written = before;
        }))

  pub write_second :
      (c : Copy) (w : ℕ)
      → Aligned src size c
      → c.reading ≡ none
      → c.bytes_read ≡ part src size c
      → Holds src size c.buffers c.cur (part src size c) c.write_off
      → WritingIn src size c (1 - c.cur) w
      → c.left ≡ 1
      → Phase src size (write_completed (1 - c.cur) w c)
  unfolding on_write reaped
  write_second c w a e amount holds r one =
      rw (one, a.going)
        (submit_round-Phase src size _ (record {
          aligned = record {
            status = a.status;
            going = refl;
            cur = a.cur;
            within = a.within;
            next = a.next;
            read_done = a.read_done;
          };
          idle = e;
          amount = amount;
          filled = holds;
          written = written-Prefix r;
        }))

  pub write_last :
      (c : Copy) (slot w : ℕ)
      → c.draining ≡ true
      → c.write_off ≡ size
      → WritingIn src size c slot w
      → Phase src size (write_completed slot w c)
  unfolding on_write reaped
  write_last c slot w draining end r = rw draining (
      done refl end (
        subst (λ (n : ℕ). Prefix src size n (written slot w c.write_off c.buffers c.dst)) end
          (written-Prefix r)))

  -- What is left to do.
  abbrev pub remaining : Copy → ℕ
  remaining c = 3 * (size - c.write_off) + c.left

  module _ (c : Copy) (a : Aligned src size c) (h : 1 ≤ c.left) where
    pub read_completed-remaining : remaining (read_completed c) < remaining c
    unfolding on_read reaped submit_round
    read_completed-remaining = ground arith

    pub write_completed-remaining :
        (slot w : ℕ)
        → (1 < c.left) ⊎ (c.bytes_read ≡ part src size c)
        → remaining (write_completed slot w c) < remaining c
    unfolding on_write reaped submit_round
    write_completed-remaining slot w amount = ground arith

  pub write_last-remaining :
      (c : Copy) (slot w : ℕ)
      → c.draining ≡ true
      → c.left ≡ 1
      → remaining (write_completed slot w c) < remaining c
  unfolding on_write reaped
  write_last-remaining c slot w draining one = ground arith
