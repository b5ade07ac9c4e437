-- ===== src/Pipeline.antt =====
-- The copy of a file through two buffers of io_uring/05_pipeline_copy.cpp: while one buffer is
-- written, the next part of the file is read into the other. The ring and the kernel are not code
-- of the repository: what an operation moves, and which of two in flight completes first, are
-- parameters.
pub mod Rounds
pub mod Completions
pub mod Copied
pub mod Safety
pub mod Short
mod Tests
use advcpp.Prelude.{
  ℕ, zero, suc, ◌+◌, ◌-◌, ◌*◌, min, Bool, true, false, Option, none, some, leb, ◌==◌, if◌then◌else◌,
}
use advcpp.Memory.{Memory}
use advcpp.Packet.{copy_bytes, read_bytes}

abbrev pub buf_size : ℕ
buf_size = 65536

-- An operation in flight between buffer `slot` and `len` bytes of a file at `offset`.
pub record Op : Type 0 where
  pub slot : ℕ
  pub len : ℕ
  pub offset : ℕ

-- `res` of a completion: a negative one is an error.
pub data Answer : Type 0 where
  failed : ℕ → Answer
  moved : ℕ → Answer

pub data Status : Type 0 where
  running finished : Status
  threw : ℕ → Status

-- The two buffers one behind the other, the destination, and the variables of `main`. `left` is
-- how many completions the loop still reaps in this round, and `draining` says that it waits for
-- the last write.
pub record Copy : Type 0 where
  pub buffers : Memory
  pub dst : Memory
  pub reading : Option Op
  pub writing : Option Op
  pub read_off : ℕ
  pub write_off : ℕ
  pub cur : ℕ
  pub read_done : Bool
  pub bytes_read : ℕ
  pub left : ℕ
  pub draining : Bool
  pub status : Status

-- The first read.
pub start : Memory → Memory → ℕ → Copy
start buffers dst file_size =
    let chunk = min file_size buf_size in
    record {
      buffers = buffers;
      dst = dst;
      reading = some (record { slot = 0; len = chunk; offset = 0 });
      writing = none;
      read_off = chunk;
      write_off = 0;
      cur = 0;
      read_done = leb file_size chunk;
      bytes_read = 0;
      left = 1;
      draining = false;
      status = running;
    }

-- The end of a round: a write of what was read, the next read, or the wait for the last write.
pub submit_round : ℕ → Copy → Copy
submit_round file_size c =
    let chunk = min (file_size - c.read_off) buf_size in
    let write : Op = record { slot = c.cur; len = c.bytes_read; offset = c.write_off } in
    let read : Op = record { slot = 1 - c.cur; len = chunk; offset = c.read_off } in
    let more : Copy = record c {
      writing = some write;
      reading = some read;
      cur = 1 - c.cur;
      read_off = c.read_off + chunk;
      read_done = leb file_size (c.read_off + chunk);
      write_off = c.write_off + c.bytes_read;
      bytes_read = 0;
      left = 2;
    } in
    let last : Copy = record c {
      writing = some write;
      cur = 1 - c.cur;
      write_off = c.write_off + c.bytes_read;
      left = 1;
      draining = true;
    } in
    if c.bytes_read == 0 then record c { status = finished } else if c.read_done then last else more

-- One completion less to reap.
pub reaped : ℕ → Copy → Copy
unfolding submit_round
reaped file_size c =
    let c' : Copy = record c { left = c.left - 1 } in
    if c.draining
    then record c' { status = finished }
    else if c'.left == 0
    then submit_round file_size c'
    else c'

-- The read completes: the kernel has filled the buffer, and the loop reaps the completion.
pub on_read : ℕ → Memory → Op → Answer → Copy → Copy
unfolding reaped copy_bytes read_bytes
on_read file_size src op (failed errno) c = record c { reading = none; status = threw errno }
on_read file_size src op (moved n) c = reaped file_size (record c {
  reading = none;
  buffers = copy_bytes (op.slot * buf_size) (read_bytes n op.offset src) c.buffers;
  bytes_read = n;
})

pub on_write : ℕ → Op → Answer → Copy → Copy
unfolding reaped copy_bytes read_bytes
on_write file_size op (failed errno) c = record c { writing = none; status = threw errno }
on_write file_size op (moved n) c = reaped file_size (record c {
  writing = none;
  dst = copy_bytes op.offset (read_bytes n (op.slot * buf_size) c.buffers) c.dst;
})

-- What an operation moves at the `k`-th completion.
abbrev pub Kernel : Type 0
Kernel = ℕ → Op → Answer

-- One completion; where both operations are in flight, `first` says whether it is the read's.
pub complete : ℕ → Memory → Kernel → Kernel → ℕ → Bool → Option Op → Option Op → Copy → Copy
unfolding on_read on_write
complete file_size src reads writes k first (some r) (some w) c =
    if first then on_read file_size src r (reads k r) c else on_write file_size w (writes k w) c
complete file_size src reads writes k first (some r) none c = on_read file_size src r (reads k r) c
complete file_size src reads writes k first none (some w) c = on_write file_size w (writes k w) c
complete file_size src reads writes k first none none c = c

abbrev is_running : Status → Bool
is_running running = true
is_running finished = false
is_running (threw errno) = false

-- The loop, as far as `fuel` completions.
pub run : ℕ → ℕ → Memory → Kernel → Kernel → (ℕ → Bool) → ℕ → Copy → Copy
unfolding complete
run zero file_size src reads writes first k c = c
run (suc fuel) file_size src reads writes first k c =
    let next =
      run fuel file_size src reads writes first (k + 1)
        (complete file_size src reads writes k (first k) c.reading c.writing c) in
    if is_running c.status then next else c
