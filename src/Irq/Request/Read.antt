-- ===== src/Irq/Request/Read.antt =====
-- What the kernel reads in the requests is what the code was asked for.
use advcpp.Prelude.{
  ℕ, ◌+◌, ◌*◌, ◌%◌, ◌^◌, ◌≤◌, ◌≡◌, refl, ◌∙◌, inl, Option, none, some, List, [], ◌∷◌, length, u32,
  u32_max, arith,
}
use advcpp.Memory.{Memory, read_le, write_le}
use advcpp.Memory.Words.{read_le-write_le, read_le-write_ne}
use advcpp.Irq.Request.{
  set_eventfds, set_nothing, fd_word, copy_fds, irq_set_fields, vfio_set_irq_eventfds,
  vfio_disable_irq_index, word_fd, read_fds, read_irq_set,
}

-- Descriptors are not negative as an `int`.
abbrev pub AreFds : List (Option ℕ) → Type 0
AreFds [] = Unit {0}
AreFds (none ∷ fds) = AreFds fds
AreFds (some fd ∷ fds) = (fd ≤ 2147483647) × AreFds fds

copy_fds-keeps :
    (k b a : ℕ) (fds : List (Option ℕ)) (m : Memory)
    → b + k ≤ a
    → read_le k b (copy_fds a fds m) ≡ read_le k b m
unfolding copy_fds
copy_fds-keeps k b a [] m h = refl
copy_fds-keeps k b a (fd ∷ fds) m h =
    copy_fds-keeps k b (a + 4) fds (write_le 4 a (fd_word fd) m) (omega arith)
    ∙ read_le-write_ne k b 4 a (fd_word fd) m (inl h)

word_fd-fd_word : (fd : ℕ) → fd ≤ 2147483647 → word_fd (fd_word (some fd) % 2 ^ 32) ≡ some fd
unfolding word_fd fd_word
word_fd-fd_word fd h = ground arith

first-copy_fds :
    (a : ℕ) (fd : Option ℕ) (fds : List (Option ℕ)) (m : Memory)
    → read_le 4 a (copy_fds a (fd ∷ fds) m) ≡ fd_word fd % 2 ^ 32
unfolding copy_fds
first-copy_fds a fd fds m =
    copy_fds-keeps 4 a (a + 4) fds (write_le 4 a (fd_word fd) m) (omega arith)
    ∙ read_le-write_le 4 a (fd_word fd) m

read_fds-copy_fds :
    (a : ℕ) (fds : List (Option ℕ)) (m : Memory)
    → AreFds fds
    → read_fds (length fds) a (copy_fds a fds m) ≡ fds
unfolding read_fds copy_fds
read_fds-copy_fds a [] m h = refl
read_fds-copy_fds a (none ∷ fds) m h =
    rw
      (first-copy_fds a none fds m, read_fds-copy_fds (a + 4) fds (write_le 4 a (fd_word none) m) h)
      refl
read_fds-copy_fds a (some fd ∷ fds) m h =
    rw
      (
        first-copy_fds a (some fd) fds m,
        word_fd-fd_word fd h.0,
        read_fds-copy_fds (a + 4) fds (write_le 4 a (fd_word (some fd)) m) h.1,
      )
      refl

-- A field that a later store leaves alone, and one that it has written.
kept : (b a v : ℕ) (m : Memory) → b + 4 ≤ a → read_le 4 b (write_le 4 a v m) ≡ read_le 4 b m
kept b a v m h = read_le-write_ne 4 b 4 a v m (inl h)

written : (a v : ℕ) (m : Memory) → v ≤ u32_max → read_le 4 a (write_le 4 a v m) ≡ v
written a v m h = let small : v % 256 ^ 4 ≡ v = omega arith in read_le-write_le 4 a v m ∙ small

-- The five fields of a request, where none of them is more than its 32 bits hold.
record IsRequest (size flags index start count : ℕ) (m : Memory) : Type 0 where
  argsz : read_le 4 0 m ≡ size
  flags_at : read_le 4 4 m ≡ flags
  index_at : read_le 4 8 m ≡ index
  start_at : read_le 4 12 m ≡ start
  count_at : read_le 4 16 m ≡ count

irq_set_fields-IsRequest :
    (size flags index start count : ℕ)
    → size ≤ u32_max
    → flags ≤ u32_max
    → index ≤ u32_max
    → start ≤ u32_max
    → count ≤ u32_max
    → IsRequest size flags index start count (irq_set_fields size flags index start count)
unfolding irq_set_fields
irq_set_fields-IsRequest size flags index start count hz hf hi hs hc =
    let whole : u32 size ≡ size = omega arith in
    let all : u32 count ≡ count = omega arith in
    let m1 = write_le 4 0 (u32 size) (λ a. 0) in
    let m2 = write_le 4 4 flags m1 in
    let m3 = write_le 4 8 index m2 in
    let m4 = write_le 4 12 start m3 in
    let last = λ (b : ℕ) (h : b + 4 ≤ 16). kept b 16 (u32 count) m4 h in
    let fourth = λ (b : ℕ) (h : b + 4 ≤ 12). last b (omega arith) ∙ kept b 12 start m3 h in
    let third = λ (b : ℕ) (h : b + 4 ≤ 8). fourth b (omega arith) ∙ kept b 8 index m2 h in
    record {
      argsz =
          third 0 (omega arith)
          ∙ kept 0 4 flags m1 (omega arith)
          ∙ written 0 (u32 size) (λ a. 0) (omega arith)
          ∙ whole;
      flags_at = third 4 (omega arith) ∙ written 4 flags m1 hf;
      index_at = fourth 8 (omega arith) ∙ written 8 index m2 hi;
      start_at = last 12 (omega arith) ∙ written 12 start m3 hs;
      count_at = written 16 (u32 count) m4 (omega arith) ∙ all;
    }

-- What the kernel reads in the request of `vfio_set_irq_eventfds` is the size of the whole request,
-- the flags, the index, the start and the eventfds that it was called with, each -1 included, where
-- the request's size has 32 bits and the descriptors are those of an `int`.
pub vfio_set_irq_eventfds-read :
    (index start : ℕ) (event_fds : List (Option ℕ))
    → index ≤ u32_max
    → start ≤ u32_max
    → 20 + length event_fds * 4 ≤ u32_max
    → AreFds event_fds
    → read_irq_set (vfio_set_irq_eventfds index start event_fds) ≡ record {
      argsz = 20 + length event_fds * 4;
      flags = set_eventfds;
      index = index;
      start = start;
      event_fds = event_fds;
    }
unfolding vfio_set_irq_eventfds read_irq_set
vfio_set_irq_eventfds-read index start event_fds hi hs fits fds =
    let count = length event_fds in
    let m = irq_set_fields (20 + count * 4) set_eventfds index start count in
    let fields =
      irq_set_fields-IsRequest (20 + count * 4) set_eventfds index start count fits (omega arith) hi
        hs (omega arith) in
    let before = λ (b : ℕ) (h : b + 4 ≤ 20). copy_fds-keeps 4 b 20 event_fds m h in
    rw
      (
        before 0 (omega arith),
        before 4 (omega arith),
        before 8 (omega arith),
        before 12 (omega arith),
        before 16 (omega arith),
        fields.argsz,
        fields.flags_at,
        fields.index_at,
        fields.start_at,
        fields.count_at,
        read_fds-copy_fds 20 event_fds m fds,
      )
      refl

-- The request of `vfio_disable_irq_index` names no vector.
vfio_disable_irq_index-read :
    (index : ℕ)
    → index ≤ u32_max
    → read_irq_set (vfio_disable_irq_index index)
      ≡ record { argsz = 20; flags = set_nothing; index = index; start = 0; event_fds = [] }
unfolding vfio_disable_irq_index read_irq_set read_fds
vfio_disable_irq_index-read index h =
    let fields =
      irq_set_fields-IsRequest 20 set_nothing index 0 0 (omega arith) (omega arith) h (omega arith)
        (omega arith) in
    rw (fields.argsz, fields.flags_at, fields.index_at, fields.start_at, fields.count_at) refl
