-- ===== src/Irq/Request.antt =====
-- The requests for interrupts in userspace_drivers/vfio_utils.hpp: the bytes of a `vfio_irq_set` that
-- `VFIO_DEVICE_SET_IRQS` is given, for `vfio_set_irq_eventfds` and `vfio_disable_irq_index`.
pub mod Read
use advcpp.Prelude.{
  ℕ, zero, suc, ◌+◌, ◌*◌, ◌%◌, ◌^◌, ◌==◌, Option, none, some, List, [], ◌∷◌, length, if◌then◌else◌,
  u32, u32_max,
}
use advcpp.Memory.{Memory, read_le, write_le}

-- `sizeof(vfio_irq_set)`, behind which the data stands.
abbrev pub irq_set_size : ℕ
irq_set_size = 20

-- `VFIO_IRQ_SET_DATA_EVENTFD | VFIO_IRQ_SET_ACTION_TRIGGER`.
abbrev pub set_eventfds : ℕ
set_eventfds = 0x24

-- `VFIO_IRQ_SET_DATA_NONE | VFIO_IRQ_SET_ACTION_TRIGGER`.
abbrev pub set_nothing : ℕ
set_nothing = 0x21

-- An entry of `event_fds`, where -1 stands for no eventfd.
unfoldable pub fd_word : Option ℕ → ℕ
fd_word none = u32_max
fd_word (some fd) = u32 fd

-- The copy of `event_fds` to `a`.
unfoldable pub copy_fds : ℕ → List (Option ℕ) → Memory → Memory
unfolding fd_word
copy_fds a [] m = m
copy_fds a (fd ∷ fds) m = copy_fds (a + 4) fds (write_le 4 a (fd_word fd) m)

-- The fields of a request of `size` bytes, in a storage of zeros.
unfoldable pub irq_set_fields : ℕ → ℕ → ℕ → ℕ → ℕ → Memory
irq_set_fields size flags index start count =
    let with_argsz = write_le 4 0 (u32 size) (λ a. 0) in
    let with_flags = write_le 4 4 flags with_argsz in
    let with_index = write_le 4 8 index with_flags in
    let with_start = write_le 4 12 start with_index in write_le 4 16 (u32 count) with_start

unfoldable pub vfio_set_irq_eventfds : ℕ → ℕ → List (Option ℕ) → Memory
unfolding irq_set_fields copy_fds
vfio_set_irq_eventfds index start event_fds =
    let count = length event_fds in
    copy_fds irq_set_size event_fds
      (irq_set_fields (irq_set_size + count * 4) set_eventfds index start count)

unfoldable pub vfio_disable_irq_index : ℕ → Memory
unfolding irq_set_fields
vfio_disable_irq_index index = irq_set_fields irq_set_size set_nothing index 0 0

-- What linux/vfio.h lets the kernel read in a request.
pub record IrqSet : Type 0 where
  pub argsz : ℕ
  pub flags : ℕ
  pub index : ℕ
  pub start : ℕ
  pub event_fds : List (Option ℕ)

unfoldable pub word_fd : ℕ → Option ℕ
word_fd w = if w == u32_max then none else some w

unfoldable pub read_fds : ℕ → ℕ → Memory → List (Option ℕ)
unfolding word_fd
read_fds zero a m = []
read_fds (suc n) a m = word_fd (read_le 4 a m) ∷ read_fds n (a + 4) m

unfoldable pub read_irq_set : Memory → IrqSet
unfolding read_fds
read_irq_set m = record {
  argsz = read_le 4 0 m;
  flags = read_le 4 4 m;
  index = read_le 4 8 m;
  start = read_le 4 12 m;
  event_fds = read_fds (read_le 4 16 m) irq_set_size m;
}
