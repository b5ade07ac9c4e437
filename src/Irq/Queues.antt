-- ===== src/Irq/Queues.antt =====
-- The start of a queue that has a vector, in userspace_drivers/26_virtio_net_irq_echo_loop.cpp.
pub mod Laws
use advcpp.Prelude.{ℕ, not, ◌==◌}
use advcpp.Prelude.{queue_already_enabled, queue_enable_lost, msix_vector_lost}
use advcpp.Mmio.{MappedRegion, Io, pure, ◌>>=◌, ◌>>◌, throw_if, write16}
use advcpp.Vring.{VringLayout}
use advcpp.Device.Guards.{QueueSelectionGuard, select}
use advcpp.Device.Registers.{at, common_q_msix}
use advcpp.Device.Queues.{QueueView, read_queue_view, program_queue_addresses, enable_queue}

pub program_and_enable_queue_with_msix :
    MappedRegion
    → ℕ
    → QueueSelectionGuard
    → ℕ
    → VringLayout
    → ℕ
    → ℕ
    → Io (QueueSelectionGuard × QueueView)
program_and_enable_queue_with_msix m delta selection queue layout queue_iova vector = do
  selection ← select m delta selection queue
  before ← read_queue_view m delta
  throw_if (not (before.enable == 0)) queue_already_enabled
  write16 m (at delta common_q_msix) vector
  after_vector ← read_queue_view m delta
  throw_if (not (after_vector.msix_vector == vector)) msix_vector_lost
  program_queue_addresses m delta layout queue_iova
  _ ← read_queue_view m delta
  enable_queue m delta
  after_enable ← read_queue_view m delta
  throw_if (not (after_enable.enable == 1)) queue_enable_lost
  pure (selection, after_enable)
