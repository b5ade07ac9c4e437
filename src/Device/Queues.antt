-- ===== src/Device/Queues.antt =====
-- The registers of one queue: reading them, programming the addresses and enabling the queue.
pub mod Laws
use advcpp.Prelude.{ℕ, ◌+◌, not, Option, some, ◌==◌, u64}
use advcpp.Prelude.{queue_already_enabled, queue_enable_lost}
use advcpp.Mmio.{MappedRegion, Io, pure, ◌>>=◌, ◌>>◌, throw_if, read16, write16}
use advcpp.Vring.{VringLayout}
use advcpp.Device.Guards.{QueueSelectionGuard, select}
use advcpp.Device.Registers.{
  at, read_common_u64, write_common_u64, common_q_select, common_q_size, common_q_msix,
  common_q_enable, common_q_noff, common_q_ndata, common_q_desclo, common_q_deschi,
  common_q_availlo, common_q_availhi, common_q_usedlo, common_q_usedhi,
}

pub record QueueView : Type 0 where
  pub selected : ℕ
  pub size : ℕ
  pub msix_vector : ℕ
  pub enable : ℕ
  pub notify_off : ℕ
  pub notify_data : Option ℕ
  pub desc : ℕ
  pub avail : ℕ
  pub used : ℕ

-- With headers that have VIRTIO_PCI_COMMON_Q_NDATA.
pub read_queue_view : MappedRegion → ℕ → Io QueueView
read_queue_view m delta = do
  selected ← read16 m (at delta common_q_select)
  size ← read16 m (at delta common_q_size)
  msix_vector ← read16 m (at delta common_q_msix)
  enable ← read16 m (at delta common_q_enable)
  notify_off ← read16 m (at delta common_q_noff)
  notify_data ← read16 m (at delta common_q_ndata)
  desc ← read_common_u64 m delta common_q_desclo common_q_deschi
  avail ← read_common_u64 m delta common_q_availlo common_q_availhi
  used ← read_common_u64 m delta common_q_usedlo common_q_usedhi
  pure (record {
    selected = selected;
    size = size;
    msix_vector = msix_vector;
    enable = enable;
    notify_off = notify_off;
    notify_data = some notify_data;
    desc = desc;
    avail = avail;
    used = used;
  })

pub program_queue_addresses : MappedRegion → ℕ → VringLayout → ℕ → Io (Unit {0})
program_queue_addresses m delta layout base_iova = do
  write16 m (at delta common_q_size) layout.queue_size
  write_common_u64 m delta common_q_desclo common_q_deschi (u64 (base_iova + layout.desc_offset))
  write_common_u64 m delta common_q_availlo common_q_availhi (u64 (base_iova + layout.avail_offset))
  write_common_u64 m delta common_q_usedlo common_q_usedhi (u64 (base_iova + layout.used_offset))

pub enable_queue : MappedRegion → ℕ → Io (Unit {0})
enable_queue m delta = write16 m (at delta common_q_enable) 1

pub write_notify : MappedRegion → ℕ → ℕ → Io (Unit {0})
write_notify m delta value = write16 m delta value

pub program_and_enable_queue :
    MappedRegion
    → ℕ
    → QueueSelectionGuard
    → ℕ
    → VringLayout
    → ℕ
    → Io (QueueSelectionGuard × QueueView)
program_and_enable_queue m delta selection queue layout queue_iova = do
  selection ← select m delta selection queue
  before ← read_queue_view m delta
  throw_if (not (before.enable == 0)) queue_already_enabled
  program_queue_addresses m delta layout queue_iova
  _ ← read_queue_view m delta
  enable_queue m delta
  after_enable ← read_queue_view m delta
  throw_if (not (after_enable.enable == 1)) queue_enable_lost
  pure (selection, after_enable)
