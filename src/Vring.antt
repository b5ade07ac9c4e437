-- ===== src/Vring.antt =====
-- Split virtqueues of userspace_drivers/virtio_net_vfio.hpp: the descriptor and ring records, the
-- layout of one queue in memory, and the choice of its size.
pub mod Layout
mod Tests
use advcpp.Prelude.{
  ℕ, ◌+◌, ◌*◌, ◌||◌, not, Option, none, some, ltb, ◌==◌, u32, u64, Result, ok, ◌>>=◌, ◌>>◌,
  throw_if,
}
use advcpp.Prelude.{queue_size_zero, queue_size_not_power_of_two, queue_unavailable}
use advcpp.Prelude.{requested_out_of_range, requested_not_power_of_two}
use advcpp.Sizes.{is_power_of_two, align_up}

abbrev pub vring_desc_size : ℕ
vring_desc_size = 16

abbrev pub vring_used_elem_size : ℕ
vring_used_elem_size = 8

abbrev pub vring_desc_f_next : ℕ
vring_desc_f_next = 1

abbrev pub vring_desc_f_write : ℕ
vring_desc_f_write = 2

pub record VringDesc : Type 0 where
  pub addr : ℕ
  pub len : ℕ
  pub flags : ℕ
  pub next : ℕ

pub record VringUsedElem : Type 0 where
  pub id : ℕ
  pub len : ℕ

pub record VringLayout : Type 0 where
  pub queue_size : ℕ
  pub align : ℕ
  pub desc_offset : ℕ
  pub desc_size : ℕ
  pub avail_offset : ℕ
  pub avail_size : ℕ
  pub used_offset : ℕ
  pub used_size : ℕ
  pub total_size : ℕ

-- `3u + queue_size` is computed in 32 bits, the rest in 64.
unfoldable pub compute_vring_layout : ℕ → ℕ → Result VringLayout
compute_vring_layout queue_size align = do
  throw_if (queue_size == 0) queue_size_zero
  throw_if (not (is_power_of_two queue_size)) queue_size_not_power_of_two
  let desc_size = u64 (vring_desc_size * queue_size)
  let avail_offset = u64 (0 + desc_size)
  let avail_size = u64 (2 * u32 (3 + queue_size))
  used_offset ← align_up (u64 (avail_offset + avail_size)) align
  let used_size = u64 (2 * 3 + u64 (vring_used_elem_size * queue_size))
  ok (record {
    queue_size = queue_size;
    align = align;
    desc_offset = 0;
    desc_size = desc_size;
    avail_offset = avail_offset;
    avail_size = avail_size;
    used_offset = used_offset;
    used_size = used_size;
    total_size = u64 (used_offset + used_size);
  })

abbrev value_or : Option ℕ → ℕ → ℕ
value_or none d = d
value_or (some v) d = v

pub choose_queue_size : ℕ → Option ℕ → Result ℕ
choose_queue_size device_queue_size requested = do
  throw_if (device_queue_size == 0) queue_unavailable
  let chosen = value_or requested device_queue_size
  throw_if (chosen == 0 || ltb device_queue_size chosen) requested_out_of_range
  throw_if (not (is_power_of_two chosen)) requested_not_power_of_two
  ok chosen
