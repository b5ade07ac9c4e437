-- ===== src/Ring/Tests.antt =====
-- Queues of four slots at offset 0, in a memory of zeros.
use advcpp.Prelude.{◌+◌, ◌%◌, ◌≡◌, refl, [], ◌∷◌, ◌++◌, arith, ok}
use advcpp.Memory.{Memory, read_le, write_le, perform}
use advcpp.Sizes.{is_power_of_two, align_up}
use advcpp.Vring.{VringLayout, compute_vring_layout}
use advcpp.Vring.Layout.{IsSplit, compute_vring_layout-IsSplit}
use advcpp.Ring.{vring_avail_idx, read_desc, recycle_rx_buffer}
use advcpp.Ring.Recycle.{pending, recycle_rx_buffer-appends}

abbrev slots : VringLayout
slots = record {
  queue_size = 4;
  align = 4;
  desc_offset = 0;
  desc_size = 64;
  avail_offset = 64;
  avail_size = 14;
  used_offset = 80;
  used_size = 38;
  total_size = 118;
}

compute_slots : compute_vring_layout 4 4 ≡ ok slots
unfolding compute_vring_layout align_up is_power_of_two
compute_slots = refl

slots-IsSplit : IsSplit 4 4 slots
slots-IsSplit = compute_vring_layout-IsSplit 4 4 (omega arith) (omega arith) compute_slots

abbrev cleared : Memory
cleared = λ x. 0

-- The queue when its index is about to wrap, with three descriptors waiting.
abbrev about_to_wrap : Memory
about_to_wrap = write_le 2 66 65535 (write_le 8 68 0x0003_0002_0001_0000 cleared)

index_read : read_le 2 (vring_avail_idx 0 slots) about_to_wrap ≡ (65532 + 3) % 65536
unfolding read_le write_le
index_read = refl

recycled :
    pending (perform (recycle_rx_buffer about_to_wrap 0 slots 3) about_to_wrap) 0 slots 65532 4
    ≡ 0 ∷ 1 ∷ 2 ∷ 3 ∷ []
unfolding pending read_le write_le perform recycle_rx_buffer
recycled = refl

recycle_rx_buffer-appends_example :
    (pending (perform (recycle_rx_buffer about_to_wrap 0 slots 3) about_to_wrap) 0 slots 65532 4
      ≡ pending about_to_wrap 0 slots 65532 3 ++ 3 ∷ [])
    × (read_le 2 66 (perform (recycle_rx_buffer about_to_wrap 0 slots 3) about_to_wrap) ≡ 0)
    × (read_desc (perform (recycle_rx_buffer about_to_wrap 0 slots 3) about_to_wrap) 0 slots 1
        ≡ read_desc about_to_wrap 0 slots 1)
recycle_rx_buffer-appends_example =
    recycle_rx_buffer-appends 0 slots 4 4 slots-IsSplit (omega arith) (omega arith) about_to_wrap 3
      65532 3 1 (omega arith) (omega arith) (omega arith) index_read
