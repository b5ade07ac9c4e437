-- ===== src/Control.antt =====
-- The commands that userspace_drivers/virtio_net_vfio.hpp sends through the control queue: a
-- header, data and an acknowledgement byte in the command area, and the chain of descriptors that
-- hands them to the device. Addresses are offsets in the DMA memory.
pub mod Chain
pub mod Commands
mod Tests
use advcpp.Prelude.{
  ℕ, ◌+◌, ◌*◌, bit_and, Bool, List, [], ◌∷◌, ltb, if◌then◌else◌, u8, u64, ◌>>>◌, Result, ok, ◌>>=◌,
  ◌>>◌, throw_if,
}
use advcpp.Prelude.{ctrl_data_too_small, ctrl_queue_too_small}
use advcpp.Memory.{Effect, put, fence}
use advcpp.Vring.{VringDesc, VringLayout, vring_desc_f_next, vring_desc_f_write}
use advcpp.Ring.{put_desc, vring_avail_ring, vring_avail_idx}
use advcpp.Dma.Control.{
  CtrlqDmaLayout, ctrl_hdr_size, ctrl_state_size, ctrl_mac_table_count_size, ctrl_mac_addr_size,
  ctrl_ack_size,
}

abbrev pub ctrl_rx : ℕ
ctrl_rx = 0

abbrev pub ctrl_rx_promisc : ℕ
ctrl_rx_promisc = 0

abbrev pub ctrl_mac : ℕ
ctrl_mac = 1

abbrev pub ctrl_mac_table_set : ℕ
ctrl_mac_table_set = 0

abbrev pub ctrl_mac_addr_set : ℕ
ctrl_mac_addr_set = 1

abbrev pub ctrl_ack_initial : ℕ
ctrl_ack_initial = 0xff

-- Stores of single bytes at rising addresses.
abbrev pub put_bytes : ℕ → List ℕ → List Effect → List Effect
put_bytes a [] rest = rest
put_bytes a (b ∷ bs) rest = put 1 a b ∷ put_bytes (a + 1) bs rest

abbrev pub write_le32_to_bytes : ℕ → ℕ → List Effect → List Effect
write_le32_to_bytes a value rest =
    put 1 a (u8 (bit_and value 0xff))
    ∷ put 1 (a + 1) (u8 (bit_and (value >>> 8) 0xff))
    ∷ put 1 (a + 2) (u8 (bit_and (value >>> 16) 0xff))
    ∷ put 1 (a + 3) (u8 (bit_and (value >>> 24) 0xff))
    ∷ rest

-- A link of the chain: `next` of the last one is 0.
abbrev pub link : ℕ → ℕ → ℕ → ℕ → VringDesc
link addr len flags next = record { addr = addr; len = len; flags = flags; next = next }

-- The single command of an empty control queue.
abbrev pub publish_chain : ℕ → VringLayout → List Effect
publish_chain base ring =
    put 2 (vring_avail_ring base ring 0) 0
    ∷ fence
    ∷ put 2 (vring_avail_idx base ring) 1
    ∷ fence
    ∷ []

-- The three descriptors of a command whose data is one piece of `bytes` bytes.
abbrev pub three_links : ℕ → CtrlqDmaLayout → ℕ → ℕ → List Effect
three_links base layout iova bytes =
    let ring = layout.ctrl_vring in
    put_desc base ring 0
      (link (u64 (iova + layout.ctrl_hdr_offset)) ctrl_hdr_size vring_desc_f_next 1)
      (put_desc base ring 1 (link (u64 (iova + layout.ctrl_data_offset)) bytes vring_desc_f_next 2)
        (put_desc base ring 2
          (link (u64 (iova + layout.ctrl_ack_offset)) ctrl_ack_size vring_desc_f_write 0)
          (publish_chain base ring)))

pub publish_rx_promisc_control_command : ℕ → CtrlqDmaLayout → ℕ → Bool → Result (List Effect)
publish_rx_promisc_control_command base layout iova promisc = do
  throw_if (ltb layout.ctrl_data_size ctrl_state_size) ctrl_data_too_small
  ok (
      put_bytes layout.ctrl_hdr_offset (ctrl_rx ∷ ctrl_rx_promisc ∷ []) (
        put_bytes layout.ctrl_data_offset ((if promisc then 1 else 0) ∷ []) (
          put_bytes layout.ctrl_ack_offset (ctrl_ack_initial ∷ [])
            (three_links base layout iova ctrl_state_size))))

pub publish_mac_addr_control_command : ℕ → CtrlqDmaLayout → ℕ → List ℕ → Result (List Effect)
publish_mac_addr_control_command base layout iova mac = do
  throw_if (ltb layout.ctrl_data_size ctrl_mac_addr_size) ctrl_data_too_small
  ok (
      put_bytes layout.ctrl_hdr_offset (ctrl_mac ∷ ctrl_mac_addr_set ∷ []) (
        put_bytes layout.ctrl_data_offset mac (
          put_bytes layout.ctrl_ack_offset (ctrl_ack_initial ∷ [])
            (three_links base layout iova ctrl_mac_addr_size))))

abbrev unicast_table_size : ℕ
unicast_table_size = ctrl_mac_table_count_size + 1 * ctrl_mac_addr_size

abbrev multicast_table_size : ℕ
multicast_table_size = ctrl_mac_table_count_size + 0 * ctrl_mac_addr_size

pub publish_mac_table_control_command : ℕ → CtrlqDmaLayout → ℕ → List ℕ → Result (List Effect)
publish_mac_table_control_command base layout iova mac = do
  let ring = layout.ctrl_vring
  throw_if (ltb ring.queue_size 4) ctrl_queue_too_small
  throw_if (ltb layout.ctrl_data_size (unicast_table_size + multicast_table_size))
      ctrl_data_too_small
  let unicast_table = layout.ctrl_data_offset
  let multicast_table = unicast_table + unicast_table_size
  ok (
      put_bytes layout.ctrl_hdr_offset (ctrl_mac ∷ ctrl_mac_table_set ∷ []) (
        write_le32_to_bytes unicast_table 1 (
          put_bytes (unicast_table + ctrl_mac_table_count_size) mac (
            write_le32_to_bytes multicast_table 0 (
              put_bytes layout.ctrl_ack_offset (ctrl_ack_initial ∷ []) (
                put_desc base ring 0
                  (link (u64 (iova + layout.ctrl_hdr_offset)) ctrl_hdr_size vring_desc_f_next 1)
                  (put_desc base ring 1
                    (link (u64 (iova + layout.ctrl_data_offset)) unicast_table_size
                      vring_desc_f_next 2)
                    (put_desc base ring 2
                      (link (u64 (u64 (iova + layout.ctrl_data_offset) + unicast_table_size))
                        multicast_table_size vring_desc_f_next 3)
                      (put_desc base ring 3
                        (link (u64 (iova + layout.ctrl_ack_offset)) ctrl_ack_size vring_desc_f_write
                          0)
                        (publish_chain base ring))))))))))
