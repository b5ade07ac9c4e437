-- ===== src/Packet.antt =====
-- Frames of userspace_drivers/virtio_net_vfio.hpp, byte by byte in the DMA memory: a virtio-net
-- header of 12 bytes, then an Ethernet frame.
pub mod Bytes
pub mod Build
pub mod Reply
mod Tests
use advcpp.Prelude.{
  ℕ, zero, suc, ◌+◌, ◌-◌, max, bit_and, bit_or, ◌&&◌, List, [], ◌∷◌, ltb, leb, if◌then◌else◌,
  length, get_or, replicate, u8, u64, ◌<<◌, ◌>>>◌, Result, ok, ◌>>=◌, ◌>>◌, throw_if,
}
use advcpp.Prelude.{frame_too_short, reply_too_large}
use advcpp.Memory.{Memory}

abbrev pub net_header_size : ℕ
net_header_size = 12

abbrev pub ethernet_header_size : ℕ
ethernet_header_size = 14

abbrev pub ethernet_min_frame_size : ℕ
ethernet_min_frame_size = 60

-- `std::memset(a, v, n)`.
unfoldable pub memset : ℕ → ℕ → ℕ → Memory → Memory
memset a v n m x = if leb a x && ltb x (a + n) then v else m x

-- `std::copy` of the bytes to `a`.
unfoldable pub copy_bytes : ℕ → List ℕ → Memory → Memory
copy_bytes a bytes m x = if leb a x && ltb x (a + length bytes) then get_or bytes (x - a) 0 else m x

-- The `n` bytes from `a` on.
unfoldable pub read_bytes : ℕ → ℕ → Memory → List ℕ
read_bytes zero a m = []
read_bytes (suc n) a m = m a ∷ read_bytes n (a + 1) m

unfoldable pub read_le16_from_bytes : Memory → ℕ → ℕ
read_le16_from_bytes m a = bit_or (m a) (m (a + 1) << 8)

unfoldable pub read_be16_from_bytes : Memory → ℕ → ℕ
read_be16_from_bytes m a = bit_or (m (a + 1)) (m a << 8)

pub be16_bytes : ℕ → List ℕ
be16_bytes value = u8 (value >>> 8) ∷ u8 (bit_and value 0xff) ∷ []

pub write_be16_to_bytes : ℕ → ℕ → Memory → Memory
unfolding be16_bytes copy_bytes
write_be16_to_bytes a value m = copy_bytes a (be16_bytes value) m

pub mac_from_bytes : Memory → ℕ → List ℕ
unfolding read_bytes
mac_from_bytes m a = read_bytes 6 a m

pub broadcast_mac : List ℕ
broadcast_mac = replicate 6 0xff

pub padded_ethernet_payload_size : ℕ → ℕ
padded_ethernet_payload_size payload_size =
    max payload_size (ethernet_min_frame_size - ethernet_header_size)

pub tx_packet_size_for_payload : ℕ → ℕ
unfolding padded_ethernet_payload_size
tx_packet_size_for_payload payload_size =
    u64 (net_header_size + ethernet_header_size + padded_ethernet_payload_size payload_size)

pub build_tx_packet : ℕ → List ℕ → List ℕ → ℕ → List ℕ → ℕ → Memory → Memory
build_tx_packet packet dst src ethertype payload total_size m =
    let ethernet = packet + net_header_size in
    let cleared = memset packet 0 total_size m in
    let with_dst = copy_bytes ethernet dst cleared in
    let with_src = copy_bytes (ethernet + 6) src with_dst in
    let with_type = write_be16_to_bytes (ethernet + 12) ethertype with_src in
    copy_bytes (ethernet + ethernet_header_size) payload with_type

unfoldable pub tx_reply_size_for_rx : ℕ → Result ℕ
tx_reply_size_for_rx rx_used_len = do
  throw_if (ltb rx_used_len (net_header_size + ethernet_header_size)) frame_too_short
  ok (net_header_size + max (rx_used_len - net_header_size) ethernet_min_frame_size)

unfoldable pub build_tx_reply_from_rx : ℕ → ℕ → ℕ → ℕ → List ℕ → Memory → Result (ℕ × Memory)
unfolding tx_reply_size_for_rx read_bytes
build_tx_reply_from_rx tx tx_buffer_size rx rx_used_len reply_src_mac m = do
  tx_used_len ← tx_reply_size_for_rx rx_used_len
  throw_if (ltb tx_buffer_size tx_used_len) reply_too_large
  let cleared = memset tx 0 tx_buffer_size m
  let rx_ethernet = rx + net_header_size
  let tx_ethernet = tx + net_header_size
  let frame = read_bytes (rx_used_len - net_header_size) rx_ethernet cleared
  let copied = copy_bytes tx_ethernet frame cleared
  let with_dst = copy_bytes tx_ethernet (read_bytes 6 (rx_ethernet + 6) copied) copied
  ok (tx_used_len, copy_bytes (tx_ethernet + 6) reply_src_mac with_dst)
