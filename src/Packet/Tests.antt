-- ===== src/Packet/Tests.antt =====
-- A frame of 72 bytes at offset 4096, and the reply to one at offset 8192.
use advcpp.Prelude.{ℕ, ◌≡◌, refl, List, [], ◌∷◌, ◌++◌, arith, replicate, ok, err}
use advcpp.Prelude.{frame_too_short, reply_too_large}
use advcpp.Memory.{Memory}
use advcpp.Packet.{
  read_bytes, be16_bytes, build_tx_packet, copy_bytes, write_be16_to_bytes, tx_reply_size_for_rx,
  build_tx_reply_from_rx, read_be16_from_bytes,
}
use advcpp.Packet.Build.{build_tx_packet-frame}
use advcpp.Packet.Reply.{build_tx_reply_from_rx-frame}

abbrev cleared : Memory
cleared = λ x. 0

abbrev dst_mac : List ℕ
dst_mac = 0xff ∷ 0xff ∷ 0xff ∷ 0xff ∷ 0xff ∷ 0xff ∷ []

abbrev src_mac : List ℕ
src_mac = 2 ∷ 0 ∷ 0 ∷ 0 ∷ 0 ∷ 7 ∷ []

abbrev greeting : List ℕ
greeting = 104 ∷ 105 ∷ []

type_in_network_order : read_be16_from_bytes (write_be16_to_bytes 24 0x88b5 cleared) 24 ≡ 0x88b5
unfolding read_be16_from_bytes write_be16_to_bytes be16_bytes copy_bytes
type_in_network_order = refl

refused_replies :
    (build_tx_reply_from_rx 4096 2048 8192 25 src_mac cleared ≡ err frame_too_short)
    × (build_tx_reply_from_rx 4096 71 8192 26 src_mac cleared ≡ err reply_too_large)
    × (tx_reply_size_for_rx 26 ≡ ok 72)
unfolding build_tx_reply_from_rx tx_reply_size_for_rx
refused_replies = (refl, refl, refl)

build_tx_packet-frame_example :
    (read_bytes 72 4096 (build_tx_packet 4096 dst_mac src_mac 0x88b5 greeting 72 cleared)
      ≡ replicate 12 0
        ++ (dst_mac ++ (src_mac ++ ((be16_bytes 0x88b5 ++ greeting) ++ replicate 44 0))))
    × (build_tx_packet 4096 dst_mac src_mac 0x88b5 greeting 72 cleared 4168 ≡ 0)
build_tx_packet-frame_example =
    build_tx_packet-frame 4096 dst_mac src_mac 0x88b5 greeting 72 4168 cleared refl refl
      (omega arith) (omega arith)

build_tx_reply_from_rx-frame_example :
    (m' : Memory) × (build_tx_reply_from_rx 4096 2048 8192 64 src_mac cleared ≡ ok (72, m'))
    × (read_bytes 72 4096 m'
        ≡ replicate 12 0
          ++ (read_bytes 6 8210 cleared
              ++ (src_mac ++ (read_bytes 40 8216 cleared ++ replicate 8 0))))
    × (m' 6144 ≡ 0)
build_tx_reply_from_rx-frame_example =
    build_tx_reply_from_rx-frame 4096 2048 8192 64 src_mac cleared refl (omega arith) (omega arith)
      (omega arith) 6144 (omega arith)
