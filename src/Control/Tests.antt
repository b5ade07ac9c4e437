-- ===== src/Control/Tests.antt =====
-- Commands through a control queue of four slots at offset 0, with the command at 4096.
use advcpp.Prelude.{ℕ, ◌≡◌, refl, List, [], ◌∷◌, arith, ok, err}
use advcpp.Prelude.{ctrl_data_too_small}
use advcpp.Memory.{Memory, Effect, perform}
use advcpp.Sizes.{is_power_of_two, align_up}
use advcpp.Vring.{VringLayout, compute_vring_layout}
use advcpp.Vring.Layout.{IsSplit, compute_vring_layout-IsSplit}
use advcpp.Dma.Control.{CtrlqDmaLayout}
use advcpp.Control.{publish_mac_addr_control_command}
use advcpp.Control.Commands.{Commanded, publish_mac_addr_control_command-Commanded}

abbrev slots : VringLayout
slots = record {
  queue_size = 4;
  align = 4;
  desc_offset = 0;
  desc_size = 64;
  avail_offset = 64;
  avail_size = 14;
  used_offset = 80;
  used_size = 38;
  total_size = 118;
}

compute_slots : compute_vring_layout 4 4 ≡ ok slots
unfolding compute_vring_layout align_up is_power_of_two
compute_slots = refl

slots-IsSplit : IsSplit 4 4 slots
slots-IsSplit = compute_vring_layout-IsSplit 4 4 (omega arith) (omega arith) compute_slots

abbrev layout : CtrlqDmaLayout
layout = record {
  rx_vring = slots;
  tx_vring = slots;
  ctrl_vring = slots;
  rx_vring_offset = 0;
  tx_vring_offset = 0;
  ctrl_vring_offset = 0;
  rx_buffers_offset = 0;
  rx_buffers_size = 0;
  ctrl_command_offset = 4096;
  ctrl_hdr_offset = 4096;
  ctrl_data_offset = 4098;
  ctrl_data_size = 6;
  ctrl_state_offset = 4098;
  ctrl_ack_offset = 4104;
  total_size = 8192;
}

abbrev cleared : Memory
cleared = λ x. 0

abbrev mac : List ℕ
mac = 2 ∷ 0 ∷ 0 ∷ 0 ∷ 0 ∷ 7 ∷ []

no_room :
    publish_mac_addr_control_command 0 (record layout { ctrl_data_size = 5 }) 0 mac
    ≡ err ctrl_data_too_small
unfolding publish_mac_addr_control_command
no_room = refl

publish_mac_addr_control_command-Commanded_example :
    (es : List Effect) × (publish_mac_addr_control_command 0 layout 65536 mac ≡ ok es)
    × Commanded 0 layout 65536 1 1 mac (perform es cleared)
publish_mac_addr_control_command-Commanded_example =
    publish_mac_addr_control_command-Commanded 0 layout 4 4 slots-IsSplit (omega arith) 65536
      (omega arith) (omega arith) (omega arith) (omega arith) mac cleared refl (omega arith)
