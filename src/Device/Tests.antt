-- ===== src/Device/Tests.antt =====
-- Negotiations with a device that keeps its status and answers a word for each selector.
use advcpp.Prelude.{ℕ, ◌+◌, ◌^◌, ◌≡◌, refl, List, [], ◌∷◌, ◌==◌, if◌then◌else◌, ok, err, get_or}
use advcpp.Prelude.{no_ctrl_rx}
use advcpp.Vring.{VringLayout}
use advcpp.Mmio.{MappedRegion, History, read8, read32, write8, write32, check_range, load, store}
use advcpp.Mmio.Traces.{stores_at}
use advcpp.Features.{
  feature_is_set, set_feature, copy_feature, minimal_guest_features, ctrl_rx_guest_features,
  ctrl_mac_addr_guest_features,
}
use advcpp.Device.{
  negotiate, finish, reset_device, write_status, read_status, wait_for_status, read_feature_words,
  read_words, write_guest_feature_words, write_words, negotiate_minimal_features,
  negotiate_ctrl_rx_features, negotiate_ctrl_mac_addr_features,
}

-- The value stored last, 0 before any.
abbrev latest : ℕ → History → ℕ
latest o h = get_or (stores_at o h) 0 0

-- `VIRTIO_F_VERSION_1`, the MAC address, the control queue and its command for the MAC address.
abbrev offered : List ℕ
offered = (2 ^ 5 + 2 ^ 17 + 2 ^ 23) ∷ 1 ∷ 0 ∷ []

abbrev network_card : MappedRegion
network_card = record {
  size = 64;
  device = λ h width o.
      if o == 20 then latest 20 h else if o == 4 then get_or offered (latest 0 h) 0 else 0;
}

accepted_features :
    ((negotiate_minimal_features 2 network_card 0 []).0 ≡ ok (32 ∷ 1 ∷ 0 ∷ []))
    × ((negotiate_ctrl_rx_features 2 network_card 0 []).0 ≡ err no_ctrl_rx)
    × ((negotiate_ctrl_mac_addr_features 2 network_card 0 []).0
        ≡ ok ((2 ^ 5 + 2 ^ 17 + 2 ^ 23) ∷ 1 ∷ 0 ∷ []))
unfolding negotiate_minimal_features negotiate_ctrl_rx_features negotiate_ctrl_mac_addr_features
    negotiate finish reset_device write_status read_status wait_for_status read_feature_words
    read_words write_guest_feature_words write_words read8 read32 write8 write32
    minimal_guest_features ctrl_rx_guest_features ctrl_mac_addr_guest_features feature_is_set
    set_feature copy_feature check_range load store
accepted_features = (refl, refl, refl)

abbrev queue : VringLayout
queue = record {
  queue_size = 4;
  align = 4;
  desc_offset = 0;
  desc_size = 64;
  avail_offset = 64;
  avail_size = 14;
  used_offset = 80;
  used_size = 38;
  total_size = 118;
}

-- A device that keeps the enable bit of one queue.
abbrev one_queue : MappedRegion
one_queue = record { size = 64; device = λ h width o. if o == 28 then latest 28 h else 0 }
