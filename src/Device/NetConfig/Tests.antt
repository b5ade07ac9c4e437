-- ===== src/Device/NetConfig/Tests.antt =====
-- Tests and examples of the device configuration: a capability of ten bytes ends before the MTU.
use advcpp.Prelude.{◌≡◌, [], ◌∷◌, none, some, ok, refl}
use advcpp.Mmio.{MappedRegion}
use advcpp.Device.NetConfig.{read_virtio_net_config}

-- A device whose every byte is its offset.
abbrev card : MappedRegion
card = record { size = 16; device = λ h width offset. offset }

short_capability :
    (read_virtio_net_config card 2 10 []).0
    ≡ ok (record {
      mac = 2 ∷ 3 ∷ 4 ∷ 5 ∷ 6 ∷ 7 ∷ [];
      status = some 8;
      max_virtqueue_pairs = some 10;
      mtu = none;
    })
unfolding read_virtio_net_config
short_capability = refl
