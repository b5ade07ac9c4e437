-- ===== src/Device.antt =====
-- The device side of userspace_drivers/virtio_net_vfio.hpp: the status register, feature words and
-- the negotiation that every sample begins with. A print of the source has no effect on the
-- device, but where it prints a fresh read of the status that read is made here too.
pub mod Registers
pub mod Queues
pub mod Guards
pub mod NetConfig
pub mod Negotiation
mod Tests
use advcpp.Prelude.{
  ℕ, zero, suc, ◌+◌, bit_and, bit_or, List, [], ◌∷◌, ◌==◌, if◌then◌else◌, u8, u32, Result,
}
use advcpp.Prelude.{status_timeout, features_rejected}
use advcpp.Mmio.{
  MappedRegion, Io, pure, ◌>>=◌, ◌>>◌, throw, throw_if, lift, read8, read32, write8, write32,
}
use Registers.{
  at, common_dfselect, common_df, common_gfselect, common_gf, common_status, s_acknowledge,
  s_driver, s_driver_ok, s_features_ok,
}
use advcpp.Features.{
  feature_words, minimal_guest_features, minimal_transport_features, ctrl_rx_guest_features,
  ctrl_mac_addr_guest_features,
}

unfoldable pub read_status : MappedRegion → ℕ → Io ℕ
read_status m delta = read8 m (at delta common_status)

unfoldable pub write_status : MappedRegion → ℕ → ℕ → Io (Unit {0})
write_status m delta status = write8 m (at delta common_status) status

-- `polls` is how often the clock is found to be before the deadline; a round sleeps 1 ms.
unfoldable pub wait_for_status : ℕ → MappedRegion → ℕ → ℕ → Io (Unit {0})
wait_for_status zero m delta expected = do _ ← read_status m delta; throw status_timeout
wait_for_status (suc polls) m delta expected = do
  status ← read_status m delta
  let rest = wait_for_status polls m delta expected
  if status == expected then pure tt else rest

unfoldable pub reset_device : ℕ → MappedRegion → ℕ → Io (Unit {0})
reset_device polls m delta = do
  write_status m delta 0
  wait_for_status polls m delta 0
  _ ← read_status m delta
  pure tt

pub record FeatureWords : Type 0 where
  pub original_select : ℕ
  pub words : List ℕ

-- The loop over the words `word, word + 1, …`, with `left` of them to read.
read_words : MappedRegion → ℕ → ℕ → ℕ → ℕ → ℕ → Io (List ℕ)
read_words m delta select_offset value_offset word zero = pure []
read_words m delta select_offset value_offset word (suc left) = do
  write32 m (at delta select_offset) (u32 word)
  value ← read32 m (at delta value_offset)
  rest ← read_words m delta select_offset value_offset (word + 1) left
  pure (value ∷ rest)

unfoldable pub read_feature_words : MappedRegion → ℕ → ℕ → ℕ → ℕ → Io FeatureWords
unfolding read_words
read_feature_words m delta select_offset value_offset word_count = do
  original ← read32 m (at delta select_offset)
  words ← read_words m delta select_offset value_offset 0 word_count
  write32 m (at delta select_offset) original
  pure (record { original_select = original; words = words })

write_words : MappedRegion → ℕ → ℕ → List ℕ → Io (Unit {0})
write_words m delta word [] = pure tt
write_words m delta word (value ∷ values) = do
  write32 m (at delta common_gfselect) (u32 word)
  write32 m (at delta common_gf) value
  write_words m delta (word + 1) values

unfoldable pub write_guest_feature_words : MappedRegion → ℕ → List ℕ → Io (Unit {0})
unfolding write_words
write_guest_feature_words m delta words = do
  original ← read32 m (at delta common_gfselect)
  write_words m delta 0 words
  write32 m (at delta common_gfselect) original

-- The four negotiations differ in the features that they choose. The part behind the choice:
finish : MappedRegion → ℕ → List ℕ → Io (List ℕ)
finish m delta guest = do
  write_guest_feature_words m delta guest
  write_status m delta (bit_or (bit_or s_acknowledge s_driver) s_features_ok)
  status ← read_status m delta
  throw_if (bit_and status s_features_ok == 0) features_rejected
  pure guest

negotiate : (List ℕ → Result (List ℕ)) → ℕ → MappedRegion → ℕ → Io (List ℕ)
negotiate choose polls m delta = do
  reset_device polls m delta
  write_status m delta s_acknowledge
  _ ← read_status m delta
  write_status m delta (bit_or s_acknowledge s_driver)
  _ ← read_status m delta
  device ← read_feature_words m delta common_dfselect common_df feature_words
  guest ← lift (choose device.words)
  finish m delta guest

pub negotiate_ctrl_rx_features : ℕ → MappedRegion → ℕ → Io (List ℕ)
unfolding negotiate finish
negotiate_ctrl_rx_features polls m delta = negotiate ctrl_rx_guest_features polls m delta

pub negotiate_ctrl_mac_addr_features : ℕ → MappedRegion → ℕ → Io (List ℕ)
unfolding negotiate finish
negotiate_ctrl_mac_addr_features polls m delta =
    negotiate ctrl_mac_addr_guest_features polls m delta

pub negotiate_minimal_features : ℕ → MappedRegion → ℕ → Io (List ℕ)
unfolding negotiate finish
negotiate_minimal_features polls m delta = negotiate minimal_guest_features polls m delta

pub negotiate_minimal_transport_features : ℕ → MappedRegion → ℕ → Io (Unit {0})
unfolding negotiate finish
negotiate_minimal_transport_features polls m delta = do
  _ ← negotiate minimal_transport_features polls m delta
  pure tt

pub set_driver_ok : MappedRegion → ℕ → Io (Unit {0})
set_driver_ok m delta = do
  status ← read_status m delta
  write_status m delta (u8 (bit_or status s_driver_ok))
