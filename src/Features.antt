-- ===== src/Features.antt =====
-- Feature words of userspace_drivers/virtio_net_vfio.hpp: reading and setting a bit, and which of
-- the device's features each sample asks for. The bit numbers of the transport are those of
-- linux/virtio_config.h, the others are the header's own.
pub mod Bits
pub mod Choice
mod Tests
use advcpp.Prelude.{
  ℕ, ◌/◌, ◌%◌, ◌^◌, bit_and, bit_or, Bool, ◌&&◌, not, List, ltb, leb, ◌==◌, if◌then◌else◌, length,
  get_or, set, replicate, Result, ok, ◌>>=◌, ◌>>◌, throw_if,
}
use advcpp.Prelude.{feature_bit_out_of_range, no_version_1, no_ctrl_vq, no_ctrl_rx}
use advcpp.Prelude.{no_ctrl_mac_addr}

abbrev pub feature_words : ℕ
feature_words = 3

abbrev pub f_version_1 : ℕ
f_version_1 = 32

abbrev pub f_access_platform : ℕ
f_access_platform = 33

abbrev pub net_f_mac : ℕ
net_f_mac = 5

abbrev pub net_f_status : ℕ
net_f_status = 16

abbrev pub net_f_ctrl_vq : ℕ
net_f_ctrl_vq = 17

abbrev pub net_f_ctrl_rx : ℕ
net_f_ctrl_rx = 18

abbrev pub net_f_ctrl_mac_addr : ℕ
net_f_ctrl_mac_addr = 23

unfoldable pub feature_is_set : List ℕ → ℕ → Bool
feature_is_set words bit =
    ltb (bit / 32) (length words) && not (bit_and (get_or words (bit / 32) 0) (2 ^ (bit % 32)) == 0)

unfoldable pub set_feature : List ℕ → ℕ → Result (List ℕ)
set_feature words bit = do
  throw_if (leb (length words) (bit / 32)) feature_bit_out_of_range
  ok (set words (bit / 32) (bit_or (get_or words (bit / 32) 0) (2 ^ (bit % 32))))

-- `if (feature_is_set(device, bit)) set_feature(guest, bit);`
unfoldable pub copy_feature : List ℕ → ℕ → List ℕ → Result (List ℕ)
copy_feature device bit guest =
    if feature_is_set device bit then set_feature guest bit else ok guest

unfoldable pub minimal_guest_features : List ℕ → Result (List ℕ)
minimal_guest_features device = do
  throw_if (not (feature_is_set device f_version_1)) no_version_1
  guest ← set_feature (replicate feature_words 0) f_version_1
  guest ← copy_feature device f_access_platform guest
  guest ← copy_feature device net_f_mac guest
  copy_feature device net_f_status guest

unfoldable pub minimal_transport_features : List ℕ → Result (List ℕ)
minimal_transport_features device = do
  throw_if (not (feature_is_set device f_version_1)) no_version_1
  guest ← set_feature (replicate feature_words 0) f_version_1
  copy_feature device f_access_platform guest

unfoldable pub ctrl_rx_guest_features : List ℕ → Result (List ℕ)
ctrl_rx_guest_features device = do
  throw_if (not (feature_is_set device net_f_ctrl_vq)) no_ctrl_vq
  throw_if (not (feature_is_set device net_f_ctrl_rx)) no_ctrl_rx
  guest ← minimal_guest_features device
  guest ← set_feature guest net_f_ctrl_vq
  set_feature guest net_f_ctrl_rx

unfoldable pub ctrl_mac_addr_guest_features : List ℕ → Result (List ℕ)
ctrl_mac_addr_guest_features device = do
  throw_if (not (feature_is_set device net_f_ctrl_vq)) no_ctrl_vq
  throw_if (not (feature_is_set device net_f_ctrl_mac_addr)) no_ctrl_mac_addr
  guest ← minimal_guest_features device
  guest ← set_feature guest net_f_ctrl_vq
  set_feature guest net_f_ctrl_mac_addr
