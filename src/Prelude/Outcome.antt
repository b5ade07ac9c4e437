-- ===== src/Prelude/Outcome.antt =====
-- Exceptions: an error for each kind of `throw` of the two headers, and a function that may
-- throw returns a `Result`.
use Prim.Native.Nat.{ℕ}
use mathlib.Core.Path.{◌≡◌, refl}
use mathlib.Core.Bool.{Bool, true, false}
use mathlib.Core.Logic.{◌⊎◌, inl, inr}

pub data Error : Type 0 where
  alignment_not_power_of_two align_overflow size_overflow : Error
  queue_size_zero queue_size_not_power_of_two : Error
  rx_buffers_zero rx_buffers_exceed_queue rx_buffer_size_zero : Error
  tx_packet_size_zero tx_buffers_zero tx_buffers_exceed_queue tx_buffer_size_zero : Error
  ctrl_queue_too_small ctrl_data_zero ctrl_data_too_large ctrl_data_too_small : Error
  queue_unavailable requested_out_of_range requested_not_power_of_two : Error
  feature_bit_out_of_range no_version_1 no_ctrl_vq no_ctrl_rx no_ctrl_mac_addr : Error
  features_rejected status_timeout mmio_out_of_range : Error
  queue_already_enabled queue_enable_lost : Error
  desc_len_too_large frame_too_short reply_too_large : Error
  config_read_past offset_too_large short_read : Error
  cfg_not_found invalid_bar not_in_mmap_area : Error
  region_missing region_not_mmap region_not_writable range_past_region cfg_too_short : Error
  notify_past_region notify_outside_cfg : Error
  invalid_argument odd_hex_digits : Error
  config_write_past short_write bus_master_lost memory_space_lost : Error
  notify_cap_truncated cap_chain_truncated sparse_cap_truncated sparse_list_truncated : Error
  irq_index_outside irq_without_eventfd vector_outside msix_vector_lost : Error
  event_read_short event_poll_failed : Error
  vfio_api_unsupported vfio_type1_missing vfio_group_not_viable : Error
  system_error : ℕ → Error

-- An exception passes through every later step.
pub data Result {ℓ} (A : Type ℓ) : Type ℓ where
  err : Error → Result A
  ok : A → Result A

infixl 5 ◌>>=◌ ◌>>◌
abbrev pub ◌>>=◌ {κ ℓ} : {B : Type κ} {A : Type ℓ} → Result B → (B → Result A) → Result A
err thrown >>= next = err thrown
ok value >>= next = next value

abbrev pub ◌>>◌ {ℓ} : {A : Type ℓ} → Result (Unit {0}) → Result A → Result A
first >> next = first >>= λ _. next

-- `if (b) throw e;`
abbrev pub throw_if : Bool → Error → Result (Unit {0})
throw_if true e = err e
throw_if false e = ok tt

-- A sequence succeeds only where both of its steps do.
pub >>=-eq-ok {κ ℓ} :
    {B : Type κ} {A : Type ℓ} (first : Result B) (next : B → Result A) {last : A}
    → first >>= next ≡ ok last
    → (value : B) × (first ≡ ok value) × (next value ≡ ok last)
>>=-eq-ok (err thrown) next succeeds = cc
>>=-eq-ok (ok value) next succeeds = (value, refl, succeeds)

pub Result-cases {ℓ} :
    {A : Type ℓ} (r : Result A) → ((a : A) × (r ≡ ok a)) ⊎ ((e : Error) × (r ≡ err e))
Result-cases (ok a) = inl (a, refl)
Result-cases (err e) = inr (e, refl)
