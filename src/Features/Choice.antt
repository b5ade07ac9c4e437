-- ===== src/Features/Choice.antt =====
-- Which features the samples accept: always a part of what the device offers.
use advcpp.Prelude.{
  ℕ, ◌<◌, ◌≡◌, refl, ◌∙◌, inl, inr, Bool, true, false, ◌&&◌, ◌||◌, List, [], ◌∷◌, arith, ◌==◌,
  Bool-cases, length, replicate, Result, ok, err, ◌>>=◌,
}
use advcpp.Prelude.{no_version_1, no_ctrl_vq, no_ctrl_rx, no_ctrl_mac_addr}
use advcpp.Features.{
  feature_words, feature_is_set, set_feature, copy_feature, minimal_guest_features,
  minimal_transport_features, ctrl_rx_guest_features, ctrl_mac_addr_guest_features,
}
use advcpp.Features.Bits.{set_feature_lem, feature_is_set-zeros}

abbrev pub member : ℕ → List ℕ → Bool
member c [] = false
member c (b ∷ bs) = b == c || member c bs

-- The guest's bits are those of the wanted ones that the device offers.
pub record Selects (device wanted guest : List ℕ) : Type 0 where
  pub words : length guest ≡ feature_words
  pub bits : (c : ℕ) → feature_is_set guest c ≡ (member c wanted && feature_is_set device c)

-- A step of the choice: its result selects one more bit.
abbrev Selected : List ℕ → List ℕ → Result (List ℕ) → Type 0
Selected device wanted r = (guest : List ℕ) × (r ≡ ok guest) × Selects device wanted guest

none-Selects : (device : List ℕ) → Selects device [] (replicate feature_words 0)
none-Selects device = record { words = refl; bits = feature_is_set-zeros 3 }

set_feature-Selects :
    (device wanted guest : List ℕ) (b : ℕ)
    → b < 96
    → feature_is_set device b ≡ true
    → Selects device wanted guest
    → Selected device (b ∷ wanted) (set_feature guest b)
set_feature-Selects device wanted guest b hb offered s =
    let (guest', run, len, bits) = set_feature_lem guest b (omega (arith, s.words)) in
    (guest', run, record { words = len ∙ s.words; bits = λ c. ground (arith, bits c, s.bits c) })

copy_feature-Selects :
    (device wanted guest : List ℕ) (b : ℕ)
    → b < 96
    → Selects device wanted guest
    → Selected device (b ∷ wanted) (copy_feature device b guest)
unfolding copy_feature
copy_feature-Selects device wanted guest b hb s = elim (Bool-cases (feature_is_set device b)) [
  | inl offered ↦ rw offered (set_feature-Selects device wanted guest b hb offered s)
  | inr missing ↦
      rw missing (guest, refl, record { words = s.words; bits = λ c. ground (arith, s.bits c) })
]

-- What every chain of steps ends in.
Selected-then :
    (device wanted wanted' : List ℕ) (m : Result (List ℕ)) (f : List ℕ → Result (List ℕ))
    → Selected device wanted m
    → ((guest : List ℕ) → Selects device wanted guest → Selected device wanted' (f guest))
    → Selected device wanted' (m >>= f)
Selected-then device wanted wanted' m f (guest, run, s) next = rw run (next guest s)

abbrev pub transport_bits : List ℕ
transport_bits = 33 ∷ 32 ∷ []

abbrev pub minimal_bits : List ℕ
minimal_bits = 16 ∷ 5 ∷ transport_bits

-- With `VIRTIO_F_VERSION_1` on offer, the transport features are those two that the device offers.
pub minimal_transport_features-Selects :
    (device : List ℕ)
    → feature_is_set device 32 ≡ true
    → (guest : List ℕ) × (minimal_transport_features device ≡ ok guest)
      × Selects device transport_bits guest
unfolding minimal_transport_features
minimal_transport_features-Selects device v1 = rw v1 (
    Selected-then device (32 ∷ []) transport_bits _ _
      (set_feature-Selects device [] _ 32 (omega arith) v1 (none-Selects device))
      (λ guest s. copy_feature-Selects device (32 ∷ []) guest 33 (omega arith) s))

-- With `VIRTIO_F_VERSION_1` on offer, the guest's features are exactly those among
-- `VIRTIO_F_VERSION_1`, `VIRTIO_F_ACCESS_PLATFORM`, `VIRTIO_NET_F_MAC` and `VIRTIO_NET_F_STATUS`
-- that the device offers.
minimal_guest_features-Selects :
    (device : List ℕ)
    → feature_is_set device 32 ≡ true
    → (guest : List ℕ) × (minimal_guest_features device ≡ ok guest)
      × Selects device minimal_bits guest
unfolding minimal_guest_features
minimal_guest_features-Selects device v1 = rw v1 (
    Selected-then device (32 ∷ []) minimal_bits _ _
      (set_feature-Selects device [] _ 32 (omega arith) v1 (none-Selects device))
      λ guest s.
        Selected-then device transport_bits minimal_bits _ _
          (copy_feature-Selects device (32 ∷ []) guest 33 (omega arith) s)
          λ guest s.
            Selected-then device (5 ∷ transport_bits) minimal_bits _ _
              (copy_feature-Selects device transport_bits guest 5 (omega arith) s)
              λ guest s. copy_feature-Selects device (5 ∷ transport_bits) guest 16 (omega arith) s)

ctrl_chain :
    (device : List ℕ) (b : ℕ)
    → b < 96
    → feature_is_set device 32 ≡ true
    → feature_is_set device 17 ≡ true
    → feature_is_set device b ≡ true
    → Selected device
        (b ∷ 17 ∷ minimal_bits)
        (minimal_guest_features device >>= λ g. (set_feature g 17 >>= λ g. set_feature g b))
ctrl_chain device b hb v1 vq offered =
    Selected-then device minimal_bits (b ∷ 17 ∷ minimal_bits) _ _
      (minimal_guest_features-Selects device v1)
      λ g s.
        Selected-then device (17 ∷ minimal_bits) (b ∷ 17 ∷ minimal_bits) _ _
          (set_feature-Selects device minimal_bits g 17 (omega arith) vq s)
          λ g s. set_feature-Selects device (17 ∷ minimal_bits) g b hb offered s

-- With the control queue and its receive modes on offer too, those two are added to the minimal
-- features.
pub ctrl_rx_guest_features-Selects :
    (device : List ℕ)
    → feature_is_set device 32 ≡ true
    → feature_is_set device 17 ≡ true
    → feature_is_set device 18 ≡ true
    → (guest : List ℕ) × (ctrl_rx_guest_features device ≡ ok guest)
      × Selects device (18 ∷ 17 ∷ minimal_bits) guest
unfolding ctrl_rx_guest_features
ctrl_rx_guest_features-Selects device v1 vq rx =
    rw (vq, rx) (ctrl_chain device 18 (omega arith) v1 vq rx)

-- Likewise for the control queue's command that sets the MAC address.
pub ctrl_mac_addr_guest_features-Selects :
    (device : List ℕ)
    → feature_is_set device 32 ≡ true
    → feature_is_set device 17 ≡ true
    → feature_is_set device 23 ≡ true
    → (guest : List ℕ) × (ctrl_mac_addr_guest_features device ≡ ok guest)
      × Selects device (23 ∷ 17 ∷ minimal_bits) guest
unfolding ctrl_mac_addr_guest_features
ctrl_mac_addr_guest_features-Selects device v1 vq mac =
    rw (vq, mac) (ctrl_chain device 23 (omega arith) v1 vq mac)

-- A device that lacks a feature that a sample cannot do without is refused, with the error of the
-- first such feature.
pub features_refused :
    (device : List ℕ)
    → (feature_is_set device 32 ≡ false → minimal_guest_features device ≡ err no_version_1)
      × (feature_is_set device 32 ≡ false → minimal_transport_features device ≡ err no_version_1)
      × (feature_is_set device 17 ≡ false → ctrl_rx_guest_features device ≡ err no_ctrl_vq)
      × (feature_is_set device 17 ≡ true
          → feature_is_set device 18 ≡ false
          → ctrl_rx_guest_features device ≡ err no_ctrl_rx)
      × (feature_is_set device 17 ≡ false → ctrl_mac_addr_guest_features device ≡ err no_ctrl_vq)
      × (feature_is_set device 17 ≡ true
          → feature_is_set device 23 ≡ false
          → ctrl_mac_addr_guest_features device ≡ err no_ctrl_mac_addr)
unfolding minimal_guest_features minimal_transport_features ctrl_rx_guest_features
    ctrl_mac_addr_guest_features
features_refused device =
    (λ h. rw h, λ h. rw h, λ h. rw h, λ h k. rw (h, k), λ h. rw h, λ h k. rw (h, k))
