-- ===== src/Features/Tests.antt =====
-- The features chosen from those that some devices offer.
use advcpp.Prelude.{ℕ, ◌^◌, ◌+◌, ◌≡◌, refl, List, [], ◌∷◌, ok, err, true}
use advcpp.Prelude.{no_version_1, no_ctrl_rx}
use advcpp.Features.{
  feature_is_set, set_feature, copy_feature, minimal_guest_features, minimal_transport_features,
  ctrl_rx_guest_features,
}

-- Bits 5, 17, 18, 23 and 32.
abbrev offered : List ℕ
offered = (2 ^ 5 + 2 ^ 17 + 2 ^ 18 + 2 ^ 23) ∷ 1 ∷ 0 ∷ []

chosen_features :
    (minimal_guest_features offered ≡ ok (32 ∷ 1 ∷ 0 ∷ []))
    × (minimal_transport_features offered ≡ ok (0 ∷ 1 ∷ 0 ∷ []))
    × (ctrl_rx_guest_features offered ≡ ok ((32 + 2 ^ 17 + 2 ^ 18) ∷ 1 ∷ 0 ∷ []))
    × (minimal_guest_features (0 ∷ 0 ∷ 0 ∷ []) ≡ err no_version_1)
    × (ctrl_rx_guest_features (2 ^ 17 ∷ 1 ∷ 0 ∷ []) ≡ err no_ctrl_rx)
unfolding minimal_guest_features minimal_transport_features ctrl_rx_guest_features feature_is_set
    set_feature copy_feature
chosen_features = (refl, refl, refl, refl, refl)

offers_version_1 : feature_is_set offered 32 ≡ true
unfolding feature_is_set
offers_version_1 = refl

offers_ctrl_vq : feature_is_set offered 17 ≡ true
unfolding feature_is_set
offers_ctrl_vq = refl

offers_ctrl_rx : feature_is_set offered 18 ≡ true
unfolding feature_is_set
offers_ctrl_rx = refl

offers_ctrl_mac_addr : feature_is_set offered 23 ≡ true
unfolding feature_is_set
offers_ctrl_mac_addr = refl
