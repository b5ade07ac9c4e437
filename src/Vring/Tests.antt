-- ===== src/Vring/Tests.antt =====
-- Queue layouts at concrete sizes.
use advcpp.Prelude.{◌≡◌, refl, none, some, arith, ok, err}
use advcpp.Prelude.{queue_size_not_power_of_two, queue_size_zero, requested_out_of_range}
use advcpp.Sizes.{is_power_of_two, align_up}
use advcpp.Vring.{VringLayout, compute_vring_layout, choose_queue_size}
use advcpp.Vring.Layout.{IsSplit, compute_vring_layout-IsSplit}

abbrev four_slots : VringLayout
four_slots = record {
  queue_size = 4;
  align = 4;
  desc_offset = 0;
  desc_size = 64;
  avail_offset = 64;
  avail_size = 14;
  used_offset = 80;
  used_size = 38;
  total_size = 118;
}

compute_four_slots : compute_vring_layout 4 4 ≡ ok four_slots
unfolding compute_vring_layout align_up is_power_of_two
compute_four_slots = refl

compute_refused :
    (compute_vring_layout 0 4 ≡ err queue_size_zero)
    × (compute_vring_layout 6 4 ≡ err queue_size_not_power_of_two)
unfolding compute_vring_layout is_power_of_two
compute_refused = (refl, refl)

choose_runs :
    (choose_queue_size 256 none ≡ ok 256)
    × (choose_queue_size 256 (some 512) ≡ err requested_out_of_range)
unfolding choose_queue_size is_power_of_two
choose_runs = (refl, refl)

compute_vring_layout-IsSplit_example : IsSplit 4 4 four_slots
compute_vring_layout-IsSplit_example =
    compute_vring_layout-IsSplit 4 4 (omega arith) (omega arith) compute_four_slots
