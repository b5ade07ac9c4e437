-- ===== src/Sizes/Tests.antt =====
-- Size arithmetic at concrete values.
use advcpp.Prelude.{◌^◌, ◌≡◌, refl, size_max, ok, err}
use advcpp.Sizes.{is_power_of_two, align_up, checked_add, checked_mul}
use advcpp.Prelude.{alignment_not_power_of_two, align_overflow, size_overflow}

align_up_runs :
    (align_up 78 4 ≡ ok 80)
    × (align_up 80 4 ≡ ok 80)
    × (align_up 5 12 ≡ err alignment_not_power_of_two)
    × (align_up size_max 4096 ≡ err align_overflow)
unfolding align_up is_power_of_two
align_up_runs = (refl, refl, refl, refl)

checked_runs :
    (checked_mul 3 5 ≡ ok 15)
    × (checked_mul (2 ^ 32) (2 ^ 32) ≡ err size_overflow)
    × (checked_add size_max 1 ≡ err size_overflow)
unfolding checked_mul checked_add
checked_runs = (refl, refl, refl)
