-- ===== src/Mmio/Tests.antt =====
-- A mapping of 8 bytes.
use advcpp.Prelude.{◌≡◌, refl, [], ◌∷◌, ok, err, size_max}
use advcpp.Prelude.{mmio_out_of_range}
use advcpp.Mmio.{MappedRegion, check_range, read16, loaded}

abbrev window : MappedRegion
window = record { size = 8; device = λ h width o. 0x1234567 }

read16_runs :
    (read16 window 6 [] ≡ (ok 0x4567, loaded 2 6 0x4567 ∷ []))
    × (read16 window 7 [] ≡ (err mmio_out_of_range, []))
    × (read16 window size_max [] ≡ (err mmio_out_of_range, []))
unfolding read16 check_range
read16_runs = (refl, refl, refl)
