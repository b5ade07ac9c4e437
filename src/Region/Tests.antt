-- ===== src/Region/Tests.antt =====
-- A BAR of two pages that may be mapped as a whole, or only in its first page.
use advcpp.Prelude.{
  ℕ, ◌+◌, ◌-◌, ◌*◌, ◌^◌, ◌≤◌, ◌≡◌, refl, [], ◌∷◌, arith, ok, err, Result, size_max,
}
use advcpp.Prelude.{not_in_mmap_area, invalid_bar}
use advcpp.Region.{
  MmapArea, contains, RegionInfo, VirtioCap, Window, page_window, map_common_cfg, map_device_cfg,
  map_notify_window, require_mmap_area_contains, some_area_contains, vfio_bar_region_index,
  vfio_system_page_size,
}
use advcpp.Region.Windows.{Covers, map_notify_window-Covers}

abbrev bar : RegionInfo
bar = record { flags = 6; size = 8192; offset = 2 ^ 40; mmap_areas = [] }

abbrev first_page : MmapArea
first_page = record { offset = 0; size = 4096 }

abbrev sparse : RegionInfo
sparse = record bar { mmap_areas = first_page ∷ [] }

abbrev cap : VirtioCap
cap = record { cfg_type = 1; bar = 4; offset = 4160; length = 64; notify_off_multiplier = 4 }

abbrev regions : RegionInfo → ℕ → Result RegionInfo
regions region index = ok region

abbrev window : Window
window = record { delta = 64; size = 122; file_offset = 2 ^ 40 + 4096 }

common : map_common_cfg 4096 (regions bar) cap ≡ ok window
unfolding map_common_cfg vfio_bar_region_index vfio_system_page_size require_mmap_area_contains
    page_window
common = refl

device : map_device_cfg 4096 (regions bar) cap 12 ≡ ok (record window { size = 128 })
unfolding map_device_cfg vfio_bar_region_index vfio_system_page_size require_mmap_area_contains
    page_window
device = refl

notify :
    map_notify_window 4096 cap bar 3
    ≡ ok (4172, record { delta = 76; size = 78; file_offset = 2 ^ 40 + 4096 })
unfolding map_notify_window vfio_system_page_size require_mmap_area_contains page_window
notify = refl

refused :
    (map_common_cfg 4096 (regions sparse) cap ≡ err not_in_mmap_area)
    × (map_common_cfg 4096 (regions bar) (record cap { bar = 6 }) ≡ err invalid_bar)
unfolding map_common_cfg vfio_bar_region_index require_mmap_area_contains some_area_contains
    contains
refused = (refl, refl)

-- A capability at the end of the 64-bit range passes the checks of sums that wrap.
notify_wraps :
    map_notify_window 4096 (record cap { offset = size_max; notify_off_multiplier = 0 }) bar 0
    ≡ ok (size_max, record { delta = 4095; size = 4097; file_offset = 2 ^ 40 - 4096 })
unfolding map_notify_window vfio_system_page_size require_mmap_area_contains page_window
notify_wraps = refl

map_notify_window-Covers_example :
    (4172 ≡ 4160 + 3 * 4)
    × (4172 + 2 ≤ 4160 + 64)
    × Covers (2 ^ 12) bar 4172 2 (record { delta = 76; size = 78; file_offset = 2 ^ 40 + 4096 })
map_notify_window-Covers_example =
    map_notify_window-Covers 12 (omega arith) bar (omega arith) cap 3 4172 (omega arith)
      (omega arith) notify
