-- ===== src/Region.antt =====
-- Regions of a VFIO device in userspace_drivers/vfio_utils.hpp: the parts of a region that may be
-- mapped, the virtio capabilities that name ranges in them, and the windows that are mapped. What
-- the kernel says of a region is an argument, and so is the page size that `sysconf` reports.
pub mod Windows
mod Tests
use advcpp.Prelude.{
  ℕ, ◌+◌, ◌-◌, ◌*◌, min, max, bit_and, Bool, false, ◌&&◌, ◌||◌, List, [], ◌∷◌, ltb, leb, ◌==◌,
  if◌then◌else◌, u64, size_max, Result, ok, err, ◌>>=◌, ◌>>◌, throw_if,
}
use advcpp.Prelude.{
  cfg_not_found, invalid_bar, not_in_mmap_area, region_missing, region_not_mmap,
  region_not_writable, range_past_region, cfg_too_short, notify_past_region, notify_outside_cfg,
  invalid_argument,
}

pub record MmapArea : Type 0 where
  pub offset : ℕ
  pub size : ℕ

unfoldable pub contains : MmapArea → ℕ → ℕ → Bool
contains area range_offset range_size =
    leb area.offset range_offset
    && (leb (range_offset - area.offset) area.size
        && leb range_size (area.size - (range_offset - area.offset)))

unfoldable pub vfio_system_page_size : ℕ → Result ℕ
vfio_system_page_size page = if page == 0 then err invalid_argument else ok page

-- The fields of `vfio_region_info` that the code reads, and the areas.
pub record RegionInfo : Type 0 where
  pub flags : ℕ
  pub size : ℕ
  pub offset : ℕ
  pub mmap_areas : List MmapArea

-- The flags of linux/vfio.h.
abbrev flag_write : ℕ
flag_write = 2

abbrev flag_mmap : ℕ
flag_mmap = 4

pub record VirtioCap : Type 0 where
  pub cfg_type : ℕ
  pub bar : ℕ
  pub offset : ℕ
  pub length : ℕ
  pub notify_off_multiplier : ℕ

-- The first capability of a type.
find_cfg : ℕ → List VirtioCap → Result VirtioCap
find_cfg cfg_type [] = err cfg_not_found
find_cfg cfg_type (cap ∷ caps) =
    let rest = find_cfg cfg_type caps in if cap.cfg_type == cfg_type then ok cap else rest

pub find_common_cfg : List VirtioCap → Result VirtioCap
unfolding find_cfg
find_common_cfg caps = find_cfg 1 caps

pub find_notify_cfg : List VirtioCap → Result VirtioCap
unfolding find_cfg
find_notify_cfg caps = find_cfg 2 caps

pub find_device_cfg : List VirtioCap → Result VirtioCap
unfolding find_cfg
find_device_cfg caps = find_cfg 4 caps

-- BAR 0 has index 0.
unfoldable pub vfio_bar_region_index : ℕ → Result ℕ
vfio_bar_region_index bar = if ltb 5 bar then err invalid_bar else ok bar

unfoldable pub some_area_contains : List MmapArea → ℕ → ℕ → Bool
some_area_contains [] range_offset range_size = false
some_area_contains (area ∷ areas) range_offset range_size =
    contains area range_offset range_size || some_area_contains areas range_offset range_size

unfoldable pub require_mmap_area_contains : RegionInfo → ℕ → ℕ → Result (Unit {0})
unfolding some_area_contains
require_mmap_area_contains region range_offset range_size = elim region.mmap_areas [
  | [] ↦ ok tt
  | area ∷ areas ↦
      if some_area_contains (area ∷ areas) range_offset range_size
      then ok tt
      else err not_in_mmap_area
]

-- The arguments of the `MappedRegion` that is made, and where the range begins in it.
pub record Window : Type 0 where
  pub delta : ℕ
  pub size : ℕ
  pub file_offset : ℕ

-- The pages around `len` bytes at `offset` of the region.
unfoldable pub page_window : ℕ → RegionInfo → ℕ → ℕ → Window
page_window page region offset len =
    let aligned_offset = bit_and offset (size_max - (page - 1)) in
    let delta = offset - aligned_offset in
    record {
      delta = delta;
      size = u64 (delta + len);
      file_offset = u64 (region.offset + aligned_offset);
    }

-- `required` is the end of the last field that is read.
unfoldable pub map_common_cfg : ℕ → (ℕ → Result RegionInfo) → VirtioCap → Result Window
map_common_cfg page regions common = do
  region_index ← vfio_bar_region_index common.bar
  region ← regions region_index
  throw_if (region.size == 0) region_missing
  throw_if (bit_and region.flags flag_mmap == 0) region_not_mmap
  throw_if (leb region.size common.offset) range_past_region
  throw_if (ltb common.length 56) cfg_too_short
  let available = region.size - common.offset
  let inspect_length = min (min common.length available) (max 56 58)
  require_mmap_area_contains region common.offset inspect_length
  page_size ← vfio_system_page_size page
  ok (page_window page_size region common.offset inspect_length)

unfoldable pub map_device_cfg : ℕ → (ℕ → Result RegionInfo) → VirtioCap → ℕ → Result Window
map_device_cfg page regions device_cfg required_length = do
  region_index ← vfio_bar_region_index device_cfg.bar
  region ← regions region_index
  throw_if (region.size == 0) region_missing
  throw_if (bit_and region.flags flag_mmap == 0) region_not_mmap
  throw_if (leb region.size device_cfg.offset) range_past_region
  throw_if (ltb device_cfg.length required_length) cfg_too_short
  let available = region.size - device_cfg.offset
  let inspect_length = min device_cfg.length available
  require_mmap_area_contains region device_cfg.offset inspect_length
  page_size ← vfio_system_page_size page
  ok (page_window page_size region device_cfg.offset inspect_length)

-- Also the offset of the notification in the region.
unfoldable pub map_notify_window : ℕ → VirtioCap → RegionInfo → ℕ → Result (ℕ × Window)
map_notify_window page notify region queue_notify_off = do
  throw_if (region.size == 0) region_missing
  throw_if (bit_and region.flags flag_mmap == 0) region_not_mmap
  throw_if (bit_and region.flags flag_write == 0) region_not_writable
  let bar_offset = u64 (notify.offset + queue_notify_off * notify.notify_off_multiplier)
  throw_if (ltb region.size (u64 (bar_offset + 2))) notify_past_region
  throw_if
      (ltb bar_offset notify.offset
        || ltb (u64 (notify.offset + notify.length)) (u64 (bar_offset + 2)))
      notify_outside_cfg
  require_mmap_area_contains region bar_offset 2
  page_size ← vfio_system_page_size page
  ok (bar_offset, page_window page_size region bar_offset 2)
