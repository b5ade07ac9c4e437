-- ===== src/Capabilities/Info.antt =====
-- `get_region_info` of userspace_drivers/vfio_utils.hpp: the kernel is asked once for the region, and
-- a second time, with room for them, where it has capabilities.
pub mod Listed
mod Tests
use advcpp.Prelude.{
  ℕ, ◌%◌, Bool, not, ◌&&◌, ◌==◌, bit_and, ltb, some, List, [], if◌then◌else◌, Result, ok,
}
use advcpp.Memory.{Memory, read_le}
use advcpp.Config.{Attempt, and_then}
use advcpp.Region.{RegionInfo, MmapArea}
use advcpp.Capabilities.{parse_region_caps, flag_caps}

-- The fields of the `vfio_region_info` at the start of an answer.
abbrev pub info_argsz : Memory → ℕ
info_argsz answer = read_le 4 0 answer

abbrev pub info_flags : Memory → ℕ
info_flags answer = read_le 4 4 answer

abbrev pub info_cap_offset : Memory → ℕ
info_cap_offset answer = read_le 4 12 answer

abbrev pub region_info : Memory → List MmapArea → RegionInfo
region_info answer mmap_areas = record {
  flags = info_flags answer;
  size = read_le 8 16 answer;
  offset = read_le 8 24 answer;
  mmap_areas = mmap_areas;
}

abbrev pub has_caps : Memory → Bool
has_caps region = not (bit_and (info_flags region) flag_caps == 0) && ltb 32 (info_argsz region)

-- The capabilities of a second answer of `size` bytes.
unfoldable pub read_full_info : ℕ → ℕ → Memory → Attempt RegionInfo
read_full_info fuel size full =
    and_then (parse_region_caps fuel (info_flags full) (info_cap_offset full) full size)
      (λ mmap_areas. some (ok (region_info full mmap_areas)))

-- `ask argsz index` is the `VFIO_DEVICE_GET_REGION_INFO` of so many bytes, and what it has written.
unfoldable pub get_region_info : ℕ → (ℕ → ℕ → Result Memory) → ℕ → Attempt RegionInfo
unfolding read_full_info
get_region_info fuel ask index = and_then (some (ask 32 index)) (λ region.
    if has_caps region
    then and_then (some (ask (info_argsz region) index)) (read_full_info fuel (info_argsz region))
    else some (ok (region_info region [])))
