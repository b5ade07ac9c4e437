-- ===== src/Region/Windows.antt =====
-- A mapped window covers the range that was asked for.
use native.Mathlib.Nat.{one-le-pow, div-add-mod', mod-lt, mul-mod_left}
use advcpp.Prelude.{
  ℕ, ◌+◌, ◌-◌, ◌*◌, min, u64, ◌/◌, ◌%◌, ◌^◌, ◌≤◌, ◌<◌, ◌≡◌, ◌⊎◌, inl, inr, ◌↔◌, true, List, [], ◌∷◌,
  arith, size_max, Result, ok, bit_and, Bool-cases,
}
use advcpp.Sizes.Laws.{high_mask}
use advcpp.Region.{
  MmapArea, contains, RegionInfo, VirtioCap, some_area_contains, require_mmap_area_contains,
  vfio_bar_region_index, vfio_system_page_size, Window, page_window, map_common_cfg, map_device_cfg,
  map_notify_window,
}

-- An area contains exactly the ranges that lie in it, however large the offsets.
pub contains_iff :
    (a : MmapArea) (offset size : ℕ)
    → (contains a offset size ≡ true) ↔ ((a.offset ≤ offset) × (offset + size ≤ a.offset + a.size))
unfolding contains
contains_iff a offset size = (λ h. ground arith, λ (lo, hi). ground arith)

-- The range lies in one of the areas.
abbrev pub InSome : List MmapArea → ℕ → ℕ → Type 0
InSome [] offset size = ⊥
InSome (a ∷ areas) offset size =
    ((a.offset ≤ offset) × (offset + size ≤ a.offset + a.size)) ⊎ InSome areas offset size

some_area_contains-InSome :
    (areas : List MmapArea) (offset size : ℕ)
    → some_area_contains areas offset size ≡ true
    → InSome areas offset size
unfolding some_area_contains
some_area_contains-InSome [] offset size h = cc
some_area_contains-InSome (a ∷ areas) offset size h = elim (Bool-cases (contains a offset size)) [
  | inl e ↦ inl ((contains_iff a offset size).0 e)
  | inr e ↦ inr (some_area_contains-InSome areas offset size (ground (arith, e)))
]

-- A region without areas may be mapped as a whole.
abbrev pub Allowed : List MmapArea → ℕ → ℕ → Type 0
Allowed [] offset size = Unit {0}
Allowed (a ∷ areas) offset size = InSome (a ∷ areas) offset size

allowed :
    (flags bytes start : ℕ) (areas : List MmapArea) (offset size : ℕ)
    → require_mmap_area_contains
        (record { flags = flags; size = bytes; offset = start; mmap_areas = areas })
        offset
        size
      ≡ ok tt
    → Allowed areas offset size
unfolding require_mmap_area_contains
allowed flags bytes start [] offset size h = tt
allowed flags bytes start (a ∷ areas) offset size h =
    some_area_contains-InSome (a ∷ areas) offset size (ground arith)

-- The window begins at a page of the region, less than a page before the range, and ends with it;
-- the range lies in the region and may be mapped.
pub record Covers (page : ℕ) (region : RegionInfo) (offset len : ℕ) (w : Window) : Type 0 where
  pub delta : w.delta < page
  pub start : w.file_offset + w.delta ≡ region.offset + offset
  pub page_start : (w.file_offset - region.offset) % page ≡ 0
  pub size : w.size ≡ w.delta + len
  pub inside : offset + len ≤ region.size
  pub mappable : Allowed region.mmap_areas offset len

module _ (k : ℕ) (small : k < 64) (region : RegionInfo)
    (room : region.offset + region.size ≤ size_max) where
  page_window-Covers :
      (offset len : ℕ)
      → offset + len ≤ region.size
      → Allowed region.mmap_areas offset len
      → Covers (2 ^ k) region offset len (page_window (2 ^ k) region offset len)
  unfolding page_window
  page_window-Covers offset len h may =
      let masked : bit_and offset (size_max - (2 ^ k - 1)) ≡ offset / 2 ^ k * 2 ^ k =
        high_mask k offset small (omega arith) in
      let parts : offset / 2 ^ k * 2 ^ k + offset % 2 ^ k ≡ offset = div-add-mod' offset (2 ^ k) in
      let below : offset % 2 ^ k < 2 ^ k = mod-lt offset (one-le-pow k 2 (omega arith)) in
      let multiple : offset / 2 ^ k * 2 ^ k % 2 ^ k ≡ 0 = mul-mod_left (offset / 2 ^ k) (2 ^ k) in
      rw masked (record {
        delta = omega (arith, parts, below);
        start = omega (arith, parts, below);
        page_start = ground (arith, parts, below, multiple);
        size = omega (arith, parts, below);
        inside = h;
        mappable = may;
      })

  -- What a call of the check that passes says.
  checked :
      (offset len : ℕ)
      → require_mmap_area_contains region offset len ≡ ok tt
      → Allowed region.mmap_areas offset len
  checked offset len h =
      allowed region.flags region.size region.offset region.mmap_areas offset len h

  -- Each window that `map_common_cfg` returns, for a region that the kernel reports and a page size
  -- that is a power of two, covers the whole of the capability that lies in the region, up to the
  -- last field that the code reads.
  map_common_cfg-Covers :
      (regions : ℕ → Result RegionInfo) (cap : VirtioCap) {w : Window}
      → regions cap.bar ≡ ok region
      → map_common_cfg (2 ^ k) regions cap ≡ ok w
      → (cap.bar ≤ 5)
        × (56 ≤ cap.length)
        × Covers (2 ^ k) region cap.offset (min (min cap.length (region.size - cap.offset)) 58) w
  unfolding map_common_cfg vfio_bar_region_index vfio_system_page_size
  map_common_cfg-Covers regions cap {w} known h =
      let len = min (min cap.length (region.size - cap.offset)) 58 in
      let may : require_mmap_area_contains region cap.offset len ≡ ok tt = ground (arith, known) in
      let made : page_window (2 ^ k) region cap.offset len ≡ w = ground (arith, known) in
      let fits : cap.offset < region.size = ground (arith, known) in
      (
        ground (arith, known),
        ground (arith, known),
        rw made at (page_window-Covers cap.offset len (omega arith) (checked cap.offset len may)),
      )

  -- Likewise `map_device_cfg` covers the capability as far as it lies in the region.
  pub map_device_cfg-Covers :
      (regions : ℕ → Result RegionInfo) (cap : VirtioCap) (required : ℕ) {w : Window}
      → regions cap.bar ≡ ok region
      → map_device_cfg (2 ^ k) regions cap required ≡ ok w
      → (cap.bar ≤ 5)
        × (required ≤ cap.length)
        × Covers (2 ^ k) region cap.offset (min cap.length (region.size - cap.offset)) w
  unfolding map_device_cfg vfio_bar_region_index vfio_system_page_size
  map_device_cfg-Covers regions cap required {w} known h =
      let len = min cap.length (region.size - cap.offset) in
      let may : require_mmap_area_contains region cap.offset len ≡ ok tt = ground (arith, known) in
      let made : page_window (2 ^ k) region cap.offset len ≡ w = ground (arith, known) in
      let fits : cap.offset < region.size = ground (arith, known) in
      (
        ground (arith, known),
        ground (arith, known),
        rw made at (page_window-Covers cap.offset len (omega arith) (checked cap.offset len may)),
      )

  -- The window that `map_notify_window` returns covers the two bytes of the notification, which lie
  -- in the region and in the capability, where the offset computed and the end of the capability
  -- leave two bytes of the 64-bit range.
  pub map_notify_window-Covers :
      (cap : VirtioCap) (queue at : ℕ) {w : Window}
      → cap.offset + queue * cap.notify_off_multiplier + 2 ≤ size_max
      → cap.offset + cap.length ≤ size_max
      → map_notify_window (2 ^ k) cap region queue ≡ ok (at, w)
      → (at ≡ cap.offset + queue * cap.notify_off_multiplier)
        × (at + 2 ≤ cap.offset + cap.length)
        × Covers (2 ^ k) region at 2 w
  unfolding map_notify_window vfio_system_page_size
  map_notify_window-Covers cap queue at {w} nowrap cap_end h =
      let here : u64 (cap.offset + queue * cap.notify_off_multiplier) ≡ at = ground arith in
      let may : require_mmap_area_contains region at 2 ≡ ok tt = ground (arith, here) in
      let made : page_window (2 ^ k) region at 2 ≡ w = ground (arith, here) in
      let fits : u64 (at + 2) ≤ region.size = ground (arith, here) in
      let in_cap : u64 (at + 2) ≤ u64 (cap.offset + cap.length) = ground (arith, here) in
      (
        omega (arith, here),
        omega (arith, here, in_cap),
        rw made at (page_window-Covers at 2 (omega (arith, here, fits)) (checked at 2 may)),
      )
