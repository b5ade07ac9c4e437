-- ===== src/Capabilities/Info/Listed.antt =====
-- What `get_region_info` returns for every answer of the kernel that is one of a region.
use advcpp.Prelude.{
  ℕ, zero, suc, ◌+◌, ◌*◌, ◌≡◌, ◌≢◌, ◌<◌, ◌≤◌, refl, true, false, ◌==◌, bit_and, some, List, [], ◌∷◌,
  ◌++◌, length, Result, ok, err, Error, arith, ◌⊎◌, inl, inr,
}
use advcpp.Memory.{Memory, read_le}
use advcpp.Region.{RegionInfo, MmapArea}
use advcpp.Capabilities.{sparse_areas, read_region_cap, parse_caps_from, parse_region_caps}
use advcpp.Capabilities.Info.{has_caps, read_full_info, get_region_info}

module _ (buf : Memory) where
  -- The areas that stand from `at` on.
  abbrev pub AreasAt : ℕ → List MmapArea → Type 0
  AreasAt at [] = Unit {0}
  AreasAt at (area ∷ areas) =
      (read_le 8 at buf ≡ area.offset)
      × (read_le 8 (at + 8) buf ≡ area.size)
      × AreasAt (at + 16) areas

  sparse_areas-AreasAt :
      (offset i : ℕ) (areas : List MmapArea)
      → AreasAt (offset + 16 + 16 * i) areas
      → sparse_areas buf offset i (length areas) ≡ areas
  unfolding sparse_areas
  sparse_areas-AreasAt offset i [] h = refl
  sparse_areas-AreasAt offset i (area ∷ areas) (at, size, more) =
      let second : offset + 24 + 16 * i ≡ offset + 16 + 16 * i + 8 = omega arith in
      let next : offset + 16 + 16 * (i + 1) ≡ offset + 16 + 16 * i + 16 = omega arith in
      rw (second, at, size, sparse_areas-AreasAt offset (i + 1) areas (rw next more)) refl

  module _ (size : ℕ) where
    -- A capability inside the answer, and the areas that it adds: those of a sparse one, whose id is 1.
    pub data IsCap (at : ℕ) : List MmapArea → Type 0 where
      sparse :
          {areas : List MmapArea}
          → read_le 2 at buf ≡ 1
          → read_le 4 (at + 8) buf ≡ length areas
          → at + 16 + 16 * length areas ≤ size
          → AreasAt (at + 16) areas
          → IsCap at areas
      other : read_le 2 at buf ≢ 1 → at + 8 ≤ size → IsCap at []

    -- The capabilities that are linked from `at` on, each with its areas.
    abbrev pub Chain : ℕ → List (List MmapArea) → Type 0
    Chain at [] = at ≡ 0
    Chain at (areas ∷ caps) = (at ≢ 0) × IsCap at areas × Chain (read_le 4 (at + 4) buf) caps

    abbrev pub all_areas : List (List MmapArea) → List MmapArea
    all_areas [] = []
    all_areas (areas ∷ caps) = areas ++ all_areas caps

    read_region_cap-IsCap :
        (at : ℕ) {areas : List MmapArea} → IsCap at areas → read_region_cap buf size at ≡ ok areas
    unfolding read_region_cap
    read_region_cap-IsCap at {areas} (sparse id count fits areas_at) =
        let first : at + 16 ≡ at + 16 + 16 * 0 = omega arith in
        let listed = sparse_areas-AreasAt at 0 areas (rw first at areas_at) in
        rw (id, count, listed) (ground arith)
    read_region_cap-IsCap at (other id fits) = ground arith

    parse_caps_from-Chain :
        (fuel at : ℕ) (caps : List (List MmapArea))
        → length caps < fuel
        → Chain at caps
        → parse_caps_from fuel buf size at ≡ some (ok (all_areas caps))
    unfolding parse_caps_from
    parse_caps_from-Chain fuel at [] enough h = rw h refl
    parse_caps_from-Chain zero at (areas ∷ caps) enough h = absurd (omega arith)
    parse_caps_from-Chain (suc fuel) zero (areas ∷ caps) enough (ne, cap, more) = absurd (ne refl)
    parse_caps_from-Chain (suc fuel) (suc at) (areas ∷ caps) enough (ne, cap, more) =
        rw
          (
            read_region_cap-IsCap (suc at) cap,
            parse_caps_from,
            parse_caps_from-Chain fuel (read_le 4 (suc at + 4) buf) caps (omega arith) more,
          )
          refl

-- The fields of an answer, at the offsets of linux/vfio.h.
abbrev pub described : Memory → List MmapArea → RegionInfo
described answer mmap_areas = record {
  flags = read_le 4 4 answer;
  size = read_le 8 16 answer;
  offset = read_le 8 24 answer;
  mmap_areas = mmap_areas;
}

module _ (fuel : ℕ) (ask : ℕ → ℕ → Result Memory) (index : ℕ) where
  -- The first answer says that there are capabilities behind its 32 bytes.
  pub record Extends (first : Memory) : Type 0 where
    pub asked : ask 32 index ≡ ok first
    pub caps : bit_and (read_le 4 4 first) 8 ≢ 0
    pub longer : 32 < read_le 4 0 first

  -- What the kernel answers to the two calls, and what it should lead to.
  pub data Answers : Result RegionInfo → Type 0 where
    denied : {e : Error} → ask 32 index ≡ err e → Answers (err e)
    plain :
        {first : Memory}
        → ask 32 index ≡ ok first
        → (bit_and (read_le 4 4 first) 8 ≡ 0) ⊎ (read_le 4 0 first ≤ 32)
        → Answers (ok (described first []))
    denied_later :
        {first : Memory} {e : Error}
        → Extends first
        → ask (read_le 4 0 first) index ≡ err e
        → Answers (err e)
    listed :
        {first full : Memory} (caps : List (List MmapArea))
        → Extends first
        → ask (read_le 4 0 first) index ≡ ok full
        → bit_and (read_le 4 4 full) 8 ≢ 0
        → Chain full (read_le 4 0 first) (read_le 4 12 full) caps
        → length caps < fuel
        → Answers (ok (described full (all_areas full (read_le 4 0 first) caps)))

  has_caps-Extends : (first : Memory) → Extends first → has_caps first ≡ true
  has_caps-Extends first h = ground (arith, h.caps, h.longer)

  has_caps-plain :
      (first : Memory)
      → (bit_and (read_le 4 4 first) 8 ≡ 0) ⊎ (read_le 4 0 first ≤ 32)
      → has_caps first ≡ false
  has_caps-plain first (inl none_there) = ground arith
  has_caps-plain first (inr short) = ground arith

  -- An answer without capabilities is returned with no areas, from one call; otherwise the second
  -- answer is, with the areas of all its sparse capabilities in the order of their links, where the
  -- chain of them ends and each lies inside the answer, and more rounds are given than there are
  -- capabilities. An error of either call is thrown.
  pub get_region_info-Answers :
      {r : Result RegionInfo} → Answers r → get_region_info fuel ask index ≡ some r
  unfolding get_region_info read_full_info parse_region_caps
  get_region_info-Answers (denied e) = rw e refl
  get_region_info-Answers (plain {first} asked without) =
      rw (asked, has_caps-plain first without) refl
  get_region_info-Answers (denied_later {first} h e) =
      rw (h.asked, has_caps-Extends first h, e) refl
  get_region_info-Answers (listed {first} {full} caps h asked flag chain enough) =
      let given : bit_and (read_le 4 4 full) 8 == 0 ≡ false = ground arith in
      rw
        (
          h.asked,
          has_caps-Extends first h,
          asked,
          given,
          parse_caps_from-Chain full (read_le 4 0 first) fuel (read_le 4 12 full) caps enough chain,
        )
        refl
