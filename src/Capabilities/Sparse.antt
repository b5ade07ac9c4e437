-- ===== src/Capabilities/Sparse.antt =====
-- The loop over a region's capabilities does not end where a link leads back.
use advcpp.Prelude.{ℕ, zero, suc, ◌+◌, ◌≡◌, ◌≢◌, refl, bit_and, false, none, List, ◌==◌, ok, arith}
use advcpp.Memory.{Memory, read_le}
use advcpp.Region.{MmapArea}
use advcpp.Capabilities.{read_region_cap, parse_caps_from, parse_region_caps, flag_caps}

module _ (buf : Memory) (size : ℕ) where
  parse_caps_from-loops :
      (offset : ℕ) {found : List MmapArea}
      → offset ≢ 0
      → read_region_cap buf size offset ≡ ok found
      → read_le 4 (offset + 4) buf ≡ offset
      → (fuel : ℕ) → parse_caps_from fuel buf size offset ≡ none
  unfolding parse_caps_from
  parse_caps_from-loops zero ne e back fuel = absurd (ne refl)
  parse_caps_from-loops (suc offset) ne e back zero = refl
  parse_caps_from-loops (suc offset) ne e back (suc fuel) =
      rw (e, parse_caps_from, back, parse_caps_from-loops (suc offset) ne e back fuel) refl

  -- A capability that fits and links to itself is read for ever: no number of rounds ends the loop.
  pub parse_region_caps-loops :
      (flags cap_offset : ℕ) {found : List MmapArea}
      → bit_and flags flag_caps ≢ 0
      → cap_offset ≢ 0
      → read_region_cap buf size cap_offset ≡ ok found
      → read_le 4 (cap_offset + 4) buf ≡ cap_offset
      → (fuel : ℕ) → parse_region_caps fuel flags cap_offset buf size ≡ none
  unfolding parse_region_caps
  parse_region_caps-loops flags cap_offset there ne e back fuel =
      let given : bit_and flags flag_caps == 0 ≡ false = ground arith in
      rw given (parse_caps_from-loops cap_offset ne e back fuel)
