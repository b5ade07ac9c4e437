-- ===== src/Capabilities.antt =====
-- The virtio capabilities in the PCI configuration space, in userspace_drivers/vfio_utils.hpp: a
-- linked list of positions that the device has written and that may lead anywhere.
pub mod Chain
pub mod Sparse
pub mod Info
mod Tests
use advcpp.Prelude.{
  ℕ, zero, suc, ◌+◌, ◌-◌, ◌*◌, ◌%◌, bit_and, Bool, true, false, ◌&&◌, ◌||◌, none, some, List, [],
  ◌∷◌, ◌++◌, ltb, leb, ◌==◌, if◌then◌else◌, Result, ok, err, Error,
}
use advcpp.Prelude.{
  notify_cap_truncated, cap_chain_truncated, sparse_cap_truncated, sparse_list_truncated,
}
use advcpp.Memory.{Memory, read_le}
use advcpp.Region.{VirtioCap, MmapArea}
use advcpp.Config.{
  Pread, Attempt, and_then, ConfigRegion, read_config_u8, read_config_le16, read_config_le32,
  read_config_le64_from_halves,
}

-- The reads of the configuration space.
pub record Reads : Type 0 where
  pub u8_at : ℕ → Attempt ℕ
  pub le32_at : ℕ → Attempt ℕ
  pub le64_at : ℕ → ℕ → Attempt ℕ

infixl 5 ◌>>=◌ ◌>>◌
abbrev ◌>>=◌ : {A B : Type 0} → Attempt A → (A → Attempt B) → Attempt B
first >>= rest = and_then first rest

abbrev ◌>>◌ : {B : Type 0} → Attempt (Unit {0}) → Attempt B → Attempt B
first >> rest = and_then first (λ _. rest)

abbrev done : {A : Type 0} → A → Attempt A
done a = some (ok a)

abbrev refuse_if : Bool → Error → Attempt (Unit {0})
refuse_if true e = some (err e)
refuse_if false e = some (ok tt)

-- `offset` and `length`, of 64 bits in a long capability.
unfoldable pub read_location : Reads → ℕ → ℕ → Attempt (ℕ × ℕ)
read_location r pos cap_len = do
  offset ← r.le32_at (pos + 8)
  length ← r.le32_at (pos + 12)
  if leb 24 cap_len
      then (do
        long_offset ← r.le64_at (pos + 8) (pos + 16)
        long_length ← r.le64_at (pos + 12) (pos + 20)
        done (long_offset, long_length))
      else done (offset, length)

unfoldable pub read_multiplier : Reads → ℕ → ℕ → ℕ → Attempt ℕ
read_multiplier r pos cap_len cfg_type =
    if cfg_type == 2
    then (do refuse_if (ltb cap_len 20) notify_cap_truncated; r.le32_at (pos + 16))
    else done 0

unfoldable pub read_virtio_cap : Reads → ℕ → ℕ → Attempt VirtioCap
unfolding read_location read_multiplier
read_virtio_cap r pos cap_len = do
  cfg_type ← r.u8_at (pos + 3)
  bar ← r.u8_at (pos + 4)
  (offset, length) ← read_location r pos cap_len
  multiplier ← read_multiplier r pos cap_len cfg_type
  done (record {
    cfg_type = cfg_type;
    bar = bar;
    offset = offset;
    length = length;
    notify_off_multiplier = multiplier;
  })

-- What a capability adds to the list: nothing, where it is not a vendor's or not long enough.
unfoldable pub read_cap : Reads → ℕ → ℕ → ℕ → Attempt (List VirtioCap)
unfolding read_virtio_cap
read_cap r size pos cap_id =
    if cap_id == 9
    then (do
      cap_len ← r.u8_at (pos + 2)
      if leb 16 cap_len && leb (pos + cap_len) size
          then (do virtio ← read_virtio_cap r pos cap_len; done (virtio ∷ []))
          else done [])
    else done []

unfoldable pub is_visited : ℕ → List ℕ → Bool
is_visited pos [] = false
is_visited pos (v ∷ visited) = pos == v || is_visited pos visited

-- The loop, with `hops` of them left.
unfoldable pub walk_caps : Reads → ℕ → ℕ → List ℕ → ℕ → Attempt (List VirtioCap)
unfolding read_cap is_visited
walk_caps r size zero visited ptr = done []
walk_caps r size (suc hops) visited ptr =
    let pos = ptr - ptr % 4 in
    let rest = (do
      cap_id ← r.u8_at pos
      next ← r.u8_at (pos + 1)
      found ← read_cap r size pos cap_id
      later ← walk_caps r size hops (pos ∷ visited) next
      done (found ++ later)) in
    if ptr == 0
    then done []
    else if ltb pos 0x40 || ltb size (pos + 2)
    then done []
    else if is_visited pos visited
    then done []
    else rest

abbrev config_reads : Pread → ℕ → ConfigRegion → Reads
config_reads pread fuel config = record {
  u8_at = read_config_u8 pread fuel config;
  le32_at = read_config_le32 pread fuel config;
  le64_at = read_config_le64_from_halves pread fuel config;
}

unfoldable pub read_virtio_caps : Pread → ℕ → ConfigRegion → Attempt (List VirtioCap)
unfolding walk_caps
read_virtio_caps pread fuel config = do
  status ← read_config_le16 pread fuel config 6
  if bit_and status 0x10 == 0 then done [] else (do
    pos ← read_config_u8 pread fuel config 0x34
    walk_caps (config_reads pread fuel config) config.size 64 [] pos)

-- The areas of a sparse capability at `offset`, from area `i` on.
unfoldable pub sparse_areas : Memory → ℕ → ℕ → ℕ → List MmapArea
sparse_areas buf offset i zero = []
sparse_areas buf offset i (suc left) =
    record {
      offset = read_le 8 (offset + 16 + 16 * i) buf;
      size = read_le 8 (offset + 24 + 16 * i) buf;
    }
    ∷ sparse_areas buf offset (i + 1) left

-- One capability of a region: what it adds.
unfoldable pub read_region_cap : Memory → ℕ → ℕ → Result (List MmapArea)
unfolding sparse_areas
read_region_cap buf size offset =
    let nr_areas = read_le 4 (offset + 8) buf in
    if ltb size (offset + 8)
    then err cap_chain_truncated
    else if read_le 2 offset buf == 1
    then (if ltb size (offset + 16)
        then err sparse_cap_truncated
        else if ltb size (offset + (16 + nr_areas * 16))
        then err sparse_list_truncated
        else ok (sparse_areas buf offset 0 nr_areas))
    else ok []

-- The loop over the `size` bytes that the kernel has returned: `none` means that it has not ended
-- after `fuel` capabilities.
unfoldable pub parse_caps_from : ℕ → Memory → ℕ → ℕ → Attempt (List MmapArea)
unfolding read_region_cap
parse_caps_from fuel buf size zero = done []
parse_caps_from zero buf size (suc offset) = none
parse_caps_from (suc fuel) buf size (suc offset) = do
  found ← some (read_region_cap buf size (suc offset))
  later ← parse_caps_from fuel buf size (read_le 4 (suc offset + 4) buf)
  done (found ++ later)

-- VFIO_REGION_INFO_FLAG_CAPS of linux/vfio.h.
abbrev pub flag_caps : ℕ
flag_caps = 8

-- `flags` and `cap_offset` are those of the region.
unfoldable pub parse_region_caps : ℕ → ℕ → ℕ → Memory → ℕ → Attempt (List MmapArea)
unfolding parse_caps_from
parse_region_caps fuel flags cap_offset buf size =
    if bit_and flags flag_caps == 0 then done [] else parse_caps_from fuel buf size cap_offset
