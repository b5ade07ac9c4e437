-- ===== src/Device/Registers.antt =====
-- The common configuration registers of a virtio device: their offsets, those of
-- linux/virtio_pci.h, the status values of linux/virtio_config.h, and 64-bit accesses.
use advcpp.Prelude.{ℕ, ◌+◌, bit_and, bit_or, u32, u64, ◌<<◌, ◌>>>◌}
use advcpp.Mmio.{MappedRegion, Io, pure, ◌>>=◌, ◌>>◌, read32, write32}

abbrev pub common_dfselect : ℕ
common_dfselect = 0

abbrev pub common_df : ℕ
common_df = 4

abbrev pub common_gfselect : ℕ
common_gfselect = 8

abbrev pub common_gf : ℕ
common_gf = 12

abbrev pub common_status : ℕ
common_status = 20

abbrev pub common_q_select : ℕ
common_q_select = 22

abbrev pub common_q_size : ℕ
common_q_size = 24

abbrev pub common_q_msix : ℕ
common_q_msix = 26

abbrev pub common_q_enable : ℕ
common_q_enable = 28

abbrev pub common_q_noff : ℕ
common_q_noff = 30

abbrev pub common_q_desclo : ℕ
common_q_desclo = 32

abbrev pub common_q_deschi : ℕ
common_q_deschi = 36

abbrev pub common_q_availlo : ℕ
common_q_availlo = 40

abbrev pub common_q_availhi : ℕ
common_q_availhi = 44

abbrev pub common_q_usedlo : ℕ
common_q_usedlo = 48

abbrev pub common_q_usedhi : ℕ
common_q_usedhi = 52

abbrev pub common_q_ndata : ℕ
common_q_ndata = 56

abbrev pub s_acknowledge : ℕ
s_acknowledge = 1

abbrev pub s_driver : ℕ
s_driver = 2

abbrev pub s_driver_ok : ℕ
s_driver_ok = 4

abbrev pub s_features_ok : ℕ
s_features_ok = 8

-- `mapping_delta + offset` on `std::size_t`.
abbrev pub at : ℕ → ℕ → ℕ
at delta offset = u64 (delta + offset)

unfoldable pub read_common_u64 : MappedRegion → ℕ → ℕ → ℕ → Io ℕ
read_common_u64 m delta lo_offset hi_offset = do
  lo ← read32 m (at delta lo_offset)
  hi ← read32 m (at delta hi_offset)
  pure (bit_or lo (u64 (hi << 32)))

unfoldable pub write_common_u64 : MappedRegion → ℕ → ℕ → ℕ → ℕ → Io (Unit {0})
write_common_u64 m delta lo_offset hi_offset value = do
  write32 m (at delta lo_offset) (u32 (bit_and value 0xffff_ffff))
  write32 m (at delta hi_offset) (u32 (value >>> 32))
