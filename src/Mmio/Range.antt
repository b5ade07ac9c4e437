-- ===== src/Mmio/Range.antt =====
-- The range check of a mapping, and what the accesses do on either side of it.
use advcpp.Prelude.{ℕ, ◌+◌, ◌%◌, ◌^◌, ◌≤◌, ◌≡◌, ◌↔◌, ◌∷◌, arith, ok}
use advcpp.Mmio.{
  MappedRegion, History, loaded, stored, check_range, read8, read16, read32, write8, write16,
  write32,
}

-- The check passes exactly for the accesses that end inside the mapping, however large the offset.
pub check_range_iff :
    (m : MappedRegion) (offset width : ℕ) (h : History)
    → (check_range m offset width h ≡ (ok tt, h)) ↔ (offset + width ≤ m.size)
unfolding check_range
check_range_iff m offset width h = (λ e. ground arith, λ e. ground arith)

module _ (m : MappedRegion) (offset : ℕ) (h : History) where
  pub read8-in :
      offset + 1 ≤ m.size
      → let v = m.device h 1 offset % 2 ^ 8 in read8 m offset h ≡ (ok v, loaded 1 offset v ∷ h)
  unfolding read8
  read8-in fits = ground arith

  pub read16-in :
      offset + 2 ≤ m.size
      → let v = m.device h 2 offset % 2 ^ 16 in read16 m offset h ≡ (ok v, loaded 2 offset v ∷ h)
  unfolding read16
  read16-in fits = ground arith

  pub read32-in :
      offset + 4 ≤ m.size
      → let v = m.device h 4 offset % 2 ^ 32 in read32 m offset h ≡ (ok v, loaded 4 offset v ∷ h)
  unfolding read32
  read32-in fits = ground arith

  pub write8-in :
      (v : ℕ) → offset + 1 ≤ m.size → write8 m offset v h ≡ (ok tt, stored 1 offset v ∷ h)
  unfolding write8
  write8-in v fits = ground arith

  pub write16-in :
      (v : ℕ) → offset + 2 ≤ m.size → write16 m offset v h ≡ (ok tt, stored 2 offset v ∷ h)
  unfolding write16
  write16-in v fits = ground arith

  pub write32-in :
      (v : ℕ) → offset + 4 ≤ m.size → write32 m offset v h ≡ (ok tt, stored 4 offset v ∷ h)
  unfolding write32
  write32-in v fits = ground arith
