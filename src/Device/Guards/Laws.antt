-- ===== src/Device/Guards/Laws.antt =====
-- What the guards leave behind in the device.
use advcpp.Prelude.{ℕ, ◌+◌, ◌≤◌, ◌≡◌, refl, ap, ◌∷◌, arith, size_max, true, false, ok}
use advcpp.Mmio.{MappedRegion, History, stored}
use advcpp.Mmio.Range.{write16-in, write8-in}
use advcpp.Device.Registers.{at}
use advcpp.Device.Guards.{
  QueueSelectionGuard, guard_selection, select, restore, leave_selection, guard_reset, disarm,
  leave_reset,
}

module _ (m : MappedRegion) (delta : ℕ) (room : delta + 64 ≤ m.size)
    (fits : m.size ≤ size_max) where
  abbrev pub select_at : ℕ
  select_at = at delta 22

  pub select-run :
      (guard : QueueSelectionGuard) (queue : ℕ) (h : History)
      → select m delta guard queue h
        ≡ (ok (record guard { changed = true }), stored 2 select_at queue ∷ h)
  unfolding select
  select-run guard queue h = rw (write16-in m select_at h queue (omega arith)) refl

  abbrev used_guard : ℕ → QueueSelectionGuard
  used_guard original = record { original_select = original; changed = true }

  restore-run :
      (original : ℕ) (h : History)
      → restore m delta (used_guard original) h ≡ (
        ok (record { original_select = original; changed = false }),
        stored 2 select_at original ∷ h,
      )
  unfolding restore
  restore-run original h = rw (write16-in m select_at h original (omega arith)) refl

  -- A scope that selected a queue through a guard made with the value `original` leaves the
  -- selector at `original` by the destructor's store, one that selected none stores nothing, and
  -- after an explicit `restore`, which makes the same store, the destructor stores nothing more.
  leave_selection-restores :
      (original queue : ℕ) (h : History)
      → (leave_selection m delta (guard_selection original) h ≡ h)
        × ((guard : QueueSelectionGuard) × (g : History) × (select m delta
                (guard_selection original)
                queue
                h
              ≡ (ok guard, g))
            × (leave_selection m delta guard g ≡ stored 2 select_at original ∷ g)
            × ((restored : QueueSelectionGuard) × (f : History) × (restore m delta guard g
                  ≡ (ok restored, f))
                × (leave_selection m delta restored f ≡ stored 2 select_at original ∷ g)))
  unfolding leave_selection guard_selection
  leave_selection-restores original queue h =
      let g = stored 2 select_at queue ∷ h in
      let run = restore-run original g in
      (
        unfold restore in refl,
        (
          used_guard original,
          g,
          select-run (guard_selection original) queue h,
          ap (λ r. r.1) run,
          (record { original_select = original; changed = false }, _, run, unfold restore in refl),
        ),
      )

  -- A scope that is left with its reset guard armed resets the device; one that disarmed the guard
  -- leaves the device alone.
  pub leave_reset-armed :
      (h : History)
      → (leave_reset m delta guard_reset h ≡ stored 1 (at delta 20) 0 ∷ h)
        × (leave_reset m delta (disarm guard_reset) h ≡ h)
  unfolding leave_reset guard_reset disarm
  leave_reset-armed h = (rw (write8-in m (at delta 20) h 0 (omega arith)) refl, refl)
