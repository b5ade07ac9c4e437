-- ===== src/Device/Guards.antt =====
-- The guards that put a device register back when a scope is left, also by an exception.
pub mod Laws
use advcpp.Prelude.{ℕ, Bool, true, false, if◌then◌else◌}
use advcpp.Mmio.{MappedRegion, History, Io, pure, ◌>>=◌, ◌>>◌, throw_if, write8, write16}
use advcpp.Device.Registers.{at, common_q_select, common_status}

pub record QueueSelectionGuard : Type 0 where
  pub original_select : ℕ
  pub changed : Bool

pub guard_selection : ℕ → QueueSelectionGuard
guard_selection original = record { original_select = original; changed = false }

-- `changed_ = true` stands behind the store, so a store that throws leaves it as it was.
pub select : MappedRegion → ℕ → QueueSelectionGuard → ℕ → Io QueueSelectionGuard
select m delta guard queue = do
  write16 m (at delta common_q_select) queue
  pure (record guard { changed = true })

pub restore : MappedRegion → ℕ → QueueSelectionGuard → Io QueueSelectionGuard
restore m delta guard =
    if guard.changed
    then (write16 m (at delta common_q_select) guard.original_select
        >> pure (record guard { changed = false }))
    else pure guard

-- The destructor: `restore` with every exception caught.
pub leave_selection : MappedRegion → ℕ → QueueSelectionGuard → History → History
leave_selection m delta guard h = (restore m delta guard h).1

pub record DeviceResetGuard : Type 0 where
  pub active : Bool

pub guard_reset : DeviceResetGuard
guard_reset = record { active = true }

pub disarm : DeviceResetGuard → DeviceResetGuard
disarm guard = record guard { active = false }

-- The destructor: `reset_noexcept`.
pub leave_reset : MappedRegion → ℕ → DeviceResetGuard → History → History
leave_reset m delta guard h = if guard.active then (write8 m (at delta common_status) 0 h).1 else h
