-- ===== src/Command.antt =====
-- `PciCommandGuard` of userspace_drivers/virtio_net_vfio.hpp: a scope in which the device may master
-- the bus. The reads and writes of the command word through the configuration space are an
-- interface: what a write leaves behind, and either may throw.
pub mod Restored
mod Tests
use advcpp.Prelude.{
  ℕ, Bool, true, false, ◌||◌, bit_and, bit_or, ◌==◌, if◌then◌else◌, Result, ok, err, ◌>>=◌, ◌>>◌,
  throw_if,
}
use advcpp.Prelude.{bus_master_lost, memory_space_lost}

pub record CommandWord (Store : Type 0) : Type 0 where
  pub read : Store → Result ℕ
  pub write : ℕ → Store → Store × Result (Unit {0})

pub record PciCommandGuard : Type 0 where
  pub original : ℕ
  pub current : ℕ
  pub restored : Bool

abbrev pub command_memory : ℕ
command_memory = 2

abbrev pub command_master : ℕ
command_master = 4

-- The guard and the store after a method, and how it ended: what an exception leaves stays.
abbrev pub Method : Type 0 → Type 0
Method Store = PciCommandGuard × Store × Result (Unit {0})

module _ {Store : Type 0} (command : CommandWord Store) where
  unfoldable pub guard_command : Store → Result PciCommandGuard
  guard_command st = do
    original ← command.read st
    ok (record { original = original; current = original; restored = false })

  -- A write, the read back, and what is done with it.
  abbrev pub rewrite_command :
      PciCommandGuard → ℕ → Store → (ℕ → PciCommandGuard × Result (Unit {0})) → Method Store
  rewrite_command g value st use_it =
      let (st', written) = command.write value st in
      elim written [
        | err e ↦ (g, st', err e)
        | ok _ ↦ elim (command.read st') [
          | err e ↦ (g, st', err e)
          | ok now ↦ let (g', r) = use_it now in (g', st', r)
        ]
      ]

  unfoldable pub enable_bus_mastering : PciCommandGuard → Store → Method Store
  enable_bus_mastering g st =
      let wanted = bit_or (bit_or g.original command_memory) command_master in
      if wanted == g.current
      then (g, st, ok tt)
      else rewrite_command g wanted st (λ now. (
        record g { current = now },
        do
          throw_if (bit_and now command_master == 0) bus_master_lost
          throw_if (bit_and now command_memory == 0) memory_space_lost
          ok tt,
      ))

  unfoldable pub restore_command : PciCommandGuard → Store → Method Store
  restore_command g st =
      if g.restored || g.current == g.original
      then (record g { restored = true }, st, ok tt)
      else rewrite_command g g.original st
          (λ now. (record g { current = now; restored = true }, ok tt))

  -- The destructor, which swallows every exception.
  unfoldable pub leave_command : PciCommandGuard → Store → Store
  unfolding restore_command
  leave_command g st = (restore_command g st).1
