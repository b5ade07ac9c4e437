-- ===== src/Command/Tests.antt =====
-- A command word without the bit for bus mastering.
use advcpp.Prelude.{arith, ℕ, false, ◌≡◌, refl, bit_and, ok, err, if◌then◌else◌, ◌==◌}
use advcpp.Prelude.{bus_master_lost}
use advcpp.Command.{
  CommandWord, PciCommandGuard, guard_command, enable_bus_mastering, leave_command,
}
use advcpp.Command.Restored.{
  holding_word, enable_bus_mastering-kept, IsRegister, IsEnabled, enable_bus_mastering-restored,
}

abbrev held : ℕ → ℕ
held v = bit_and v 3

abbrev word : CommandWord ℕ
word = record { read = λ st. ok st; write = λ v st. (held v, ok tt) }

abbrev fresh : PciCommandGuard
fresh = record { original = 1; current = 1; restored = false }

word-IsRegister : IsRegister word (λ st. st) held
word-IsRegister = record { reads = λ st. refl; writes = λ v st. refl; holds = λ v st. refl }

refused :
    (enable_bus_mastering word fresh 1 ≡ (record fresh { current = 3 }, 3, err bus_master_lost))
    × (leave_command word (record fresh { current = 3 }) 3 ≡ 1)
unfolding enable_bus_mastering leave_command
refused = (refl, refl)

guarded : guard_command word 1 ≡ ok fresh
unfolding guard_command
guarded = refl

enable_bus_mastering-restored_example :
    let after = enable_bus_mastering word fresh 1 in
    (leave_command word after.0 after.1 ≡ 1)
    × (after.2 ≡ ok tt → IsEnabled word (λ st. st) held after.1)
enable_bus_mastering-restored_example =
    enable_bus_mastering-restored word (λ st. st) held word-IsRegister 1 guarded refl

-- A word that cannot be read after it was written.
abbrev lost_word : CommandWord ℕ
lost_word = record {
  read = λ st. if st == 1 then ok 1 else err bus_master_lost;
  write = λ v st. (v, ok tt);
}

lost_guarded : guard_command lost_word 1 ≡ ok (holding_word 1)
unfolding guard_command
lost_guarded = refl

enable_bus_mastering-kept_example :
    let after = enable_bus_mastering lost_word (holding_word 1) 1 in
    (after.2 ≡ err bus_master_lost) × (leave_command lost_word after.0 after.1 ≡ 7)
enable_bus_mastering-kept_example =
    enable_bus_mastering-kept lost_word 1 1 bus_master_lost lost_guarded (λ e. ground arith) refl
      refl
