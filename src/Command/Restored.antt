-- ===== src/Command/Restored.antt =====
-- The command word after the scope is the one before it.
use advcpp.Prelude.{
  ℕ, ◌≡◌, ◌≢◌, subst, throw_if, ◌>>◌, bus_master_lost, memory_space_lost, refl, sym, ap, ◌∙◌, inl,
  inr, true, false, Error, err, bit_and, bit_or, ◌==◌, Result, ok, arith, Bool-cases, ==→eq,
}
use advcpp.Bits.{bit_and-bit, bit_or-bit}
use advcpp.Command.{
  command_memory, command_master, CommandWord, PciCommandGuard, Method, guard_command,
  rewrite_command, enable_bus_mastering, restore_command, leave_command,
}

-- The guard as its constructor leaves it.
abbrev pub holding_word : ℕ → PciCommandGuard
holding_word original = record { original = original; current = original; restored = false }

module _ {Store : Type 0} (command : CommandWord Store) (value : Store → ℕ) (kept : ℕ → ℕ) where
  -- A register that reads as what it holds, and holds of each write the bits that it has.
  pub record IsRegister : Type 0 where
    pub reads : (st : Store) → command.read st ≡ ok (value st)
    pub writes : (v : ℕ) (st : Store) → (command.write v st).1 ≡ ok tt
    pub holds : (v : ℕ) (st : Store) → value (command.write v st).0 ≡ kept v

  -- Both bits of the command word are set.
  abbrev pub IsEnabled : ℕ → Type 0
  IsEnabled word = (bit_and word command_memory ≢ 0) × (bit_and word command_master ≢ 0)

  module _ (register : IsRegister) where
    rewrite_command_lem :
        (g : PciCommandGuard) (v : ℕ) (st : Store)
        (use_it : ℕ → PciCommandGuard × Result (Unit {0}))
        → rewrite_command command g v st use_it
          ≡ ((use_it (kept v)).0, (command.write v st).0, (use_it (kept v)).1)
    rewrite_command_lem g v st use_it =
        let st' = (command.write v st).0 in
        let now : command.read st' ≡ ok (kept v) =
          register.reads st' ∙ ap ok (register.holds v st) in
        rw (register.writes v st, rewrite_command, now) refl

    -- What the wish has.
    wanted-IsEnabled : (w : ℕ) → IsEnabled (bit_or (bit_or w command_memory) command_master)
    wanted-IsEnabled w =
        let with_memory = bit_or w command_memory in
        let wanted = bit_or with_memory command_master in
        (
          omega (arith, bit_and-bit 1 wanted, bit_or-bit 2 1 with_memory, bit_or-bit 1 1 w),
          omega (arith, bit_and-bit 2 wanted, bit_or-bit 2 2 with_memory),
        )

    abbrev holding : ℕ → ℕ → PciCommandGuard
    holding original current = record { original = original; current = current; restored = false }

    leave_command_lem :
        (original current : ℕ) (st : Store)
        → value st ≡ current
        → kept original ≡ original
        → value (leave_command command (holding original current) st) ≡ original
    unfolding leave_command
    leave_command_lem original current st same writable = elim (Bool-cases (current == original)) [
      | inl e ↦ rw (leave_command, e) (same ∙ ==→eq current original e)
      | inr e ↦
          let called =
            rewrite_command_lem (holding original current) original st
              (λ now. (record { original = original; current = now; restored = true }, ok tt)) in
          rw (leave_command, e)
            (ap (λ (m : Method Store). value m.1) called ∙ register.holds original st ∙ writable)
    ]

    abbrev wanted : Store → ℕ
    wanted st = bit_or (bit_or (value st) command_memory) command_master

    -- What is known after the method.
    abbrev IsScope : Store → Method Store → Type 0
    IsScope st (g, st', r) =
        (value (leave_command command g st') ≡ value st) × (r ≡ ok tt → IsEnabled (value st'))

    checked :
        (now : ℕ)
        → (do
          throw_if (bit_and now command_master == 0) bus_master_lost
          throw_if (bit_and now command_memory == 0) memory_space_lost
          ok (tt {0}))
          ≡ ok (tt {0})
        → IsEnabled now
    checked now h = ground arith

    enable_bus_mastering-IsScope :
        (st : Store)
        → kept (value st) ≡ value st
        → IsScope st (enable_bus_mastering command (holding (value st) (value st)) st)
    unfolding enable_bus_mastering
    enable_bus_mastering-IsScope st writable = elim (Bool-cases (wanted st == value st)) [
      | inl already ↦
          rw (already, enable_bus_mastering)
            (
              leave_command_lem (value st) (value st) st refl writable,
              λ h.
                  subst IsEnabled (==→eq (wanted st) (value st) already)
                    (wanted-IsEnabled (value st)),
            )
      | inr change ↦
          let st' = (command.write (wanted st) st).0 in
          let now = kept (wanted st) in
          rw
            (
              change,
              enable_bus_mastering,
              rewrite_command_lem (holding (value st) (value st)) (wanted st) st,
            )
            (
              leave_command_lem (value st) now st' (register.holds (wanted st) st) writable,
              λ h. subst IsEnabled (sym (register.holds (wanted st) st)) (checked now h),
            )
    ]

    -- Where no read and no write of the configuration space throws, the command word after
    -- `enable_bus_mastering` and the guard's destructor is the one before the scope, also where the
    -- device did not keep a bit and the method has thrown: the word must be one that the register
    -- holds. Without an exception, inside the scope both bits are set.
    pub enable_bus_mastering-restored :
        (st : Store) {g : PciCommandGuard}
        → guard_command command st ≡ ok g
        → kept (value st) ≡ value st
        → let after = enable_bus_mastering command g st in
          (value (leave_command command after.0 after.1) ≡ value st)
          × (after.2 ≡ ok tt → IsEnabled (value after.1))
    unfolding guard_command
    enable_bus_mastering-restored st {g} h writable =
        let made : guard_command command st ≡ ok (holding (value st) (value st)) =
          rw (register.reads st, guard_command) refl in
        let first : holding (value st) (value st) ≡ g = cc in
        subst (λ (g' : PciCommandGuard). IsScope st (enable_bus_mastering command g' st)) first
          (enable_bus_mastering-IsScope st writable)

module _ {Store : Type 0} (command : CommandWord Store) where
  -- Where the write of `enable_bus_mastering` succeeds and the read back throws, the exception is
  -- passed on and the guard does not know of the write: its destructor leaves the configuration
  -- space as the write has left it, without giving the command word back.
  pub enable_bus_mastering-kept :
      (st : Store) (original : ℕ) (e : Error)
      → let wanted = bit_or (bit_or original command_memory) command_master in
        let g = holding_word original in
        let st' = (command.write wanted st).0 in
        guard_command command st ≡ ok g
        → wanted ≢ original
        → (command.write wanted st).1 ≡ ok tt
        → command.read st' ≡ err e
        → let after = enable_bus_mastering command g st in
          (after.2 ≡ err e) × (leave_command command after.0 after.1 ≡ st')
  unfolding enable_bus_mastering leave_command restore_command
  enable_bus_mastering-kept st original e made changes written lost =
      let wanted = bit_or (bit_or original command_memory) command_master in
      let differs : wanted == original ≡ false = ground arith in
      let same : original == original ≡ true = ground arith in
      let called : rewrite_command command (holding_word original) wanted st (λ now. (
        record { original = original; current = now; restored = false },
        do
          throw_if (bit_and now command_master == 0) bus_master_lost
          throw_if (bit_and now command_memory == 0) memory_space_lost
          ok (tt {0}),
      ))
          ≡ (holding_word original, (command.write wanted st).0, err e) =
        rw (written, rewrite_command, lost) refl in
      rw (differs, enable_bus_mastering, called) (refl, rw (same, leave_command) refl)
