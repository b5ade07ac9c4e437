-- ===== src/Irq/Tests.antt =====
-- Vectors of an index whose number is fixed, and a queue that takes its vector.
use advcpp.Prelude.{
  ℕ, ◌≡◌, refl, false, Option, none, some, List, [], ◌∷◌, Result, ok, err, arith, ◌==◌,
  if◌then◌else◌,
}
use advcpp.Prelude.{vector_outside}
use advcpp.Mmio.{MappedRegion, History, stored, loaded}
use advcpp.Device.Guards.{QueueSelectionGuard}
use advcpp.Irq.{IrqInfo, set_up_irqs, bind_irq_eventfds}
use advcpp.Memory.{write_le}
use advcpp.Irq.Request.{copy_fds, vfio_set_irq_eventfds, read_irq_set}
use advcpp.Irq.Request.Read.{vfio_set_irq_eventfds-read}
use advcpp.Irq.Bound.{IsBound, set_up_irqs-IsBound}

abbrev info : ℕ → Result IrqInfo
info index = ok (record { flags = 9; count = 4 })

abbrev bound : ℕ × List (Option ℕ)
bound = (0, some 12 ∷ none ∷ some 11 ∷ none ∷ [])

set_up : set_up_irqs 5 info 2 2 0 11 12 ≡ ok bound
unfolding set_up_irqs
set_up = refl

refused : set_up_irqs 5 info 2 2 4 11 12 ≡ err vector_outside
unfolding set_up_irqs
refused = refl

-- Where their number can change, only the range of the two is named.
resized :
    bind_irq_eventfds
      (record { flags = 1; count = 9 })
      (record { vector = 5; fd = 11 })
      (some (record { vector = 3; fd = 12 }))
    ≡ (3, some 12 ∷ none ∷ some 11 ∷ [])
unfolding bind_irq_eventfds
resized = refl

set_up_irqs-IsBound_example : (irq : IrqInfo) × (info 2 ≡ ok irq) × IsBound irq 2 0 11 12 bound
set_up_irqs-IsBound_example =
    set_up_irqs-IsBound 5 info 2 2 0 11 12 bound (omega arith) (omega arith) set_up

-- A device that keeps what was stored last in each register.
abbrev latest : ℕ → History → ℕ
latest o [] = 0
latest o (loaded w p v ∷ h) = latest o h
latest o (stored w p v ∷ h) = if p == o then v else latest o h

abbrev registers : MappedRegion
registers = record { size = 64; device = λ h width o. latest o h }

abbrev guard : QueueSelectionGuard
guard = record { original_select = 0; changed = false }

-- The eventfds 7 and 9 for the vectors 1 and 3, and none for that between them.
abbrev two_eventfds : List (Option ℕ)
two_eventfds = some 7 ∷ none ∷ some 9 ∷ []

-- The first bytes of each field.
request_bytes :
    let m = vfio_set_irq_eventfds 2 1 two_eventfds in
    (m 0 ≡ 32) × (m 4 ≡ 0x24) × (m 8 ≡ 2) × (m 12 ≡ 1) × (m 16 ≡ 3) × (m 20 ≡ 7) × (m 27 ≡ 255)
unfolding vfio_set_irq_eventfds copy_fds write_le
request_bytes = (refl, refl, refl, refl, refl, refl, refl)

vfio_set_irq_eventfds-read_example :
    read_irq_set (vfio_set_irq_eventfds 2 1 two_eventfds)
    ≡ record { argsz = 32; flags = 0x24; index = 2; start = 1; event_fds = two_eventfds }
vfio_set_irq_eventfds-read_example =
    vfio_set_irq_eventfds-read 2 1 two_eventfds (omega arith) (omega arith) (omega arith)
      (omega arith, (omega arith, tt))
