-- ===== src/Irq/Queues/Laws.antt =====
-- How the start of a queue with a vector ends, whatever the device answers.
use advcpp.Prelude.{ℕ, ◌≡◌, ◌≢◌, List, ◌∷◌, ◌++◌, ok, err, Result}
use advcpp.Prelude.{queue_already_enabled, queue_enable_lost, msix_vector_lost}
use advcpp.Mmio.{History, Access, stored}
use advcpp.Mmio.Traces.{loads_at}
use advcpp.Vring.{VringLayout}
use advcpp.Device.Registers.{at}
use advcpp.Device.Guards.{QueueSelectionGuard}
use advcpp.Device.Queues.{QueueView}
use advcpp.Device.Queues.Laws.{stores, addresses}

-- What is stored up to the vector, and up to the enable bit.
abbrev pub vector_stored : ℕ → ℕ → ℕ → List Access → List Access
vector_stored delta queue vector old =
    stored 2 (at delta 26) vector ∷ stored 2 (at delta 22) queue ∷ old

abbrev pub enable_stored : ℕ → ℕ → VringLayout → ℕ → ℕ → List Access → List Access
enable_stored delta queue layout iova vector old =
    stored 2 (at delta 28) 1 ∷ addresses delta layout iova ++ vector_stored delta queue vector old

-- The view behind the store of the vector has read it back; two more are read later.
abbrev pub TookVector : ℕ → ℕ → History → History → Type 0
TookVector delta vector h g =
    (last between old_vector : ℕ) × (loads_at (at delta 26) g
      ≡ last ∷ between ∷ vector ∷ old_vector ∷ loads_at (at delta 26) h)

-- How a queue is started. The loads of the enable register, at 28, and of the vector's, at 26, say
-- what the device has answered in each view, the newest first.
pub data Started (delta queue : ℕ) (layout : VringLayout) (iova vector : ℕ) (h : History)
    : Result (QueueSelectionGuard × QueueView) → History → Type 0 where
  already_enabled :
      {g : History} (before : ℕ)
      → before ≢ 0
      → loads_at (at delta 28) g ≡ before ∷ loads_at (at delta 28) h
      → stores g ≡ stored 2 (at delta 22) queue ∷ stores h
      → Started delta queue layout iova vector h (err queue_already_enabled) g
  vector_not_taken :
      {g : History} (with_vector taken old_vector : ℕ)
      → taken ≢ vector
      → loads_at (at delta 28) g ≡ with_vector ∷ 0 ∷ loads_at (at delta 28) h
      → loads_at (at delta 26) g ≡ taken ∷ old_vector ∷ loads_at (at delta 26) h
      → stores g ≡ vector_stored delta queue vector (stores h)
      → Started delta queue layout iova vector h (err msix_vector_lost) g
  not_taken :
      {g : History} (after between with_vector : ℕ)
      → after ≢ 1
      → loads_at (at delta 28) g ≡ after ∷ between ∷ with_vector ∷ 0 ∷ loads_at (at delta 28) h
      → TookVector delta vector h g
      → stores g ≡ enable_stored delta queue layout iova vector (stores h)
      → Started delta queue layout iova vector h (err queue_enable_lost) g
  enabled :
      {g : History} {guard : QueueSelectionGuard} {view : QueueView} (between with_vector : ℕ)
      → loads_at (at delta 28) g ≡ 1 ∷ between ∷ with_vector ∷ 0 ∷ loads_at (at delta 28) h
      → TookVector delta vector h g
      → stores g ≡ enable_stored delta queue layout iova vector (stores h)
      → view.enable ≡ 1
      → Started delta queue layout iova vector h (ok (guard, view)) g
