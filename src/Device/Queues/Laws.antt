-- ===== src/Device/Queues/Laws.antt =====
-- How the start of a queue ends, whatever the device answers.
use advcpp.Prelude.{
  ℕ, ◌+◌, ◌≤◌, ◌≡◌, refl, ◌∙◌, ◌≢◌, List, [], ◌∷◌, ◌++◌, arith, size_max, ok, err, u64, u32,
  bit_and, bit_or, some, ◌<<◌, ◌>>>◌, ◌%◌, ◌/◌, ◌^◌, Result,
}
use advcpp.Bits.{bit_and-low}
use advcpp.Prelude.{queue_already_enabled, queue_enable_lost}
use advcpp.Mmio.{MappedRegion, History, Access, stored, loaded}
use advcpp.Mmio.Range.{read16-in, read32-in, write16-in, write32-in}
use advcpp.Mmio.Traces.{loads_at}
use advcpp.Vring.{VringLayout}
use advcpp.Device.Registers.{at, read_common_u64, write_common_u64}
use advcpp.Device.Guards.{QueueSelectionGuard}
use advcpp.Device.Queues.{QueueView, read_queue_view, program_queue_addresses, enable_queue}

-- The stores of a history, newest first.
abbrev pub stores : History → List Access
stores [] = []
stores (loaded w o v ∷ h) = stores h
stores (stored w o v ∷ h) = stored w o v ∷ stores h

-- The 64-bit register at `lo` and `hi`, the upper half last.
abbrev pub halves : ℕ → ℕ → ℕ → ℕ → List Access
halves delta lo hi v =
    stored 4 (at delta hi) (v / 2 ^ 32) ∷ stored 4 (at delta lo) (v % 2 ^ 32) ∷ []

-- The size and the three addresses of a queue.
abbrev pub addresses : ℕ → VringLayout → ℕ → List Access
addresses delta layout iova =
    halves delta 48 52 (u64 (iova + layout.used_offset))
    ++ halves delta 40 44 (u64 (iova + layout.avail_offset))
    ++ halves delta 32 36 (u64 (iova + layout.desc_offset))
    ++ stored 2 (at delta 24) layout.queue_size ∷ []

-- How a queue is started. The loads of the enable register, at 28, say what the device has answered:
-- the view before the queue is programmed, the one behind that, and the last one.
pub data Programmed (delta queue : ℕ) (layout : VringLayout) (iova : ℕ) (h : History)
    : Result (QueueSelectionGuard × QueueView) → History → Type 0 where
  already_enabled :
      {g : History} (before : ℕ)
      → before ≢ 0
      → loads_at (at delta 28) g ≡ before ∷ loads_at (at delta 28) h
      → stores g ≡ stored 2 (at delta 22) queue ∷ stores h
      → Programmed delta queue layout iova h (err queue_already_enabled) g
  not_taken :
      {g : History} (after between : ℕ)
      → after ≢ 1
      → loads_at (at delta 28) g ≡ after ∷ between ∷ 0 ∷ loads_at (at delta 28) h
      → stores g
        ≡ stored 2 (at delta 28) 1 ∷ addresses delta layout iova
          ++ stored 2 (at delta 22) queue ∷ stores h
      → Programmed delta queue layout iova h (err queue_enable_lost) g
  enabled :
      {g : History} {guard : QueueSelectionGuard} {view : QueueView} (between : ℕ)
      → loads_at (at delta 28) g ≡ 1 ∷ between ∷ 0 ∷ loads_at (at delta 28) h
      → stores g
        ≡ stored 2 (at delta 28) 1 ∷ addresses delta layout iova
          ++ stored 2 (at delta 22) queue ∷ stores h
      → view.enable ≡ 1
      → Programmed delta queue layout iova h (ok (guard, view)) g

module _ (m : MappedRegion) (delta : ℕ) (room : delta + 64 ≤ m.size)
    (fits : m.size ≤ size_max) where
  read_common_u64-run :
      (lo hi : ℕ) (h : History)
      → lo ≤ 60
      → hi ≤ 60
      → (v : ℕ) × (g : History) × (read_common_u64 m delta lo hi h ≡ (ok v, g))
        × (stores g ≡ stores h)
        × ((o : ℕ) → o ≢ at delta lo → o ≢ at delta hi → loads_at o g ≡ loads_at o h)
  unfolding read_common_u64
  read_common_u64-run lo hi h hlo hhi =
      let low = m.device h 4 (at delta lo) % 2 ^ 32 in
      let h1 = loaded 4 (at delta lo) low ∷ h in
      let high = m.device h1 4 (at delta hi) % 2 ^ 32 in
      (
        bit_or low (u64 (high << 32)),
        loaded 4 (at delta hi) high ∷ h1,
        rw (read32-in m (at delta lo) h (omega arith), read32-in m (at delta hi) h1 (omega arith))
            refl,
        refl,
        λ o not_lo not_hi. ground arith,
      )

  write_common_u64-run :
      (lo hi v : ℕ) (h : History)
      → lo ≤ 60
      → hi ≤ 60
      → v ≤ size_max
      → write_common_u64 m delta lo hi v h ≡ (ok tt, halves delta lo hi v ++ h)
  unfolding write_common_u64
  write_common_u64-run lo hi v h hlo hhi hv =
      let low : u32 (bit_and v 0xffff_ffff) ≡ v % 2 ^ 32 = omega (arith, bit_and-low 32 v) in
      let high : u32 (v >>> 32) ≡ v / 2 ^ 32 = omega arith in
      rw
        (
          low,
          high,
          write32-in m (at delta lo) h (v % 2 ^ 32) (omega arith),
          write32-in m (at delta hi) (stored 4 (at delta lo) (v % 2 ^ 32) ∷ h) (v / 2 ^ 32)
              (omega arith),
        )
        refl

  -- What is known of a view that was read: it stores nothing, and its enable bit and its vector are
  -- those that the device has answered.
  pub record IsView (view : QueueView) (h g : History) : Type 0 where
    pub quiet : stores g ≡ stores h
    pub enable_at : loads_at (at delta 28) g ≡ view.enable ∷ loads_at (at delta 28) h
    pub vector_at : loads_at (at delta 26) g ≡ view.msix_vector ∷ loads_at (at delta 26) h

  pub read_queue_view-run :
      (h : History)
      → (view : QueueView) × (g : History) × (read_queue_view m delta h ≡ (ok view, g))
        × IsView view h g
  unfolding read_queue_view
  read_queue_view-run h =
      let load =
        λ (o : ℕ) (h : History). loaded 2 (at delta o) (m.device h 2 (at delta o) % 2 ^ 16) ∷ h in
      let h1 = load 22 h in
      let h2 = load 24 h1 in
      let h3 = load 26 h2 in
      let h4 = load 28 h3 in
      let h5 = load 30 h4 in
      let h6 = load 56 h5 in
      let (d, h7, desc, q7, k7) = read_common_u64-run 32 36 h6 (omega arith) (omega arith) in
      let (a, h8, avail, q8, k8) = read_common_u64-run 40 44 h7 (omega arith) (omega arith) in
      let (u, h9, used, q9, k9) = read_common_u64-run 48 52 h8 (omega arith) (omega arith) in
      let word = λ (o : ℕ) (h : History). m.device h 2 (at delta o) % 2 ^ 16 in
      (
        record {
          selected = word 22 h;
          size = word 24 h1;
          msix_vector = word 26 h2;
          enable = word 28 h3;
          notify_off = word 30 h4;
          notify_data = some (word 56 h5);
          desc = d;
          avail = a;
          used = u;
        },
        h9,
        rw
            (
              read16-in m (at delta 22) h (omega arith),
              read16-in m (at delta 24) h1 (omega arith),
              read16-in m (at delta 26) h2 (omega arith),
              read16-in m (at delta 28) h3 (omega arith),
              read16-in m (at delta 30) h4 (omega arith),
              read16-in m (at delta 56) h5 (omega arith),
              desc,
              avail,
              used,
            )
            refl,
        record {
          quiet = q9 ∙ q8 ∙ q7;
          enable_at =
              k9 (at delta 28) (omega arith) (omega arith)
              ∙ k8 (at delta 28) (omega arith) (omega arith)
              ∙ k7 (at delta 28) (omega arith) (omega arith)
              ∙ ground arith;
          vector_at =
              k9 (at delta 26) (omega arith) (omega arith)
              ∙ k8 (at delta 26) (omega arith) (omega arith)
              ∙ k7 (at delta 26) (omega arith) (omega arith)
              ∙ ground arith;
        },
      )

  pub program_queue_addresses-run :
      (layout : VringLayout) (iova : ℕ) (h : History)
      → program_queue_addresses m delta layout iova h ≡ (ok tt, addresses delta layout iova ++ h)
  unfolding program_queue_addresses
  program_queue_addresses-run layout iova h =
      let h1 = stored 2 (at delta 24) layout.queue_size ∷ h in
      let desc = u64 (iova + layout.desc_offset) in
      let avail = u64 (iova + layout.avail_offset) in
      let used = u64 (iova + layout.used_offset) in
      let h2 = halves delta 32 36 desc ++ h1 in
      let h3 = halves delta 40 44 avail ++ h2 in
      rw
        (
          write16-in m (at delta 24) h layout.queue_size (omega arith),
          write_common_u64-run 32 36 desc h1 (omega arith) (omega arith) (omega arith),
          write_common_u64-run 40 44 avail h2 (omega arith) (omega arith) (omega arith),
          write_common_u64-run 48 52 used h3 (omega arith) (omega arith) (omega arith),
        )
        refl

  pub enable_queue-run :
      (h : History) → enable_queue m delta h ≡ (ok tt, stored 2 (at delta 28) 1 ∷ h)
  unfolding enable_queue
  enable_queue-run h = write16-in m (at delta 28) h 1 (omega arith)
