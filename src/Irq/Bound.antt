-- ===== src/Irq/Bound.antt =====
-- The vectors that the set-up binds.
use advcpp.Prelude.{
  ℕ, zero, suc, ◌+◌, ◌-◌, ◌≤◌, ◌<◌, ◌≡◌, ◌≢◌, refl, ◌∙◌, inl, inr, min, max, Option, none, some,
  List, length, length-set, length-replicate, get_or, get_or-set, set, replicate, bit_and, ◌==◌,
  if◌then◌else◌, u32, u16_max, Result, ok, Result-cases, >>=-eq-ok, subst, Bool-cases, ==→eq, arith,
}
use advcpp.Irq.{
  IrqInfo, irq_info_noresize, validate_irq_vectors, Binding, tx_binding, bind_irq_eventfds, with_tx,
  min_vector, max_vector, set_up_irqs,
}

abbrev no_fds : ℕ → List (Option ℕ)
no_fds n = replicate n none

get_or-no_fds : (n i : ℕ) → get_or (no_fds n) i none ≡ none
get_or-no_fds zero i = refl
get_or-no_fds (suc n) zero = refl
get_or-no_fds (suc n) (suc i) = get_or-no_fds n i

-- The one call that the kernel is asked for: it stays inside the vectors of the index, or names all
-- of them where they are fixed, and binds exactly the two vectors to their eventfds, the transmit
-- queue's to that of the receive queue where both use the same.
pub record IsBound (irq : IrqInfo) (rx_vector tx_vector rx_fd tx_fd : ℕ)
    (bound : ℕ × List (Option ℕ)) : Type 0 where
  pub inside : bound.0 + length bound.1 ≤ irq.count
  pub fixed : bit_and irq.flags irq_info_noresize ≢ 0 → (bound.0 ≡ 0) × (length bound.1 ≡ irq.count)
  pub rx_inside : (bound.0 ≤ rx_vector) × (rx_vector < bound.0 + length bound.1)
  pub tx_inside : (bound.0 ≤ tx_vector) × (tx_vector < bound.0 + length bound.1)
  pub bound_to :
      (v : ℕ)
      → get_or bound.1 v none ≡ (
          if bound.0 + v == rx_vector
          then some rx_fd
          else if bound.0 + v == tx_vector
          then some tx_fd
          else none)

module _ (rx_vector tx_vector rx_fd tx_fd : ℕ) where
  abbrev fds_from : ℕ → ℕ → List (Option ℕ)
  fds_from start count =
      with_tx start (tx_binding rx_vector tx_vector tx_fd)
        (set (no_fds count) (rx_vector - start) (some rx_fd))

  length-fds_from : (start count : ℕ) → length (fds_from start count) ≡ count
  unfolding tx_binding
  length-fds_from start count =
      let rx_set = length-set (no_fds count) (rx_vector - start) (some rx_fd) in
      let all = length-replicate {A = Option ℕ} count none in
      elim (Bool-cases (tx_vector == rx_vector)) [
        | inl shared ↦ rw shared (rx_set ∙ all)
        | inr apart ↦ rw apart (
            length-set (set (no_fds count) (rx_vector - start) (some rx_fd)) (tx_vector - start)
              (some tx_fd)
            ∙ rx_set
            ∙ all)
      ]

  fds_from-bound_to :
      (start count v : ℕ)
      → start ≤ rx_vector
      → rx_vector < start + count
      → start ≤ tx_vector
      → tx_vector < start + count
      → get_or (fds_from start count) v none ≡ (
          if start + v == rx_vector
          then some rx_fd
          else if start + v == tx_vector
          then some tx_fd
          else none)
  unfolding tx_binding
  fds_from-bound_to start count v rx_from rx_to tx_from tx_to =
      let rx_set = set (no_fds count) (rx_vector - start) (some rx_fd) in
      let all = length-replicate {A = Option ℕ} count none in
      let rx_length = length-set (no_fds count) (rx_vector - start) (some rx_fd) in
      let at_rx =
        get_or-set (no_fds count) (rx_vector - start) v (some rx_fd) none (omega (arith, all)) in
      let at_tx =
        get_or-set rx_set (tx_vector - start) v (some tx_fd) none (omega (arith, all, rx_length)) in
      ground (arith, at_rx, at_tx, get_or-no_fds count v)

  placed :
      (irq : IrqInfo) (start count : ℕ)
      → start + count ≤ irq.count
      → (bit_and irq.flags irq_info_noresize ≢ 0 → (start ≡ 0) × (count ≡ irq.count))
      → start ≤ rx_vector
      → rx_vector < start + count
      → start ≤ tx_vector
      → tx_vector < start + count
      → IsBound irq rx_vector tx_vector rx_fd tx_fd (start, fds_from start count)
  placed irq start count inside fixed rx_from rx_to tx_from tx_to =
      let all = length-fds_from start count in
      record {
        inside = omega (arith, all);
        fixed = λ h. ((fixed h).0, all ∙ (fixed h).1);
        rx_inside = (rx_from, omega (arith, all));
        tx_inside = (tx_from, omega (arith, all));
        bound_to = λ v. fds_from-bound_to start count v rx_from rx_to tx_from tx_to;
      }

  -- The range from the least to the greatest of the two vectors.
  vectors_range :
      let rx : Binding = record { vector = rx_vector; fd = rx_fd } in
      let tx = tx_binding rx_vector tx_vector tx_fd in
      (min_vector rx tx ≡ min rx_vector tx_vector) × (max_vector rx tx ≡ max rx_vector tx_vector)
  unfolding tx_binding
  vectors_range = elim (Bool-cases (tx_vector == rx_vector)) [
    | inl shared ↦
        let same = ==→eq tx_vector rx_vector shared in rw shared (omega arith, omega arith)
    | inr apart ↦ rw apart (refl, refl)
  ]

  bind_irq_eventfds-IsBound :
      (irq : IrqInfo)
      → rx_vector < irq.count
      → tx_vector < irq.count
      → rx_vector ≤ u16_max
      → tx_vector ≤ u16_max
      → IsBound irq rx_vector tx_vector rx_fd tx_fd (
          bind_irq_eventfds irq
            (record { vector = rx_vector; fd = rx_fd })
            (tx_binding rx_vector tx_vector tx_fd))
  unfolding bind_irq_eventfds
  bind_irq_eventfds-IsBound irq rx_in tx_in rx_fits tx_fits =
      let rx : Binding = record { vector = rx_vector; fd = rx_fd } in
      let tx = tx_binding rx_vector tx_vector tx_fd in
      elim (Bool-cases (bit_and irq.flags irq_info_noresize == 0)) [
        | inr fixed ↦ rw fixed (
            placed irq 0 irq.count (omega arith) (λ h. (refl, refl)) (omega arith) (omega arith)
              (omega arith) (omega arith))
        | inl free ↦
            let resizes = ==→eq (bit_and irq.flags irq_info_noresize) 0 free in
            let (low, high) = vectors_range in
            let count = max_vector rx tx - min_vector rx tx + 1 in
            let same : u32 count ≡ count = omega arith in
            rw (free, same)
              (placed irq (min_vector rx tx) count (omega arith) (λ h. absurd (h resizes))
                (omega arith) (omega arith) (omega arith) (omega arith))
      ]

validate_irq_vectors-valid :
    (num_irqs : ℕ) (get_irq_info : ℕ → Result IrqInfo) (irq_index rx_vector tx_vector : ℕ)
    (irq : IrqInfo)
    → validate_irq_vectors num_irqs get_irq_info irq_index rx_vector tx_vector ≡ ok irq
    → (get_irq_info irq_index ≡ ok irq) × (rx_vector < irq.count) × (tx_vector < irq.count)
unfolding validate_irq_vectors
validate_irq_vectors-valid num_irqs get_irq_info irq_index rx_vector tx_vector irq run =
    elim (Result-cases (get_irq_info irq_index)) [
      | inl (info, got) ↦
          let same : info ≡ irq = ground arith in
          subst
            (λ (i : IrqInfo).
              (get_irq_info irq_index ≡ ok i) × (rx_vector < i.count) × (tx_vector < i.count))
            (same) (got, ground arith, ground arith)
      | inr (e, thrown) ↦ absurd (ground arith)
    ]

-- Where the vectors are 16-bit numbers and the set-up throws nothing, its one call stays inside the
-- vectors of the index, names all of them where their number is fixed, and binds exactly the two
-- vectors to their eventfds, that of the transmit queue to the eventfd of the receive queue where
-- they are the same.
pub set_up_irqs-IsBound :
    (num_irqs : ℕ) (get_irq_info : ℕ → Result IrqInfo)
    (irq_index rx_vector tx_vector rx_fd tx_fd : ℕ) (bound : ℕ × List (Option ℕ))
    → rx_vector ≤ u16_max
    → tx_vector ≤ u16_max
    → set_up_irqs num_irqs get_irq_info irq_index rx_vector tx_vector rx_fd tx_fd ≡ ok bound
    → (irq : IrqInfo) × (get_irq_info irq_index ≡ ok irq)
      × IsBound irq rx_vector tx_vector rx_fd tx_fd bound
unfolding set_up_irqs
set_up_irqs-IsBound num_irqs get_irq_info irq_index rx_vector tx_vector rx_fd tx_fd bound rx_fits
      tx_fits run =
    let (irq, validated, bound_by) =
      >>=-eq-ok (validate_irq_vectors num_irqs get_irq_info irq_index rx_vector tx_vector)
        (λ irq. ok (
          bind_irq_eventfds irq (record { vector = rx_vector; fd = rx_fd })
            (tx_binding rx_vector tx_vector tx_fd)))
        run in
    let (got, rx_in, tx_in) =
      validate_irq_vectors-valid num_irqs get_irq_info irq_index rx_vector tx_vector irq
        validated in
    (
      irq,
      got,
      subst (IsBound irq rx_vector tx_vector rx_fd tx_fd) (cc) (
          bind_irq_eventfds-IsBound rx_vector tx_vector rx_fd tx_fd irq rx_in tx_in rx_fits
            tx_fits),
    )
