-- ===== src/Irq.antt =====
-- The interrupts of userspace_drivers/26_virtio_net_irq_echo_loop.cpp: which vectors are bound to
-- which eventfds, how an eventfd is read, and how the queues and the loop use them. The answers of
-- the kernel are parameters. A descriptor of -1, which leaves a vector without an eventfd, is `none`.
pub mod Bound
pub mod Waiting
pub mod Queues
pub mod Request
pub mod Loop
mod Tests
use advcpp.Prelude.{
  ℕ, zero, suc, ◌+◌, ◌-◌, ◌*◌, ◌/◌, min, max, Bool, true, false, ◌||◌, not, Option, none, some,
  List, [], ◌∷◌, set, replicate, bit_and, ltb, leb, ◌==◌, if◌then◌else◌, u32, u64, Error, Result,
  ok, err, ◌>>=◌, ◌>>◌, throw_if,
}
use advcpp.Prelude.{
  irq_index_outside, irq_without_eventfd, vector_outside, event_read_short, event_poll_failed,
  system_error,
}
use advcpp.Config.{Attempt, and_then}

-- The flags and the count of `vfio_irq_info`.
pub record IrqInfo : Type 0 where
  pub flags : ℕ
  pub count : ℕ

-- `VFIO_IRQ_INFO_EVENTFD` and `VFIO_IRQ_INFO_NORESIZE`.
abbrev pub irq_info_eventfd : ℕ
irq_info_eventfd = 1

abbrev pub irq_info_noresize : ℕ
irq_info_noresize = 8

-- `num_irqs` and `get_irq_info` are what the kernel says of the device.
unfoldable pub validate_irq_vectors : ℕ → (ℕ → Result IrqInfo) → ℕ → ℕ → ℕ → Result IrqInfo
validate_irq_vectors num_irqs get_irq_info irq_index rx_vector tx_vector = do
  throw_if (leb num_irqs irq_index) irq_index_outside
  irq ← get_irq_info irq_index
  throw_if (bit_and irq.flags irq_info_eventfd == 0) irq_without_eventfd
  throw_if (leb irq.count rx_vector) vector_outside
  throw_if (leb irq.count tx_vector) vector_outside
  ok irq

-- An `IrqEventfdBinding`.
pub record Binding : Type 0 where
  pub vector : ℕ
  pub fd : ℕ

-- The second eventfd, where the queues do not share a vector.
unfoldable pub tx_binding : ℕ → ℕ → ℕ → Option Binding
tx_binding rx_vector tx_vector tx_fd =
    if tx_vector == rx_vector then none else some (record { vector = tx_vector; fd = tx_fd })

-- `std::min` and `std::max` over the vectors that are bound.
abbrev pub min_vector : Binding → Option Binding → ℕ
min_vector rx none = rx.vector
min_vector rx (some tx) = min rx.vector tx.vector

abbrev pub max_vector : Binding → Option Binding → ℕ
max_vector rx none = rx.vector
max_vector rx (some tx) = max rx.vector tx.vector

abbrev pub with_tx : ℕ → Option Binding → List (Option ℕ) → List (Option ℕ)
with_tx start none event_fds = event_fds
with_tx start (some tx) event_fds = set event_fds (tx.vector - start) (some tx.fd)

-- The start and the descriptors that `vfio_set_irq_eventfds` is called with.
unfoldable pub bind_irq_eventfds : IrqInfo → Binding → Option Binding → ℕ × List (Option ℕ)
bind_irq_eventfds irq rx tx =
    let fixed = not (bit_and irq.flags irq_info_noresize == 0) in
    let start = if fixed then 0 else min_vector rx tx in
    let count = if fixed then irq.count else u32 (max_vector rx tx - min_vector rx tx + 1) in
    let event_fds = set (replicate count none) (rx.vector - start) (some rx.fd) in
    (start, with_tx start tx event_fds)

-- The set-up of the interrupts in `run_irq_echo_loop`.
unfoldable pub set_up_irqs :
    ℕ → (ℕ → Result IrqInfo) → ℕ → ℕ → ℕ → ℕ → ℕ → Result (ℕ × List (Option ℕ))
unfolding validate_irq_vectors bind_irq_eventfds tx_binding
set_up_irqs num_irqs get_irq_info irq_index rx_vector tx_vector rx_fd tx_fd = do
  irq ← validate_irq_vectors num_irqs get_irq_info irq_index rx_vector tx_vector
  ok (
      bind_irq_eventfds irq (record { vector = rx_vector; fd = rx_fd })
        (tx_binding rx_vector tx_vector tx_fd))

-- What a `read` of an eventfd returns: `EAGAIN` where its counter is 0.
pub data EventRead : Type 0 where
  interrupted empty too_short : EventRead
  failed : ℕ → EventRead
  counted : ℕ → EventRead

-- The loop of `drain`, after `calls` reads.
unfoldable pub drain_loop : (ℕ → EventRead) → ℕ → ℕ → ℕ → Attempt ℕ
drain_loop read zero calls total = none
drain_loop read (suc fuel) calls total = elim (read calls) [
  | interrupted ↦ drain_loop read fuel (calls + 1) total
  | empty ↦ some (ok total)
  | too_short ↦ some (err event_read_short)
  | failed errno ↦ some (err (system_error errno))
  | counted count ↦ drain_loop read fuel (calls + 1) (u64 (total + count))
]

unfoldable pub drain : (ℕ → EventRead) → ℕ → Attempt ℕ
unfolding drain_loop
drain read fuel = drain_loop read fuel 0 0

abbrev pub int_max : ℕ
int_max = 2147483647

-- The milliseconds left, from times in nanoseconds.
unfoldable pub timeout_until : ℕ → ℕ → ℕ
timeout_until deadline now =
    if leb deadline now
    then 0
    else let remaining = (deadline - now) / 1_000_000 in
      if ltb int_max remaining then int_max else remaining

-- What `poll` returns: that no eventfd was ready in time, or that one was, and whether the events
-- of one of them are an error.
pub data Polled : Type 0 where
  poll_interrupted timed_out : Polled
  poll_failed : ℕ → Polled
  ready : Bool → Polled

-- The loop of `poll`, after `calls` calls.
unfoldable pub poll_loop : (ℕ → Polled) → ℕ → ℕ → Attempt Bool
poll_loop poll zero calls = none
poll_loop poll (suc fuel) calls = elim (poll calls) [
  | poll_interrupted ↦ poll_loop poll fuel (calls + 1)
  | poll_failed errno ↦ some (err (system_error errno))
  | timed_out ↦ some (ok false)
  | ready wrong ↦ some (if wrong then err event_poll_failed else ok true)
]

abbrev pub drain_tx_irq : Option (ℕ → EventRead) → ℕ → Attempt ℕ
drain_tx_irq none fuel = some (ok 0)
drain_tx_irq (some read) fuel = drain read fuel

unfoldable pub poll_irq_events :
    (ℕ → Polled) → (ℕ → EventRead) → Option (ℕ → EventRead) → ℕ → Attempt Bool
unfolding poll_loop drain
poll_irq_events poll rx_irq tx_irq fuel = and_then (poll_loop poll fuel 0) (λ woken.
    if woken
    then and_then (drain rx_irq fuel)
        (λ rx_count. and_then (drain_tx_irq tx_irq fuel) (λ tx_count. some (ok true)))
    else some (ok false))
