-- ===== src/Lib.antt =====
-- The virtio-net driver of userspace_drivers/virtio_net_vfio.hpp and the device access of
-- userspace_drivers/vfio_utils.hpp, the two headers that the samples under userspace_drivers/ share,
-- the echo loop of userspace_drivers/25_virtio_net_echo_loop.cpp, that of
-- userspace_drivers/26_virtio_net_irq_echo_loop.cpp, which waits for interrupts, the copy of
-- io_uring/05_pipeline_copy.cpp, the file server of io_uring/13_file_server.cpp, and the echo
-- servers of io_uring/10_provided_buffers.cpp and io_uring/15_graceful_shutdown.cpp.
--
-- A sample maps the device's common configuration, negotiates features, lays the queues and buffers
-- out in one DMA buffer, writes descriptors there, programs and enables the queues, notifies the
-- device and waits for entries of the used ring. The modules follow these parts:
--
-- - Prelude: the shared names; Prelude/Outcome has the exceptions, one `Error` for each kind of
--   `throw`, and `Result`. Bits: laws of `bit_and` and `bit_or`.
-- - Sizes: `is_power_of_two`, `align_up`, `round_up_to_page`, `checked_add`, `checked_mul`. A
--   `std::size_t` has 64 bits; the page size that `sysconf` reports is an argument.
-- - Vring: `VringLayout`, `compute_vring_layout` and `choose_queue_size`.
-- - Dma: the three overloads of `compute_dma_layout`; Dma/Control has `compute_ctrlq_dma_layout` and
--   `mac_table_control_data_size`.
-- - Features: `feature_is_set`, `set_feature` and the choices of features.
-- - Mmio: `MappedRegion`. The device behind a mapping is a parameter: it answers each load as a
--   function of all accesses before. A run returns a result and the history of accesses, which is
--   kept when an exception leaves the code.
-- - Device: `reset_device`, the reading and writing of feature words and the negotiations;
--   Device/Registers has the 64-bit registers, Device/Queues the registers of a queue up to
--   `program_and_enable_queue`, Device/Guards `QueueSelectionGuard` and `DeviceResetGuard`,
--   Device/NetConfig `read_virtio_net_config`.
-- - Memory: the DMA buffer as bytes at offsets, and the stores and fences of the code in order.
-- - Ring: where a queue's parts stand, `publish_rx_buffers`, `recycle_rx_buffer` and both overloads
--   of `publish_tx_packet`.
-- - Receive: `used_delta`, `read_rx_used_packet` and `wait_for_matching_rx_packet`.
-- - Packet: `build_tx_packet`, `build_tx_reply_from_rx` and the sizes and words of frames.
-- - Region: `MmapArea::contains`, the searches for capabilities and the windows that
--   `map_common_cfg`, `map_device_cfg` and `map_notify_window` map.
-- - Config: `pread_exact`, `pwrite_exact` and the words of the configuration space. The fuel is the
--   number of calls: one for each byte is enough, and one for each interruption.
-- - Capabilities: `read_virtio_caps`, whose loop has 64 hops, and `parse_region_caps`, whose loop has
--   fuel: more rounds than the chain has capabilities are enough, and a chain that leads back is
--   followed for ever. Capabilities/Info has the two calls of `get_region_info`.
-- - Command: `PciCommandGuard`, on an interface of the command word's reads and writes.
-- - Arguments: `parse_mac`, `parse_hex_bytes`, `mac_string` and the parsing of numbers. Texts are
--   lists of character codes; `std::stoull` is a parameter.
-- - Echo: `consume_tx_completions`, `find_free_tx_slot` and the loop of `run_echo_loop`, which uses
--   Dma, Ring, Receive and Packet. The device is a function of the DMA memory that acts whenever a
--   used index is read, and the clock is the number of its readings before the deadline, so only
--   the outer loop has fuel: one round more than readings is enough.
-- - Pipeline: the copy through two buffers. What an operation moves and the order of completions are
--   parameters; the fuel is the number of completions.
-- - Server: the coroutines of the echo server as the operation that each waits for, and a step
--   relation with one completion for each step. It counts the free entries of the submission queue,
--   whose `get_sqe` throws where none is left: the program then ends.
-- - Control: the commands through the control queue.
-- - Irq: `validate_irq_vectors`, `bind_irq_eventfds`, `timeout_until`, the draining and the polling of
--   eventfds; Irq/Queues has `program_and_enable_queue_with_msix`, Irq/Request the bytes of
--   `vfio_set_irq_eventfds` and `vfio_disable_irq_index`, and Irq/Loop the loop of
--   `run_irq_echo_loop`, which shares the variables and the answering of Echo. How long a wait may be
--   and what it finds are parameters; the fuel is the number of readings of each clock.
-- - Vfio: `open_vfio_context` and the descriptors that it opens and closes. The kernel answers each
--   call as a function of the calls before.
-- - FileServer: `parse_path`, `make_response_header` and `client_handler`. What each operation of the
--   kernel gives is a function of how many were awaited before; the fuel of a loop that sends is the
--   length of its text and that of the loop over the file its size, since each round moves a byte.
-- - Pool: the echo server that takes its buffers from a pool shared with the kernel: the free
--   buffers, the clients and the events in flight, and a step relation with one completion for each
--   step, in which the kernel takes and fills a free buffer. That `get_sqe` throws where the
--   submission queue is full, which ends the program, has no step here.
--
-- Loops are recursive on what is left to do. `wait_for_status` and `wait_for_matching_rx_packet`
-- end at a deadline: the number of rounds that the clock allows is an argument, the statements hold
-- for each, and the last round ends as the code does when the deadline is past. Pointers are offsets
-- in the DMA buffer; addresses that the device is given are sums in 64 bits.
--
-- The bit and register numbers of linux/virtio_config.h and linux/virtio_pci.h are those of the
-- virtio standard. `std::copy` and `std::memset` are copies of bytes. Not modelled:
-- printing, the parsing of options, the reading of sysfs, the moves of `UniqueFd`, the memory order of
-- the fences beyond the order of effects, what the device changes between two looks at a used index,
-- the order in which the guards of `run_echo_loop` are destroyed, and the other samples.
pub mod Prelude
pub mod Bits
pub mod Sizes
pub mod Vring
pub mod Dma
pub mod Features
pub mod Mmio
pub mod Device
pub mod Memory
pub mod Ring
pub mod Packet
pub mod Receive
pub mod Control
pub mod Region
pub mod Config
pub mod Capabilities
pub mod Command
pub mod Arguments
pub mod Pipeline
pub mod Echo
pub mod Server
pub mod FileServer
pub mod Pool
pub mod Irq
pub mod Vfio
