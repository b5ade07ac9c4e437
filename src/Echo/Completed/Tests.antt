-- ===== src/Echo/Completed/Tests.antt =====
-- Three slots in flight, of which the device reports the one with number 1.
use advcpp.Prelude.{◌≡◌, refl, true, false, ◌∷◌, [], map, ◌==◌, if◌then◌else◌}
use advcpp.Memory.{read_le, write_le}
use advcpp.Receive.{read_used_idx, used_delta, read_used_elem}
use advcpp.Echo.{TxSlot, Echo, Device, look, complete_slot, complete_slots, consume_tx_completions}
use advcpp.Echo.Completed.{reported, IsFreed, consume_tx_completions-frees}
use advcpp.Echo.Tests.{setup, all_taken}

abbrev completes_one : Device
completes_one n m = write_le 4 4180 1 (write_le 2 4178 1 m)

one_freed :
    map
      (λ (slot : TxSlot). slot.in_flight)
      (consume_tx_completions completes_one setup all_taken).tx_slots
    ≡ true ∷ false ∷ true ∷ []
unfolding consume_tx_completions complete_slots complete_slot read_used_idx used_delta
    read_used_elem read_le write_le
one_freed = refl

consume_tx_completions-frees_example :
    let m = completes_one 0 all_taken.memory in
    let current = read_used_idx m setup.tx_queue_base setup.layout.tx_vring in
    let count = used_delta 0 current in
    (freed : Echo) × IsFreed (reported setup m 0 0 count) (look completes_one all_taken) freed
    × (consume_tx_completions completes_one setup all_taken
        ≡ record freed { last_tx_used_idx = if count == 0 then 0 else current })
consume_tx_completions-frees_example = consume_tx_completions-frees completes_one setup all_taken
