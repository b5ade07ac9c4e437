-- ===== src/Pipeline/Tests.antt =====
-- Files of a few bytes, and kernels that move all, part or nothing.
use advcpp.Prelude.{ℕ, ◌+◌, ◌*◌, ◌≡◌, refl, Bool, false, [], ◌∷◌}
use advcpp.Memory.{Memory}
use advcpp.Packet.{read_bytes, copy_bytes}
use advcpp.Pipeline.{
  moved, failed, threw, Kernel, start, submit_round, reaped, on_read, on_write, complete, run,
  is_running,
}
use advcpp.Pipeline.Copied.{Copied, run-start}
use advcpp.Pipeline.Safety.{Separate, run-start_any}

abbrev src : Memory
src = λ x. x + 7

abbrev empty : Memory
empty = λ x. 0

abbrev full : Kernel
full = λ k op. moved op.len

abbrev three : Kernel
three = λ k op. moved 3

abbrev broken : Kernel
broken = λ k op. failed 5

abbrev writes_first : ℕ → Bool
writes_first k = false

copied :
    read_bytes 6 0 (run 4 5 src full full writes_first 0 (start empty empty 5)).dst
    ≡ 7 ∷ 8 ∷ 9 ∷ 10 ∷ 11 ∷ 0 ∷ []
unfolding run complete on_read on_write reaped submit_round start read_bytes copy_bytes
copied = refl

write_error : (run 4 5 src full broken writes_first 0 (start empty empty 5)).status ≡ threw 5
unfolding run complete on_read on_write reaped submit_round start
write_error = refl

run-start_example :
    Copied src 70000
      (run (3 * 70000 + 1) 70000 src full full writes_first 0 (start empty empty 70000))
run-start_example =
    run-start src 70000 full full (λ k op h. refl) (λ k op. refl) writes_first empty empty

run-start_any_example :
    Separate (run 2 70000 src three broken writes_first 0 (start empty empty 70000))
    × (is_running
          (run
            (3 * 70000 + 3)
            70000
            src
            three
            broken
            writes_first
            0
            (start empty empty 70000)).status
        ≡ false)
run-start_any_example = run-start_any 70000 src three broken writes_first empty empty 2
