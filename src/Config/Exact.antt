-- ===== src/Config/Exact.antt =====
-- The loop of `pread_exact` ends, and what it returns is the part of the file that was asked for.
use advcpp.Prelude.{
  ℕ, zero, suc, ◌+◌, ◌-◌, ◌≤◌, ◌≡◌, ◌≢◌, refl, sym, ap, ◌∙◌, some, List, [], ◌∷◌, ◌++◌, length,
  arith, u64, size_max, Result, ok, err, Error, ltb,
}
use mathlib.Core.Path.{ap₂}
use advcpp.Memory.{Memory}
use advcpp.Packet.{read_bytes}
use advcpp.Packet.Bytes.{read_bytes-add}
use native.Mathlib.Decide.{dec_lt}
use advcpp.Prelude.{system_error, short_read, offset_too_large, ◌<◌, Bool-cases, inl, inr}
use advcpp.Config.{
  Answer, interrupted, failed, got, Pread, Attempt, and_then, read_loop, off_t_max, pread_exact,
}

-- A result is the exact part of the file, or an error.
pub data IsExact (file : Memory) (size offset : ℕ) : Result (List ℕ) → Type 0 where
  whole :
      {bytes : List ℕ} → bytes ≡ read_bytes size offset file → IsExact file size offset (ok bytes)
  broken : (e : Error) → IsExact file size offset (err e)

-- `pread` returns bytes of the file at the offset, at most as many as it was asked for.
abbrev pub Honest : Memory → Pread → Type 0
Honest file pread =
    (k n o : ℕ) (bytes : List ℕ)
    → pread k n o ≡ got bytes
    → (length bytes ≤ n) × (bytes ≡ read_bytes (length bytes) o file)

-- From call `j` on, no signal interrupts it.
abbrev pub Settles : ℕ → Pread → Type 0
Settles j pread = (k n o : ℕ) → j ≤ k → pread k n o ≢ interrupted

abbrev Ends : Memory → ℕ → ℕ → Attempt (List ℕ) → Type 0
Ends file size offset attempt =
    (r : Result (List ℕ)) × (attempt ≡ some r) × IsExact file size offset r

module _ (file : Memory) (pread : Pread) (j : ℕ) (honest : Honest file pread)
    (settles : Settles j pread) where
  -- The bytes of one call, in front of what the rest of the loop reads.
  prepended :
      (size offset : ℕ) (bytes : List ℕ) (attempt : Attempt (List ℕ))
      → length bytes ≤ size
      → bytes ≡ read_bytes (length bytes) offset file
      → Ends file (size - length bytes) (offset + length bytes) attempt
      → Ends file size offset (and_then attempt (λ rest. some (ok (bytes ++ rest))))
  prepended size offset bytes attempt fits same (err e, run, broken thrown) =
      (err e, rw run refl, broken e)
  prepended size offset bytes attempt fits same (ok rest, run, whole tail) =
      let n = length bytes in
      let sum : n + (size - n) ≡ size = omega arith in
      (
        ok (bytes ++ rest),
        rw run refl,
        whole (
            ap₂ ◌++◌ same tail
            ∙ sym (read_bytes-add n (size - n) offset file)
            ∙ ap (λ (t : ℕ). read_bytes t offset file) sum),
      )

  -- One call, given what the loop does with fuel `fuel`.
  abbrev LoopEnds : ℕ → Type 0
  LoopEnds fuel =
      (k left offset : ℕ)
      → (j - k) + left ≤ fuel
      → offset + left ≤ size_max
      → Ends file left offset (read_loop pread fuel k left offset)

  one_call :
      (fuel k left offset : ℕ) (a : Answer)
      → LoopEnds fuel
      → (j - k) + suc left ≤ suc fuel
      → offset + suc left ≤ size_max
      → pread k (suc left) offset ≡ a
      → Ends file (suc left) offset (read_loop pread (suc fuel) k (suc left) offset)
  unfolding read_loop
  one_call fuel k left offset interrupted again h room e =
      let early : k < j = elim (dec_lt k j) [
        | yes p ↦ p
        | no p ↦ absurd (settles k (suc left) offset (omega arith) e)
      ] in
      rw (e, read_loop) (again (k + 1) (suc left) offset (omega arith) room)
  one_call fuel k left offset (failed errno) again h room e =
      rw (e, read_loop) (err (system_error errno), refl, broken (system_error errno))
  one_call fuel k left offset (got []) again h room e =
      rw (e, read_loop) (err short_read, refl, broken short_read)
  one_call fuel k left offset (got (b ∷ bytes)) again h room e =
      let (fits, same) = honest k (suc left) offset (b ∷ bytes) e in
      let n = length (b ∷ bytes) in
      let next : u64 (offset + n) ≡ offset + n = omega arith in
      rw (e, read_loop, next)
        (prepended (suc left) offset (b ∷ bytes) _ fits same
          (again (k + 1) (suc left - n) (offset + n) (omega arith) (omega arith)))

  read_loop-Ends : (fuel : ℕ) → LoopEnds fuel
  unfolding read_loop read_bytes
  read_loop-Ends fuel k zero offset h room = (ok [], refl, whole refl)
  read_loop-Ends zero k (suc left) offset h room = absurd (omega arith)
  read_loop-Ends (suc fuel) k (suc left) offset h room =
      one_call fuel k left offset (pread k (suc left) offset)
        (λ k' left' offset' h' room'. read_loop-Ends fuel k' left' offset' h' room') h room refl

  -- `pread_exact` ends in as many calls as there are bytes and calls that may be interrupted, and it
  -- returns exactly the part of the file that was asked for, or an error.
  pub pread_exact-IsExact :
      (size offset : ℕ)
      → offset + size ≤ size_max
      → (r : Result (List ℕ)) × (pread_exact pread (j + size) size offset ≡ some r)
        × IsExact file size offset r
  unfolding pread_exact
  pread_exact-IsExact size offset room = elim (Bool-cases (ltb off_t_max offset)) [
    | inl large ↦ (err offset_too_large, rw large refl, broken offset_too_large)
    | inr small ↦ rw small (read_loop-Ends (j + size) 0 size offset (omega arith) room)
  ]
