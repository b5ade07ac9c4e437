-- ===== src/Config/Stored.antt =====
-- The loop of `pwrite_exact` ends, and where it succeeds every byte is in its place.
use advcpp.Prelude.{
  ℕ, zero, suc, ◌+◌, ◌-◌, ◌≤◌, ◌<◌, ◌≡◌, ◌≢◌, refl, sym, ap, ◌∙◌, inl, inr, Bool-cases, some, List,
  [], ◌∷◌, length, arith, u64, size_max, ok, err, Error, ltb, take, drop, get_or, length-take,
}
use native.Mathlib.Decide.{dec_lt}
use advcpp.Prelude.{system_error, short_write, offset_too_large}
use advcpp.Memory.{Memory}
use advcpp.Packet.{copy_bytes}
use advcpp.Config.{Written, wrote, Pwrite, Attempt, write_loop, pwrite_exact, off_t_max}

abbrev pub AtMost : Pwrite → Type 0
AtMost pwrite = (k n o w : ℕ) → pwrite k n o ≡ wrote w → w ≤ n

abbrev pub SettlesWriting : ℕ → Pwrite → Type 0
SettlesWriting j pwrite = (k n o : ℕ) → j ≤ k → pwrite k n o ≢ Written.interrupted

length-drop : (n : ℕ) (xs : List ℕ) → length (drop n xs) ≡ length xs - n
length-drop zero xs = omega arith
length-drop (suc n) [] = omega arith
length-drop (suc n) (x ∷ xs) = omega (arith, length-drop n xs)

get_or-take : (n i : ℕ) (xs : List ℕ) → i < n → get_or (take n xs) i 0 ≡ get_or xs i 0
get_or-take zero i xs h = elim h [ ]
get_or-take (suc n) i [] h = refl
get_or-take (suc n) zero (x ∷ xs) h = refl
get_or-take (suc n) (suc i) (x ∷ xs) h = get_or-take n i xs (omega arith)

get_or-drop_add : (n i : ℕ) (xs : List ℕ) → get_or (drop n xs) i 0 ≡ get_or xs (n + i) 0
get_or-drop_add zero i xs = ap (λ (t : ℕ). get_or xs t 0) (omega arith)
get_or-drop_add (suc n) i [] = refl
get_or-drop_add (suc n) i (x ∷ xs) =
    get_or-drop_add n i xs ∙ (let e : suc n + i ≡ suc (n + i) = omega arith in rw e refl)

-- Two copies one behind the other are one.
copy_bytes-split :
    (at n : ℕ) (bytes : List ℕ) (file : Memory) (x : ℕ)
    → n ≤ length bytes
    → copy_bytes (at + n) (drop n bytes) (copy_bytes at (take n bytes) file) x
      ≡ copy_bytes at bytes file x
unfolding copy_bytes
copy_bytes-split at n bytes file x h =
    let dropped = length-drop n bytes in
    let taken = length-take n bytes in
    elim (dec_lt x (at + n)) [
      | yes p ↦ ground (arith, dropped, taken, get_or-take n (x - at) bytes)
      | no p ↦
          let sum : n + (x - (at + n)) ≡ x - at = omega arith in
          ground (
            arith,
            dropped,
            taken,
            get_or-drop_add n (x - (at + n)) bytes ∙ ap (λ (t : ℕ). get_or bytes t 0) sum,
          )
    ]

-- How a write ends: every byte is in its place and no other one has changed, or with an error.
pub data IsStored (bytes : List ℕ) (at : ℕ) (file : Memory)
    : Memory × Attempt (Unit {0}) → Type 0 where
  stored :
      {file' : Memory}
      → ((x : ℕ) → file' x ≡ copy_bytes at bytes file x)
      → IsStored bytes at file (file', some (ok tt))
  broken : (file' : Memory) (e : Error) → IsStored bytes at file (file', some (err e))

copy_bytes-nil : (at : ℕ) (file : Memory) (x : ℕ) → copy_bytes at [] file x ≡ file x
unfolding copy_bytes
copy_bytes-nil at file x = ground arith

module _ (pwrite : Pwrite) (j : ℕ) (at_most : AtMost pwrite)
    (settles : SettlesWriting j pwrite) where
  abbrev LoopEnds : ℕ → Type 0
  LoopEnds fuel =
      (k : ℕ) (bytes : List ℕ) (at : ℕ) (file : Memory)
      → (j - k) + length bytes ≤ fuel
      → at + length bytes ≤ size_max
      → IsStored bytes at file (write_loop pwrite fuel k bytes at file)

  -- The part that one call has written, in front of what the rest of the loop writes.
  behind :
      (n : ℕ) (bytes : List ℕ) (at : ℕ) (file : Memory) (end : Memory × Attempt (Unit {0}))
      → n ≤ length bytes
      → IsStored (drop n bytes) (at + n) (copy_bytes at (take n bytes) file) end
      → IsStored bytes at file end
  behind n bytes at file (file', a) h (stored same) =
      stored (λ x. same x ∙ copy_bytes-split at n bytes file x h)
  behind n bytes at file (file', a) h (broken f e) = broken f e

  one_call :
      (fuel k : ℕ) (b : ℕ) (bytes : List ℕ) (at : ℕ) (file : Memory) (a : Written)
      → LoopEnds fuel
      → (j - k) + suc (length bytes) ≤ suc fuel
      → at + suc (length bytes) ≤ size_max
      → pwrite k (suc (length bytes)) at ≡ a
      → IsStored (b ∷ bytes) at file (write_loop pwrite (suc fuel) k (b ∷ bytes) at file)
  unfolding write_loop
  one_call fuel k b bytes at file Written.interrupted again h room e =
      let early : k < j = elim (dec_lt k j) [
        | yes p ↦ p
        | no p ↦ absurd (settles k (suc (length bytes)) at (omega arith) e)
      ] in
      rw (e, write_loop) (again (k + 1) (b ∷ bytes) at file (omega arith) room)
  one_call fuel k b bytes at file (Written.failed errno) again h room e =
      rw (e, write_loop) (broken file (system_error errno))
  one_call fuel k b bytes at file (wrote zero) again h room e =
      rw (e, write_loop) (broken file short_write)
  one_call fuel k b bytes at file (wrote (suc n)) again h room e =
      let fits = at_most k (suc (length bytes)) at (suc n) e in
      let next : u64 (at + suc n) ≡ at + suc n = omega arith in
      let rest = length-drop (suc n) (b ∷ bytes) in
      rw (e, write_loop, next)
        (behind (suc n) (b ∷ bytes) at file _ fits (
          again (k + 1) (drop (suc n) (b ∷ bytes)) (at + suc n) _ (omega (arith, rest))
            (omega (arith, rest))))

  write_loop-LoopEnds : (fuel : ℕ) → LoopEnds fuel
  unfolding write_loop
  write_loop-LoopEnds fuel k [] at file h room = stored (λ x. sym (copy_bytes-nil at file x))
  write_loop-LoopEnds zero k (b ∷ bytes) at file h room = absurd (omega arith)
  write_loop-LoopEnds (suc fuel) k (b ∷ bytes) at file h room =
      one_call fuel k b bytes at file (pwrite k (suc (length bytes)) at)
        (λ k' bytes' at' file' h' room'. write_loop-LoopEnds fuel k' bytes' at' file' h' room') h
        room refl

  -- `pwrite_exact` ends in as many calls as there are bytes and calls that may be interrupted,
  -- however the kernel splits the write. It returns without an error only where every byte stands
  -- in its place and no other byte of the file has changed.
  pub pwrite_exact-IsStored :
      (bytes : List ℕ) (at : ℕ) (file : Memory)
      → at + length bytes ≤ size_max
      → IsStored bytes at file (pwrite_exact pwrite (j + length bytes) bytes at file)
  unfolding pwrite_exact
  pwrite_exact-IsStored bytes at file room = elim (Bool-cases (ltb off_t_max at)) [
    | inl large ↦ rw large (broken file offset_too_large)
    | inr small ↦
        rw small (write_loop-LoopEnds (j + length bytes) 0 bytes at file (omega arith) room)
  ]
