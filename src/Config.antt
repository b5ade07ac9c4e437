-- ===== src/Config.antt =====
-- The PCI configuration space of a VFIO device in userspace_drivers/vfio_utils.hpp, read and
-- written through `pread` and `pwrite` calls that may move less than was asked for or be interrupted. The kernel's answers are
-- a parameter: each depends on how many calls there were, the size and the offset.
pub mod Exact
pub mod Stored
mod Tests
use advcpp.Prelude.{
  ℕ, zero, suc, ◌+◌, ◌-◌, bit_or, Option, none, some, List, [], ◌∷◌, ◌++◌, length, get_or, ltb,
  if◌then◌else◌, u64, ◌<<◌, Result, ok, err, take, drop, bit_and, ◌>>>◌, u8,
}
use advcpp.Prelude.{
  config_read_past, config_write_past, offset_too_large, short_read, short_write, system_error,
}
use advcpp.Memory.{Memory}
use advcpp.Packet.{copy_bytes}

-- `got` is what `pread` stored; an empty one is the end of the file.
pub data Answer : Type 0 where
  interrupted : Answer
  failed : ℕ → Answer
  got : List ℕ → Answer

abbrev pub Pread : Type 0
Pread = ℕ → ℕ → ℕ → Answer

-- `none`: the loop has not ended after the calls that were allowed.
abbrev pub Attempt : Type 0 → Type 0
Attempt A = Option (Result A)

abbrev pub and_then : {A B : Type 0} → Attempt A → (A → Attempt B) → Attempt B
and_then none f = none
and_then (some (err e)) f = some (err e)
and_then (some (ok a)) f = f a

-- The loop with `left` bytes to read at `offset`, after `calls` calls.
unfoldable pub read_loop : Pread → ℕ → ℕ → ℕ → ℕ → Attempt (List ℕ)
read_loop pread fuel calls zero offset = some (ok [])
read_loop pread zero calls (suc left) offset = none
read_loop pread (suc fuel) calls (suc left) offset = elim (pread calls (suc left) offset) [
  | interrupted ↦ read_loop pread fuel (calls + 1) (suc left) offset
  | failed errno ↦ some (err (system_error errno))
  | got [] ↦ some (err short_read)
  | got (b ∷ bytes) ↦
      and_then
        (read_loop pread fuel (calls + 1) (suc left - length (b ∷ bytes))
          (u64 (offset + length (b ∷ bytes))))
        (λ rest. some (ok ((b ∷ bytes) ++ rest)))
]

abbrev pub off_t_max : ℕ
off_t_max = 0x7fff_ffff_ffff_ffff

unfoldable pub pread_exact : Pread → ℕ → ℕ → ℕ → Attempt (List ℕ)
pread_exact pread fuel size offset =
    let read = read_loop pread fuel 0 size offset in
    if ltb off_t_max offset then some (err offset_too_large) else read

pub record ConfigRegion : Type 0 where
  pub offset : ℕ
  pub size : ℕ

unfoldable pub read_config_bytes : Pread → ℕ → ConfigRegion → ℕ → ℕ → Attempt (List ℕ)
read_config_bytes pread fuel config offset size =
    if ltb config.size (u64 (offset + size))
    then some (err config_read_past)
    else pread_exact pread fuel size (u64 (config.offset + offset))

unfoldable pub read_config_u8 : Pread → ℕ → ConfigRegion → ℕ → Attempt ℕ
read_config_u8 pread fuel config offset =
    and_then (read_config_bytes pread fuel config offset 1) (λ bytes. some (ok (get_or bytes 0 0)))

unfoldable pub read_config_le16 : Pread → ℕ → ConfigRegion → ℕ → Attempt ℕ
read_config_le16 pread fuel config offset =
    and_then (read_config_bytes pread fuel config offset 2)
      (λ bytes. some (ok (bit_or (get_or bytes 0 0) (get_or bytes 1 0 << 8))))

unfoldable pub read_config_le32 : Pread → ℕ → ConfigRegion → ℕ → Attempt ℕ
read_config_le32 pread fuel config offset =
    and_then (read_config_bytes pread fuel config offset 4) (λ bytes. some (
      ok (
        bit_or (bit_or (bit_or (get_or bytes 0 0) (get_or bytes 1 0 << 8)) (get_or bytes 2 0 << 16))
          (get_or bytes 3 0 << 24))))

unfoldable pub read_config_le64_from_halves : Pread → ℕ → ConfigRegion → ℕ → ℕ → Attempt ℕ
read_config_le64_from_halves pread fuel config lo_offset hi_offset =
    and_then (read_config_le32 pread fuel config lo_offset) (λ lo.
      and_then (read_config_le32 pread fuel config hi_offset)
        (λ hi. some (ok (bit_or lo (hi << 32)))))

-- What `pwrite` returned: the number of bytes that it has written.
pub data Written : Type 0 where
  interrupted : Written
  failed : ℕ → Written
  wrote : ℕ → Written

abbrev pub Pwrite : Type 0
Pwrite = ℕ → ℕ → ℕ → Written

-- The loop with `bytes` left to write at `offset`: what becomes of the file, and how it ends.
unfoldable pub write_loop : Pwrite → ℕ → ℕ → List ℕ → ℕ → Memory → Memory × Attempt (Unit {0})
unfolding copy_bytes
write_loop pwrite fuel calls [] offset file = (file, some (ok tt))
write_loop pwrite zero calls (b ∷ bytes) offset file = (file, none)
write_loop pwrite (suc fuel) calls (b ∷ bytes) offset file =
    elim (pwrite calls (length (b ∷ bytes)) offset) [
      | Written.interrupted ↦ write_loop pwrite fuel (calls + 1) (b ∷ bytes) offset file
      | Written.failed errno ↦ (file, some (err (system_error errno)))
      | wrote zero ↦ (file, some (err short_write))
      | wrote (suc n) ↦
          write_loop pwrite fuel (calls + 1) (drop (suc n) (b ∷ bytes)) (u64 (offset + suc n))
            (copy_bytes offset (take (suc n) (b ∷ bytes)) file)
    ]

unfoldable pub pwrite_exact : Pwrite → ℕ → List ℕ → ℕ → Memory → Memory × Attempt (Unit {0})
pwrite_exact pwrite fuel bytes offset file =
    let written = write_loop pwrite fuel 0 bytes offset file in
    if ltb off_t_max offset then (file, some (err offset_too_large)) else written

unfoldable pub write_config_bytes :
    Pwrite → ℕ → ConfigRegion → ℕ → List ℕ → Memory → Memory × Attempt (Unit {0})
write_config_bytes pwrite fuel config offset bytes file =
    if ltb config.size (u64 (offset + length bytes))
    then (file, some (err config_write_past))
    else pwrite_exact pwrite fuel bytes (u64 (config.offset + offset)) file

unfoldable pub write_config_le16 :
    Pwrite → ℕ → ConfigRegion → ℕ → ℕ → Memory → Memory × Attempt (Unit {0})
write_config_le16 pwrite fuel config offset value file =
    write_config_bytes pwrite fuel config offset (bit_and value 0xff ∷ u8 (value >>> 8) ∷ []) file
