-- ===== src/Memory.antt =====
-- The DMA buffer that driver and device share, as bytes at offsets from its start, with the
-- little-endian words that the code reads and writes through typed pointers, and the sequence of
-- its stores and fences.
pub mod Words
use advcpp.Prelude.{
  ℕ, zero, suc, ◌+◌, ◌-◌, ◌*◌, ◌/◌, ◌%◌, ◌^◌, ◌&&◌, List, [], ◌∷◌, ltb, leb, if◌then◌else◌,
}

abbrev pub Memory : Type 0
Memory = ℕ → ℕ

-- A word of `n` bytes at `a`.
unfoldable pub read_le : ℕ → ℕ → Memory → ℕ
read_le zero a m = 0
read_le (suc n) a m = m a + 256 * read_le n (a + 1) m

unfoldable pub write_le : ℕ → ℕ → ℕ → Memory → Memory
write_le n a v m x = if leb a x && ltb x (a + n) then v / 256 ^ (x - a) % 256 else m x

-- What the code does to the buffer, in program order: a store of a word of `n` bytes, or a fence.
pub data Effect : Type 0 where
  put : ℕ → ℕ → ℕ → Effect
  fence : Effect

unfoldable pub perform : List Effect → Memory → Memory
perform [] m = m
perform (put n a v ∷ es) m = perform es (write_le n a v m)
perform (fence ∷ es) m = perform es m
