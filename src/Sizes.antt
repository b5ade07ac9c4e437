-- ===== src/Sizes.antt =====
-- Size arithmetic of userspace_drivers/virtio_net_vfio.hpp: powers of two, alignment and the
-- checked operations on `std::size_t`.
pub mod Power
pub mod Laws
mod Tests
use advcpp.Prelude.{
  ℕ, ◌+◌, ◌-◌, ◌*◌, ◌/◌, ◌^◌, Bool, ◌&&◌, not, ◌==◌, ltb, bit_and, u64, size_max, Result, ok, err,
  ◌>>=◌, ◌>>◌, throw_if, alignment_not_power_of_two, align_overflow, size_overflow,
  invalid_argument,
}

unfoldable pub is_power_of_two : ℕ → Bool
is_power_of_two value = not (value == 0) && bit_and value (value - 1) == 0

-- `~(align - 1)` on 64 bits is `size_max - (align - 1)`; the guard excludes `align == 0`.
unfoldable pub align_up : ℕ → ℕ → Result ℕ
align_up value align = do
  throw_if (not (is_power_of_two align)) alignment_not_power_of_two
  throw_if (ltb (size_max - (align - 1)) value) align_overflow
  ok (bit_and (u64 (u64 (value + align) + size_max)) (size_max - (align - 1)))

-- The argument is what `sysconf(_SC_PAGESIZE)` returns, 0 for any result that is not positive.
unfoldable pub system_page_size : ℕ → Result ℕ
system_page_size sysconf = do throw_if (sysconf == 0) invalid_argument; ok sysconf

unfoldable pub round_up_to_page : ℕ → ℕ → Result ℕ
round_up_to_page sysconf size = do page ← system_page_size sysconf; align_up size page

unfoldable pub checked_add : ℕ → ℕ → Result ℕ
checked_add a b = do throw_if (ltb (size_max - b) a) size_overflow; ok (u64 (a + b))

unfoldable pub checked_mul : ℕ → ℕ → Result ℕ
checked_mul a b = do throw_if (not (a == 0) && ltb (size_max / a) b) size_overflow; ok (u64 (a * b))
