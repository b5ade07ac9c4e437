-- ===== src/Mmio.antt =====
-- `MappedRegion` of userspace_drivers/vfio_utils.hpp: reads and writes of device registers through
-- a mapping, in a monad that keeps what was accessed also when an exception leaves the code.
pub mod Range
pub mod Traces
mod Tests
use advcpp.Prelude.{
  ℕ, ◌-◌, ◌*◌, ◌%◌, ◌^◌, Bool, ◌||◌, List, ◌∷◌, ltb, if◌then◌else◌, Error, Result, ok, err,
}
use advcpp.Prelude.{mmio_out_of_range}

-- One access: the width in bytes, the offset in the mapping, the value.
pub data Access : Type 0 where
  loaded : ℕ → ℕ → ℕ → Access
  stored : ℕ → ℕ → ℕ → Access

-- The accesses so far, newest first.
abbrev pub History : Type 0
History = List Access

-- The device behind the mapping is not code of the repository: it answers a load of a width at an
-- offset as it likes, depending on all the accesses before.
pub record MappedRegion : Type 0 where
  pub size : ℕ
  pub device : History → ℕ → ℕ → ℕ

abbrev pub Io : Type 0 → Type 0
Io A = History → Result A × History

abbrev pub pure : {A : Type 0} → A → Io A
pure a h = (ok a, h)

abbrev pub throw : {A : Type 0} → Error → Io A
throw e h = (err e, h)

abbrev pub lift : {A : Type 0} → Result A → Io A
lift r h = (r, h)

abbrev pub and_then : {A B : Type 0} → Result A → (A → Io B) → Io B
and_then (ok a) k h = k a h
and_then (err e) k h = (err e, h)

infixl 5 ◌>>=◌ ◌>>◌
abbrev pub ◌>>=◌ : {A B : Type 0} → Io A → (A → Io B) → Io B
◌>>=◌ m k h = and_then (m h).0 k (m h).1

abbrev pub ◌>>◌ : {B : Type 0} → Io (Unit {0}) → Io B → Io B
m >> k = m >>= λ _. k

-- `if (b) throw e;`
abbrev pub throw_if : Bool → Error → Io (Unit {0})
throw_if b e h = (if b then err e else ok tt, h)

unfoldable pub check_range : MappedRegion → ℕ → ℕ → Io (Unit {0})
check_range m offset width =
    throw_if (ltb m.size offset || ltb (m.size - offset) width) mmio_out_of_range

-- A load of `width` bytes at `offset`; the type of the value has that width.
unfoldable pub load : MappedRegion → ℕ → ℕ → Io ℕ
load m width offset h =
    let v = m.device h width offset % 2 ^ (8 * width) in (ok v, loaded width offset v ∷ h)

unfoldable pub store : MappedRegion → ℕ → ℕ → ℕ → Io (Unit {0})
store m width offset value h = (ok tt, stored width offset value ∷ h)

unfoldable pub read8 : MappedRegion → ℕ → Io ℕ
unfolding check_range load
read8 m offset = do check_range m offset 1; load m 1 offset

unfoldable pub read16 : MappedRegion → ℕ → Io ℕ
unfolding check_range load
read16 m offset = do check_range m offset 2; load m 2 offset

unfoldable pub read32 : MappedRegion → ℕ → Io ℕ
unfolding check_range load
read32 m offset = do check_range m offset 4; load m 4 offset

unfoldable pub write8 : MappedRegion → ℕ → ℕ → Io (Unit {0})
unfolding check_range store
write8 m offset value = do check_range m offset 1; store m 1 offset value

unfoldable pub write16 : MappedRegion → ℕ → ℕ → Io (Unit {0})
unfolding check_range store
write16 m offset value = do check_range m offset 2; store m 2 offset value

unfoldable pub write32 : MappedRegion → ℕ → ℕ → Io (Unit {0})
unfolding check_range store
write32 m offset value = do check_range m offset 4; store m 4 offset value
