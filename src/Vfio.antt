-- ===== src/Vfio.antt =====
-- The set-up of a VFIO device in userspace_drivers/vfio_utils.hpp: which descriptors are opened, what
-- is asked of them, and which are closed where a step throws. The kernel is a parameter: it answers
-- each call as a function of all the calls before.
pub mod Closed
mod Tests
use advcpp.Prelude.{
  ℕ, Bool, ◌&&◌, not, List, [], ◌∷◌, ◌==◌, if◌then◌else◌, bit_and, Error, Result, ok, err,
}
use advcpp.Prelude.{system_error, vfio_api_unsupported, vfio_type1_missing, vfio_group_not_viable}
use advcpp.Server.{erase_fd}

-- `open` of a path and the `ioctl` requests, each with the descriptor that it is made on.
pub data Call : Type 0 where
  open_container open_group : Call
  get_api_version : ℕ → Call
  check_extension : ℕ → ℕ → Call
  group_get_status : ℕ → Call
  group_set_container : ℕ → ℕ → Call
  set_iommu : ℕ → ℕ → Call
  group_get_device_fd : ℕ → Call

-- -1 with `errno`, or any other value. A status is its flags.
pub data Answer : Type 0 where
  failed : ℕ → Answer
  value : ℕ → Answer

pub data Event : Type 0 where
  called : Call → Answer → Event
  closed : ℕ → Event

-- What was done so far, newest first.
abbrev pub Log : Type 0
Log = List Event

abbrev pub Kernel : Type 0
Kernel = Log → Call → Answer

abbrev pub Io : Type 0 → Type 0
Io A = Log → Result A × Log

abbrev pub pure : {A : Type 0} → A → Io A
pure a l = (ok a, l)

abbrev pub and_then : {A B : Type 0} → Result A → (A → Io B) → Io B
and_then (ok a) f l = f a l
and_then (err e) f l = (err e, l)

infixl 5 ◌>>=◌ ◌>>◌
abbrev pub ◌>>=◌ : {A B : Type 0} → Io A → (A → Io B) → Io B
◌>>=◌ m f l = and_then (m l).0 f (m l).1

abbrev pub ◌>>◌ : {B : Type 0} → Io (Unit {0}) → Io B → Io B
m >> k = m >>= λ _. k

-- `if (b) throw e;`
abbrev pub throw_if : Bool → Error → Io (Unit {0})
throw_if b e l = (if b then err e else ok tt, l)

abbrev pub checked : Answer → Result ℕ
checked (failed errno) = err (system_error errno)
checked (value n) = ok n

-- A call that throws where it returns -1: `vfio_ioctl_checked`, `vfio_ioctl_value`,
-- `vfio_ioctl_arg_value` and the check of `open`.
unfoldable pub vfio_call : Kernel → Call → Io ℕ
vfio_call k c l = let a = k l c in (checked a, called c a ∷ l)

-- The destructor of a `UniqueFd` where the code after it throws.
abbrev pub close_on_error : {A : Type 0} → ℕ → Result A → Log → Result A × Log
close_on_error fd (ok a) l = (ok a, l)
close_on_error fd (err e) l = (err e, closed fd ∷ l)

unfoldable pub holding : {A : Type 0} → ℕ → Io A → Io A
holding fd m l = close_on_error fd (m l).0 (m l).1

pub record VfioContext : Type 0 where
  pub container : ℕ
  pub group : ℕ
  pub device : ℕ

-- `VFIO_TYPE1_IOMMU`, `VFIO_TYPE1v2_IOMMU`, `VFIO_API_VERSION` and `VFIO_GROUP_FLAGS_VIABLE`.
abbrev pub type1_iommu : ℕ
type1_iommu = 1

abbrev pub type1v2_iommu : ℕ
type1v2_iommu = 3

abbrev pub api_version : ℕ
api_version = 0

abbrev pub group_flags_viable : ℕ
group_flags_viable = 1

-- From the open group on.
unfoldable pub open_device : Kernel → ℕ → ℕ → ℕ → Io VfioContext
unfolding vfio_call
open_device k container type1v2 group = do
  flags ← vfio_call k (group_get_status group)
  throw_if (bit_and flags group_flags_viable == 0) vfio_group_not_viable
  _ ← vfio_call k (group_set_container group container)
  _ ← vfio_call k (set_iommu container (if not (type1v2 == 0) then type1v2_iommu else type1_iommu))
  device ← vfio_call k (group_get_device_fd group)
  pure (record { container = container; group = group; device = device })

-- From the open container on.
unfoldable pub open_group_of : Kernel → ℕ → Io VfioContext
unfolding vfio_call holding open_device
open_group_of k container = do
  version ← vfio_call k (get_api_version container)
  throw_if (not (version == api_version)) vfio_api_unsupported
  type1 ← vfio_call k (check_extension container type1_iommu)
  type1v2 ← vfio_call k (check_extension container type1v2_iommu)
  throw_if (type1 == 0 && type1v2 == 0) vfio_type1_missing
  group ← vfio_call k open_group
  holding group (open_device k container type1v2 group)

-- `group` is that of the device's link in sysfs, whose reading may throw.
unfoldable pub open_vfio_context : Kernel → Result (Unit {0}) → Io VfioContext
unfolding vfio_call holding open_group_of
open_vfio_context k group l =
    and_then group
      (λ _. do
        container ← vfio_call k open_container
        holding container (open_group_of k container))
      l

-- The descriptors that are open, the last one first.
abbrev pub opens : Call → Answer → List ℕ → List ℕ
opens open_container (value fd) fds = fd ∷ fds
opens open_group (value fd) fds = fd ∷ fds
opens (group_get_device_fd group) (value fd) fds = fd ∷ fds
opens c a fds = fds

abbrev pub open_fds : Log → List ℕ
open_fds [] = []
open_fds (called c a ∷ l) = opens c a (open_fds l)
open_fds (closed fd ∷ l) = erase_fd fd (open_fds l)
