-- ===== src/Vfio/Tests.antt =====
-- A group that is not viable.
use advcpp.Prelude.{ℕ, ◌≡◌, refl, [], ◌∷◌, ok, err}
use advcpp.Prelude.{vfio_group_not_viable}
use advcpp.Server.{erase_fd}
use advcpp.Vfio.{
  open_container, open_group, check_extension, group_get_device_fd, value, called, Kernel,
  open_vfio_context, open_fds,
}
use advcpp.Vfio.Closed.{Leaves, open_vfio_context-closed}

-- Descriptors 3, 4 and 5; every other call returns 0.
abbrev kernel : ℕ → Kernel
kernel viable l open_container = value 3
kernel viable l open_group = value 4
kernel viable l (check_extension fd type) = value 1
kernel viable l (group_get_device_fd fd) = value 5
kernel viable l c = value viable

-- Version 0 and flags 0.
refused :
    ((open_vfio_context (kernel 0) (ok tt) []).0 ≡ err vfio_group_not_viable)
    × (open_fds (open_vfio_context (kernel 0) (ok tt) []).1 ≡ [])
unfolding open_vfio_context erase_fd
refused = (refl, refl)

open_vfio_context-closed_example :
    Leaves
      (λ v fds. v.device ∷ v.group ∷ v.container ∷ fds)
      (9 ∷ [])
      (open_vfio_context (kernel 0) (ok tt) (called open_container (value 9) ∷ []))
open_vfio_context-closed_example =
    open_vfio_context-closed (kernel 0) (ok tt) (called open_container (value 9) ∷ [])
