-- ===== src/Vfio/Closed.antt =====
-- No descriptor stays open where the set-up throws.
use advcpp.Prelude.{
  ℕ, ◌≡◌, refl, ap, ◌∙◌, Bool, true, false, ◌&&◌, not, List, ◌∷◌, ◌==◌, if◌then◌else◌, bit_and,
  Error, Result, ok, err, arith,
}
use advcpp.Prelude.{vfio_api_unsupported, vfio_type1_missing, vfio_group_not_viable}
use advcpp.Server.{erase_fd}
use advcpp.Vfio.{
  Call, open_container, open_group, get_api_version, check_extension, group_get_status,
  group_set_container, set_iommu, group_get_device_fd, Answer, failed, value, called, Log, Kernel,
  vfio_call, checked, close_on_error, holding, VfioContext, open_device, open_group_of,
  open_vfio_context, opens, open_fds, and_then, throw_if, Io, pure, ◌>>=◌, ◌>>◌, type1_iommu,
  type1v2_iommu, group_flags_viable, api_version,
}

-- On top of the descriptors `fds`, those of a result are open, and none where it is an exception.
abbrev pub Leaves : {A : Type 0} → (A → List ℕ → List ℕ) → List ℕ → Result A × Log → Type 0
Leaves more fds (ok a, l) = open_fds l ≡ more a fds
Leaves more fds (err e, l) = open_fds l ≡ fds

erase_fd_head : (fd : ℕ) (fds : List ℕ) → erase_fd fd (fd ∷ fds) ≡ fds
unfolding erase_fd
erase_fd_head fd fds = ground arith

-- The descriptor that a scope holds is on top of those before.
holding-Leaves :
    {A : Type 0} (fd : ℕ) (r : Result A × Log) (more : A → List ℕ → List ℕ) (fds : List ℕ)
    → Leaves more (fd ∷ fds) r
    → Leaves (λ a fs. more a (fd ∷ fs)) fds (close_on_error fd r.0 r.1)
holding-Leaves fd (ok a, l) more fds h = h
holding-Leaves fd (err e, l) more fds h = ap (erase_fd fd) h ∙ erase_fd_head fd fds

-- A step and then the rest, given what the rest leaves on each result of the step.
step-Leaves :
    {A B : Type 0} (r : Result B × Log) (f : B → Log → Result A × Log) (more : A → List ℕ → List ℕ)
    (here : B → List ℕ → List ℕ) (fds : List ℕ)
    → Leaves here fds r
    → ((b : B) (l : Log) → open_fds l ≡ here b fds → Leaves more fds (f b l))
    → Leaves more fds (and_then r.0 f r.1)
step-Leaves (ok b, l) f more here fds h rest = rest b l h
step-Leaves (err e, l) f more here fds h rest = h

answered-Leaves :
    (c : Call) (a : Answer) (l : Log) (here : ℕ → List ℕ → List ℕ) (fds : List ℕ)
    → ((b : ℕ) → opens c (value b) fds ≡ here b fds)
    → ((errno : ℕ) → opens c (failed errno) fds ≡ fds)
    → open_fds l ≡ fds
    → Leaves here fds (checked a, called c a ∷ l)
answered-Leaves c (failed errno) l here fds on_value on_failed h =
    ap (opens c (failed errno)) h ∙ on_failed errno
answered-Leaves c (value b) l here fds on_value on_failed h = ap (opens c (value b)) h ∙ on_value b

module _ (k : Kernel) where
  call-Leaves :
      (c : Call) (l : Log) (here : ℕ → List ℕ → List ℕ) (fds : List ℕ)
      → ((b : ℕ) → opens c (value b) fds ≡ here b fds)
      → ((errno : ℕ) → opens c (failed errno) fds ≡ fds)
      → open_fds l ≡ fds
      → Leaves here fds (vfio_call k c l)
  unfolding vfio_call
  call-Leaves c l = answered-Leaves c (k l c) l

  abbrev none_more : {B : Type 0} → B → List ℕ → List ℕ
  none_more b fds = fds

  -- The three descriptors of a context, the device's last.
  abbrev its_fds : List ℕ → VfioContext → List ℕ → List ℕ
  its_fds base v fds = v.device ∷ v.group ∷ v.container ∷ base

  -- A call, or a test, and then the rest.
  call_then :
      {A : Type 0} (c : Call) (f : ℕ → Io A) (more : A → List ℕ → List ℕ)
      (here : ℕ → List ℕ → List ℕ) (fds : List ℕ) (l : Log)
      → ((b : ℕ) → opens c (value b) fds ≡ here b fds)
      → ((errno : ℕ) → opens c (failed errno) fds ≡ fds)
      → open_fds l ≡ fds
      → ((b : ℕ) (l' : Log) → open_fds l' ≡ here b fds → Leaves more fds (f b l'))
      → Leaves more fds ((vfio_call k c >>= f) l)
  call_then c f more here fds l on_value on_failed h rest =
      step-Leaves (vfio_call k c l) f more here fds (call-Leaves c l here fds on_value on_failed h)
        rest

  -- One that opens nothing.
  ask_then :
      {A : Type 0} (c : Call) (f : ℕ → Io A) (more : A → List ℕ → List ℕ) (fds : List ℕ) (l : Log)
      → ((a : Answer) → opens c a fds ≡ fds)
      → open_fds l ≡ fds
      → ((b : ℕ) (l' : Log) → open_fds l' ≡ fds → Leaves more fds (f b l'))
      → Leaves more fds ((vfio_call k c >>= f) l)
  ask_then c f more fds l opens_none h rest =
      call_then c f more none_more fds l (λ b. opens_none (value b)) (λ n. opens_none (failed n)) h
        rest

  throw_then :
      {A : Type 0} (b : Bool) (e : Error) (m : Io A) (more : A → List ℕ → List ℕ) (fds : List ℕ)
      (l : Log)
      → open_fds l ≡ fds
      → Leaves more fds (m l)
      → Leaves more fds ((throw_if b e >> m) l)
  throw_then true e m more fds l h rest = h
  throw_then false e m more fds l h rest = rest

  module _ (container type1v2 group : ℕ) (base : List ℕ) where
    abbrev fds : List ℕ
    fds = group ∷ container ∷ base

    abbrev finish : ℕ → Io VfioContext
    finish device = pure (record { container = container; group = group; device = device })

    abbrev get_device : Io VfioContext
    get_device = vfio_call k (group_get_device_fd group) >>= finish

    abbrev iommu_type : ℕ
    iommu_type = if not (type1v2 == 0) then type1v2_iommu else type1_iommu

    abbrev attach : Io VfioContext
    attach = vfio_call k (group_set_container group container) >>= λ c.
        vfio_call k (set_iommu container iommu_type) >>= λ t. get_device

    open_device-Leaves :
        (l : Log)
        → open_fds l ≡ fds
        → Leaves (its_fds base) fds (open_device k container type1v2 group l)
    unfolding open_device
    open_device-Leaves l h =
        ask_then (group_get_status group)
          (λ flags.
            throw_if (bit_and flags group_flags_viable == 0) vfio_group_not_viable >> attach)
          (its_fds base) fds l (λ a. refl) h
          (λ flags l1 h1.
            throw_then (bit_and flags group_flags_viable == 0) vfio_group_not_viable attach
              (its_fds base) fds l1 h1
              (ask_then (group_set_container group container)
                (λ c. vfio_call k (set_iommu container iommu_type) >>= λ t. get_device)
                (its_fds base) fds l1 (λ a. refl) h1
                (λ c l3 h3.
                  ask_then (set_iommu container iommu_type) (λ t. get_device) (its_fds base) fds l3
                    (λ a. refl) h3
                    (λ t l4 h4.
                      call_then (group_get_device_fd group) finish (its_fds base) (λ b fs. b ∷ fs)
                        fds l4 (λ b. refl) (λ n. refl) h4 (λ device l5 h5. h5)))))

  module _ (container : ℕ) (base : List ℕ) where
    abbrev with_group : ℕ → ℕ → Io VfioContext
    with_group type1v2 group = holding group (open_device k container type1v2 group)

    abbrev open_with : ℕ → Io VfioContext
    open_with type1v2 = vfio_call k open_group >>= with_group type1v2

    abbrev with_type1 : ℕ → ℕ → Io VfioContext
    with_type1 type1 type1v2 =
        throw_if (type1 == 0 && type1v2 == 0) vfio_type1_missing >> open_with type1v2

    abbrev ask_types : Io VfioContext
    ask_types = vfio_call k (check_extension container type1_iommu) >>= λ type1.
        vfio_call k (check_extension container type1v2_iommu) >>= with_type1 type1

    open_with-Leaves :
        (type1v2 : ℕ) (l : Log)
        → open_fds l ≡ container ∷ base
        → Leaves (its_fds base) (container ∷ base) (open_with type1v2 l)
    unfolding holding
    open_with-Leaves type1v2 l h =
        call_then open_group (with_group type1v2) (its_fds base) (λ b fs. b ∷ fs) (container ∷ base)
          l (λ b. refl) (λ n. refl) h
          (λ group l' h'.
            holding-Leaves group (open_device k container type1v2 group l') (its_fds base)
              (container ∷ base) (open_device-Leaves container type1v2 group base l' h'))

    open_group_of-Leaves :
        (l : Log)
        → open_fds l ≡ container ∷ base
        → Leaves (its_fds base) (container ∷ base) (open_group_of k container l)
    unfolding open_group_of
    open_group_of-Leaves l h =
        ask_then (get_api_version container)
          (λ version. throw_if (not (version == api_version)) vfio_api_unsupported >> ask_types)
          (its_fds base) (container ∷ base) l (λ a. refl) h
          (λ version l1 h1.
            throw_then (not (version == api_version)) vfio_api_unsupported ask_types (its_fds base)
              (container ∷ base) l1 h1
              (ask_then (check_extension container type1_iommu)
                (λ type1.
                  vfio_call k (check_extension container type1v2_iommu) >>= with_type1 type1)
                (its_fds base) (container ∷ base) l1 (λ a. refl) h1
                (λ type1 l2 h2.
                  ask_then (check_extension container type1v2_iommu) (with_type1 type1)
                    (its_fds base) (container ∷ base) l2 (λ a. refl) h2
                    (λ type1v2 l3 h3.
                      throw_then (type1 == 0 && type1v2 == 0) vfio_type1_missing (open_with type1v2)
                        (its_fds base) (container ∷ base) l3 h3 (open_with-Leaves type1v2 l3 h3)))))

  open_container-Leaves :
      (l : Log)
      → Leaves
          (its_fds (open_fds l))
          (open_fds l)
          ((vfio_call k open_container >>= (λ c. holding c (open_group_of k c))) l)
  unfolding holding
  open_container-Leaves l =
      let base = open_fds l in
      call_then open_container (λ c. holding c (open_group_of k c)) (its_fds base) (λ b fs. b ∷ fs)
        base l (λ b. refl) (λ n. refl) refl
        (λ c l' h.
          holding-Leaves c (open_group_of k c l') (its_fds base) base
            (open_group_of-Leaves c base l' h))

  -- Whatever the kernel answers, and wherever a step throws, the descriptors that are open after
  -- the set-up are those before, and, only where it returns, those of the container, the group and
  -- the device on top of them.
  pub open_vfio_context-closed :
      (group : Result (Unit {0})) (l : Log)
      → Leaves
          (λ v fds. v.device ∷ v.group ∷ v.container ∷ fds)
          (open_fds l)
          (open_vfio_context k group l)
  unfolding open_vfio_context
  open_vfio_context-closed (err e) l = refl
  open_vfio_context-closed (ok found) l = open_container-Leaves l
