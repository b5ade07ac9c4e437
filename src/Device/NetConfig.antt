-- ===== src/Device/NetConfig.antt =====
-- The device configuration that `read_virtio_net_config` of userspace_drivers/virtio_net_vfio.hpp
-- reads: each field only where the capability is long enough for it.
mod Tests
use advcpp.Prelude.{
  ℕ, zero, suc, ◌+◌, ◌%◌, ◌^◌, ◌≤◌, ◌≡◌, refl, ap, inl, inr, Bool, true, false, Option, none, some,
  List, [], ◌∷◌, ◌++◌, replicate, length, leb, if◌then◌else◌, u64, size_max, ok, Bool-cases, arith,
}
use advcpp.Mmio.{MappedRegion, loaded, History, Io, pure, ◌>>=◌, read8, read16}
use advcpp.Mmio.Range.{read8-in, read16-in}

pub record VirtioNetConfigView : Type 0 where
  pub mac : List ℕ
  pub status : Option ℕ
  pub max_virtqueue_pairs : Option ℕ
  pub mtu : Option ℕ

abbrev config_mac : ℕ
config_mac = 0

abbrev config_status : ℕ
config_status = 6

abbrev config_max_virtqueue_pairs : ℕ
config_max_virtqueue_pairs = 8

abbrev config_mtu : ℕ
config_mtu = 10

-- The loop over the address, `left` bytes from `i`.
unfoldable read_mac : MappedRegion → ℕ → ℕ → ℕ → Io (List ℕ)
unfolding read8
read_mac m delta i zero = pure []
read_mac m delta i (suc left) = do
  b ← read8 m (u64 (delta + config_mac + i))
  bytes ← read_mac m delta (i + 1) left
  pure (b ∷ bytes)

-- A 16-bit field that ends at `end`.
unfoldable read_field : MappedRegion → ℕ → ℕ → ℕ → Io (Option ℕ)
unfolding read16
read_field m delta cfg_length field =
    if leb (field + 2) cfg_length
    then (read16 m (u64 (delta + field)) >>= λ v. pure (some v))
    else pure none

unfoldable pub read_virtio_net_config : MappedRegion → ℕ → ℕ → Io VirtioNetConfigView
unfolding read_mac read_field
read_virtio_net_config m delta cfg_length = do
  mac ← if leb (config_mac + 6) cfg_length then read_mac m delta 0 6 else pure (replicate 6 0)
  status ← read_field m delta cfg_length config_status
  max_virtqueue_pairs ← read_field m delta cfg_length config_max_virtqueue_pairs
  mtu ← read_field m delta cfg_length config_mtu
  pure (record { mac = mac; status = status; max_virtqueue_pairs = max_virtqueue_pairs; mtu = mtu })

-- A field is there exactly where the capability holds its two bytes.
abbrev IsField : ℕ → ℕ → Option ℕ → Type 0
IsField cfg_length field none = cfg_length ≤ field + 1
IsField cfg_length field (some v) = (field + 2 ≤ cfg_length) × (v ≤ 65535)

module _ (m : MappedRegion) (delta cfg_length : ℕ) (room : delta + cfg_length ≤ m.size)
    (fits : m.size ≤ size_max) where
  -- One round of the loop, for what the rest of the loop returns.
  read_mac-step :
      (i left : ℕ) (h g : History) (bytes : List ℕ)
      → i + suc left ≤ cfg_length
      → let b = m.device h 1 (delta + i) % 2 ^ 8 in
        read_mac m delta (i + 1) left (loaded 1 (delta + i) b ∷ h) ≡ (ok bytes, g)
        → read_mac m delta i (suc left) h ≡ (ok (b ∷ bytes), g)
  unfolding read_mac
  read_mac-step i left h g bytes inside rest =
      let same : u64 (delta + config_mac + i) ≡ delta + i = omega arith in
      rw (same, read8-in m (delta + i) h (omega arith), rest) refl

  read_mac-length :
      (i left : ℕ) (h : History)
      → i + left ≤ cfg_length
      → (bytes : List ℕ) × (g : History) × (read_mac m delta i left h ≡ (ok bytes, g))
        × (length bytes ≡ left)
  unfolding read_mac
  read_mac-length i zero h inside = ([], h, refl, refl)
  read_mac-length i (suc left) h inside =
      let b = m.device h 1 (delta + i) % 2 ^ 8 in
      let (bytes, g, rest, all) =
        read_mac-length (i + 1) left (loaded 1 (delta + i) b ∷ h) (omega arith) in
      (b ∷ bytes, g, read_mac-step i left h g bytes inside rest, ap suc all)

  read_field-IsField :
      (field : ℕ) (h : History)
      → field ≤ 10
      → (v : Option ℕ) × (g : History) × (read_field m delta cfg_length field h ≡ (ok v, g))
        × IsField cfg_length field v
  unfolding read_field
  read_field-IsField field h small = elim (Bool-cases (leb (field + 2) cfg_length)) [
    | inl long ↦
        let holds : field + 2 ≤ cfg_length = ground arith in
        let same : u64 (delta + field) ≡ delta + field = omega arith in
        let v = m.device h 2 (delta + field) % 2 ^ 16 in
        (
          some v,
          loaded 2 (delta + field) v ∷ h,
          rw (long, same, read16-in m (delta + field) h (omega arith)) refl,
          (holds, omega arith),
        )
    | inr short ↦ (none, h, rw short refl, ground arith)
  ]

  -- With the capability inside the mapping, the reading throws nothing, the address has six bytes,
  -- and each of the other fields is there exactly where the capability holds its two bytes.
  read_virtio_net_config-IsView :
      (h : History)
      → (view : VirtioNetConfigView) × (g : History) × (read_virtio_net_config m delta cfg_length h
          ≡ (ok view, g))
        × (length view.mac ≡ 6)
        × IsField cfg_length 6 view.status
        × IsField cfg_length 8 view.max_virtqueue_pairs
        × IsField cfg_length 10 view.mtu
  unfolding read_virtio_net_config
  read_virtio_net_config-IsView h =
      let (mac, h1, mac_run, six) = mac_read h in
      let (status, h2, status_run, status_in) = read_field-IsField 6 h1 (omega arith) in
      let (pairs, h3, pairs_run, pairs_in) = read_field-IsField 8 h2 (omega arith) in
      let (mtu, h4, mtu_run, mtu_in) = read_field-IsField 10 h3 (omega arith) in
      (
        record { mac = mac; status = status; max_virtqueue_pairs = pairs; mtu = mtu },
        h4,
        rw (mac_run, status_run, pairs_run, mtu_run) refl,
        six,
        status_in,
        pairs_in,
        mtu_in,
      )
    where
      mac_read :
          (h : History)
          → (mac : List ℕ) × (g : History) × ((if leb 6 cfg_length
                  then read_mac m delta 0 6
                  else pure (replicate 6 0))
                h
              ≡ (ok mac, g))
            × (length mac ≡ 6)
      mac_read h = elim (Bool-cases (leb 6 cfg_length)) [
        | inl long ↦ rw long (read_mac-length 0 6 h (ground arith))
        | inr short ↦ (replicate 6 0, h, rw short refl, refl)
      ]
