-- ===== src/Capabilities/Tests.antt =====
-- A device with two virtio capabilities, the second of which links back to the first.
use advcpp.Prelude.{
  ℕ, ◌+◌, ◌-◌, ◌≡◌, refl, bit_and, List, [], ◌∷◌, ◌++◌, get_or, ltb, ◌==◌, if◌then◌else◌, arith, ok,
  err, none, some, inr,
}
use advcpp.Prelude.{cap_chain_truncated, sparse_list_truncated}
use advcpp.Memory.{Memory, read_le}
use advcpp.Packet.{read_bytes}
use advcpp.Region.{VirtioCap}
use advcpp.Config.{
  got, Pread, ConfigRegion, read_loop, pread_exact, read_config_bytes, read_config_u8,
  read_config_le16, read_config_le32,
}
use advcpp.Capabilities.{
  config_reads, read_location, read_multiplier, read_virtio_cap, read_cap, is_visited, walk_caps,
  read_virtio_caps, read_region_cap, sparse_areas, parse_caps_from, parse_region_caps,
}
use advcpp.Capabilities.Chain.{Chain, Answered, listed, read_virtio_caps-listed}
use advcpp.Capabilities.Sparse.{parse_region_caps-loops}

abbrev notify_bytes : List ℕ
notify_bytes =
    9 ∷ 0x54 ∷ 20 ∷ 2 ∷ 4 ∷ 0 ∷ 0 ∷ 0 ∷ 0 ∷ 0x30 ∷ 0 ∷ 0 ∷ 0 ∷ 0x10 ∷ 0 ∷ 0 ∷ 4 ∷ 0 ∷ 0 ∷ 0 ∷ []

abbrev common_bytes : List ℕ
common_bytes = 9 ∷ 0x40 ∷ 16 ∷ 1 ∷ 4 ∷ 0 ∷ 0 ∷ 0 ∷ 0 ∷ 0 ∷ 0 ∷ 0 ∷ 56 ∷ 0 ∷ 0 ∷ 0 ∷ []

abbrev space : Memory
space x =
    if ltb x 0x40
    then (if x == 6 then 0x10 else if x == 0x34 then 0x40 else 0)
    else get_or (notify_bytes ++ common_bytes) (x - 0x40) 0

abbrev all_at_once : Pread
all_at_once k n o = got (read_bytes n o space)

abbrev config : ConfigRegion
config = record { offset = 0; size = 256 }

abbrev notify_cap : VirtioCap
notify_cap = record {
  cfg_type = 2;
  bar = 4;
  offset = 0x3000;
  length = 0x1000;
  notify_off_multiplier = 4;
}

abbrev common_cap : VirtioCap
common_cap = record { cfg_type = 1; bar = 4; offset = 0; length = 56; notify_off_multiplier = 0 }

abbrev cap_at : ℕ → List VirtioCap
cap_at pos = if pos == 0x40 then notify_cap ∷ [] else common_cap ∷ []

found_both : read_virtio_caps all_at_once 1 config ≡ some (ok (notify_cap ∷ common_cap ∷ []))
unfolding read_virtio_caps walk_caps is_visited read_cap read_virtio_cap read_location
    read_multiplier read_config_u8 read_config_le16 read_config_le32 read_config_bytes pread_exact
    read_loop read_bytes
found_both = refl

status_read : read_config_le16 all_at_once 1 config 6 ≡ some (ok 0x10)
unfolding read_config_le16 read_config_bytes pread_exact read_loop read_bytes
status_read = refl

first_read : read_config_u8 all_at_once 1 config 0x34 ≡ some (ok (space 0x34))
unfolding read_config_u8 read_config_bytes pread_exact read_loop read_bytes
first_read = refl

space-Chain : Chain space 256 [] (space 0x34) (0x40 ∷ 0x54 ∷ [])
unfolding is_visited
space-Chain = (
  omega arith,
  refl,
  omega arith,
  omega arith,
  refl,
  (omega arith, refl, omega arith, omega arith, refl, inr (inr (inr refl))),
)

space-Answered : Answered (config_reads all_at_once 1 config) space 256 cap_at (0x40 ∷ 0x54 ∷ [])
unfolding read_cap read_virtio_cap read_location read_multiplier read_config_u8 read_config_le32
    read_config_bytes pread_exact read_loop read_bytes
space-Answered = (refl, refl, refl, (refl, refl, refl, tt))

read_virtio_caps-listed_example :
    read_virtio_caps all_at_once 1 config
    ≡ some (ok (if bit_and 0x10 0x10 == 0 then [] else listed cap_at (0x40 ∷ 0x54 ∷ [])))
read_virtio_caps-listed_example =
    read_virtio_caps-listed all_at_once 1 config space 0x10 cap_at (0x40 ∷ 0x54 ∷ []) status_read
      first_read space-Chain space-Answered (omega arith)

-- A sparse capability at 32 with one area.
abbrev region : Memory
region x =
    if x == 32
    then 1
    else if x == 40
    then 1
    else if x == 49
    then 0x10
    else if x == 57
    then 0x20
    else 0

one_area :
    (parse_region_caps 2 8 32 region 64
      ≡ some (ok (record { offset = 0x1000; size = 0x2000 } ∷ [])))
    × (parse_region_caps 2 8 32 region 63 ≡ some (err sparse_list_truncated))
    × (parse_region_caps 2 8 60 region 64 ≡ some (err cap_chain_truncated))
unfolding parse_region_caps parse_caps_from read_region_cap sparse_areas read_le
one_area = (refl, refl, refl)

-- A capability of another kind at 32 that links to itself.
abbrev looping : Memory
looping x = if x == 32 then 2 else if x == 36 then 32 else 0

links_back : (read_region_cap looping 64 32 ≡ ok []) × (read_le 4 (32 + 4) looping ≡ 32)
unfolding read_region_cap read_le
links_back = (refl, refl)

parse_region_caps-loops_example : parse_region_caps 1000 8 32 looping 64 ≡ none
parse_region_caps-loops_example =
    parse_region_caps-loops looping 64 8 32 (λ e. absurd (omega arith)) (λ e. absurd (omega arith))
      links_back.0 links_back.1 1000
