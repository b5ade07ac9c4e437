-- ===== src/Capabilities/Chain.antt =====
-- The list of capabilities as the device has linked it, and what the loop makes of it.
use advcpp.Prelude.{
  ℕ, zero, suc, ◌+◌, ◌-◌, ◌%◌, ◌≤◌, ◌<◌, ◌≡◌, ◌≢◌, refl, bit_and, true, false, ◌||◌, some, List, [],
  ◌∷◌, ◌++◌, ltb, ◌==◌, length, inl, inr, Bool-cases, if◌then◌else◌, ok, arith, ◌⊎◌,
}
use advcpp.Memory.{Memory}
use advcpp.Region.{VirtioCap}
use advcpp.Config.{Pread, ConfigRegion, read_config_u8, read_config_le16}
use advcpp.Capabilities.{Reads, read_cap, is_visited, walk_caps, config_reads, read_virtio_caps}

-- The positions that are linked from `ptr` on: each is a multiple of 4 behind the header of the
-- configuration space, its own header lies in the region, and none comes twice. The list ends with
-- a null pointer, with one that leads to no such position, or with one that leads back.
abbrev pub Chain : Memory → ℕ → List ℕ → ℕ → List ℕ → Type 0
Chain bytes size visited ptr [] =
    let pos = ptr - ptr % 4 in
    (ptr ≡ 0) ⊎ ((pos < 0x40) ⊎ ((size < pos + 2) ⊎ (is_visited pos visited ≡ true)))
Chain bytes size visited ptr (pos ∷ later) =
    (ptr ≢ 0)
    × (pos ≡ ptr - ptr % 4)
    × (0x40 ≤ pos)
    × (pos + 2 ≤ size)
    × (is_visited pos visited ≡ false)
    × Chain bytes size (pos ∷ visited) (bytes (pos + 1)) later

-- Each position is read without an error, and its capability adds `caps pos`.
abbrev pub Answered : Reads → Memory → ℕ → (ℕ → List VirtioCap) → List ℕ → Type 0
Answered r bytes size caps [] = Unit {0}
Answered r bytes size caps (pos ∷ later) =
    (r.u8_at pos ≡ some (ok (bytes pos)))
    × (r.u8_at (pos + 1) ≡ some (ok (bytes (pos + 1))))
    × (read_cap r size pos (bytes pos) ≡ some (ok (caps pos)))
    × Answered r bytes size caps later

-- What all of them add, in the order of the list.
pub listed : (ℕ → List VirtioCap) → List ℕ → List VirtioCap
listed caps [] = []
listed caps (pos ∷ later) = caps pos ++ listed caps later

module _ (r : Reads) (bytes : Memory) (size : ℕ) (caps : ℕ → List VirtioCap) where
  walk_caps-end :
      (hops ptr : ℕ) (visited : List ℕ)
      → Chain bytes size visited ptr []
      → walk_caps r size hops visited ptr ≡ some (ok [])
  unfolding walk_caps
  walk_caps-end zero ptr visited chain = refl
  walk_caps-end (suc hops) ptr visited chain = ground arith

  -- A list of at most as many capabilities as there are hops is read to its end: the result is what
  -- each of them adds, in order.
  pub walk_caps-listed :
      (hops ptr : ℕ) (visited positions : List ℕ)
      → Chain bytes size visited ptr positions
      → Answered r bytes size caps positions
      → length positions ≤ hops
      → walk_caps r size hops visited ptr ≡ some (ok (listed caps positions))
  unfolding walk_caps listed
  walk_caps-listed hops ptr visited [] chain a h = walk_caps-end hops ptr visited chain
  walk_caps-listed zero ptr visited (pos ∷ later) chain a h = absurd (omega arith)
  walk_caps-listed (suc hops) ptr visited (pos ∷ later) (more, at, low, room, new, chain)
        (id, link, found, a) h =
      let rest =
        walk_caps-listed hops (bytes (pos + 1)) (pos ∷ visited) later chain a (omega arith) in
      let going : ptr == 0 ≡ false = ground arith in
      let inside : ltb pos 0x40 || ltb size (pos + 2) ≡ false = ground arith in
      rw (going, walk_caps, ← at, inside, new, id, link, found, rest) refl

-- The list of a device is found whole and in its order, where it has at most 64 capabilities and
-- each is read without an error; a list that leads back to itself or out of the configuration space
-- ends there. Without the bit of a capability list in the status word the result is empty.
pub read_virtio_caps-listed :
    (pread : Pread) (fuel : ℕ) (config : ConfigRegion) (bytes : Memory) (status : ℕ)
    (caps : ℕ → List VirtioCap) (positions : List ℕ)
    → read_config_le16 pread fuel config 6 ≡ some (ok status)
    → read_config_u8 pread fuel config 0x34 ≡ some (ok (bytes 0x34))
    → Chain bytes config.size [] (bytes 0x34) positions
    → Answered (config_reads pread fuel config) bytes config.size caps positions
    → length positions ≤ 64
    → read_virtio_caps pread fuel config
      ≡ some (ok (if bit_and status 0x10 == 0 then [] else listed caps positions))
unfolding read_virtio_caps
read_virtio_caps-listed pread fuel config bytes status caps positions es ep chain a h =
    let walked =
      walk_caps-listed (config_reads pread fuel config) bytes config.size caps 64 (bytes 0x34) []
        positions chain a h in
    elim (Bool-cases (bit_and status 0x10 == 0)) [
      | inl none_there ↦ rw (es, none_there) refl
      | inr there ↦ rw (es, there, ep, walked) refl
    ]
