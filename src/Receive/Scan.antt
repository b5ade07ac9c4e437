-- ===== src/Receive/Scan.antt =====
-- The scan of the used ring: it returns the first entry that is accepted, and goes on where it
-- stopped, so that no entry is skipped or seen twice.
use advcpp.Prelude.{
  ℕ, zero, suc, ◌+◌, ◌%◌, ◌≤◌, ◌<◌, ◌≡◌, sym, ap, ◌∙◌, inl, inr, Option, none, some, arith,
  Option-cases, u16_max,
}
use native.Mathlib.Nat.{mod-eq_of_lt, mod-lt}
use advcpp.Memory.{Memory}
use advcpp.Sizes.Power.{PowerOfTwo}
use advcpp.Vring.{VringLayout}
use advcpp.Dma.{DmaLayout}
use advcpp.Ring.Recycle.{slot_wrap}
use advcpp.Receive.{ReceivedPacket, used_delta, read_rx_used_packet, scan_used, used_slot_at}

-- The number of entries is exact below the range of the index, over its wrap-around too.
pub used_delta-add :
    (before n : ℕ) → before < 65536 → n < 65536 → used_delta before ((before + n) % 65536) ≡ n
unfolding used_delta
used_delta-add before n hb hn = omega arith

-- Going on from the index that was read, the scan has advanced by exactly the entries it saw.
pub used_delta-lands :
    (before after : ℕ)
    → before < 65536
    → after < 65536
    → (before + used_delta before after) % 65536 ≡ after
unfolding used_delta
used_delta-lands before after hb ha = omega arith

-- The slot that is looked at is that of the device's 16-bit index, over its wrap-around too.
pub used_slot_at-wrap :
    (l : VringLayout) (q base i : ℕ)
    → l.queue_size ≡ q
    → PowerOfTwo q
    → q ≤ u16_max
    → 0 < q
    → used_slot_at l base i ≡ (base + i) % 65536 % q
used_slot_at-wrap l q base i e p h pos =
    let small : (base + i) % q < 65536 = omega (arith, mod-lt (base + i) pos) in
    rw e (mod-eq_of_lt small ∙ sym (slot_wrap q (base + i) p h))

module _ (m : Memory) (base : ℕ) (l : DmaLayout) (idx buffers size : ℕ) (wanted : Option ℕ) where
  abbrev entry : ℕ → Option ReceivedPacket
  entry i = read_rx_used_packet m base l (used_slot_at l.rx_vring idx i) buffers size wanted

  -- The first of the `left` entries from `i` on that is accepted.
  pub data First (i left : ℕ) : Option ReceivedPacket → Type 0 where
    nothing : ((k : ℕ) → k < left → entry (i + k) ≡ none) → First i left none
    found :
        {p : ReceivedPacket} (k : ℕ)
        → k < left
        → ((j : ℕ) → j < k → entry (i + j) ≡ none)
        → entry (i + k) ≡ some p
        → First i left (some p)

  First-cons :
      (i left : ℕ) {r : Option ReceivedPacket}
      → entry i ≡ none
      → First (i + 1) left r
      → First i (suc left) r
  First-cons i left miss (nothing all) = nothing go
    where
      go : (k : ℕ) → k < suc left → entry (i + k) ≡ none
      go zero h = ap entry (omega arith) ∙ miss
      go (suc k) h = ap entry (omega arith) ∙ all k (omega arith)
  First-cons i left miss (found k hk before hit) =
      found (suc k) (omega arith) go (ap entry (omega arith) ∙ hit)
    where
      go : (j : ℕ) → j < suc k → entry (i + j) ≡ none
      go zero h = ap entry (omega arith) ∙ miss
      go (suc j) h = ap entry (omega arith) ∙ before j (omega arith)

  -- The scan returns the first accepted entry, and nothing only where no entry is accepted.
  scan_used-First : (i left : ℕ) → First i left (scan_used m base l idx buffers size wanted i left)
  unfolding scan_used
  scan_used-First i zero = nothing (λ k h. elim h [ ])
  scan_used-First i (suc left) = elim (Option-cases (entry i)) [
    | inl miss ↦ rw (miss, scan_used) (First-cons i left miss (scan_used-First (i + 1) left))
    | inr (p, hit) ↦
        rw (hit, scan_used)
          (found 0 (omega arith) (λ j h. elim h [ ]) (ap entry (omega arith) ∙ hit))
  ]
