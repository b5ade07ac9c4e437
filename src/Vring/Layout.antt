-- ===== src/Vring/Layout.antt =====
-- The layout of a queue: what `compute_vring_layout` guarantees, and when it throws.
use advcpp.Prelude.{
  ℕ, ◌+◌, ◌-◌, ◌*◌, ◌^◌, ◌≤◌, ◌<◌, ◌≡◌, ◌↔◌, inl, inr, true, some, arith, u32, u64, u16_max,
  size_max, ok, Result-cases,
}
use native.Mathlib.Nat.{one-le-pow, pow-le-pow_right}
use advcpp.Sizes.{is_power_of_two, align_up}
use advcpp.Sizes.Power.{PowerOfTwo, is_power_of_two_iff, is_power_of_two-pow}
use advcpp.Sizes.Laws.{IsAligned, align_up-ok, align_up-IsAligned, rounded-IsAligned, PowerOfTwo-le}
use advcpp.Vring.{VringLayout, compute_vring_layout, choose_queue_size}

-- The split layout of the virtio standard: the descriptor table, then the available ring behind
-- it, then the used ring at the next multiple of the alignment, all inside `total_size`.
pub record IsSplit (q align : ℕ) (l : VringLayout) : Type 0 where
  pub queue : l.queue_size ≡ q
  pub power : PowerOfTwo q
  pub desc_at : l.desc_offset ≡ 0
  pub desc_bytes : l.desc_size ≡ 16 * q
  pub avail_at : l.avail_offset ≡ 16 * q
  pub avail_bytes : l.avail_size ≡ 6 + 2 * q
  pub used_at : IsAligned (18 * q + 6) align l.used_offset
  pub used_bytes : l.used_size ≡ 6 + 8 * q
  pub total : l.total_size ≡ l.used_offset + (6 + 8 * q)
  pub fits : l.total_size ≤ size_max

pub compute_vring_layout-power :
    (q a : ℕ) {l : VringLayout} → compute_vring_layout q a ≡ ok l → is_power_of_two q ≡ true
unfolding compute_vring_layout
compute_vring_layout-power q a h = ground arith

compute_vring_layout-used :
    (q a : ℕ) {l : VringLayout}
    → q ≤ u16_max
    → compute_vring_layout q a ≡ ok l
    → align_up (18 * q + 6) a ≡ ok l.used_offset
unfolding compute_vring_layout
compute_vring_layout-used q a hq h =
    let e : u64 (u64 (0 + u64 (16 * q)) + u64 (2 * u32 (3 + q))) ≡ 18 * q + 6 = omega arith in
    rw (← e) (ground arith)

-- Every layout that `compute_vring_layout` returns for a 16-bit queue size is the split layout,
-- and no size wraps.
pub compute_vring_layout-IsSplit :
    (q a : ℕ) {l : VringLayout}
    → q ≤ u16_max
    → a ≤ size_max
    → compute_vring_layout q a ≡ ok l
    → IsSplit q a l
unfolding compute_vring_layout
compute_vring_layout-IsSplit q a {l} hq ha h =
    let power = (is_power_of_two_iff q).0 (compute_vring_layout-power q a h) in
    let (pa, used) = align_up-ok (18 * q + 6) a ha (compute_vring_layout-used q a hq h) in
    let small : a ≤ 2 ^ 63 = PowerOfTwo-le a pa ha in
    let below : l.used_offset < 18 * q + 6 + a = used.below in
    record {
      queue = ground arith;
      power = power;
      desc_at = ground arith;
      desc_bytes = ground arith;
      avail_at = ground arith;
      avail_bytes = ground arith;
      used_at = used;
      used_bytes = ground arith;
      total = ground arith;
      fits = ground arith;
    }

accepted_used : (j q : ℕ) → j < 64 → q ≤ u16_max → (r : ℕ) × (align_up (18 * q + 6) (2 ^ j) ≡ ok r)
accepted_used j q hj hq =
    let pos : 1 ≤ 2 ^ j = one-le-pow j 2 (omega arith) in
    let small : 2 ^ j ≤ 2 ^ 63 =
      pow-le-pow_right {n = 2} (omega arith) {i = j} {j = 63} (omega arith) in
    let room : 18 * q + 6 + (2 ^ j - 1) ≤ size_max = omega arith in
    (_, align_up-IsAligned j (18 * q + 6) _ hj (rounded-IsAligned (18 * q + 6) (2 ^ j) pos room))

-- Every 16-bit power of two is accepted as a queue size, with every power of two as alignment.
compute_vring_layout-total :
    (k j : ℕ)
    → 2 ^ k ≤ u16_max
    → j < 64
    → (l : VringLayout) × (compute_vring_layout (2 ^ k) (2 ^ j) ≡ ok l)
unfolding compute_vring_layout
compute_vring_layout-total k j hq hj =
    let e : u64 (u64 (0 + u64 (16 * 2 ^ k)) + u64 (2 * u32 (3 + 2 ^ k))) ≡ 18 * 2 ^ k + 6 =
      omega arith in
    let (r, used) = accepted_used j (2 ^ k) hj hq in
    let run : align_up (u64 (u64 (0 + u64 (16 * 2 ^ k)) + u64 (2 * u32 (3 + 2 ^ k)))) (2 ^ j)
        ≡ ok r =
      rw e used in
    elim (Result-cases (compute_vring_layout (2 ^ k) (2 ^ j))) [
      | inl found ↦ found
      | inr (_, failed) ↦
          absurd (ground (arith, is_power_of_two-pow k, one-le-pow k 2 (omega arith)))
    ]

PowerOfTwo-pos : (n : ℕ) → PowerOfTwo n → 0 < n
PowerOfTwo-pos n (k, e) = omega (arith, one-le-pow k 2 (omega arith))

-- A chosen queue size is a power of two within the size of the device's queue; it is the requested
-- one where there is one, and every such request is granted.
pub choose_queue_size_iff :
    (device requested chosen : ℕ)
    → (choose_queue_size device (some requested) ≡ ok chosen)
      ↔ ((chosen ≡ requested) × (chosen ≤ device) × PowerOfTwo chosen)
unfolding choose_queue_size
choose_queue_size_iff device requested chosen = (
  λ h. (ground arith, ground arith, (is_power_of_two_iff chosen).0 (ground arith)),
  λ (e, le, p). ground (arith, (is_power_of_two_iff chosen).1 p, PowerOfTwo-pos chosen p),
)
