-- ===== src/Ring/Recycle.antt =====
-- The available ring as the device sees it: a queue of descriptors to which each publication adds
-- one at the end.
use native.Mathlib.Nat.{
  pow-le-pow_right, mod-lt, mod-mod_of_dvd, mod-add-mod, mod-eq_of_lt, mod-eq-sub-mod,
  dvd-mul_right,
}
use Prim.Native.Nat.{◌∣◌}
use native.Mathlib.Decide.{dec_lt}
use advcpp.Prelude.{
  ℕ, zero, suc, ◌+◌, ◌-◌, ◌*◌, ◌%◌, ◌^◌, ◌≤◌, ◌<◌, ◌≡◌, refl, sym, ap, ◌∙◌, subst, ◌≢◌, inl, inr,
  false, List, [], ◌∷◌, ◌++◌, arith, ltb, ◌==◌, if◌then◌else◌, Bool-cases, ltb→lt, ltb-false→le,
  le→ltb-false, ==→eq, u16, u32, u16_max, u32_max, size_max, ok,
}
use mathlib.Core.Path.{ap₂}
use advcpp.Memory.{Memory, Effect, read_le, write_le, perform}
use advcpp.Memory.Words.{read_le-write_le, read_le-write_ne, read_le-perform}
use advcpp.Sizes.Power.{PowerOfTwo}
use advcpp.Sizes.Laws.{two-pow-add}
use advcpp.Vring.{VringDesc, VringLayout}
use advcpp.Ring.Publish.{Fits, read_desc-put_desc, read_desc-perform}
use advcpp.Vring.Layout.{IsSplit}
use advcpp.Ring.{
  vring_descs, vring_avail_ring, vring_avail_idx, put_desc, read_desc, recycle_rx_buffer,
  publish_tx_packet,
}

-- The `n` descriptors that wait from index `seen` on, oldest first.
unfoldable pub pending : Memory → ℕ → VringLayout → ℕ → ℕ → List ℕ
pending m base layout seen zero = []
pending m base layout seen (suc n) =
    read_le 2 (vring_avail_ring base layout (seen % layout.queue_size)) m
    ∷ pending m base layout (seen + 1) n

-- A 16-bit queue size divides the range of the 16-bit indices, so slots survive their wrap.
PowerOfTwo-dvd : (q : ℕ) → PowerOfTwo q → q ≤ u16_max → q ∣ 65536
PowerOfTwo-dvd q (k, e) h = elim (Bool-cases (ltb k 16)) [
  | inl small ↦
      let below : k < 16 = ltb→lt k 16 small in
      let sum : k + (16 - k) ≡ 16 = omega arith in
      let split : 2 ^ k * 2 ^ (16 - k) ≡ 65536 =
        sym (two-pow-add k (16 - k)) ∙ ap (λ (t : ℕ). 2 ^ t) sum in
      rw e (subst (λ t. 2 ^ k ∣ t) split (dvd-mul_right (2 ^ k) (2 ^ (16 - k))))
  | inr large ↦ absurd (
      omega
        (arith, pow-le-pow_right {n = 2} (omega arith) {i = 16} {j = k} (ltb-false→le k 16 large)))
]

pub slot_wrap : (q i : ℕ) → PowerOfTwo q → q ≤ u16_max → i % 65536 % q ≡ i % q
slot_wrap q i p h = mod-mod_of_dvd q i (PowerOfTwo-dvd q p h)

-- Fewer than `q` steps on, the slot is another one.
step-mod-ne : (q r k : ℕ) → r < q → 0 < k → k < q → (r + k) % q ≢ r
step-mod-ne q r k hr h0 hk = elim (dec_lt (r + k) q) [
  | yes p ↦ omega (arith, mod-eq_of_lt p)
  | no p ↦
      let wrap : (r + k) % q ≡ (r + k - q) % q = mod-eq-sub-mod (omega arith) in
      let small : (r + k - q) % q ≡ r + k - q = mod-eq_of_lt (omega arith) in omega arith
]

slot-ne : (q s k : ℕ) → 0 < q → 0 < k → k < q → (s + k) % q ≢ s % q
slot-ne q s k hq h0 hk e = step-mod-ne q (s % q) k (mod-lt s hq) h0 hk (mod-add-mod s q k ∙ e)

module _ (base : ℕ) (l : VringLayout) (q align : ℕ) (split : IsSplit q align l) (hq : 0 < q)
    (bound : q ≤ u16_max) where
  -- The two stores that every publication ends in, at slot `slot`.
  abbrev appended : Memory → ℕ → ℕ → ℕ → Memory
  appended m slot id idx =
      write_le 2 (vring_avail_idx base l) idx (write_le 2 (vring_avail_ring base l slot) id m)

  slot_kept :
      (m : Memory) (slot id idx j : ℕ)
      → j ≢ slot
      → read_le 2 (vring_avail_ring base l j) (appended m slot id idx)
        ≡ read_le 2 (vring_avail_ring base l j) m
  slot_kept m slot id idx j ne =
      read_le-write_ne 2 (vring_avail_ring base l j) 2 (vring_avail_idx base l) idx _ (omega arith)
      ∙ read_le-write_ne 2 (vring_avail_ring base l j) 2 (vring_avail_ring base l slot) id m
          (omega arith)

  slot_written :
      (m : Memory) (slot id idx : ℕ)
      → id < 65536
      → read_le 2 (vring_avail_ring base l slot) (appended m slot id idx) ≡ id
  slot_written m slot id idx hid =
      read_le-write_ne 2 (vring_avail_ring base l slot) 2 (vring_avail_idx base l) idx _
        (omega arith)
      ∙ read_le-write_le 2 (vring_avail_ring base l slot) id m
      ∙ omega arith

  pending-appended :
      (m : Memory) (id idx seen n slot : ℕ)
      → id < 65536
      → n < q
      → slot ≡ (seen + n) % q
      → pending (appended m slot id idx) base l seen (suc n) ≡ pending m base l seen n ++ id ∷ []
  unfolding pending
  pending-appended m id idx seen zero slot hid hn e =
      let here : seen % l.queue_size ≡ slot =
        ap (λ t. seen % t) split.queue ∙ ap (λ (t : ℕ). t % q) (omega arith) ∙ sym e in
      rw here (ap (λ t. t ∷ []) (slot_written m slot id idx hid))
  pending-appended m id idx seen (suc n) slot hid hn e =
      let other : seen % l.queue_size ≢ slot = λ p.
        slot-ne q seen (suc n) hq (omega arith) hn
          (sym e ∙ sym p ∙ ap (λ t. seen % t) split.queue) in
      let shift : slot ≡ (seen + 1 + n) % q = e ∙ ap (λ (t : ℕ). t % q) (omega arith) in
      ap₂ ◌∷◌ (slot_kept m slot id idx (seen % l.queue_size) other)
        (pending-appended m id idx (seen + 1) n slot hid (omega arith) shift)

  -- The parts of the queue that a publication leaves alone: the descriptor table.
  desc_kept :
      (m : Memory) (slot id idx i : ℕ)
      → i < q
      → read_desc (appended m slot id idx) base l i ≡ read_desc m base l i
  unfolding read_desc
  desc_kept m slot id idx i hi = ground (arith, word 8 0, word 4 8, word 2 12, word 2 14)
    where
      word :
          (n k : ℕ)
          → k + n ≤ 16
          → read_le n (vring_descs base l i + k) (appended m slot id idx)
            ≡ read_le n (vring_descs base l i + k) m
      word n k h =
          read_le-write_ne n (vring_descs base l i + k) 2 (vring_avail_idx base l) idx _
            (omega arith)
          ∙ read_le-write_ne n (vring_descs base l i + k) 2 (vring_avail_ring base l slot) id m
              (omega arith)

  index_written :
      (m : Memory) (slot id i : ℕ)
      → read_le 2 (vring_avail_idx base l) (appended m slot id (u16 (i % 65536 + 1)))
        ≡ (i + 1) % 65536
  index_written m slot id i =
      read_le-write_le 2 (vring_avail_idx base l) (u16 (i % 65536 + 1)) _ ∙ omega arith

  -- `recycle_rx_buffer` gives a descriptor back to the device: behind those that wait, fewer than
  -- the size of the queue, it adds this one at the end, the index moves on by one with its
  -- wrap-around, and every descriptor of the table stays as it is.
  pub recycle_rx_buffer-appends :
      (m : Memory) (id seen n i : ℕ)
      → id < 65536
      → n < q
      → i < q
      → read_le 2 (vring_avail_idx base l) m ≡ (seen + n) % 65536
      → let m' = perform (recycle_rx_buffer m base l id) m in
        (pending m' base l seen (suc n) ≡ pending m base l seen n ++ id ∷ [])
        × (read_le 2 (vring_avail_idx base l) m' ≡ (seen + n + 1) % 65536)
        × (read_desc m' base l i ≡ read_desc m base l i)
  unfolding recycle_rx_buffer perform
  recycle_rx_buffer-appends m id seen n i hid hn hi e =
      let slot : (seen + n) % 65536 % l.queue_size ≡ (seen + n) % q =
        ap (λ t. (seen + n) % 65536 % t) split.queue ∙ slot_wrap q (seen + n) split.power bound in
      rw e (
        pending-appended m id _ seen n _ hid hn slot,
        index_written m _ id (seen + n),
        desc_kept m _ id _ i hi,
      )

  -- Filling a descriptor leaves the ring alone.
  pending-desc :
      (m : Memory) (i : ℕ) (d : VringDesc) (seen n : ℕ)
      → i < q
      → pending (perform (put_desc base l i d []) m) base l seen n ≡ pending m base l seen n
  unfolding pending
  pending-desc m i d seen zero hi = refl
  pending-desc m i d seen (suc n) hi =
      let at = vring_descs base l i in
      ap₂ ◌∷◌
        (read_le-perform 2 (vring_avail_ring base l (seen % l.queue_size)) at (at + 16)
          (put_desc base l i d []) m (omega arith) (omega arith))
        (pending-desc m i d (seen + 1) n hi)

  desc_filled :
      (m : Memory) (id i : ℕ) (d : VringDesc)
      → Fits d
      → id < q
      → i < q
      → read_desc (perform (put_desc base l id d []) m) base l i
        ≡ (if i == id then d else read_desc m base l i)
  desc_filled m id i d fits hid hi = elim (Bool-cases (i == id)) [
    | inl e ↦ rw (e, ==→eq i id e) (read_desc-put_desc base l id d m fits)
    | inr e ↦
        let at = vring_descs base l id in
        let ne : i ≢ id = ground arith in
        rw e (
          read_desc-perform base l i at (at + 16) (put_desc base l id d []) m (omega arith)
            (omega arith))
  ]

  -- `publish_tx_packet` adds a descriptor in the same way for a packet whose length fits 32 bits,
  -- and before that fills it with the packet's address and length; every other descriptor stays
  -- as it is.
  pub publish_tx_packet-appends :
      (m : Memory) (id iova size seen n i : ℕ)
      → id < q
      → n < q
      → i < q
      → iova ≤ size_max
      → size ≤ u32_max
      → read_le 2 (vring_avail_idx base l) m ≡ (seen + n) % 65536
      → (es : List Effect) × (publish_tx_packet m base l id iova size ≡ ok es)
        × (pending (perform es m) base l seen (suc n) ≡ pending m base l seen n ++ id ∷ [])
        × (read_le 2 (vring_avail_idx base l) (perform es m) ≡ (seen + n + 1) % 65536)
        × (read_desc (perform es m) base l i ≡ (
            if i == id
            then record { addr = iova; len = size; flags = 0; next = 0 }
            else read_desc m base l i))
  unfolding publish_tx_packet recycle_rx_buffer perform
  publish_tx_packet-appends m id iova size seen n i hid hn hi ha hs e =
      let d : VringDesc = record { addr = iova; len = u32 size; flags = 0; next = 0 } in
      let m1 = perform (put_desc base l id d []) m in
      let at = vring_descs base l id in
      let same : read_le 2 (vring_avail_idx base l) m1 ≡ (seen + n) % 65536 =
        read_le-perform 2 (vring_avail_idx base l) at (at + 16) (put_desc base l id d []) m
          (omega arith) (omega arith)
        ∙ e in
      let (waits, index, kept) =
        recycle_rx_buffer-appends m1 id seen n i (omega arith) hn hi same in
      let guard : ltb u32_max size ≡ false = le→ltb-false u32_max size hs in
      let fits : Fits d = omega arith in
      let len : d ≡ record { addr = iova; len = size; flags = 0; next = 0 } = ground arith in
      (
        put_desc base l id d (recycle_rx_buffer m1 base l id),
        rw (guard, e, same) refl,
        waits ∙ ap (λ t. t ++ id ∷ []) (pending-desc m id d seen n hid),
        index,
        kept
            ∙ desc_filled m id i d fits hid hi
            ∙ ap (λ t. if i == id then t else read_desc m base l i) len,
      )
