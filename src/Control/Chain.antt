-- ===== src/Control/Chain.antt =====
-- A control command as the device sees it: the chain of descriptors and the bytes they lead to.
use advcpp.Prelude.{
  ℕ, zero, suc, ◌+◌, ◌%◌, ◌≤◌, ◌<◌, ◌≡◌, refl, ap, ◌∙◌, ◌⊎◌, List, [], ◌∷◌, arith, length, get_or,
  u64, size_max,
}
use advcpp.Memory.{Memory, Effect, read_le, write_le, perform}
use advcpp.Memory.Words.{read_le-write_le, read_le-write_ne, Within}
use advcpp.Vring.{VringDesc}
use advcpp.Vring.Layout.{IsSplit}
use advcpp.Ring.{put_desc, read_desc, vring_avail_ring, vring_avail_idx}
use advcpp.Ring.Publish.{read_desc-put_desc, read_desc-perform}
use advcpp.Dma.Control.{CtrlqDmaLayout}
use advcpp.Control.{link, put_bytes, publish_chain, three_links}

-- The queue holds one command: descriptor 0 for the header, 1 for `bytes` bytes of data and 2 for
-- the byte in which the device acknowledges it.
pub record Chained (base : ℕ) (l : CtrlqDmaLayout) (iova bytes : ℕ) (m : Memory) : Type 0 where
  pub header : read_desc m base l.ctrl_vring 0 ≡ link (iova + l.ctrl_hdr_offset) 2 1 1
  pub data_part : read_desc m base l.ctrl_vring 1 ≡ link (iova + l.ctrl_data_offset) bytes 1 2
  pub ack : read_desc m base l.ctrl_vring 2 ≡ link (iova + l.ctrl_ack_offset) 1 2 0
  pub head : read_le 2 (vring_avail_ring base l.ctrl_vring 0) m ≡ 0
  pub index : read_le 2 (vring_avail_idx base l.ctrl_vring) m ≡ 1

pub put_bytes-split :
    (a : ℕ) (bs : List ℕ) (rest : List Effect) (m : Memory)
    → perform (put_bytes a bs rest) m ≡ perform rest (perform (put_bytes a bs []) m)
unfolding perform
put_bytes-split a [] rest m = refl
put_bytes-split a (x ∷ bs) rest m = put_bytes-split (a + 1) bs rest (write_le 1 a x m)

pub put_bytes-outside :
    (k b a : ℕ) (bs : List ℕ) (rest : List Effect) (m : Memory)
    → (b + k ≤ a) ⊎ (a + length bs ≤ b)
    → ((m' : Memory) → read_le k b (perform rest m') ≡ read_le k b m')
    → read_le k b (perform (put_bytes a bs rest) m) ≡ read_le k b m
unfolding perform
put_bytes-outside k b a [] rest m h after = after m
put_bytes-outside k b a (x ∷ bs) rest m h after =
    put_bytes-outside k b (a + 1) bs rest (write_le 1 a x m) (omega arith) after
    ∙ read_le-write_ne k b 1 a x m (omega arith)

-- A byte that was stored is read back, where nothing behind it touches it.
pub put_bytes-byte :
    (i a : ℕ) (bs : List ℕ) (rest : List Effect) (m : Memory)
    → i < length bs
    → ((m' : Memory) → read_le 1 (a + i) (perform rest m') ≡ read_le 1 (a + i) m')
    → read_le 1 (a + i) (perform (put_bytes a bs rest) m) ≡ get_or bs i 0 % 256
unfolding perform
put_bytes-byte i a [] rest m h after = absurd (omega arith)
put_bytes-byte zero a (x ∷ bs) rest m h after =
    let e : a + 0 ≡ a = omega arith in
    put_bytes-outside 1 (a + 0) (a + 1) bs rest (write_le 1 a x m) (omega arith) after
    ∙ ap (λ (t : ℕ). read_le 1 t (write_le 1 a x m)) e
    ∙ read_le-write_le 1 a x m
put_bytes-byte (suc i) a (x ∷ bs) rest m h after =
    let e : a + suc i ≡ a + 1 + i = omega arith in
    rw e (
      put_bytes-byte i (a + 1) bs rest (write_le 1 a x m) (omega arith) (λ m'. rw (← e) (after m')))

module _ (base : ℕ) (l : CtrlqDmaLayout) (q align : ℕ) (split : IsSplit q align l.ctrl_vring)
    (slots : 3 ≤ q) (iova : ℕ) (room : iova + l.ctrl_ack_offset ≤ size_max)
    (data_at : l.ctrl_data_offset ≡ l.ctrl_hdr_offset + 2)
    (ack_at : l.ctrl_ack_offset ≡ l.ctrl_data_offset + l.ctrl_data_size) (bytes : ℕ)
    (size : bytes ≤ 4294967295) where
  abbrev header_link : VringDesc
  header_link = link (u64 (iova + l.ctrl_hdr_offset)) 2 1 1

  abbrev data_link : VringDesc
  data_link = link (u64 (iova + l.ctrl_data_offset)) bytes 1 2

  abbrev ack_link : VringDesc
  ack_link = link (u64 (iova + l.ctrl_ack_offset)) 1 2 0

  abbrev ring_start : ℕ
  ring_start = base + l.ctrl_vring.desc_offset

  abbrev ring_end : ℕ
  ring_end = base + l.ctrl_vring.total_size

  pub three_links-Within : Within ring_start ring_end (three_links base l iova bytes)
  three_links-Within =
      omega (arith, split.desc_at, split.avail_at, split.total, split.used_at.above)

  pub three_links-Chained :
      (m : Memory) → Chained base l iova bytes (perform (three_links base l iova bytes) m)
  unfolding perform
  three_links-Chained m =
      let ring = l.ctrl_vring in
      let m0 = perform (put_desc base ring 0 header_link []) m in
      let m1 = perform (put_desc base ring 1 data_link []) m0 in
      let m2 = perform (put_desc base ring 2 ack_link []) m1 in
      let last = publish_chain base ring in
      let at = base + ring.desc_offset in
      record {
        header =
            read_desc-perform base ring 0 (at + 16) ring_end
              (put_desc base ring 1 data_link (put_desc base ring 2 ack_link last)) m0
              (omega (arith, split.desc_at, split.avail_at, split.total, split.used_at.above))
              (omega arith)
            ∙ read_desc-put_desc base ring 0 header_link m (omega arith)
            ∙ ground arith;
        data_part =
            read_desc-perform base ring 1 (at + 32) ring_end (put_desc base ring 2 ack_link last) m1
              (omega (arith, split.desc_at, split.avail_at, split.total, split.used_at.above))
              (omega arith)
            ∙ read_desc-put_desc base ring 1 data_link m0 (omega arith)
            ∙ ground arith;
        ack =
            read_desc-perform base ring 2 (at + 48) ring_end last m2
              (omega (arith, split.desc_at, split.avail_at, split.total, split.used_at.above))
              (omega arith)
            ∙ read_desc-put_desc base ring 2 ack_link m1 (omega arith)
            ∙ ground arith;
        head =
            read_le-write_ne 2 (vring_avail_ring base ring 0) 2 (vring_avail_idx base ring) 1 _
              (omega arith)
            ∙ read_le-write_le 2 (vring_avail_ring base ring 0) 0 m2;
        index = read_le-write_le 2 (vring_avail_idx base ring) 1 _;
      }
