-- ===== src/Packet/Reply.antt =====
-- The reply to a received frame, byte by byte.
use advcpp.Prelude.{
  ℕ, ◌+◌, ◌-◌, ◌≤◌, ◌<◌, max, ◌≡◌, refl, sym, ap, ◌∙◌, ◌⊎◌, List, ◌++◌, arith, length, replicate,
  ok, drop, ltb, false, le→ltb-false,
}
use advcpp.Memory.{Memory}
use advcpp.Packet.{memset, copy_bytes, read_bytes, tx_reply_size_for_rx, build_tx_reply_from_rx}
use advcpp.Packet.Bytes.{
  read_bytes-ext, length-read_bytes, read_bytes-copied, read_bytes-beside, read_bytes-memset,
  read_bytes-copied_from, drop-read_bytes,
}
use advcpp.Packet.Build.{frame_of, copy-outside, memset-outside}

module _ (tx size rx used : ℕ) (mac : List ℕ) (m : Memory) (six : length mac ≡ 6)
    (headers : 26 ≤ used) (room : 12 + max (used - 12) 60 ≤ size)
    (apart : (rx + used ≤ tx) ⊎ (tx + size ≤ rx)) where
  cleared : Memory
  cleared = memset tx 0 size m

  frame : List ℕ
  frame = read_bytes (used - 12) (rx + 12) cleared

  copied : Memory
  copied = copy_bytes (tx + 12) frame cleared

  dst : List ℕ
  dst = read_bytes 6 (rx + 12 + 6) copied

  with_dst : Memory
  with_dst = copy_bytes (tx + 12) dst copied

  abbrev replied : Memory
  replied = copy_bytes (tx + 12 + 6) mac with_dst

  length-frame : length frame ≡ used - 12
  unfolding frame
  length-frame = length-read_bytes (used - 12) (rx + 12) cleared

  length-dst : length dst ≡ 6
  unfolding dst
  length-dst = length-read_bytes 6 (rx + 12 + 6) copied

  -- The received frame is where it was after the buffer was cleared.
  received : (n a : ℕ) → rx ≤ a → a + n ≤ rx + used → read_bytes n a cleared ≡ read_bytes n a m
  unfolding cleared
  received n a lo hi =
      read_bytes-ext n a cleared m (λ x h1 h2. memset-outside x tx 0 size m (omega arith))

  cleared_bytes :
      (n a : ℕ)
      → tx ≤ a
      → a + n ≤ tx + size
      → (a + n ≤ tx + 12) ⊎ (tx + used ≤ a)
      → read_bytes n a replied ≡ replicate n 0
  unfolding with_dst copied cleared
  cleared_bytes n a lo hi h =
      read_bytes-beside n a (tx + 12 + 6) mac with_dst (omega arith)
      ∙ read_bytes-beside n a (tx + 12) dst copied (omega (arith, length-dst))
      ∙ read_bytes-beside n a (tx + 12) frame cleared (omega (arith, length-frame))
      ∙ read_bytes-memset n a tx size 0 m lo hi

  dst_bytes : read_bytes 6 (tx + 12) replied ≡ read_bytes 6 (rx + 18) m
  unfolding with_dst dst copied
  dst_bytes =
      let e : rx + 12 + 6 ≡ rx + 18 = omega arith in
      read_bytes-beside 6 (tx + 12) (tx + 12 + 6) mac with_dst (omega arith)
      ∙ read_bytes-copied 6 (tx + 12) dst copied (sym length-dst)
      ∙ read_bytes-beside 6 (rx + 12 + 6) (tx + 12) frame cleared (omega (arith, length-frame))
      ∙ received 6 (rx + 12 + 6) (omega arith) (omega arith)
      ∙ ap (λ (t : ℕ). read_bytes 6 t m) e

  src_bytes : read_bytes 6 (tx + 18) replied ≡ mac
  src_bytes =
      let e : tx + 18 ≡ tx + 12 + 6 = omega arith in
      ap (λ (t : ℕ). read_bytes 6 t replied) e
      ∙ read_bytes-copied 6 (tx + 12 + 6) mac with_dst (sym six)

  body_bytes : read_bytes (used - 24) (tx + 24) replied ≡ read_bytes (used - 24) (rx + 24) m
  unfolding with_dst copied frame
  body_bytes =
      let n = used - 24 in
      let e : tx + 24 ≡ tx + 12 + 12 = omega arith in
      let f : used - 12 ≡ 12 + n = omega arith in
      let g : rx + 12 + 12 ≡ rx + 24 = omega arith in
      read_bytes-beside n (tx + 24) (tx + 12 + 6) mac with_dst (omega arith)
      ∙ read_bytes-beside n (tx + 24) (tx + 12) dst copied (omega (arith, length-dst))
      ∙ ap (λ (t : ℕ). read_bytes n t copied) e
      ∙ read_bytes-copied_from n (tx + 12) 12 frame cleared (omega (arith, length-frame))
      ∙ ap (λ (t : ℕ). drop 12 (read_bytes t (rx + 12) cleared)) f
      ∙ drop-read_bytes 12 n (rx + 12) cleared
      ∙ received n (rx + 12 + 12) (omega arith) (omega arith)
      ∙ ap (λ (t : ℕ). read_bytes n t m) g

  replied_frame :
      let total = 12 + max (used - 12) 60 in
      read_bytes total tx replied
      ≡ replicate 12 0
        ++ (read_bytes 6 (rx + 18) m
            ++ (mac
                ++ (read_bytes (used - 24) (rx + 24) m ++ replicate (total - 24 - (used - 24)) 0)))
  replied_frame =
      let total = 12 + max (used - 12) 60 in
      frame_of total (used - 24) tx replied (omega arith)
        (cleared_bytes 12 tx (omega arith) (omega arith) (omega arith)) dst_bytes src_bytes
        body_bytes
        (cleared_bytes (total - 24 - (used - 24)) (tx + 24 + (used - 24)) (omega arith)
          (omega arith) (omega arith))

  replied_outside : (x : ℕ) → (x < tx) ⊎ (tx + size ≤ x) → replied x ≡ m x
  unfolding with_dst copied cleared
  replied_outside x out =
      copy-outside x (tx + 12 + 6) mac with_dst (omega arith)
      ∙ copy-outside x (tx + 12) dst copied (omega (arith, length-dst))
      ∙ copy-outside x (tx + 12) frame cleared (omega (arith, length-frame))
      ∙ memset-outside x tx 0 size m out

  -- The reply is built, and no byte outside its buffer changes.
  pub build_tx_reply_from_rx-replied :
      let total = 12 + max (used - 12) 60 in
      (m' : Memory) × (build_tx_reply_from_rx tx size rx used mac m ≡ ok (total, m'))
      × (read_bytes total tx m'
          ≡ replicate 12 0
            ++ (read_bytes 6 (rx + 18) m
                ++ (mac
                    ++ (read_bytes (used - 24) (rx + 24) m
                        ++ replicate (total - 24 - (used - 24)) 0))))
      × ((x : ℕ) → (x < tx) ⊎ (tx + size ≤ x) → m' x ≡ m x)
  unfolding build_tx_reply_from_rx tx_reply_size_for_rx with_dst copied cleared frame dst
  build_tx_reply_from_rx-replied =
      let short : ltb used 26 ≡ false = le→ltb-false used 26 headers in
      let large : ltb size (12 + max (used - 12) 60) ≡ false = le→ltb-false size _ room in
      (replied, rw (short, large) refl, replied_frame, replied_outside)

  -- `build_tx_reply_from_rx` answers a frame with both headers, where the reply fits a buffer apart
  -- from the received one: its length is that of the frame padded to 60 bytes behind the
  -- virtio-net header, it is sent to the sender of the received frame from the given address, it
  -- carries the type and payload received and zeros behind them, and every byte outside the buffer
  -- is as before.
  pub build_tx_reply_from_rx-frame :
      (x : ℕ)
      → (x < tx) ⊎ (tx + size ≤ x)
      → let total = 12 + max (used - 12) 60 in
        (m' : Memory) × (build_tx_reply_from_rx tx size rx used mac m ≡ ok (total, m'))
        × (read_bytes total tx m'
            ≡ replicate 12 0
              ++ (read_bytes 6 (rx + 18) m
                  ++ (mac
                      ++ (read_bytes (used - 24) (rx + 24) m
                          ++ replicate (total - 24 - (used - 24)) 0))))
        × (m' x ≡ m x)
  build_tx_reply_from_rx-frame x out =
      let (m', built, bytes, outside) = build_tx_reply_from_rx-replied in
      (m', built, bytes, outside x out)
