-- ===== src/Control/Commands.antt =====
-- The commands with one piece of data, as the device sees them when it is notified.
use advcpp.Prelude.{
  ℕ, ◌+◌, ◌%◌, ◌≤◌, ◌<◌, ◌≡◌, ap, ◌∙◌, Bool, if◌then◌else◌, List, [], ◌∷◌, arith, length, get_or,
  u32_max, size_max, ok,
}
use advcpp.Memory.{Memory, Effect, read_le, perform}
use advcpp.Memory.Words.{read_le-perform}
use advcpp.Vring.Layout.{IsSplit}
use advcpp.Dma.Control.{CtrlqDmaLayout}
use advcpp.Control.{
  put_bytes, three_links, publish_rx_promisc_control_command, publish_mac_addr_control_command,
}
use advcpp.Control.Chain.{
  Chained, put_bytes-outside, put_bytes-byte, put_bytes-split, three_links-Within,
  three_links-Chained,
}

-- One command: its class and number, its data, and no answer yet.
pub record Commanded (base : ℕ) (l : CtrlqDmaLayout) (iova class cmd : ℕ) (bytes : List ℕ)
    (m : Memory) : Type 0 where
  pub chained : Chained base l iova (length bytes) m
  pub class_at : read_le 1 l.ctrl_hdr_offset m ≡ class
  pub cmd_at : read_le 1 (l.ctrl_hdr_offset + 1) m ≡ cmd
  pub data_bytes :
      (i : ℕ) → i < length bytes → read_le 1 (l.ctrl_data_offset + i) m ≡ get_or bytes i 0 % 256
  pub unanswered : read_le 1 l.ctrl_ack_offset m ≡ 0xff

module _ (base : ℕ) (l : CtrlqDmaLayout) (q align : ℕ) (split : IsSplit q align l.ctrl_vring)
    (slots : 3 ≤ q) (iova : ℕ) (room : iova + l.ctrl_ack_offset ≤ size_max)
    (data_at : l.ctrl_data_offset ≡ l.ctrl_hdr_offset + 2)
    (ack_at : l.ctrl_ack_offset ≡ l.ctrl_data_offset + l.ctrl_data_size)
    (behind : base + l.ctrl_vring.total_size ≤ l.ctrl_hdr_offset) where
  abbrev command : ℕ → ℕ → List ℕ → List Effect
  command class cmd bytes = put_bytes l.ctrl_hdr_offset (class ∷ cmd ∷ []) (
      put_bytes l.ctrl_data_offset bytes
        (put_bytes l.ctrl_ack_offset (0xff ∷ []) (three_links base l iova (length bytes))))

  links_kept :
      (bytes : List ℕ) (a : ℕ) (m : Memory)
      → length bytes ≤ l.ctrl_data_size
      → length bytes ≤ u32_max
      → l.ctrl_hdr_offset ≤ a
      → read_le 1 a (perform (three_links base l iova (length bytes)) m) ≡ read_le 1 a m
  links_kept bytes a m fits small h =
      read_le-perform 1 a (base + l.ctrl_vring.desc_offset) (base + l.ctrl_vring.total_size) _ m
        (three_links-Within base l q align split slots iova room data_at ack_at (length bytes)
          small)
        (omega arith)

  command-Commanded :
      (class cmd : ℕ) (bytes : List ℕ) (m : Memory)
      → class < 256
      → cmd < 256
      → length bytes ≤ l.ctrl_data_size
      → length bytes ≤ u32_max
      → Commanded base l iova class cmd bytes (perform (command class cmd bytes) m)
  command-Commanded class cmd bytes m hclass hcmd fits small =
      let links = three_links base l iova (length bytes) in
      let acked = put_bytes l.ctrl_ack_offset (0xff ∷ []) links in
      let filled = put_bytes l.ctrl_data_offset bytes acked in
      let after_ack =
        λ (a : ℕ) (h : l.ctrl_hdr_offset ≤ a) (below : a < l.ctrl_ack_offset) (m' : Memory).
          put_bytes-outside 1 a l.ctrl_ack_offset (0xff ∷ []) links m' (omega arith)
            (λ n. links_kept bytes a n fits small h) in
      let after_data =
        λ (a : ℕ) (h : l.ctrl_hdr_offset ≤ a) (below : a < l.ctrl_data_offset) (m' : Memory).
          put_bytes-outside 1 a l.ctrl_data_offset bytes acked m' (omega arith)
            (after_ack a h (omega arith)) in
      let shift : l.ctrl_hdr_offset ≡ l.ctrl_hdr_offset + 0 = omega arith in
      let n1 = perform (put_bytes l.ctrl_hdr_offset (class ∷ cmd ∷ []) []) m in
      let n2 = perform (put_bytes l.ctrl_data_offset bytes []) n1 in
      let run1 : perform (command class cmd bytes) m ≡ perform filled n1 =
        put_bytes-split l.ctrl_hdr_offset (class ∷ cmd ∷ []) filled m in
      let run2 : perform filled n1 ≡ perform acked n2 =
        put_bytes-split l.ctrl_data_offset bytes acked n1 in
      let n3 = perform (put_bytes l.ctrl_ack_offset (0xff ∷ []) []) n2 in
      let run3 : perform acked n2 ≡ perform links n3 =
        put_bytes-split l.ctrl_ack_offset (0xff ∷ []) links n2 in
      let ack_shift : l.ctrl_ack_offset ≡ l.ctrl_ack_offset + 0 = omega arith in
      record {
        chained =
            rw (run1, run2, run3)
              (three_links-Chained base l q align split slots iova room data_at ack_at
                (length bytes) small n3);
        class_at =
            ap (λ (t : ℕ). read_le 1 t (perform (command class cmd bytes) m)) shift
            ∙ put_bytes-byte 0 l.ctrl_hdr_offset (class ∷ cmd ∷ []) filled m (omega arith)
                (after_data (l.ctrl_hdr_offset + 0) (omega arith) (omega arith))
            ∙ omega arith;
        cmd_at =
            put_bytes-byte 1 l.ctrl_hdr_offset (class ∷ cmd ∷ []) filled m (omega arith)
              (after_data (l.ctrl_hdr_offset + 1) (omega arith) (omega arith))
            ∙ omega arith;
        data_bytes = λ i h.
            ap (λ n. read_le 1 (l.ctrl_data_offset + i) n) run1
            ∙ put_bytes-byte i l.ctrl_data_offset bytes acked n1 h
                (after_ack (l.ctrl_data_offset + i) (omega arith) (omega arith));
        unanswered =
            ap (λ n. read_le 1 l.ctrl_ack_offset n) (run1 ∙ run2)
            ∙ ap (λ (t : ℕ). read_le 1 t (perform acked n2)) ack_shift
            ∙ put_bytes-byte 0 l.ctrl_ack_offset (0xff ∷ []) links n2 (omega arith)
                (λ n. links_kept bytes (l.ctrl_ack_offset + 0) n fits small (omega arith));
      }

  -- `publish_rx_promisc_control_command` with room for its data leaves a chain to the device whose
  -- header is class 0, command 0, whose data is the mode as one byte, and whose acknowledgement
  -- reads 0xff, behind available index 1.
  publish_rx_promisc_control_command-Commanded :
      (promisc : Bool) (m : Memory)
      → 1 ≤ l.ctrl_data_size
      → (es : List Effect) × (publish_rx_promisc_control_command base l iova promisc ≡ ok es)
        × Commanded base l iova 0 0 ((if promisc then 1 else 0) ∷ []) (perform es m)
  unfolding publish_rx_promisc_control_command
  publish_rx_promisc_control_command-Commanded promisc m fits = (
    command 0 0 ((if promisc then 1 else 0) ∷ []),
    ground arith,
    command-Commanded 0 0 ((if promisc then 1 else 0) ∷ []) m (omega arith) (omega arith) fits
        (omega arith),
  )

  -- Likewise `publish_mac_addr_control_command` with class 1, command 1 and the six bytes of the
  -- address as its data.
  pub publish_mac_addr_control_command-Commanded :
      (mac : List ℕ) (m : Memory)
      → length mac ≡ 6
      → 6 ≤ l.ctrl_data_size
      → (es : List Effect) × (publish_mac_addr_control_command base l iova mac ≡ ok es)
        × Commanded base l iova 1 1 mac (perform es m)
  unfolding publish_mac_addr_control_command
  publish_mac_addr_control_command-Commanded mac m six fits = (
    command 1 1 mac,
    ground (arith, six),
    command-Commanded 1 1 mac m (omega arith) (omega arith) (omega arith) (omega arith),
  )
