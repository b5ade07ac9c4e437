-- ===== src/Echo/Answer.antt =====
-- One answer, through all the parts: the reply in its buffer, the transmit queue that points to it,
-- and the receive queue that has its descriptor back.
use advcpp.Prelude.{
  ℕ, suc, ◌+◌, ◌-◌, ◌*◌, ◌%◌, ◌≤◌, ◌<◌, max, ◌≡◌, refl, ap, ◌∙◌, ◌⊎◌, inl, inr, List, [], ◌∷◌, ◌++◌,
  set, replicate, arith, if◌then◌else◌, leb, u16, u32, u64, size_max, ok,
}
use mathlib.Core.Path.{ap₂}
use advcpp.Memory.{Memory, Effect, read_le, perform}
use advcpp.Memory.Words.{Within}
use advcpp.Ring.{vring_avail_idx, read_desc, recycle_rx_buffer, publish_tx_packet}
use advcpp.Ring.Publish.{read_desc-perform}
use advcpp.Ring.Recycle.{pending, recycle_rx_buffer-appends, publish_tx_packet-appends}
use advcpp.Ring.Inside.{
  Agree, perform-outside, recycle_rx_buffer-Within, publish_tx_packet-Within, pending-ext,
  avail_idx-ext,
}
use advcpp.Packet.{read_bytes, build_tx_reply_from_rx}
use advcpp.Packet.Bytes.{read_bytes-ext}
use advcpp.Packet.Reply.{build_tx_reply_from_rx-replied}
use advcpp.Receive.{ReceivedPacket}
use advcpp.Receive.Safety.{IsInside, buffer_end}
use advcpp.Echo.{Setup, Echo, next, stop, rx_notify, tx_notify, recycle, echo_packet}
use advcpp.Echo.Slots.{taken}
use advcpp.Echo.Prepared.{IsPrepared, IsApart, IsPrepared-IsApart}

module _ (s : Setup) (page rxq txq align : ℕ) (ready : IsPrepared s page rxq txq align)
    (received : ReceivedPacket) (inside : IsInside s.layout s.rx_buffers s.rx_buffer_size received)
    (slot : ℕ) (in_pool : slot < s.tx_buffers) (c : Echo) where
  -- Where the reply is built, for the driver and for the device, and its length.
  abbrev pub tx_packet : ℕ
  tx_packet = s.layout.tx_buffers_offset + slot * s.rx_buffer_size

  abbrev pub tx_packet_iova : ℕ
  tx_packet_iova = s.tx_buffers_iova + slot * s.rx_buffer_size

  abbrev pub reply_len : ℕ
  reply_len = 12 + max (received.used_len - 12) 60

  -- The reply to what is in the receive buffer.
  abbrev pub reply : List ℕ
  reply =
      replicate 12 0
      ++ (read_bytes 6 (received.buffer + 18) c.memory
          ++ (s.reply_src_mac
              ++ (read_bytes (received.used_len - 24) (received.buffer + 24) c.memory
                  ++ replicate (reply_len - 24 - (received.used_len - 24)) 0)))

  abbrev apart : IsApart s rxq txq align
  apart = IsPrepared-IsApart s page rxq txq align ready

  tx_end_lem : slot * s.rx_buffer_size + s.rx_buffer_size ≤ s.tx_buffers * s.rx_buffer_size
  tx_end_lem = buffer_end slot s.tx_buffers s.rx_buffer_size in_pool

  reply_fits : reply_len ≤ s.rx_buffer_size
  reply_fits = omega (arith, ready.holds.smallest, inside.fits, apart.size)

  before_tx : received.buffer + received.used_len ≤ tx_packet
  before_tx = omega (arith, inside.inside, apart.bytes, apart.buffers_end)

  -- The memory after the reply is built, after it is published, and after the received descriptor
  -- is given back.
  module _ (m1 : Memory)
      (outside : (x : ℕ) → (x < tx_packet) ⊎ (tx_packet + s.rx_buffer_size ≤ x) → m1 x ≡ c.memory x)
      (es : List Effect)
      (stores : Within s.tx_queue_base (s.tx_queue_base + s.layout.tx_vring.total_size) es) where
    abbrev m2 : Memory
    m2 = perform es m1

    abbrev m3 : Memory
    m3 = perform (recycle_rx_buffer m2 s.rx_queue_base s.layout.rx_vring (u16 received.desc_id)) m2

    rx_stores :
        (id : ℕ)
        → Within s.rx_queue_base
            (s.rx_queue_base + s.layout.rx_vring.total_size)
            (recycle_rx_buffer m2 s.rx_queue_base s.layout.rx_vring id)
    rx_stores id =
        recycle_rx_buffer-Within s.rx_queue_base s.layout.rx_vring rxq align apart.rx
          (omega (arith, apart.count, inside.posted)) m2 id

    outside_rx :
        (x : ℕ)
        → (x < s.rx_queue_base) ⊎ (s.rx_queue_base + s.layout.rx_vring.total_size ≤ x)
        → m3 x ≡ m2 x
    outside_rx x =
        perform-outside x s.rx_queue_base (s.rx_queue_base + s.layout.rx_vring.total_size) _ m2
          (rx_stores (u16 received.desc_id))

    outside_tx :
        (x : ℕ)
        → (x < s.tx_queue_base) ⊎ (s.tx_queue_base + s.layout.tx_vring.total_size ≤ x)
        → m2 x ≡ m1 x
    outside_tx x =
        perform-outside x s.tx_queue_base (s.tx_queue_base + s.layout.tx_vring.total_size) es m1
          stores

    tx_as_before : Agree s.tx_queue_base s.layout.tx_vring.total_size m1 c.memory
    tx_as_before x lo hi = outside x (omega (arith, apart.tx_end, apart.buffers_end))

    tx_kept : Agree s.tx_queue_base s.layout.tx_vring.total_size m3 m2
    tx_kept x lo hi = outside_rx x (omega (arith, apart.rx_end))

    rx_as_before : Agree s.rx_queue_base s.layout.rx_vring.total_size m2 c.memory
    rx_as_before x lo hi =
        outside_tx x (omega (arith, apart.rx_end))
        ∙ outside x (omega (arith, apart.rx_end, apart.tx_end, apart.buffers_end))

    reply_kept : read_bytes reply_len tx_packet m3 ≡ read_bytes reply_len tx_packet m1
    reply_kept = read_bytes-ext reply_len tx_packet m3 m1 (λ x lo hi.
        outside_rx x (omega (arith, apart.rx_end, apart.tx_end, apart.buffers_end))
        ∙ outside_tx x (omega (arith, apart.tx_end, apart.buffers_end)))

    desc_kept :
        read_desc m3 s.tx_queue_base s.layout.tx_vring slot
        ≡ read_desc m2 s.tx_queue_base s.layout.tx_vring slot
    desc_kept =
        read_desc-perform s.tx_queue_base s.layout.tx_vring slot s.rx_queue_base
          (s.rx_queue_base + s.layout.rx_vring.total_size) _ m2 (rx_stores (u16 received.desc_id))
          (inr (omega (arith, apart.rx_end)))

  -- The device then finds the answer, and the receive buffer.
  pub record IsAnswered (seen n seen' n' : ℕ) (m : Memory) : Type 0 where
    pub frame : read_bytes reply_len tx_packet m ≡ reply
    pub desc :
        read_desc m s.tx_queue_base s.layout.tx_vring slot
        ≡ record { addr = tx_packet_iova; len = reply_len; flags = 0; next = 0 }
    pub sent :
        pending m s.tx_queue_base s.layout.tx_vring seen (suc n)
        ≡ pending c.memory s.tx_queue_base s.layout.tx_vring seen n ++ slot ∷ []
    pub given_back :
        pending m s.rx_queue_base s.layout.rx_vring seen' (suc n')
        ≡ pending c.memory s.rx_queue_base s.layout.rx_vring seen' n' ++ received.desc_id ∷ []

  -- The calls of `echo_packet`, with the addresses that it passes.
  abbrev pub answered : Memory → Echo
  answered m = record c {
    memory = m;
    tx_slots = set c.tx_slots slot taken;
    echoed_tx = u32 (c.echoed_tx + 1);
    notified = rx_notify ∷ tx_notify ∷ c.notified;
  }

  echo_packet_calls :
      (m1 : Memory) (es : List Effect)
      → build_tx_reply_from_rx tx_packet s.rx_buffer_size received.buffer received.used_len
          s.reply_src_mac c.memory
        ≡ ok (reply_len, m1)
      → publish_tx_packet m1 s.tx_queue_base s.layout.tx_vring slot tx_packet_iova reply_len ≡ ok es
      → let m2 = perform es m1 in
        let m =
          perform
            (recycle_rx_buffer m2 s.rx_queue_base s.layout.rx_vring (u16 received.desc_id))
            m2 in
        echo_packet s received slot c
        ≡ ok (
            if leb s.max_packets (answered m).echoed_tx
            then stop (answered m)
            else next (answered m))
  unfolding echo_packet recycle
  echo_packet_calls m1 es built published =
      let offset : u64 (slot * s.layout.tx_buffer_size) ≡ slot * s.rx_buffer_size =
        ap (λ (t : ℕ). u64 (slot * t)) apart.size ∙ omega (arith, tx_end_lem, ready.iova_fits) in
      let iova : u64 (s.tx_buffers_iova + u64 (slot * s.layout.tx_buffer_size)) ≡ tx_packet_iova =
        ap (λ (t : ℕ). u64 (s.tx_buffers_iova + t)) offset
        ∙ omega (arith, tx_end_lem, ready.iova_fits) in
      let built' =
        ap₂
          (λ (o size : ℕ).
            build_tx_reply_from_rx (s.layout.tx_buffers_offset + o) size received.buffer
              received.used_len s.reply_src_mac c.memory)
          offset apart.size
        ∙ built in
      let published' =
        ap (λ (a : ℕ). publish_tx_packet m1 s.tx_queue_base s.layout.tx_vring slot a reply_len) iova
        ∙ published in
      rw (built', published') refl

  -- An answer from a transmit buffer of the pool, on the layout that `compute_dma_layout` computed,
  -- with buffers of 72 bytes or more and of a 32-bit size, a MAC address of six bytes, transmit
  -- buffers whose addresses do not wrap, a frame that lies inside its own posted buffer, and room in
  -- both queues: `echo_packet` throws nothing. In the buffer stands the reply to the frame
  -- as it was received, at the end of the transmit queue a descriptor with the buffer's address and
  -- the reply's length, and at the end of the receive queue the descriptor of the received frame.
  -- The slot is in flight, one packet more is counted, both notifications were written, and the loop
  -- stops exactly where enough was sent.
  pub echo_packet-answers :
      (seen n seen' n' : ℕ)
      → n < txq
      → n' < rxq
      → read_le 2 (vring_avail_idx s.tx_queue_base s.layout.tx_vring) c.memory ≡ (seen + n) % 65536
      → read_le 2 (vring_avail_idx s.rx_queue_base s.layout.rx_vring) c.memory
        ≡ (seen' + n') % 65536
      → (m : Memory) × (echo_packet s received slot c
          ≡ ok (
              if leb s.max_packets (answered m).echoed_tx
              then stop (answered m)
              else next (answered m)))
        × IsAnswered seen n seen' n' m
  echo_packet-answers seen n seen' n' hn hn' etx erx =
      let (m1, built, bytes, outside) =
        build_tx_reply_from_rx-replied tx_packet s.rx_buffer_size received.buffer received.used_len
          s.reply_src_mac c.memory ready.mac inside.header reply_fits (inl before_tx) in
      let none_yet : Agree s.tx_queue_base s.layout.tx_vring.total_size m1 c.memory =
        λ x lo hi. outside x (omega (arith, apart.tx_end, apart.buffers_end)) in
      let small : slot < txq = omega (arith, apart.tx_count) in
      let positive : 0 < txq = omega arith in
      let posted : received.desc_id < rxq = omega (arith, apart.count, inside.posted) in
      let iova : tx_packet_iova ≤ size_max = omega (arith, ready.iova_fits, tx_end_lem) in
      let (es, published, waits, _, filled) =
        publish_tx_packet-appends s.tx_queue_base s.layout.tx_vring txq align apart.tx positive
          ready.txq_fits m1 slot tx_packet_iova reply_len seen n slot small hn small iova
          (omega (arith, reply_fits, ready.holds.len_fits, apart.size))
          (avail_idx-ext s.tx_queue_base s.layout.tx_vring txq align apart.tx positive m1 c.memory
              none_yet
            ∙ etx) in
      let stores =
        publish_tx_packet-Within s.tx_queue_base s.layout.tx_vring txq align apart.tx positive m1
          slot tx_packet_iova reply_len small published in
      let (back, _, _) =
        recycle_rx_buffer-appends s.rx_queue_base s.layout.rx_vring rxq align apart.rx (omega arith)
          ready.rxq_fits (m2 m1 outside es stores) (u16 received.desc_id) seen' n' 0 (omega arith)
          hn' (omega arith)
          (avail_idx-ext s.rx_queue_base s.layout.rx_vring rxq align apart.rx (omega arith) _
              c.memory (rx_as_before m1 outside es stores)
            ∙ erx) in
      (
        m3 m1 outside es stores,
        echo_packet_calls m1 es built published,
        record {
          frame = reply_kept m1 outside es stores ∙ bytes;
          desc = desc_kept m1 outside es stores ∙ filled ∙ ground arith;
          sent =
              pending-ext s.tx_queue_base s.layout.tx_vring txq align apart.tx positive _ _
                (tx_kept m1 outside es stores) seen (suc n)
              ∙ waits
              ∙ ap (λ (t : List ℕ). t ++ slot ∷ [])
                  (pending-ext s.tx_queue_base s.layout.tx_vring txq align apart.tx positive _ _
                    none_yet seen n);
          given_back =
              back
              ∙ ap₂ (λ (t : List ℕ) (id : ℕ). t ++ id ∷ [])
                  (pending-ext s.rx_queue_base s.layout.rx_vring rxq align apart.rx (omega arith) _
                    c.memory (rx_as_before m1 outside es stores) seen' n')
                  (omega (arith, ready.rxq_fits));
        },
      )
