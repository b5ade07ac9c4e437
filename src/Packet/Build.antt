-- ===== src/Packet/Build.antt =====
-- The frames that are built, byte by byte.
use advcpp.Prelude.{
  ℕ, ◌+◌, ◌-◌, ◌≤◌, ◌<◌, ◌≡◌, refl, sym, ap, ◌∙◌, ◌⊎◌, List, ◌++◌, arith, length, replicate,
}
use mathlib.Core.Path.{ap₂}
use advcpp.Memory.{Memory}
use advcpp.Packet.{memset, copy_bytes, read_bytes, be16_bytes, write_be16_to_bytes, build_tx_packet}
use advcpp.Packet.Bytes.{read_bytes-add, read_bytes-copied, read_bytes-beside, read_bytes-memset}

pub copy-outside :
    (x a : ℕ) (bytes : List ℕ) (m : Memory)
    → (x < a) ⊎ (a + length bytes ≤ x)
    → copy_bytes a bytes m x ≡ m x
unfolding copy_bytes
copy-outside x a bytes m h = ground arith

pub memset-outside : (x a v n : ℕ) (m : Memory) → (x < a) ⊎ (a + n ≤ x) → memset a v n m x ≡ m x
unfolding memset
memset-outside x a v n m h = ground arith

-- A frame of `total` bytes in its pieces: the virtio-net header, the two addresses, what follows
-- them, and the padding.
frame_pieces :
    (total body at : ℕ) (m : Memory)
    → 24 + body ≤ total
    → read_bytes total at m
      ≡ read_bytes 12 at m
        ++ (read_bytes 6 (at + 12) m
            ++ (read_bytes 6 (at + 18) m
                ++ (read_bytes body (at + 24) m
                    ++ read_bytes (total - 24 - body) (at + 24 + body) m)))
frame_pieces total body at m h =
    let rest = total - 24 - body in
    let e : total ≡ 12 + (6 + (6 + (body + rest))) = omega arith in
    let a1 : at + 12 + 6 ≡ at + 18 = omega arith in
    let a2 : at + 18 + 6 ≡ at + 24 = omega arith in
    ap (λ (t : ℕ). read_bytes t at m) e
    ∙ read_bytes-add 12 (6 + (6 + (body + rest))) at m
    ∙ ap (λ t. read_bytes 12 at m ++ t)
        (read_bytes-add 6 (6 + (body + rest)) (at + 12) m
          ∙ ap (λ t. read_bytes 6 (at + 12) m ++ t)
              (ap (λ (t : ℕ). read_bytes (6 + (body + rest)) t m) a1
                ∙ read_bytes-add 6 (body + rest) (at + 18) m
                ∙ ap (λ t. read_bytes 6 (at + 18) m ++ t)
                    (ap (λ (t : ℕ). read_bytes (body + rest) t m) a2
                      ∙ read_bytes-add body rest (at + 24) m)))

-- The same pieces, given what each of them holds.
pub frame_of :
    (total body at : ℕ) (m : Memory) {head dst src rest pad : List ℕ}
    → 24 + body ≤ total
    → read_bytes 12 at m ≡ head
    → read_bytes 6 (at + 12) m ≡ dst
    → read_bytes 6 (at + 18) m ≡ src
    → read_bytes body (at + 24) m ≡ rest
    → read_bytes (total - 24 - body) (at + 24 + body) m ≡ pad
    → read_bytes total at m ≡ head ++ (dst ++ (src ++ (rest ++ pad)))
frame_of total body at m h e1 e2 e3 e4 e5 =
    frame_pieces total body at m h ∙ rw (e1, e2, e3, e4, e5) refl

length-be16_bytes : (v : ℕ) → length (be16_bytes v) ≡ 2
unfolding be16_bytes
length-be16_bytes v = refl

-- The copies of `build_tx_packet`, with the bytes of the type as they come.
module _ (packet total : ℕ) (dst src kind payload : List ℕ) (m : Memory) (hd : length dst ≡ 6)
    (hs : length src ≡ 6) (hk : length kind ≡ 2) (room : 26 + length payload ≤ total) where
  cleared : Memory
  cleared = memset packet 0 total m

  with_dst : Memory
  with_dst = copy_bytes (packet + 12) dst cleared

  with_src : Memory
  with_src = copy_bytes (packet + 12 + 6) src with_dst

  with_kind : Memory
  with_kind = copy_bytes (packet + 12 + 12) kind with_src

  abbrev built : Memory
  built = copy_bytes (packet + 12 + 14) payload with_kind

  -- Bytes that no copy touches are cleared.
  cleared_bytes :
      (n a : ℕ)
      → packet ≤ a
      → a + n ≤ packet + total
      → (a + n ≤ packet + 12) ⊎ (packet + 26 + length payload ≤ a)
      → read_bytes n a built ≡ replicate n 0
  unfolding with_kind with_src with_dst cleared
  cleared_bytes n a lo hi h =
      read_bytes-beside n a (packet + 12 + 14) payload with_kind (omega arith)
      ∙ read_bytes-beside n a (packet + 12 + 12) kind with_src (omega arith)
      ∙ read_bytes-beside n a (packet + 12 + 6) src with_dst (omega arith)
      ∙ read_bytes-beside n a (packet + 12) dst cleared (omega arith)
      ∙ read_bytes-memset n a packet total 0 m lo hi

  dst_bytes : read_bytes 6 (packet + 12) built ≡ dst
  unfolding with_kind with_src with_dst
  dst_bytes =
      read_bytes-beside 6 (packet + 12) (packet + 12 + 14) payload with_kind (omega arith)
      ∙ read_bytes-beside 6 (packet + 12) (packet + 12 + 12) kind with_src (omega arith)
      ∙ read_bytes-beside 6 (packet + 12) (packet + 12 + 6) src with_dst (omega arith)
      ∙ read_bytes-copied 6 (packet + 12) dst cleared (omega arith)

  src_bytes : read_bytes 6 (packet + 18) built ≡ src
  unfolding with_kind with_src
  src_bytes =
      let e : packet + 18 ≡ packet + 12 + 6 = omega arith in
      read_bytes-beside 6 (packet + 18) (packet + 12 + 14) payload with_kind (omega arith)
      ∙ read_bytes-beside 6 (packet + 18) (packet + 12 + 12) kind with_src (omega arith)
      ∙ ap (λ (t : ℕ). read_bytes 6 t with_src) e
      ∙ read_bytes-copied 6 (packet + 12 + 6) src with_dst (omega arith)

  body_bytes : read_bytes (2 + length payload) (packet + 24) built ≡ kind ++ payload
  unfolding with_kind
  body_bytes =
      let n = length payload in
      let e : packet + 24 ≡ packet + 12 + 12 = omega arith in
      let f : packet + 24 + 2 ≡ packet + 12 + 14 = omega arith in
      read_bytes-add 2 n (packet + 24) built
      ∙ ap₂ ◌++◌
          (read_bytes-beside 2 (packet + 24) (packet + 12 + 14) payload with_kind (omega arith)
            ∙ ap (λ (t : ℕ). read_bytes 2 t with_kind) e
            ∙ read_bytes-copied 2 (packet + 12 + 12) kind with_src (sym hk))
          (ap (λ (t : ℕ). read_bytes n t built) f
            ∙ read_bytes-copied n (packet + 12 + 14) payload with_kind refl)

  built_frame :
      read_bytes total packet built
      ≡ replicate 12 0
        ++ (dst ++ (src ++ ((kind ++ payload) ++ replicate (total - 24 - (2 + length payload)) 0)))
  built_frame =
      frame_of total (2 + length payload) packet built (omega arith)
        (cleared_bytes 12 packet (omega arith) (omega arith) (omega arith)) dst_bytes src_bytes
        body_bytes
        (cleared_bytes (total - 24 - (2 + length payload)) (packet + 24 + (2 + length payload))
          (omega arith) (omega arith) (omega arith))

  built_outside : (x : ℕ) → (x < packet) ⊎ (packet + total ≤ x) → built x ≡ m x
  unfolding with_kind with_src with_dst cleared
  built_outside x out =
      copy-outside x (packet + 12 + 14) payload with_kind (omega arith)
      ∙ copy-outside x (packet + 12 + 12) kind with_src (omega arith)
      ∙ copy-outside x (packet + 12 + 6) src with_dst (omega arith)
      ∙ copy-outside x (packet + 12) dst cleared (omega arith)
      ∙ memset-outside x packet 0 total m out

-- `build_tx_packet` with room for both headers and the payload leaves exactly the frame in the
-- buffer: 12 zero bytes, the destination, the source, the type in network order, the payload and
-- zeros up to the size; every byte outside the buffer is as before.
pub build_tx_packet-frame :
    (packet : ℕ) (dst src : List ℕ) (ethertype : ℕ) (payload : List ℕ) (total x : ℕ) (m : Memory)
    → length dst ≡ 6
    → length src ≡ 6
    → 26 + length payload ≤ total
    → (x < packet) ⊎ (packet + total ≤ x)
    → let m' = build_tx_packet packet dst src ethertype payload total m in
      (read_bytes total packet m'
        ≡ replicate 12 0
          ++ (dst
              ++ (src
                  ++ ((be16_bytes ethertype ++ payload)
                      ++ replicate (total - 24 - (2 + length payload)) 0))))
      × (m' x ≡ m x)
unfolding build_tx_packet write_be16_to_bytes with_kind with_src with_dst cleared
build_tx_packet-frame packet dst src ethertype payload total x m hd hs room out =
    let kind = be16_bytes ethertype in
    let hk = length-be16_bytes ethertype in
    (
      built_frame packet total dst src kind payload m hd hs hk room,
      built_outside packet total dst src kind payload m hd hs hk room x out,
    )
