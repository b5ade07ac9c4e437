-- ===== src/Pool.antt =====
-- The echo server of io_uring/10_provided_buffers.cpp: its handlers of completions, and its pool of
-- buffers from which the kernel takes one for each message. The ring and the kernel are not code of
-- the repository: a step is a completion of any operation in flight, with what the kernel has done
-- by then.
pub mod Counts
pub mod Kept
pub mod Echoed
mod Tests
use advcpp.Prelude.{
  ℕ, zero, suc, ◌+◌, ◌≤◌, ◌≡◌, Bool, true, false, List, [], ◌∷◌, ◌++◌, length, take, drop, ltb,
  ◌==◌, if◌then◌else◌, u32, bit_and, ◌>>>◌,
}
use advcpp.Server.{Answer, done, failed, is_client, insert_fd, erase_fd}

abbrev pub buf_size : ℕ
buf_size = 4096

-- `NUM_BUFS`.
unfoldable pub num_bufs : ℕ
num_bufs = 4096

-- An event in flight. A send has its buffer, how many bytes were received into it, and how many of
-- them were sent.
pub data Event : Type 0 where
  accept : Event
  recv : ℕ → Event
  send : ℕ → ℕ → ℕ → ℕ → Event

-- The ring of free buffers, what the buffers hold, the events in flight, and the clients. `received`
-- and `sent` are all bytes so far of each descriptor's connection; the code does not keep them.
pub record Pool : Type 0 where
  pub free : List ℕ
  pub content : ℕ → List ℕ
  pub events : List Event
  pub clients : List ℕ
  pub received : ℕ → List ℕ
  pub sent : ℕ → List ℕ

abbrev pub update : (ℕ → List ℕ) → ℕ → List ℕ → ℕ → List ℕ
update f i v j = if j == i then v else f j

abbrev pub queue : Event → Pool → Pool
queue e s = record s { events = e ∷ s.events }

abbrev pub recycle_buf : ℕ → Pool → Pool
recycle_buf bid s = record s { free = bid ∷ s.free }

-- `close(fd)` and `clients.erase(fd)`.
unfoldable pub drop_client : ℕ → Pool → Pool
unfolding erase_fd
drop_client fd s = record s { clients = erase_fd fd s.clients }

-- `EVT_ACCEPT`. A new connection has no bytes yet.
unfoldable pub on_accept : Answer ℕ → Pool → Pool
unfolding insert_fd
on_accept (done fd) s = queue accept (
    queue (recv fd) (record s {
      clients = insert_fd fd s.clients;
      received = update s.received fd [];
      sent = update s.sent fd [];
    }))
on_accept (failed errno) s = queue accept s

abbrev pub enobufs : ℕ
enobufs = 105

-- `EVT_RECV`, with the flags of the completion.
unfoldable pub on_recv : ℕ → Answer ℕ → ℕ → Pool → Pool
unfolding drop_client
on_recv fd (failed errno) flags s = if errno == enobufs then queue (recv fd) s else drop_client fd s
on_recv fd (done zero) flags s = drop_client fd s
on_recv fd (done (suc n)) flags s =
    if bit_and flags 1 == 0 then drop_client fd s else queue (send fd (flags >>> 16) (suc n) 0) s

-- `EVT_SEND` of `len` bytes, of which `offset` were sent before.
unfoldable pub on_send : ℕ → ℕ → ℕ → ℕ → Answer ℕ → Pool → Pool
unfolding drop_client is_client
on_send fd bid len offset (failed errno) s = drop_client fd (recycle_buf bid s)
on_send fd bid len offset (done zero) s = drop_client fd (recycle_buf bid s)
on_send fd bid len offset (done (suc n)) s =
    let offset' = u32 (offset + suc n) in
    if ltb offset' len
    then queue (send fd bid len offset') s
    else if is_client fd s.clients
    then queue (recv fd) (recycle_buf bid s)
    else recycle_buf bid s

-- The kernel takes the free buffer `bid` for the bytes that `fd` has received.
abbrev pub fill_buf : ℕ → ℕ → List ℕ → Pool → Pool
fill_buf fd bid bytes s = record s {
  free = erase_fd bid s.free;
  content = update s.content bid bytes;
  received = update s.received fd (s.received fd ++ bytes);
}

-- The kernel sends `n` bytes of buffer `bid` from `offset` on.
abbrev pub send_buf : ℕ → ℕ → ℕ → ℕ → Pool → Pool
send_buf fd bid offset n s = record s {
  sent = update s.sent fd (s.sent fd ++ take n (drop offset (s.content bid)));
}

-- The state with an event taken out of those in flight.
abbrev pub completed : List Event → List Event → Pool → Pool
completed before after s = record s { events = before ++ after }

-- One completion. The kernel gives an accepted connection a descriptor that is not open; it takes a
-- buffer only where it received something, and says which; and it sends no more than it was given.
pub data Step (s : Pool) : Pool → Type 0 where
  accepted :
      (before after : List Event) (fd : ℕ)
      → s.events ≡ before ++ accept ∷ after
      → is_client fd s.clients ≡ false
      → Step s (on_accept (done fd) (completed before after s))
  refused :
      (before after : List Event) (errno : ℕ)
      → s.events ≡ before ++ accept ∷ after
      → Step s (on_accept (failed errno) (completed before after s))
  filled :
      (before after : List Event) (fd flags b : ℕ) (bytes : List ℕ)
      → s.events ≡ before ++ recv fd ∷ after
      → is_client (flags >>> 16) s.free ≡ true
      → (bit_and flags 1 == 0) ≡ false
      → length (b ∷ bytes) ≤ buf_size
      → Step s (
          on_recv fd
            (done (length (b ∷ bytes)))
            flags
            (fill_buf fd (flags >>> 16) (b ∷ bytes) (completed before after s)))
  lost :
      (before after : List Event) (fd flags n : ℕ)
      → s.events ≡ before ++ recv fd ∷ after
      → (bit_and flags 1 == 0) ≡ true
      → Step s (on_recv fd (done n) flags (completed before after s))
  broken :
      (before after : List Event) (fd flags errno : ℕ)
      → s.events ≡ before ++ recv fd ∷ after
      → Step s (on_recv fd (failed errno) flags (completed before after s))
  moved :
      (before after : List Event) (fd bid len offset n : ℕ)
      → s.events ≡ before ++ send fd bid len offset ∷ after
      → offset + suc n ≤ len
      → Step s (
          on_send fd bid len offset
            (done (suc n))
            (send_buf fd bid offset (suc n) (completed before after s)))
  unsent :
      (before after : List Event) (fd bid len offset errno : ℕ)
      → s.events ≡ before ++ send fd bid len offset ∷ after
      → Step s (on_send fd bid len offset (failed errno) (completed before after s))
  stuck :
      (before after : List Event) (fd bid len offset : ℕ)
      → s.events ≡ before ++ send fd bid len offset ∷ after
      → Step s (on_send fd bid len offset (done zero) (completed before after s))

-- The loop that adds all buffers to the ring.
unfoldable pub add_bufs : ℕ → List ℕ
add_bufs zero = []
add_bufs (suc n) = n ∷ add_bufs n

-- After the set-up.
abbrev pub listening : Pool
listening = record {
  free = add_bufs num_bufs;
  content = λ bid. [];
  events = accept ∷ [];
  clients = [];
  received = λ fd. [];
  sent = λ fd. [];
}

pub data Reachable : Pool → Type 0 where
  first : Reachable listening
  later : {s s' : Pool} → Reachable s → Step s s' → Reachable s'
