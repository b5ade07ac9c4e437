-- ===== src/Pool/Kept.antt =====
-- In every state each buffer is free or used by one send, and each client has one event in flight.
use advcpp.Prelude.{
  ℕ, zero, suc, ◌+◌, ◌≤◌, ◌<◌, ◌≡◌, refl, inl, inr, true, false, List, ◌∷◌, ◌++◌, length, ltb,
  ltb→lt, u32, ◌==◌, if◌then◌else◌, ◌>>>◌, Bool-cases, ==→eq, arith,
}
use advcpp.Server.{done, is_client, insert_fd}
use advcpp.Pool.{
  Event, accept, recv, send, Pool, num_bufs, buf_size, on_accept, on_recv, on_send, drop_client,
  recycle_buf, completed, fill_buf, send_buf, Step, accepted, refused, filled, lost, broken, moved,
  unsent, stuck, Reachable, first, later, enobufs,
}
use advcpp.Pool.Counts.{
  count, count-is_client, count-not_client, count-erase_fd, count-add_bufs, accepts, is_of, uses,
  total, total_front, All, All-front,
}

-- What is left of a send lies inside its buffer, and is not empty.
abbrev pub IsInside : Event → Type 0
IsInside accept = Unit {0}
IsInside (recv fd) = Unit {0}
IsInside (send fd bid len offset) = (offset < len) × (len ≤ buf_size)

pub record IsKept (s : Pool) : Type 0 where
  pub buffers :
      (b : ℕ) → count b s.free + total (uses b) s.events ≡ (if ltb b num_bufs then 1 else 0)
  pub clients : (a : ℕ) → total (is_of a) s.events ≡ count a s.clients
  pub distinct : (a : ℕ) → count a s.clients ≤ 1
  pub accepting : total accepts s.events ≡ 1
  pub inside : All IsInside s.events

abbrev pub with_event : Event → Pool → Pool
with_event e s = record s { events = e ∷ s.events }

-- An event that completes may be taken to stand in front.
pub completed-IsKept :
    (before after : List Event) (e : Event) (s : Pool)
    → s.events ≡ before ++ e ∷ after
    → IsKept s
    → IsKept (with_event e (completed before after s))
completed-IsKept before after e s split v = record {
  buffers = λ b. omega (arith, rw split at (v.buffers b), total_front (uses b) before after e);
  clients = λ a. omega (arith, rw split at (v.clients a), total_front (is_of a) before after e);
  distinct = v.distinct;
  accepting = omega (arith, rw split at v.accepting, total_front accepts before after e);
  inside = All-front IsInside before after e (rw split at v.inside);
}

drop_client-IsKept :
    (fd : ℕ) (s : Pool) → IsKept (with_event (recv fd) s) → IsKept (drop_client fd s)
unfolding drop_client
drop_client-IsKept fd s v = record {
  buffers = λ b. omega (arith, v.buffers b);
  clients = λ a. ground (arith, v.clients a, count-erase_fd a fd s.clients);
  distinct = λ a. ground (arith, v.distinct a, count-erase_fd a fd s.clients);
  accepting = omega (arith, v.accepting);
  inside = v.inside.1;
}

on_accept-IsKept :
    (fd : ℕ) (s : Pool)
    → is_client fd s.clients ≡ false
    → IsKept (with_event accept s)
    → IsKept (on_accept (done fd) s)
unfolding on_accept insert_fd
on_accept-IsKept fd s new v = rw new (record {
  buffers = λ b. omega (arith, v.buffers b);
  clients = λ a. ground (arith, v.clients a);
  distinct = λ a. ground (arith, v.distinct a, count-not_client fd s.clients new, ==→eq a fd);
  accepting = omega (arith, v.accepting);
  inside = (tt, (tt, v.inside.1));
})

-- The kernel takes a free buffer for what a client sends.
received-IsKept :
    (fd bid n : ℕ) (bytes : List ℕ) (s : Pool)
    → is_client bid s.free ≡ true
    → suc n ≤ buf_size
    → IsKept (with_event (recv fd) s)
    → IsKept (with_event (send fd bid (suc n) 0) (fill_buf fd bid bytes s))
received-IsKept fd bid n bytes s taken fits v = record {
  buffers = λ b. ground (
    arith,
    v.buffers b,
    count-erase_fd b bid s.free,
    count-is_client bid s.free taken,
    ==→eq b bid,
  );
  clients = λ a. omega (arith, v.clients a);
  distinct = v.distinct;
  accepting = omega (arith, v.accepting);
  inside = ((omega arith, fits), v.inside.1);
}

-- A send that is over leaves its buffer and its client free.
recycled-IsKept :
    (fd bid len offset : ℕ) (s : Pool)
    → IsKept (with_event (send fd bid len offset) s)
    → IsKept (with_event (recv fd) (recycle_buf bid s))
recycled-IsKept fd bid len offset s v = record {
  buffers = λ b. omega (arith, v.buffers b);
  clients = λ a. omega (arith, v.clients a);
  distinct = v.distinct;
  accepting = omega (arith, v.accepting);
  inside = (tt, v.inside.1);
}

on_send-IsKept :
    (fd bid len offset n : ℕ) (s : Pool)
    → offset + suc n ≤ len
    → IsKept (with_event (send fd bid len offset) s)
    → IsKept (on_send fd bid len offset (done (suc n)) s)
unfolding on_send
on_send-IsKept fd bid len offset n s fits v =
    let same : u32 (offset + suc n) ≡ offset + suc n = omega (arith, v.inside.0.1) in
    rw same (elim (Bool-cases (ltb (offset + suc n) len)) [
      | inl more ↦ rw more (record {
        buffers = λ b. omega (arith, v.buffers b);
        clients = λ a. omega (arith, v.clients a);
        distinct = v.distinct;
        accepting = omega (arith, v.accepting);
        inside = ((ltb→lt _ _ more, v.inside.0.1), v.inside.1);
      })
      | inr over ↦ elim (Bool-cases (is_client fd s.clients)) [
        | inl known ↦ rw (over, known) (recycled-IsKept fd bid len offset s v)
        | inr unknown ↦ absurd (ground (arith, v.clients fd, count-not_client fd s.clients unknown))
      ]
    ])

-- What was sent and received has no part in it.
sent-IsKept :
    {s : Pool} {e : Event} (fd bid offset n : ℕ)
    → IsKept (with_event e s)
    → IsKept (with_event e (send_buf fd bid offset n s))
sent-IsKept fd bid offset n v = record {
  buffers = v.buffers;
  clients = v.clients;
  distinct = v.distinct;
  accepting = v.accepting;
  inside = v.inside;
}

Step-IsKept : {s s' : Pool} → Step s s' → IsKept s → IsKept s'
unfolding on_accept on_recv on_send
Step-IsKept {s} (accepted before after fd split new) v =
    on_accept-IsKept fd (completed before after s) new
      (completed-IsKept before after accept s split v)
Step-IsKept {s} (refused before after errno split) v =
    completed-IsKept before after accept s split v
Step-IsKept {s} (filled before after fd flags b bytes split taken flagged fits) v = rw flagged (
    received-IsKept fd (flags >>> 16) (length bytes) (b ∷ bytes) (completed before after s) taken
      fits (completed-IsKept before after (recv fd) s split v))
Step-IsKept {s} (lost before after fd flags zero split unflagged) v =
    drop_client-IsKept fd (completed before after s)
      (completed-IsKept before after (recv fd) s split v)
Step-IsKept {s} (lost before after fd flags (suc n) split unflagged) v = rw unflagged (
    drop_client-IsKept fd (completed before after s)
      (completed-IsKept before after (recv fd) s split v))
Step-IsKept {s} (broken before after fd flags errno split) v =
    let kept = completed-IsKept before after (recv fd) s split v in
    elim (Bool-cases (errno == enobufs)) [
      | inl again ↦ rw again kept
      | inr other ↦ rw other (drop_client-IsKept fd (completed before after s) kept)
    ]
Step-IsKept {s} (moved before after fd bid len offset n split fits) v =
    on_send-IsKept fd bid len offset n (send_buf fd bid offset (suc n) (completed before after s))
      fits
      (sent-IsKept fd bid offset (suc n)
        (completed-IsKept before after (send fd bid len offset) s split v))
Step-IsKept {s} (unsent before after fd bid len offset errno split) v =
    drop_client-IsKept fd (recycle_buf bid (completed before after s)) (
      recycled-IsKept fd bid len offset (completed before after s)
        (completed-IsKept before after (send fd bid len offset) s split v))
Step-IsKept {s} (stuck before after fd bid len offset split) v =
    drop_client-IsKept fd (recycle_buf bid (completed before after s)) (
      recycled-IsKept fd bid len offset (completed before after s)
        (completed-IsKept before after (send fd bid len offset) s split v))

-- In every state that the server reaches, whatever the kernel answers and in whatever order, each
-- buffer of the pool is either in the ring of free ones or used by exactly one send, no other number
-- stands for a buffer, each client has exactly one event in flight and no event is another
-- descriptor's, one accept is in flight, and what is left of each send is not empty and lies inside
-- its buffer.
pub Reachable-IsKept : {s : Pool} → Reachable s → IsKept s
Reachable-IsKept first = record {
  buffers = λ b. omega (arith, count-add_bufs b num_bufs);
  clients = λ a. refl;
  distinct = λ a. omega arith;
  accepting = refl;
  inside = (tt, tt);
}
Reachable-IsKept (later r step) = Step-IsKept step (Reachable-IsKept r)
