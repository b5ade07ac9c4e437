-- ===== src/Server.antt =====
-- The echo server of io_uring/15_graceful_shutdown.cpp: its coroutines as the operation that each
-- one waits for, resumed by the completion of that operation. The ring and the kernel are not code of
-- the repository: a completion brings what the kernel answers, and a cancellation marks the
-- operation in flight, which may still complete with success.
pub mod Reach
pub mod Late
mod Tests
use advcpp.Prelude.{
  ℕ, zero, suc, ◌≡◌, Bool, true, false, ◌&&◌, ◌||◌, Option, none, some, List, [], ◌∷◌, ◌++◌, map,
  take, drop, ◌+◌, ◌-◌, length, leb, ◌==◌, if◌then◌else◌,
}

-- What a client's coroutine waits for: bytes, or that the rest of them is sent.
pub data Waiting : Type 0 where
  receiving : Waiting
  sending : List ℕ → Waiting

-- `canceled` says that its operation was to be cancelled. `received` and `sent` are all bytes so far.
pub record Client : Type 0 where
  pub fd : ℕ
  pub waiting : Waiting
  pub canceled : Bool
  pub received : List ℕ
  pub sent : List ℕ

-- `accepting` is the operation of `accept_loop`, with whether it was to be cancelled. `free_sqes` is
-- how many entries the submission queue has left.
pub record Server : Type 0 where
  pub accepting : Option Bool
  pub watching : Bool
  pub shutting_down : Bool
  pub client_fds : List ℕ
  pub handlers : List Client
  pub free_sqes : ℕ

abbrev pub queue_depth : ℕ
queue_depth = 4096

-- `Ring::get_sqe`, so often: where the queue is full it throws, and an exception that leaves a
-- coroutine ends the program, which is `none`.
unfoldable pub get_sqes : ℕ → Server → Option Server
get_sqes n s = if leb n s.free_sqes then some (record s { free_sqes = s.free_sqes - n }) else none

-- `res` of a completion: bytes or their number, or a negative one.
pub data Answer (A : Type 0) : Type 0 where
  done : A → Answer A
  failed : ℕ → Answer A

abbrev pub ecanceled : ℕ
ecanceled = 125

unfoldable pub is_client : ℕ → List ℕ → Bool
is_client fd [] = false
is_client fd (fd' ∷ fds) = fd == fd' || is_client fd fds

-- `client_fds.insert` and `client_fds.erase`.
unfoldable pub insert_fd : ℕ → List ℕ → List ℕ
unfolding is_client
insert_fd fd fds = if is_client fd fds then fds else fd ∷ fds

unfoldable pub erase_fd : ℕ → List ℕ → List ℕ
erase_fd fd [] = []
erase_fd fd (fd' ∷ fds) = let rest = erase_fd fd fds in if fd == fd' then fds else fd' ∷ rest

-- `accept_loop` up to its next operation, with the first one of a new client.
unfoldable pub on_accept : Answer ℕ → Server → Option Server
unfolding insert_fd get_sqes
on_accept (done fd) s = get_sqes 2 (record s {
  accepting = some false;
  client_fds = insert_fd fd s.client_fds;
  handlers =
      record { fd = fd; waiting = receiving; canceled = false; received = []; sent = [] }
      ∷ s.handlers;
})
on_accept (failed errno) s =
    if errno == ecanceled
    then some (record s { accepting = none })
    else get_sqes 1 (record s { accepting = some false })

-- `client_handler` up to its next operation: `none` where it leaves its loop.
unfoldable pub resume_recv : Answer (List ℕ) → Client → Option Client
resume_recv (failed errno) c = none
resume_recv (done []) c = none
resume_recv (done (b ∷ bytes)) c = some (record c {
  waiting = sending (b ∷ bytes);
  canceled = false;
  received = c.received ++ b ∷ bytes;
})

abbrev pub after_send : List ℕ → Waiting
after_send [] = receiving
after_send (b ∷ left) = sending (b ∷ left)

unfoldable pub resume_send : List ℕ → Answer ℕ → Client → Option Client
resume_send left (failed errno) c = none
resume_send left (done zero) c = none
resume_send left (done (suc n)) c = some (record c {
  waiting = after_send (drop (suc n) left);
  canceled = false;
  sent = c.sent ++ take (suc n) left;
})

-- The completion of the operation that the client waits for: `a` or `b`, whichever that is.
unfoldable pub resume_handler : Answer (List ℕ) → Answer ℕ → Client → Option Client
unfolding resume_recv resume_send
resume_handler a b c = elim c.waiting [
  | receiving ↦ resume_recv a c
  | sending left ↦ resume_send left b c
]

-- The handlers after that of `fd` was resumed, and whether it has ended.
unfoldable pub resume_client : ℕ → (Client → Option Client) → List Client → List Client × Bool
resume_client fd resume [] = ([], false)
resume_client fd resume (c ∷ clients) =
    let rest = resume_client fd resume clients in
    if fd == c.fd
    then elim (resume c) [ some c' ↦ (c' ∷ clients, false) | none ↦ (clients, true) ]
    else (c ∷ rest.0, rest.1)

-- A completion for the client `fd`: one that has ended is erased, any other has its next operation.
unfoldable pub on_client : ℕ → (Client → Option Client) → Server → Option Server
unfolding resume_client erase_fd get_sqes
on_client fd resume s =
    let (handlers, ended) = resume_client fd resume s.handlers in
    if ended
    then some (record s { handlers = handlers; client_fds = erase_fd fd s.client_fds })
    else get_sqes 1 (record s { handlers = handlers })

abbrev pub cancel_client : List ℕ → Client → Client
cancel_client fds c = if is_client c.fd fds then record c { canceled = true } else c

-- `signal_watcher` after its poll: the operations in flight on the listener and the clients are to
-- be cancelled, each by an entry of the submission queue.
unfoldable pub on_signal : Server → Option Server
unfolding is_client get_sqes
on_signal s = get_sqes (1 + length s.client_fds) (record s {
  watching = false;
  shutting_down = true;
  accepting = elim s.accepting [ some b ↦ some true | none ↦ none ];
  handlers = map (cancel_client s.client_fds) s.handlers;
})

abbrev pub is_empty : List ℕ → Bool
is_empty [] = true
is_empty (fd ∷ fds) = false

-- The test at the end of a batch of completions.
abbrev pub may_exit : Server → Bool
may_exit s = s.shutting_down && is_empty s.client_fds

-- `accept_loop` and `signal_watcher` at their first operations.
abbrev pub listening : Server
listening = record {
  accepting = some false;
  watching = true;
  shutting_down = false;
  client_fds = [];
  handlers = [];
  free_sqes = queue_depth - 2;
}

-- One completion, or the submission that empties the queue. The kernel gives an accepted connection a
-- descriptor that is not open.
pub data Step (s : Server) : Server → Type 0 where
  accepted :
      {s' : Server} (b : Bool) (fd : ℕ)
      → s.accepting ≡ some b
      → is_client fd s.client_fds ≡ false
      → on_accept (done fd) s ≡ some s'
      → Step s s'
  refused :
      {s' : Server} (b : Bool) (errno : ℕ)
      → s.accepting ≡ some b
      → on_accept (failed errno) s ≡ some s'
      → Step s s'
  resumed :
      {s' : Server} (fd : ℕ) (a : Answer (List ℕ)) (b : Answer ℕ)
      → on_client fd (resume_handler a b) s ≡ some s'
      → Step s s'
  signalled : {s' : Server} → s.watching ≡ true → on_signal s ≡ some s' → Step s s'
  submitted : Step s (record s { free_sqes = queue_depth })
