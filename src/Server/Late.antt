-- ===== src/Server/Late.antt =====
-- The shutdown: what it cancels.
use advcpp.Prelude.{
  ℕ, ◌+◌, ◌<◌, ◌≤◌, ◌≡◌, refl, sym, ap, subst, inl, inr, Bool, Bool-cases, true, leb, Option, none,
  some, List, [], ◌∷◌, length, map, arith,
}
use advcpp.Server.{Client, Server, is_client, cancel_client, get_sqes, on_signal}
use advcpp.Server.Reach.{Reachable, fds_of, Reachable-IsServing}

abbrev pub AreCanceled : List Client → Type 0
AreCanceled [] = Unit {0}
AreCanceled (c ∷ clients) = (c.canceled ≡ true) × AreCanceled clients

abbrev Covers : List ℕ → List Client → Type 0
Covers fds [] = Unit {0}
Covers fds (c ∷ clients) = (is_client c.fd fds ≡ true) × Covers fds clients

Covers-cons :
    (fd : ℕ) (fds : List ℕ) (clients : List Client) → Covers fds clients → Covers (fd ∷ fds) clients
unfolding is_client
Covers-cons fd fds [] h = tt
Covers-cons fd fds (c ∷ clients) (h, hs) = (ground (arith, h), Covers-cons fd fds clients hs)

Covers-fds_of : (clients : List Client) → Covers (fds_of clients) clients
unfolding is_client
Covers-fds_of [] = tt
Covers-fds_of (c ∷ clients) =
    (ground arith, Covers-cons c.fd (fds_of clients) clients (Covers-fds_of clients))

canceled_all :
    (fds : List ℕ) (clients : List Client)
    → Covers fds clients
    → AreCanceled (map (cancel_client fds) clients)
canceled_all fds [] h = tt
canceled_all fds (c ∷ clients) (h, hs) = (rw h refl, canceled_all fds clients hs)

cancel_client-fds :
    (fds : List ℕ) (clients : List Client)
    → fds_of (map (cancel_client fds) clients) ≡ fds_of clients
cancel_client-fds fds [] = refl
cancel_client-fds fds (c ∷ clients) = elim (Bool-cases (is_client c.fd fds)) [
  | inl e ↦ rw e (ap (λ (t : List ℕ). c.fd ∷ t) (cancel_client-fds fds clients))
  | inr e ↦ rw e (ap (λ (t : List ℕ). c.fd ∷ t) (cancel_client-fds fds clients))
]

-- What the signal leads to.
pub data Signalled (s : Server) : Option Server → Type 0 where
  -- An entry of the queue is missing: the program ends.
  full : s.free_sqes < 1 + length s.client_fds → Signalled s none
  canceled :
      {s' : Server}
      → 1 + length s.client_fds ≤ s.free_sqes
      → AreCanceled s'.handlers
      → ((b : Bool) → s'.accepting ≡ some b → b ≡ true)
      → fds_of s'.handlers ≡ fds_of s.handlers
      → Signalled s (some s')

-- In every state that the server reaches, the signal cancels the operation of every client that the
-- server has, and that of the listener, and loses none of them, exactly where the submission queue
-- has an entry for each; otherwise the program ends.
pub on_signal-Signalled : {s : Server} → Reachable s → Signalled s (on_signal s)
unfolding on_signal get_sqes
on_signal-Signalled {s} r =
    let v = Reachable-IsServing r in
    elim (Bool-cases (leb (1 + length s.client_fds) s.free_sqes)) [
      | inr short ↦ rw short (full (ground arith))
      | inl room ↦ rw room (
          canceled (ground arith)
            (canceled_all s.client_fds s.handlers
              (subst (λ (t : List ℕ). Covers t s.handlers) (sym v.fds) (Covers-fds_of s.handlers)))
            (λ b e. ground arith) (cancel_client-fds s.client_fds s.handlers))
    ]
