-- ===== src/Server/Tests.antt =====
-- One client that is served, the signal, and the end of the server.
use advcpp.Prelude.{ℕ, ◌≡◌, refl, Bool, true, false, Option, none, some, List, [], ◌∷◌}
use advcpp.Server.{
  receiving, sending, Client, Server, done, failed, is_client, insert_fd, erase_fd, get_sqes,
  on_accept, resume_recv, resume_send, resume_handler, resume_client, on_client, on_signal,
  may_exit, listening, accepted, resumed, ecanceled,
}
use advcpp.Server.Reach.{Reachable, first, later, IsServing, Reachable-IsServing}
use advcpp.Server.Late.{Signalled, on_signal-Signalled}

abbrev bytes : List ℕ
bytes = 104 ∷ 105 ∷ 10 ∷ []

-- The server with one client on descriptor 7, after so many entries of the submission queue.
abbrev with_client : Client → ℕ → Server
with_client c free_sqes = record listening {
  client_fds = 7 ∷ [];
  handlers = c ∷ [];
  free_sqes = free_sqes;
}

abbrev silent : Client
silent = record { fd = 7; waiting = receiving; canceled = false; received = []; sent = [] }

abbrev connected : Server
connected = with_client silent 4092

-- The client sends three bytes, of which two are sent back.
abbrev talking : Server
talking = with_client (record silent { waiting = sending bytes; received = bytes }) 4091

abbrev half_sent : Server
half_sent =
    with_client
      (record silent { waiting = sending (10 ∷ []); received = bytes; sent = 104 ∷ 105 ∷ [] }) 4090

half_sent_runs :
    (on_accept (done 7) listening ≡ some connected)
    × (on_client 7 (resume_handler (done bytes) (failed 0)) connected ≡ some talking)
    × (on_client 7 (resume_handler (failed 0) (done 2)) talking ≡ some half_sent)
unfolding on_accept insert_fd is_client on_client resume_client resume_handler resume_recv
    resume_send get_sqes
half_sent_runs = (refl, refl, refl)

half_sent-Reachable : Reachable half_sent
half_sent-Reachable =
    later
      (later (later first (accepted false 7 refl (unfold is_client in refl) half_sent_runs.0))
        (resumed 7 (done bytes) (failed 0) half_sent_runs.1))
      (resumed 7 (failed 0) (done 2) half_sent_runs.2)

Reachable-IsServing_example : IsServing half_sent
Reachable-IsServing_example = Reachable-IsServing half_sent-Reachable

-- After the signal the listener's operation and the client's are cancelled, and the server may exit.
left_alone_exits :
    elim (on_signal half_sent) as (λ o. Option Bool) [
      | none ↦ none
      | some s ↦ elim (on_accept (failed ecanceled) s) as (λ o. Option Bool) [
        | none ↦ none
        | some s' ↦
            elim (on_client 7 (resume_handler (failed 125) (failed 125)) s') as (λ o. Option Bool) [
              | none ↦ none
              | some s'' ↦ some (may_exit s'')
            ]
      ]
    ]
    ≡ some true
unfolding on_accept insert_fd erase_fd is_client on_client resume_client resume_handler resume_recv
    resume_send on_signal get_sqes
left_alone_exits = refl

-- Two entries are needed for one client.
signal_full : on_signal (with_client silent 1) ≡ none
unfolding on_signal get_sqes
signal_full = refl

on_signal-Signalled_example : Signalled half_sent (on_signal half_sent)
on_signal-Signalled_example = on_signal-Signalled half_sent-Reachable
