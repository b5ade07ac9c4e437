-- ===== src/Server/Reach.antt =====
-- Every state that the server reaches: which clients it knows, and what it has sent back to them.
use advcpp.Prelude.{
  ℕ, zero, suc, ◌≡◌, refl, sym, ap, ◌∙◌, inl, inr, Bool, true, false, Option, none, some, List, [],
  ◌∷◌, ◌++◌, ◌+◌, ◌-◌, leb, length, subst, map, take, drop, take-append-drop, ◌==◌, if◌then◌else◌,
  Bool-cases, arith,
}
use mathlib.Core.List.{append-nil, append_assoc}
use advcpp.Server.{
  Waiting, receiving, sending, Client, Server, Answer, done, failed, is_client, insert_fd, erase_fd,
  on_accept, resume_recv, after_send, resume_send, resume_handler, resume_client, on_client,
  cancel_client, on_signal, is_empty, may_exit, listening, Step, accepted, refused, resumed,
  signalled, submitted, get_sqes, ecanceled,
}

pub data Reachable : Server → Type 0 where
  first : Reachable listening
  later : {s s' : Server} → Reachable s → Step s s' → Reachable s'

-- The bytes that are still to be sent.
abbrev pub pending : Waiting → List ℕ
pending receiving = []
pending (sending left) = left

-- What was received was sent, up to what is still to be sent.
abbrev pub IsEcho : Client → Type 0
IsEcho c = c.sent ++ pending c.waiting ≡ c.received

abbrev pub AreEchoes : List Client → Type 0
AreEchoes [] = Unit {0}
AreEchoes (c ∷ clients) = IsEcho c × AreEchoes clients

abbrev pub fds_of : List Client → List ℕ
fds_of clients = map (λ (c : Client). c.fd) clients

pending-after_send : (left : List ℕ) → pending (after_send left) ≡ left
pending-after_send [] = refl
pending-after_send (b ∷ left) = refl

-- A handler that goes on keeps its descriptor and is still an echo.
abbrev Goes : Client → Option Client → Type 0
Goes c none = Unit {0}
Goes c (some c') = (c'.fd ≡ c.fd) × IsEcho c'

resume_recv-Goes :
    (a : Answer (List ℕ)) (c : Client) → c.waiting ≡ receiving → IsEcho c → Goes c (resume_recv a c)
unfolding resume_recv
resume_recv-Goes (failed errno) c w h = tt
resume_recv-Goes (done []) c w h = tt
resume_recv-Goes (done (b ∷ bytes)) c w h =
    let all : c.sent ≡ c.received = sym (append-nil c.sent) ∙ (rw w at h) in
    (refl, ap (λ (t : List ℕ). t ++ b ∷ bytes) all)

resume_send-Goes :
    (left : List ℕ) (b : Answer ℕ) (c : Client)
    → c.waiting ≡ sending left
    → IsEcho c
    → Goes c (resume_send left b c)
unfolding resume_send
resume_send-Goes left (failed errno) c w h = tt
resume_send-Goes left (done zero) c w h = tt
resume_send-Goes left (done (suc n)) c w h =
    let before : c.sent ++ left ≡ c.received = rw w at h in
    (
      refl,
      ap (λ (t : List ℕ). (c.sent ++ take (suc n) left) ++ t)
            (pending-after_send (drop (suc n) left))
          ∙ append_assoc c.sent (take (suc n) left) (drop (suc n) left)
          ∙ ap (λ (t : List ℕ). c.sent ++ t) (take-append-drop (suc n) left)
          ∙ before,
    )

resume_handler-Goes :
    (a : Answer (List ℕ)) (b : Answer ℕ) (c : Client) → IsEcho c → Goes c (resume_handler a b c)
unfolding resume_handler
resume_handler-Goes a b c h = at_waiting c.waiting refl
  where
    at_waiting :
        (w : Waiting)
        → c.waiting ≡ w
        → Goes c (elim w as (λ x. Option Client) [
          | receiving ↦ resume_recv a c
          | sending left ↦ resume_send left b c
        ])
    at_waiting receiving e = resume_recv-Goes a c e h
    at_waiting (sending left) e = resume_send-Goes left b c e h

-- What the handlers are after one of them was resumed.
record IsResumed (clients : List Client) (after : List Client × Bool) (fd : ℕ) : Type 0 where
  pub echoes : AreEchoes after.0
  pub fds : fds_of after.0 ≡ (if after.1 then erase_fd fd (fds_of clients) else fds_of clients)

module _ (fd : ℕ) (resume : Client → Option Client)
    (goes : (c : Client) → IsEcho c → Goes c (resume c)) where
  at_client :
      (c : Client) (clients : List Client) (next : Option Client)
      → fd == c.fd ≡ true
      → Goes c next
      → AreEchoes clients
      → IsResumed
          (c ∷ clients)
          (elim next as (λ x. List Client × Bool) [
            | some c' ↦ (c' ∷ clients, false)
            | none ↦ (clients, true)
          ])
          fd
  unfolding erase_fd
  at_client c clients none e g h = record { echoes = h; fds = rw (e, erase_fd) refl }
  at_client c clients (some c') e g h = record {
    echoes = (g.1, h);
    fds = ap (λ (t : ℕ). t ∷ fds_of clients) g.0;
  }

  behind :
      (c : Client) (fds : List ℕ) {fds' : List ℕ}
      → fd == c.fd ≡ false
      → (ended : Bool) → fds' ≡ (if ended then erase_fd fd fds else fds)
      → c.fd ∷ fds' ≡ (if ended then erase_fd fd (c.fd ∷ fds) else c.fd ∷ fds)
  unfolding erase_fd
  behind c fds e true h = rw (e, erase_fd) (ap (λ (t : List ℕ). c.fd ∷ t) h)
  behind c fds e false h = ap (λ (t : List ℕ). c.fd ∷ t) h

  resume_client-IsResumed :
      (clients : List Client)
      → AreEchoes clients
      → IsResumed clients (resume_client fd resume clients) fd
  unfolding resume_client
  resume_client-IsResumed [] h = record { echoes = tt; fds = refl }
  resume_client-IsResumed (c ∷ clients) (h, hs) = elim (Bool-cases (fd == c.fd)) [
    | inl e ↦ rw (e, resume_client) (at_client c clients (resume c) e (goes c h) hs)
    | inr e ↦
        let rest = resume_client-IsResumed clients hs in
        rw (e, resume_client)
          (record {
            echoes = (h, rest.echoes);
            fds = behind c (fds_of clients) e (resume_client fd resume clients).1 rest.fds;
          })
  ]

cancel_client-kept :
    (fds : List ℕ) (clients : List Client)
    → AreEchoes clients
    → AreEchoes (map (cancel_client fds) clients)
      × (fds_of (map (cancel_client fds) clients) ≡ fds_of clients)
cancel_client-kept fds [] h = (tt, refl)
cancel_client-kept fds (c ∷ clients) (h, hs) =
    let (echoes, same) = cancel_client-kept fds clients hs in
    elim (Bool-cases (is_client c.fd fds)) [
      | inl e ↦ rw e ((h, echoes), ap (λ (t : List ℕ). c.fd ∷ t) same)
      | inr e ↦ rw e ((h, echoes), ap (λ (t : List ℕ). c.fd ∷ t) same)
    ]

-- The set of descriptors is that of the handlers, and each handler is an echo.
pub record IsServing (s : Server) : Type 0 where
  pub fds : s.client_fds ≡ fds_of s.handlers
  pub echoes : AreEchoes s.handlers

pub some-injective : {a b : Server} → some a ≡ some b → a ≡ b
some-injective e = cc

-- Taking entries of the submission queue changes nothing else.
get_sqes-IsServing :
    (n : ℕ) (s : Server) {s' : Server} → get_sqes n s ≡ some s' → IsServing s → IsServing s'
unfolding get_sqes
get_sqes-IsServing n s {s'} h v = elim (Bool-cases (leb n s.free_sqes)) [
  | inl room ↦
      let taken : Server = record s { free_sqes = s.free_sqes - n } in
      let same : taken ≡ s' = some-injective (rw room at h) in
      subst IsServing same (record { fds = v.fds; echoes = v.echoes })
  | inr full ↦ let nothing : none ≡ some s' = rw full at h in absurd cc
]

Step-IsServing : {s s' : Server} → IsServing s → Step s s' → IsServing s'
unfolding on_accept insert_fd on_client on_signal
Step-IsServing {s} v (accepted b fd e new run) =
    get_sqes-IsServing 2 _ run
      (record { fds = rw new (ap (λ (t : List ℕ). fd ∷ t) v.fds); echoes = (refl, v.echoes) })
Step-IsServing {s} {s'} v (refused b errno e run) = elim (Bool-cases (errno == ecanceled)) [
  | inl canceled ↦
      let left : Server = record s { accepting = none } in
      let same : left ≡ s' = some-injective (rw (canceled, on_accept) at run) in
      subst IsServing same (record { fds = v.fds; echoes = v.echoes })
  | inr again ↦
      get_sqes-IsServing 1 (record s { accepting = some false }) (rw (again, on_accept) at run)
        (record { fds = v.fds; echoes = v.echoes })
]
Step-IsServing {s} {s'} v (resumed fd a b run) =
    let r =
      resume_client-IsResumed fd (resume_handler a b) (resume_handler-Goes a b) s.handlers
        v.echoes in
    let (handlers, ended) = resume_client fd (resume_handler a b) s.handlers in
    elim (Bool-cases ended) [
      | inl over ↦
          let left : Server = record s {
            handlers = handlers;
            client_fds = erase_fd fd s.client_fds;
          } in
          let same : left ≡ s' = some-injective (rw (over, on_client) at run) in
          let gone : fds_of handlers ≡ erase_fd fd (fds_of s.handlers) = rw over at r.fds in
          subst IsServing same
            (record { fds = ap (erase_fd fd) v.fds ∙ sym gone; echoes = r.echoes })
      | inr going ↦
          let kept : fds_of handlers ≡ fds_of s.handlers = rw going at r.fds in
          get_sqes-IsServing 1 (record s { handlers = handlers }) (rw (going, on_client) at run)
            (record { fds = v.fds ∙ sym kept; echoes = r.echoes })
    ]
Step-IsServing {s} v (signalled e run) =
    let (echoes, same) = cancel_client-kept s.client_fds s.handlers v.echoes in
    get_sqes-IsServing (1 + length s.client_fds) _ run
      (record { fds = v.fds ∙ sym same; echoes = echoes })
Step-IsServing {s} v submitted = record { fds = v.fds; echoes = v.echoes }

-- In every state that the server reaches, whatever the kernel answers and in whatever order,
-- `client_fds` holds exactly the descriptors of the handlers that have not ended, and what each of
-- them has received is what it has sent back and then what it is about to send.
pub Reachable-IsServing : {s : Server} → Reachable s → IsServing s
Reachable-IsServing first = record { fds = refl; echoes = tt }
Reachable-IsServing (later r step) = Step-IsServing (Reachable-IsServing r) step

no_handlers :
    (fds : List ℕ) (clients : List Client)
    → is_empty fds ≡ true
    → fds ≡ fds_of clients
    → clients ≡ []
no_handlers fds [] h e = refl
no_handlers [] (c ∷ clients) h e = cc
no_handlers (fd ∷ fds) (c ∷ clients) h e = cc

-- A server that leaves its loop was told to, and no handler is left.
may_exit-handlers :
    {s : Server} → Reachable s → may_exit s ≡ true → (s.shutting_down ≡ true) × (s.handlers ≡ [])
may_exit-handlers {s} r h =
    let v = Reachable-IsServing r in
    (ground arith, no_handlers s.client_fds s.handlers (ground arith) v.fds)
