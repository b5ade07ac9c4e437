-- ===== src/Pool/Echoed.antt =====
-- What a client has received back is what it has sent, however buffers are shared out.
use advcpp.Prelude.{
  ℕ, zero, suc, ◌+◌, ◌≤◌, ◌≡◌, refl, sym, ap, ◌∙◌, inl, inr, true, false, List, [], ◌∷◌, ◌++◌,
  length, take, drop, take-append-drop, drop-drop, drop_all, u32, ltb, ltb-false→le, ◌==◌, ◌>>>◌,
  Bool-cases, arith,
}
use mathlib.Core.List.{append-nil, append_assoc}
use advcpp.Server.{done, is_client}
use advcpp.Pool.{
  Event, accept, recv, send, Pool, update, on_accept, on_recv, on_send, drop_client, completed,
  fill_buf, send_buf, Step, accepted, refused, filled, lost, broken, moved, unsent, stuck,
  Reachable, first, later, enobufs,
}
use advcpp.Pool.Counts.{
  count-is_client, count-not_client, is_of, uses, total, All, All-front, All-other,
}
use advcpp.Pool.Kept.{IsKept, with_event, completed-IsKept, Reachable-IsKept}

-- What the buffers hold, and what was received and sent so far.
abbrev Texts : Type 0
Texts = ℕ → List ℕ

-- A connection that waits for a message has all of the ones before sent back; one that sends has
-- the rest in its buffer.
abbrev pub IsEcho : Texts → Texts → Texts → Event → Type 0
IsEcho content received sent accept = Unit {0}
IsEcho content received sent (recv fd) = sent fd ≡ received fd
IsEcho content received sent (send fd bid len offset) =
    (sent fd ++ drop offset (content bid) ≡ received fd) × (length (content bid) ≡ len)

abbrev pub AreEchoes : Pool → Type 0
AreEchoes s = All (IsEcho s.content s.received s.sent) s.events

update_self : (f : Texts) (i : ℕ) (v : List ℕ) → update f i v i ≡ v
update_self f i v = ground arith

completed-AreEchoes :
    (before after : List Event) (e : Event) (s : Pool)
    → s.events ≡ before ++ e ∷ after
    → AreEchoes s
    → AreEchoes (with_event e (completed before after s))
completed-AreEchoes before after e s split h =
    All-front (IsEcho s.content s.received s.sent) before after e (rw split at h)

module _ (content received sent : Texts) (fd : ℕ) where
  -- Texts that are changed for this descriptor alone.
  abbrev Agree : Texts → Texts → Type 0
  Agree received' sent' =
      (g : ℕ) → g == fd ≡ false → (received' g ≡ received g) × (sent' g ≡ sent g)

  -- An event of another descriptor does not see what is done to the texts of this one.
  keeps :
      (received' sent' : Texts)
      → Agree received' sent'
      → (e : Event) → is_of fd e ≡ 0
      → IsEcho content received sent e
      → IsEcho content received' sent' e
  keeps received' sent' agree accept other h = tt
  keeps received' sent' agree (recv g) other h = ground (arith, agree g)
  keeps received' sent' agree (send g bid len offset) other h = ground (arith, agree g)

  others_keep :
      (received' sent' : Texts)
      → Agree received' sent'
      → (events : List Event) → total (is_of fd) events ≡ 0
      → All (IsEcho content received sent) events
      → All (IsEcho content received' sent') events
  others_keep received' sent' agree =
      All-other (IsEcho content received sent) (IsEcho content received' sent') (is_of fd)
        (keeps received' sent' agree)

  -- One that uses another buffer does not see what is received into this one either.
  keeps_filled :
      (bid : ℕ) (bytes received' : List ℕ) (e : Event)
      → is_of fd e + uses bid e ≡ 0
      → IsEcho content received sent e
      → IsEcho (update content bid bytes) (update received fd received') sent e
  keeps_filled bid bytes received' accept other h = tt
  keeps_filled bid bytes received' (recv g) other h = ground arith
  keeps_filled bid bytes received' (send g bid' len offset) other h = ground arith

  others_keep_filled :
      (bid : ℕ) (bytes received' : List ℕ) (events : List Event)
      → total (λ e. is_of fd e + uses bid e) events ≡ 0
      → All (IsEcho content received sent) events
      → All (IsEcho (update content bid bytes) (update received fd received') sent) events
  others_keep_filled bid bytes received' =
      All-other (IsEcho content received sent)
        (IsEcho (update content bid bytes) (update received fd received') sent)
        (λ e. is_of fd e + uses bid e) (keeps_filled bid bytes received')

abbrev HasEchoes : Event → Pool → Type 0
HasEchoes e s = IsKept (with_event e s) × AreEchoes (with_event e s)

-- No other event is of the descriptor of one in flight.
alone :
    (fd : ℕ) (e : Event) (s : Pool)
    → is_of fd e ≡ 1
    → IsKept (with_event e s)
    → total (is_of fd) s.events ≡ 0
alone fd e s mine v = omega (arith, v.clients fd, v.distinct fd)

total-add :
    (f g : Event → ℕ) (events : List Event)
    → total (λ e. f e + g e) events ≡ total f events + total g events
total-add f g [] = refl
total-add f g (e ∷ events) = omega (arith, total-add f g events)

on_accept-AreEchoes :
    (fd : ℕ) (s : Pool)
    → is_client fd s.clients ≡ false
    → HasEchoes accept s
    → AreEchoes (on_accept (done fd) s)
unfolding on_accept
on_accept-AreEchoes fd s new (v, h) =
    let none_of : total (is_of fd) s.events ≡ 0 =
      omega (arith, v.clients fd, count-not_client fd s.clients new) in
    (
      tt,
      (
        update_self s.sent fd [] ∙ sym (update_self s.received fd []),
        others_keep s.content s.received s.sent fd (update s.received fd []) (update s.sent fd [])
            (λ g other. (rw other refl, rw other refl)) s.events none_of h.1,
      ),
    )

received-AreEchoes :
    (fd bid b : ℕ) (bytes : List ℕ) (s : Pool)
    → is_client bid s.free ≡ true
    → HasEchoes (recv fd) s
    → AreEchoes (with_event (send fd bid (length (b ∷ bytes)) 0) (fill_buf fd bid (b ∷ bytes) s))
received-AreEchoes fd bid b bytes s taken (v, h) =
    let text = b ∷ bytes in
    let none_of = alone fd (recv fd) s (ground arith) v in
    let none_uses : total (uses bid) s.events ≡ 0 =
      ground (arith, v.buffers bid, count-is_client bid s.free taken) in
    let neither : total (λ e. is_of fd e + uses bid e) s.events ≡ 0 =
      omega (arith, total-add (is_of fd) (uses bid) s.events) in
    (
      (
        ap (λ (t : List ℕ). s.sent fd ++ t) (update_self s.content bid text)
            ∙ ap (λ (t : List ℕ). t ++ text) h.0
            ∙ sym (update_self s.received fd (s.received fd ++ text)),
        ap (λ (t : List ℕ). length t) (update_self s.content bid text),
      ),
      others_keep_filled s.content s.received s.sent fd bid text (s.received fd ++ text) s.events
          neither h.1,
    )

moved-AreEchoes :
    (fd bid len offset n : ℕ) (s : Pool)
    → offset + suc n ≤ len
    → HasEchoes (send fd bid len offset) s
    → AreEchoes (on_send fd bid len offset (done (suc n)) (send_buf fd bid offset (suc n) s))
unfolding on_send
moved-AreEchoes fd bid len offset n s fits (v, h) =
    let text = s.content bid in
    let sent' = s.sent fd ++ take (suc n) (drop offset text) in
    let same : u32 (offset + suc n) ≡ offset + suc n = omega (arith, v.inside.0.1) in
    let rest =
      others_keep s.content s.received s.sent fd s.received (update s.sent fd sent')
        (λ g other. (refl, rw other refl)) s.events
        (alone fd (send fd bid len offset) s (ground arith) v) h.1 in
    let left : sent' ++ drop (offset + suc n) text ≡ s.received fd =
      append_assoc (s.sent fd) (take (suc n) (drop offset text)) (drop (offset + suc n) text)
      ∙ ap (λ (t : List ℕ). s.sent fd ++ (take (suc n) (drop offset text) ++ t))
          (sym (drop-drop offset (suc n) text))
      ∙ ap (λ (t : List ℕ). s.sent fd ++ t) (take-append-drop (suc n) (drop offset text))
      ∙ h.0.0 in
    let now = update_self s.sent fd sent' in
    rw same (elim (Bool-cases (ltb (offset + suc n) len)) [
      | inl more ↦
          rw more ((ap (λ (t : List ℕ). t ++ drop (offset + suc n) text) now ∙ left, h.0.1), rest)
      | inr over ↦
          let none_left =
            drop_all (offset + suc n) text (omega (arith, h.0.1, ltb-false→le _ _ over)) in
          let whole : update s.sent fd sent' fd ≡ s.received fd =
            now ∙ sym (append-nil sent') ∙ (rw none_left at left) in
          elim (Bool-cases (is_client fd s.clients)) [
            | inl known ↦ rw (over, known) (whole, rest)
            | inr unknown ↦ rw (over, unknown) rest
          ]
    ])

Step-AreEchoes : {s s' : Pool} → Step s s' → IsKept s → AreEchoes s → AreEchoes s'
unfolding on_accept on_recv on_send drop_client
Step-AreEchoes {s} (accepted before after fd split new) v h =
    on_accept-AreEchoes fd (completed before after s) new (
      completed-IsKept before after accept s split v,
      completed-AreEchoes before after accept s split h,
    )
Step-AreEchoes {s} (refused before after errno split) v h =
    completed-AreEchoes before after accept s split h
Step-AreEchoes {s} (filled before after fd flags b bytes split taken flagged fits) v h =
    rw flagged (
      received-AreEchoes fd (flags >>> 16) b bytes (completed before after s) taken (
        completed-IsKept before after (recv fd) s split v,
        completed-AreEchoes before after (recv fd) s split h,
      ))
Step-AreEchoes {s} (lost before after fd flags zero split unflagged) v h =
    (completed-AreEchoes before after (recv fd) s split h).1
Step-AreEchoes {s} (lost before after fd flags (suc n) split unflagged) v h =
    rw unflagged ((completed-AreEchoes before after (recv fd) s split h).1)
Step-AreEchoes {s} (broken before after fd flags errno split) v h =
    let echoes = completed-AreEchoes before after (recv fd) s split h in
    elim (Bool-cases (errno == enobufs)) [
      | inl again ↦ rw again echoes
      | inr other ↦ rw other echoes.1
    ]
Step-AreEchoes {s} (moved before after fd bid len offset n split fits) v h =
    moved-AreEchoes fd bid len offset n (completed before after s) fits (
      completed-IsKept before after (send fd bid len offset) s split v,
      completed-AreEchoes before after (send fd bid len offset) s split h,
    )
Step-AreEchoes {s} (unsent before after fd bid len offset errno split) v h =
    (completed-AreEchoes before after (send fd bid len offset) s split h).1
Step-AreEchoes {s} (stuck before after fd bid len offset split) v h =
    (completed-AreEchoes before after (send fd bid len offset) s split h).1

-- In every state that the server reaches, a connection that waits for a message has sent back all
-- that it has received, and for one that sends, its buffer still holds what is missing, although
-- buffers are given to other connections all the time.
pub Reachable-AreEchoes : {s : Pool} → Reachable s → AreEchoes s
Reachable-AreEchoes first = (tt, tt)
Reachable-AreEchoes (later r step) =
    Step-AreEchoes step (Reachable-IsKept r) (Reachable-AreEchoes r)
