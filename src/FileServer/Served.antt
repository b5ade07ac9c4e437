-- ===== src/FileServer/Served.antt =====
-- What a client is sent by a kernel that makes progress.
use advcpp.Prelude.{
  ℕ, zero, suc, ◌+◌, ◌-◌, ◌≤◌, ◌<◌, ◌≡◌, refl, sym, ap, ◌∙◌, inl, inr, min, none, some, [], List,
  ◌∷◌, ◌++◌, length, take, drop, take-append-drop, drop-drop, drop_all, ltb, ltb→lt, ltb-false→le,
  le→ltb-false, Bool-cases, Option, Option-cases, arith,
}
use mathlib.Core.List.{append-nil, append_assoc}
use advcpp.Arguments.{Text}
use advcpp.Server.{Answer, done, failed}
use advcpp.FileServer.{
  codes, Kernel, Session, file_loop, buffer_size, bad_request, not_found, make_response_header,
  parse_path, answer_text, serve_file, handle_request, client_handler,
}
use advcpp.FileServer.Sending.{Progresses, SentAll, send_all-SentAll}

-- A `read` inside the file gives a byte or more of it, and no more than asked for.
abbrev pub Reads : Kernel → Text → Type 0
Reads k file =
    (n size offset : ℕ)
    → offset < length file
    → 0 < size
    → (b : ℕ) × (bytes : Text) × (k.read n size offset ≡ done (b ∷ bytes))
      × (length (b ∷ bytes) ≤ size)
      × (b ∷ bytes ≡ take (length (b ∷ bytes)) (drop offset file))

abbrev refused : ℕ → Session
refused fd = record { awaited = 1; sent = []; closed = fd ∷ [] }

abbrev accepted : Session
accepted = record { awaited = 1; sent = []; closed = [] }

-- The descriptor of the file that is opened for a path, and for the request.
abbrev pub opened_for : Kernel → Text → List ℕ
opened_for k [] = []
opened_for k (b ∷ bs) = elim (k.open_file (b ∷ bs)) [ none ↦ [] | some file_fd ↦ file_fd ∷ [] ]

abbrev pub opened : Kernel → Answer Text → List ℕ
opened k (failed errno) = []
opened k (done []) = []
opened k (done (b ∷ bytes)) = opened_for k (parse_path (b ∷ bytes))

-- What the protocol says is sent.
abbrev pub answer_to : Kernel → Text → Text → Text
answer_to k file [] = bad_request
answer_to k file (b ∷ bs) = elim (k.open_file (b ∷ bs)) [
  | none ↦ not_found (b ∷ bs)
  | some file_fd ↦ make_response_header 200 (codes "OK") (length file) ++ file
]

abbrev pub answer_of : Kernel → Text → Answer Text → Text
answer_of k file (failed errno) = []
answer_of k file (done []) = []
answer_of k file (done (b ∷ bytes)) = answer_to k file (parse_path (b ∷ bytes))

module _ (k : Kernel) (file : Text) (progresses : Progresses k) (reads : Reads k file)
    (size : k.file_size ≡ length file) where
  nothing_left : (offset : ℕ) (c : Session) → length file ≤ offset → SentAll c (drop offset file) c
  nothing_left offset c h = record {
    sent = sym (rw (drop_all offset file h) (append-nil c.sent));
    closed = refl;
  }

  next_part :
      (offset b : ℕ) (bytes : Text)
      → b ∷ bytes ≡ take (length (b ∷ bytes)) (drop offset file)
      → (b ∷ bytes) ++ drop (offset + length (b ∷ bytes)) file ≡ drop offset file
  next_part offset b bytes part =
      let n = length (b ∷ bytes) in
      ap (λ (t : Text). t ++ drop (offset + n) file) part
      ∙ ap (λ (t : Text). take n (drop offset file) ++ t) (sym (drop-drop offset n file))
      ∙ take-append-drop n (drop offset file)

  file_loop-SentAll :
      (fuel offset : ℕ) (c : Session)
      → length file ≤ fuel + offset
      → (c' : Session) × (file_loop k fuel offset c ≡ some c') × SentAll c (drop offset file) c'
  unfolding file_loop
  file_loop-SentAll zero offset c h = (
    c,
    rw (le→ltb-false offset k.file_size (omega arith)) refl,
    nothing_left offset c (omega arith),
  )
  file_loop-SentAll (suc fuel) offset c h = elim (Bool-cases (ltb offset k.file_size)) [
    | inr end ↦
        let past = ltb-false→le offset k.file_size end in
        (c, rw end refl, nothing_left offset c (omega arith))
    | inl inside ↦
        let in_file = ltb→lt offset k.file_size inside in
        let before : offset < length file = omega arith in
        let some_size : 0 < min (k.file_size - offset) buffer_size = omega arith in
        let (b, bytes, read, fits, part) =
          reads c.awaited (min (k.file_size - offset) buffer_size) offset before some_size in
        let next : Session = record c { awaited = c.awaited + 1 } in
        let (c', all_sent, all) = send_all-SentAll k progresses (b ∷ bytes) next in
        let enough : length file ≤ fuel + (offset + length (b ∷ bytes)) = omega arith in
        let (c'', run, rest) = file_loop-SentAll fuel (offset + length (b ∷ bytes)) c' enough in
        (
          c'',
          rw (inside, read, all_sent) run,
          record {
            sent =
                rest.sent
                ∙ ap (λ (t : Text). t ++ drop (offset + length (b ∷ bytes)) file) all.sent
                ∙ append_assoc c.sent (b ∷ bytes) (drop (offset + length (b ∷ bytes)) file)
                ∙ ap (λ (t : Text). c.sent ++ t) (next_part offset b bytes part);
            closed = rest.closed ∙ all.closed;
          },
        )
  ]

  serve_file-SentAll :
      (fd file_fd : ℕ) (c : Session)
      → (c' : Session) × (serve_file k fd file_fd c ≡ some c')
        × (c'.sent ≡ c.sent ++ (make_response_header 200 (codes "OK") (length file) ++ file))
        × (c'.closed ≡ fd ∷ file_fd ∷ c.closed)
  unfolding serve_file
  serve_file-SentAll fd file_fd c =
      let header = make_response_header 200 (codes "OK") k.file_size in
      let (c', header_sent, head) = send_all-SentAll k progresses header c in
      let (c'', file_sent, body) = file_loop-SentAll k.file_size 0 c' (omega arith) in
      (
        record c'' { closed = fd ∷ file_fd ∷ c''.closed },
        rw (header_sent, serve_file, file_sent) refl,
        body.sent
            ∙ ap (λ (t : Text). t ++ file) head.sent
            ∙ append_assoc c.sent header file
            ∙ ap (λ (t : ℕ). c.sent ++ (make_response_header 200 (codes "OK") t ++ file)) size,
        ap (λ (t : List ℕ). fd ∷ file_fd ∷ t) (body.closed ∙ head.closed),
      )

  answer_text-SentAll :
      (fd : ℕ) (text : Text) (c : Session)
      → (c' : Session) × (answer_text k fd text c ≡ some c')
        × (c'.sent ≡ c.sent ++ text)
        × (c'.closed ≡ fd ∷ c.closed)
  unfolding answer_text
  answer_text-SentAll fd text c =
      let (c', run, all) = send_all-SentAll k progresses text c in
      (
        record c' { closed = fd ∷ c'.closed },
        rw (run, answer_text) refl,
        all.sent,
        ap (λ (t : List ℕ). fd ∷ t) all.closed,
      )

  handle_request-Answered :
      (fd : ℕ) (path : Text) (c : Session)
      → (c' : Session) × (handle_request k fd path c ≡ some c')
        × (c'.sent ≡ c.sent ++ answer_to k file path)
        × (c'.closed ≡ fd ∷ opened_for k path ++ c.closed)
  unfolding handle_request
  handle_request-Answered fd [] c = answer_text-SentAll fd bad_request c
  handle_request-Answered fd (b ∷ bs) c = elim (Option-cases (k.open_file (b ∷ bs))) [
    | inl missing ↦
        rw (missing, handle_request, answer_to) (answer_text-SentAll fd (not_found (b ∷ bs)) c)
    | inr (file_fd, found) ↦ rw (found, handle_request, answer_to) (serve_file-SentAll fd file_fd c)
  ]

  -- Where every `send` takes a byte or more and every `read` inside the file gives a byte or more of
  -- it, the coroutine ends, its client was sent exactly the answer to its request - a refusal of a
  -- request that names no file, one of a file that does not open, or the header with the size of
  -- the file and then the whole file - and the client's descriptor and that of the file, if one was
  -- opened, were closed once each.
  pub client_handler-answers :
      (fd : ℕ)
      → (c : Session) × (client_handler k fd ≡ some c)
        × (c.sent ≡ answer_of k file k.recv)
        × (c.closed ≡ fd ∷ opened k k.recv)
  unfolding client_handler
  client_handler-answers fd =
      elim k.recv
        as (λ r.
          (c : Session) × (elim r as (λ x. Option Session) [
            | failed errno ↦ some (record { awaited = 1; sent = []; closed = fd ∷ [] })
            | done [] ↦ some (record { awaited = 1; sent = []; closed = fd ∷ [] })
            | done (b ∷ bytes) ↦
                handle_request k fd (parse_path (b ∷ bytes))
                  (record { awaited = 1; sent = []; closed = [] })
          ]
            ≡ some c)
          × (c.sent ≡ answer_of k file r)
          × (c.closed ≡ fd ∷ opened k r)) [
            | failed errno ↦ (refused fd, refl, refl, refl)
            | done [] ↦ (refused fd, refl, refl, refl)
            | done (b ∷ bytes) ↦
                let path = parse_path (b ∷ bytes) in
                let (c, run, sent, closed) = handle_request-Answered fd path accepted in
                (
                  c,
                  run,
                  sent,
                  closed ∙ ap (λ (t : List ℕ). fd ∷ t) (append-nil (opened_for k path)),
                )
          ]
