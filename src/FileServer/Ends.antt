-- ===== src/FileServer/Ends.antt =====
-- A client's coroutine ends and closes what it has opened, however the kernel answers.
use advcpp.Prelude.{
  ℕ, zero, suc, ◌+◌, ◌-◌, ◌≤◌, ◌<◌, ◌≡◌, refl, ap, ◌∙◌, inl, inr, min, Bool, true, false, Option,
  some, List, [], ◌∷◌, ◌++◌, length, ltb, le→ltb-false, Bool-cases, Option-cases, arith,
}
use mathlib.Core.List.{append-nil}
use advcpp.Arguments.{Text}
use advcpp.Server.{Answer, done, failed}
use advcpp.FileServer.{
  codes, Kernel, Session, file_loop, after_part, send_all, buffer_size, bad_request, not_found,
  make_response_header, parse_path, answer_text, serve_file, handle_request, client_handler,
}
use advcpp.FileServer.Sending.{send_all-ends}
use advcpp.FileServer.Served.{opened_for, opened}

-- It has ended and has closed these descriptors more than `c`.
abbrev Closed : List ℕ → Session → Option Session → Type 0
Closed fds c r = (c' : Session) × (r ≡ some c') × (c'.closed ≡ fds ++ c.closed)

module _ (k : Kernel) where
  -- A part that was read, given what the rest of the loop does.
  after_part-ends :
      (b : ℕ) (bytes : Text) (rest : Session → Option Session) (c : Session)
      → ((c' : Session) → Closed [] c' (rest c'))
      → Closed [] c (after_part rest (send_all k (b ∷ bytes) c))
  after_part-ends b bytes rest c ends =
      let (all, c', run, same) = send_all-ends k (b ∷ bytes) c in rw run (with_all all c' same)
    where
      with_all :
          (all : Bool) (c' : Session)
          → c'.closed ≡ c.closed
          → Closed [] c (after_part rest (some (all, c')))
      with_all false c' same = (c', refl, same)
      with_all true c' same = let (c'', run, same') = ends c' in (c'', run, same' ∙ same)

  after_read-ends :
      (rest : ℕ → Session → Option Session) (c next : Session)
      → next.closed ≡ c.closed
      → ((n : ℕ) → 0 < n → (c' : Session) → Closed [] c' (rest n c'))
      → (a : Answer Text)
      → Closed [] c (elim a as (λ x. Option Session) [
        | failed errno ↦ some next
        | done [] ↦ some next
        | done (b ∷ bytes) ↦ after_part (rest (length (b ∷ bytes))) (send_all k (b ∷ bytes) next)
      ])
  after_read-ends rest c next same ends (failed errno) = (next, refl, same)
  after_read-ends rest c next same ends (done []) = (next, refl, same)
  after_read-ends rest c next same ends (done (b ∷ bytes)) =
      let (c', run, closed) =
        after_part-ends b bytes (rest (length (b ∷ bytes))) next
          (ends (length (b ∷ bytes)) (omega arith)) in
      (c', run, closed ∙ same)

  file_loop-ends :
      (fuel offset : ℕ) (c : Session)
      → k.file_size ≤ fuel + offset
      → Closed [] c (file_loop k fuel offset c)
  unfolding file_loop
  file_loop-ends zero offset c h =
      (c, rw (le→ltb-false offset k.file_size (omega arith)) refl, refl)
  file_loop-ends (suc fuel) offset c h = elim (Bool-cases (ltb offset k.file_size)) [
    | inr end ↦ (c, rw end refl, refl)
    | inl inside ↦ rw inside (
        after_read-ends (λ (n : ℕ). file_loop k fuel (offset + n)) c
          (record c { awaited = c.awaited + 1 }) refl
          (λ (n : ℕ) (some_byte : 0 < n) (c' : Session).
            file_loop-ends fuel (offset + n) c' (omega arith))
          (k.read c.awaited (min (k.file_size - offset) buffer_size) offset))
  ]

  answer_text-ends :
      (fd : ℕ) (text : Text) (c : Session) → Closed (fd ∷ []) c (answer_text k fd text c)
  unfolding answer_text
  answer_text-ends fd text c =
      let (all, c', run, same) = send_all-ends k text c in
      (
        record c' { closed = fd ∷ c'.closed },
        rw (run, answer_text) refl,
        ap (λ (t : List ℕ). fd ∷ t) same,
      )

  serve_file-ends :
      (fd file_fd : ℕ) (c : Session) → Closed (fd ∷ file_fd ∷ []) c (serve_file k fd file_fd c)
  unfolding serve_file
  serve_file-ends fd file_fd c =
      let header = make_response_header 200 (codes "OK") k.file_size in
      let (all, c', run, same) = send_all-ends k header c in with_all all c' run same
    where
      with_all :
          (all : Bool) (c' : Session)
          → send_all k (make_response_header 200 (codes "OK") k.file_size) c ≡ some (all, c')
          → c'.closed ≡ c.closed
          → Closed (fd ∷ file_fd ∷ []) c (serve_file k fd file_fd c)
      with_all false c' run same = (
        record c' { closed = fd ∷ file_fd ∷ c'.closed },
        rw (run, serve_file) refl,
        ap (λ (t : List ℕ). fd ∷ file_fd ∷ t) same,
      )
      with_all true c' run same =
          let (c'', file_run, same') = file_loop-ends k.file_size 0 c' (omega arith) in
          (
            record c'' { closed = fd ∷ file_fd ∷ c''.closed },
            rw (run, serve_file, file_run) refl,
            ap (λ (t : List ℕ). fd ∷ file_fd ∷ t) (same' ∙ same),
          )

  handle_request-ends :
      (fd : ℕ) (path : Text) (c : Session)
      → Closed (fd ∷ opened_for k path) c (handle_request k fd path c)
  unfolding handle_request
  handle_request-ends fd [] c = answer_text-ends fd bad_request c
  handle_request-ends fd (b ∷ bs) c = elim (Option-cases (k.open_file (b ∷ bs))) [
    | inl missing ↦ rw (missing, handle_request) (answer_text-ends fd (not_found (b ∷ bs)) c)
    | inr (file_fd, found) ↦ rw (found, handle_request) (serve_file-ends fd file_fd c)
  ]

  -- However the kernel answers, the coroutine ends, and it has closed exactly the client's
  -- descriptor and then, where the request opened a file, had closed that of the file, each once.
  pub client_handler-ends :
      (fd : ℕ) → (c : Session) × (client_handler k fd ≡ some c) × (c.closed ≡ fd ∷ opened k k.recv)
  unfolding client_handler
  client_handler-ends fd =
      elim k.recv
        as (λ r.
          (c : Session) × (elim r as (λ x. Option Session) [
            | failed errno ↦ some (record { awaited = 1; sent = []; closed = fd ∷ [] })
            | done [] ↦ some (record { awaited = 1; sent = []; closed = fd ∷ [] })
            | done (b ∷ bytes) ↦
                handle_request k fd (parse_path (b ∷ bytes))
                  (record { awaited = 1; sent = []; closed = [] })
          ]
            ≡ some c)
          × (c.closed ≡ fd ∷ opened k r)) [
            | failed errno ↦ (record { awaited = 1; sent = []; closed = fd ∷ [] }, refl, refl)
            | done [] ↦ (record { awaited = 1; sent = []; closed = fd ∷ [] }, refl, refl)
            | done (b ∷ bytes) ↦
                let path = parse_path (b ∷ bytes) in
                let (c, run, closed) =
                  handle_request-ends fd path (record { awaited = 1; sent = []; closed = [] }) in
                (c, run, closed ∙ ap (λ (t : List ℕ). fd ∷ t) (append-nil (opened_for k path)))
          ]
