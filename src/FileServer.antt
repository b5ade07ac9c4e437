-- ===== src/FileServer.antt =====
-- The file server of io_uring/13_file_server.cpp: one client's coroutine from its request to the
-- closing of its descriptors. A text is the list of its bytes. The ring and the kernel are not code
-- of the repository: each operation has an answer that depends on how many there were before.
pub mod Paths
pub mod Header
pub mod Sending
pub mod Served
pub mod Ends
mod Tests
use Prim.Native.Char.{code}
use Prim.Native.String.{String}
use advcpp.Prelude.{
  ℕ, zero, suc, ◌+◌, ◌-◌, ◌*◌, ◌/◌, ◌%◌, min, Bool, true, false, ◌&&◌, ◌||◌, not, Option, none,
  some, List, [], ◌∷◌, ◌++◌, length, take, drop, ltb, ◌==◌, if◌then◌else◌,
}
use advcpp.Arguments.{Text}
use advcpp.Server.{Answer, done, failed}

abbrev pub codes : String → Text
codes String.[] = []
codes (String.◌∷◌ c s) = code c ∷ codes s

unfoldable pub same_text : Text → Text → Bool
same_text [] [] = true
same_text [] (c ∷ cs) = false
same_text (b ∷ bs) [] = false
same_text (b ∷ bs) (c ∷ cs) = b == c && same_text bs cs

-- The text before the first space: `none` where there is no space.
unfoldable pub before_space : Text → Option Text
before_space [] = none
before_space (c ∷ cs) =
    if c == b' '
    then some []
    else elim (before_space cs) [ none ↦ none | some word ↦ some (c ∷ word) ]

unfoldable pub has_dotdot : Text → Bool
has_dotdot [] = false
has_dotdot (a ∷ []) = false
has_dotdot (a ∷ b ∷ cs) = (a == b'.' && b == b'.') || has_dotdot (b ∷ cs)

unfoldable pub strip_slash : Text → Text
strip_slash [] = []
strip_slash (c ∷ cs) = if c == b'/' then cs else c ∷ cs

unfoldable pub default_path : Text → Text
default_path [] = codes "sample.txt"
default_path (c ∷ cs) = c ∷ cs

abbrev pub checked_path : Text → Text
checked_path path = if has_dotdot path then [] else path

unfoldable pub parse_path : Text → Text
unfolding same_text before_space has_dotdot strip_slash default_path
parse_path request =
    if not (same_text (take 4 request) (codes "GET "))
    then []
    else elim (before_space (drop 4 request)) [
      | none ↦ []
      | some target ↦ checked_path (default_path (strip_slash target))
    ]

-- A number as `operator<<` prints it, of at most `fuel` digits.
unfoldable pub decimal_digits : ℕ → ℕ → Text
decimal_digits zero n = []
decimal_digits (suc fuel) n =
    let rest = decimal_digits fuel (n / 10) in
    (if ltb n 10 then [] else rest) ++ (b'0' + n % 10) ∷ []

-- 20 digits are enough for 64 bits.
unfoldable pub decimal : ℕ → Text
unfolding decimal_digits
decimal n = decimal_digits 20 n

abbrev pub line_end : Text
line_end = 13 ∷ 10 ∷ []

unfoldable pub make_response_header : ℕ → Text → ℕ → Text
make_response_header status status_text content_length =
    codes "HTTP/1.0 "
    ++ decimal status
    ++ codes " "
    ++ status_text
    ++ line_end
    ++ codes "Content-Length: "
    ++ decimal content_length
    ++ line_end
    ++ codes "Content-Type: "
    ++ codes "text/plain"
    ++ line_end
    ++ codes "Connection: close"
    ++ line_end
    ++ line_end

-- What the kernel answers. A `read` is told its size and offset, a `send` its bytes.
pub record Kernel : Type 0 where
  pub recv : Answer Text
  pub open_file : Text → Option ℕ
  pub file_size : ℕ
  pub read : ℕ → ℕ → ℕ → Answer Text
  pub send : ℕ → Text → Answer ℕ

-- The operations awaited so far, the bytes that the client was sent, and the descriptors that were
-- closed, the last one first.
pub record Session : Type 0 where
  pub awaited : ℕ
  pub sent : Text
  pub closed : List ℕ

abbrev pub close : ℕ → Session → Session
close fd c = record c { closed = fd ∷ c.closed }

-- A loop that sends `left`, and whether it has sent all of it: `none` means that the fuel ran out.
unfoldable pub send_loop : Kernel → ℕ → Text → Session → Option (Bool × Session)
send_loop k fuel [] c = some (true, c)
send_loop k zero (b ∷ left) c = none
send_loop k (suc fuel) (b ∷ left) c = elim (k.send c.awaited (b ∷ left)) [
  | failed errno ↦ some (false, record c { awaited = c.awaited + 1 })
  | done zero ↦ some (false, record c { awaited = c.awaited + 1 })
  | done (suc n) ↦
      send_loop k fuel (drop (suc n) (b ∷ left))
        (record c { awaited = c.awaited + 1; sent = c.sent ++ take (suc n) (b ∷ left) })
]

-- Each round sends a byte or more.
unfoldable pub send_all : Kernel → Text → Session → Option (Bool × Session)
unfolding send_loop
send_all k text c = send_loop k (length text) text c

abbrev pub buffer_size : ℕ
buffer_size = 4096

abbrev pub after_part : (Session → Option Session) → Option (Bool × Session) → Option Session
after_part more none = none
after_part more (some (false, c)) = some c
after_part more (some (true, c)) = more c

-- The loop over the file from `offset`.
unfoldable pub file_loop : Kernel → ℕ → ℕ → Session → Option Session
unfolding send_all
file_loop k zero offset c = if ltb offset k.file_size then none else some c
file_loop k (suc fuel) offset c =
    let next = record c { awaited = c.awaited + 1 } in
    let part = k.read c.awaited (min (k.file_size - offset) buffer_size) offset in
    let rest = elim part as (λ a. Option Session) [
      | failed errno ↦ some next
      | done [] ↦ some next
      | done (b ∷ bytes) ↦
          after_part (file_loop k fuel (offset + length (b ∷ bytes))) (send_all k (b ∷ bytes) next)
    ] in
    if ltb offset k.file_size then rest else some c

-- A refusal: the text is sent and the descriptor is closed, however the sending ends.
unfoldable pub answer_text : Kernel → ℕ → Text → Session → Option Session
unfolding send_all
answer_text k fd text c = elim (send_all k text c) [
  | none ↦ none
  | some (all, c') ↦ some (close fd c')
]

unfoldable pub bad_request : Text
bad_request = make_response_header 400 (codes "Bad Request") 0

unfoldable pub not_found : Text → Text
not_found path =
    let body = codes "404 Not Found: " ++ path ++ 10 ∷ [] in
    make_response_header 404 (codes "Not Found") (length body) ++ body

-- The header and the file. Each round of the loop reads a byte or more.
unfoldable pub serve_file : Kernel → ℕ → ℕ → Session → Option Session
unfolding send_all file_loop
serve_file k fd file_fd c =
    elim (send_all k (make_response_header 200 (codes "OK") k.file_size) c) [
      | none ↦ none
      | some (false, c') ↦ some (close fd (close file_fd c'))
      | some (true, c') ↦ elim (file_loop k k.file_size 0 c') [
        | none ↦ none
        | some c'' ↦ some (close fd (close file_fd c''))
      ]
    ]

unfoldable pub handle_request : Kernel → ℕ → Text → Session → Option Session
unfolding answer_text serve_file
handle_request k fd path c = elim path [
  | [] ↦ answer_text k fd bad_request c
  | b ∷ bs ↦ elim (k.open_file (b ∷ bs)) [
    | none ↦ answer_text k fd (not_found (b ∷ bs)) c
    | some file_fd ↦ serve_file k fd file_fd c
  ]
]

unfoldable pub client_handler : Kernel → ℕ → Option Session
unfolding handle_request parse_path
client_handler k fd = elim k.recv [
  | failed errno ↦ some (record { awaited = 1; sent = []; closed = fd ∷ [] })
  | done [] ↦ some (record { awaited = 1; sent = []; closed = fd ∷ [] })
  | done (b ∷ bytes) ↦
      handle_request k fd (parse_path (b ∷ bytes)) (record { awaited = 1; sent = []; closed = [] })
]
