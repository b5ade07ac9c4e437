-- ===== src/FileServer/Tests.antt =====
-- A request for a small file, sent in pieces, and one for a file outside the directory.
use advcpp.Prelude.{ℕ, zero, suc, ◌≡◌, refl, some, [], ◌∷◌, ◌++◌, take, drop, arith}
use advcpp.Arguments.{Text}
use advcpp.Server.{Answer, done, failed}
use advcpp.FileServer.{
  codes, Kernel, Session, parse_path, client_handler, make_response_header, decimal,
}
use advcpp.FileServer.Paths.{parse_path-get}
use advcpp.FileServer.Served.{Reads, answer_of, opened, client_handler-answers}
use advcpp.FileServer.Ends.{client_handler-ends}
use advcpp.FileServer.Sending.{Progresses}

abbrev request : Text
request = codes "GET /a.txt HTTP/1.0"

abbrev file : Text
file = codes "hello"

-- One byte is sent at a time, and one byte of the file is read at a time.
abbrev read_one : ℕ → ℕ → ℕ → Answer Text
read_one n size offset = done (take 1 (drop offset file))

abbrev send_one : ℕ → Text → Answer ℕ
send_one n text = done 1

abbrev slow : Kernel
slow = record {
  recv = done request;
  open_file = λ path. some 9;
  file_size = 5;
  read = read_one;
  send = send_one;
}

slow-Progresses : Progresses slow
slow-Progresses n b left = (0, refl, omega arith)

slow-Reads : Reads slow file
slow-Reads n size zero h s = (104, [], refl, s, refl)
slow-Reads n size (suc zero) h s = (101, [], refl, s, refl)
slow-Reads n size (suc (suc zero)) h s = (108, [], refl, s, refl)
slow-Reads n size (suc (suc (suc zero))) h s = (108, [], refl, s, refl)
slow-Reads n size (suc (suc (suc (suc zero)))) h s = (111, [], refl, s, refl)
slow-Reads n size (suc (suc (suc (suc (suc offset))))) h s = absurd (omega arith)

client_handler-answers_example :
    (c : Session) × (client_handler slow 7 ≡ some c)
    × (c.sent ≡ answer_of slow file slow.recv)
    × (c.closed ≡ 7 ∷ opened slow slow.recv)
client_handler-answers_example = client_handler-answers slow file slow-Progresses slow-Reads refl 7

served :
    client_handler slow 7
    ≡ some (record {
      awaited = 94;
      sent =
          codes "HTTP/1.0 200 OK"
          ++ 13 ∷ 10 ∷ codes "Content-Length: 5"
          ++ 13 ∷ 10 ∷ codes "Content-Type: text/plain"
          ++ 13 ∷ 10 ∷ codes "Connection: close"
          ++ 13 ∷ 10 ∷ 13 ∷ 10 ∷ file;
      closed = 7 ∷ 9 ∷ [];
    })
unfolding client_handler make_response_header decimal
served = refl

-- The socket breaks at once.
abbrev broken : Kernel
broken = record slow { send = λ n text. failed 32 }

client_handler-ends_example :
    (c : Session) × (client_handler broken 7 ≡ some c) × (c.closed ≡ 7 ∷ opened broken broken.recv)
client_handler-ends_example = client_handler-ends broken 7

parse_path-get_example :
    parse_path (codes "GET /" ++ codes "/etc/passwd" ++ b' ' ∷ codes "HTTP/1.0")
    ≡ codes "/etc/passwd"
unfolding parse_path
parse_path-get_example =
    parse_path-get (codes "/etc/passwd") (codes "HTTP/1.0") (λ e. cc e) refl refl

printed : decimal 1048576 ≡ codes "1048576"
unfolding decimal
printed = refl

refused_paths :
    (parse_path (codes "GET /../key HTTP/1.0") ≡ [])
    × (parse_path (codes "POST / HTTP/1.0") ≡ [])
    × (parse_path (codes "GET / HTTP/1.0") ≡ codes "sample.txt")
unfolding parse_path
refused_paths = (refl, refl, refl)
