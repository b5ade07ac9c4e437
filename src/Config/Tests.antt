-- ===== src/Config/Tests.antt =====
-- A file whose byte at `x` is `x`, read by calls that are interrupted once and return two bytes each.
use advcpp.Prelude.{
  ℕ, zero, suc, ◌≡◌, refl, sym, ap, ◌∙◌, List, [], ◌∷◌, length, min, arith, some, ok, err, Result,
}
use advcpp.Prelude.{config_read_past, config_write_past}
use advcpp.Memory.{Memory}
use advcpp.Packet.{read_bytes, copy_bytes}
use advcpp.Packet.Bytes.{length-read_bytes}
use advcpp.Config.{
  interrupted, got, Pread, read_loop, pread_exact, ConfigRegion, read_config_bytes, read_config_u8,
  read_config_le16, read_config_le32,
}
use advcpp.Config.{
  Written, wrote, Pwrite, write_loop, pwrite_exact, write_config_bytes, write_config_le16,
}
use advcpp.Config.Stored.{AtMost, SettlesWriting, IsStored, pwrite_exact-IsStored}
use advcpp.Config.Exact.{Honest, Settles, IsExact, pread_exact-IsExact}

abbrev counting : Memory
counting = λ x. x

abbrev two_at_once : Pread
two_at_once zero n o = interrupted
two_at_once (suc k) n o = got (read_bytes (min n 2) o counting)

abbrev config : ConfigRegion
config = record { offset = 0; size = 64 }

read_words :
    (pread_exact two_at_once 4 5 10 ≡ some (ok (10 ∷ 11 ∷ 12 ∷ 13 ∷ 14 ∷ [])))
    × (read_config_u8 two_at_once 2 config 6 ≡ some (ok 6))
    × (read_config_le32 two_at_once 3 config 0 ≡ some (ok 0x03020100))
    × (read_config_le16 two_at_once 3 config 63 ≡ some (err config_read_past))
unfolding pread_exact read_loop read_config_bytes read_config_u8 read_config_le16 read_config_le32
    read_bytes
read_words = (refl, refl, refl, refl)

two_at_once-Honest : Honest counting two_at_once
two_at_once-Honest zero n o bytes e = ground arith
two_at_once-Honest (suc k) n o bytes e =
    let same : read_bytes (min n 2) o counting ≡ bytes = ground arith in
    let len : length bytes ≡ min n 2 =
      ap length (sym same) ∙ length-read_bytes (min n 2) o counting in
    (omega arith, sym same ∙ ap (λ (t : ℕ). read_bytes t o counting) (sym len))

two_at_once-Settles : Settles 1 two_at_once
two_at_once-Settles zero n o h e = omega arith
two_at_once-Settles (suc k) n o h e = ground arith

pread_exact-IsExact_example :
    (r : Result (List ℕ)) × (pread_exact two_at_once 6 5 10 ≡ some r) × IsExact counting 5 10 r
pread_exact-IsExact_example =
    pread_exact-IsExact counting two_at_once 1 two_at_once-Honest two_at_once-Settles 5 10
      (omega arith)

-- One interruption, then two bytes with each call.
abbrev two_written : Pwrite
two_written zero n o = Written.interrupted
two_written (suc k) n o = wrote (min n 2)

written_word :
    read_bytes 4 9 (write_config_le16 two_written 2 config 10 0x1234 counting).0
    ≡ 9 ∷ 0x34 ∷ 0x12 ∷ 12 ∷ []
unfolding write_config_le16 write_config_bytes pwrite_exact write_loop read_bytes copy_bytes
written_word = refl

written_past :
    (write_config_bytes two_written 9 config 63 (1 ∷ 2 ∷ []) counting).1
    ≡ some (err config_write_past)
unfolding write_config_bytes
written_past = refl

two_written-AtMost : AtMost two_written
two_written-AtMost zero n o w e = cc
two_written-AtMost (suc k) n o w e = ground arith

two_written-Settles : SettlesWriting 1 two_written
two_written-Settles zero n o h e = absurd (omega arith)
two_written-Settles (suc k) n o h e = cc

pwrite_exact-IsStored_example :
    IsStored (1 ∷ 2 ∷ 3 ∷ []) 8 counting (pwrite_exact two_written 4 (1 ∷ 2 ∷ 3 ∷ []) 8 counting)
pwrite_exact-IsStored_example =
    pwrite_exact-IsStored two_written 1 two_written-AtMost two_written-Settles (1 ∷ 2 ∷ 3 ∷ []) 8
      counting (omega arith)
