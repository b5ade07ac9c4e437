-- ===== src/Arguments/Tests.antt =====
-- Addresses and bytes as they are typed.
use advcpp.Prelude.{
  ℕ, ◌≡◌, refl, List, [], ◌∷◌, arith, ok, err, Result, length, if◌then◌else◌, ◌==◌,
}
use advcpp.Prelude.{invalid_argument, odd_hex_digits}
use advcpp.Arguments.{
  Text, count_colons, normalize_bdf, parse_ull, parse_u16, parse_mac, parse_hex_bytes, mac_string,
}
use advcpp.Arguments.Hex.{parse_mac-mac_string}

-- `0b:7F`
abbrev two_bytes : Text
two_bytes = 48 ∷ 98 ∷ 58 ∷ 55 ∷ 70 ∷ []

parsed : parse_hex_bytes two_bytes ≡ ok (0x0b ∷ 0x7f ∷ [])
unfolding parse_hex_bytes
parsed = refl

refused :
    (parse_mac two_bytes ≡ err invalid_argument)
    × (parse_hex_bytes (48 ∷ []) ≡ err odd_hex_digits)
    × (parse_hex_bytes (103 ∷ 48 ∷ []) ≡ err invalid_argument)
unfolding parse_mac parse_hex_bytes
refused = (refl, refl, refl)

-- A domain is put before a bare bus number.
normalized :
    normalize_bdf (99 ∷ 49 ∷ 58 ∷ 48 ∷ []) ≡ 48 ∷ 48 ∷ 48 ∷ 48 ∷ 58 ∷ 99 ∷ 49 ∷ 58 ∷ 48 ∷ []
unfolding normalize_bdf count_colons
normalized = refl

-- A number read from all of the text must fit 16 bits.
abbrev reads_all : ℕ → Text → Result (ℕ × ℕ)
reads_all value text = ok (value, length text)

numbers :
    (parse_u16 (reads_all 65535) two_bytes ≡ ok 65535)
    × (parse_u16 (reads_all 65536) two_bytes ≡ err invalid_argument)
    × (parse_ull (λ text. ok (11, 2)) two_bytes ≡ err invalid_argument)
unfolding parse_u16 parse_ull
numbers = (refl, refl, refl)

abbrev address : List ℕ
address = 2 ∷ 0 ∷ 0x5e ∷ 0x10 ∷ 0xff ∷ 7 ∷ []

parse_mac-mac_string_example :
    (parse_hex_bytes (mac_string address) ≡ ok address)
    × (parse_mac (mac_string address)
        ≡ (if length address == 6 then ok address else err invalid_argument))
parse_mac-mac_string_example = parse_mac-mac_string address (omega arith)
