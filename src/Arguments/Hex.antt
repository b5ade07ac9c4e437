-- ===== src/Arguments/Hex.antt =====
-- Bytes that were printed are read back, and what is accepted is well formed.
use advcpp.Prelude.{
  ℕ, ◌*◌, ◌/◌, ◌%◌, ◌<◌, ◌≡◌, refl, ap, Bool, true, false, List, [], ◌∷◌, arith, length, ok, err,
  ◌==◌,
}
use advcpp.Prelude.{invalid_argument, if◌then◌else◌}
use advcpp.Arguments.{
  Text, is_xdigit, digits_of, hex_value, hex_bytes, is_mac_separator, is_byte_separator, parse_mac,
  parse_hex_bytes, hex_digit, mac_string,
}

-- Every element is a byte.
abbrev pub AreBytes : List ℕ → Type 0
AreBytes [] = Unit {0}
AreBytes (b ∷ bytes) = (b < 256) × AreBytes bytes

-- The digits of bytes, without separators.
plain : List ℕ → Text
plain [] = []
plain (b ∷ bytes) = hex_digit (b / 16) ∷ hex_digit (b % 16) ∷ plain bytes

hex_digit_is : (n : ℕ) → n < 16 → (is_xdigit (hex_digit n) ≡ true) × (hex_value (hex_digit n) ≡ n)
unfolding is_xdigit hex_digit hex_value
hex_digit_is n h = ground arith

-- A digit is no separator.
hex_digit_joins : (n : ℕ) → n < 16 → is_byte_separator (hex_digit n) ≡ false
unfolding is_byte_separator hex_digit
hex_digit_joins n h = ground arith

mac_of_byte : (c : ℕ) → is_byte_separator c ≡ false → is_mac_separator c ≡ false
unfolding is_byte_separator is_mac_separator
mac_of_byte c h = ground arith

module _ (separates : ℕ → Bool) (colon : separates b':' ≡ true)
    (joins : (n : ℕ) → n < 16 → separates (hex_digit n) ≡ false) where
  digits_of-digit :
      (n : ℕ) (cs : Text) {r : Text}
      → n < 16
      → digits_of separates cs ≡ ok r
      → digits_of separates (hex_digit n ∷ cs) ≡ ok (hex_digit n ∷ r)
  unfolding digits_of
  digits_of-digit n cs h e = rw (joins n h, (hex_digit_is n h).0, e) refl

  digits_of-mac_string :
      (bytes : List ℕ) → AreBytes bytes → digits_of separates (mac_string bytes) ≡ ok (plain bytes)
  unfolding mac_string plain digits_of
  digits_of-mac_string [] h = refl
  digits_of-mac_string (b ∷ []) h =
      digits_of-digit (b / 16) (hex_digit (b % 16) ∷ []) (omega arith)
        (digits_of-digit (b % 16) [] (omega arith) refl)
  digits_of-mac_string (b ∷ c ∷ bytes) h =
      digits_of-digit (b / 16) (hex_digit (b % 16) ∷ b':' ∷ mac_string (c ∷ bytes)) (omega arith) (
        digits_of-digit (b % 16) (b':' ∷ mac_string (c ∷ bytes)) (omega arith)
          (rw colon (digits_of-mac_string (c ∷ bytes) h.1)))

hex_bytes-plain : (bytes : List ℕ) → AreBytes bytes → hex_bytes (plain bytes) ≡ bytes
unfolding plain hex_bytes
hex_bytes-plain [] h = refl
hex_bytes-plain (b ∷ bytes) h =
    rw
      (
        (hex_digit_is (b / 16) (omega arith)).1,
        (hex_digit_is (b % 16) (omega arith)).1,
        hex_bytes-plain bytes h.1,
      )
      (ap (λ (t : ℕ). t ∷ bytes) (omega arith))

length-plain : (bytes : List ℕ) → length (plain bytes) ≡ 2 * length bytes
unfolding plain
length-plain [] = omega arith
length-plain (b ∷ bytes) = omega (arith, length-plain bytes)

-- Bytes that `mac_string` prints are read back by `parse_hex_bytes`, however many they are, and
-- by `parse_mac` exactly where they are six.
pub parse_mac-mac_string :
    (bytes : List ℕ)
    → AreBytes bytes
    → (parse_hex_bytes (mac_string bytes) ≡ ok bytes)
      × (parse_mac (mac_string bytes)
          ≡ (if length bytes == 6 then ok bytes else err invalid_argument))
unfolding parse_hex_bytes parse_mac
parse_mac-mac_string bytes h =
    let by_byte =
      digits_of-mac_string is_byte_separator (unfold is_byte_separator in refl) hex_digit_joins
        bytes h in
    let by_mac =
      digits_of-mac_string is_mac_separator (unfold is_mac_separator in refl)
        (λ n small. mac_of_byte (hex_digit n) (hex_digit_joins n small)) bytes h in
    let len = length-plain bytes in
    (
      rw (by_byte, hex_bytes-plain bytes h) (ground (arith, len)),
      rw (by_mac, hex_bytes-plain bytes h) (ground (arith, len)),
    )
