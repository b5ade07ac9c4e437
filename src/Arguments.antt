-- ===== src/Arguments.antt =====
-- The texts of userspace_drivers/virtio_net_vfio.hpp: parsing of the samples' arguments, and the
-- names that are printed. A text is a list of character codes, of ASCII where the classes of
-- characters matter. `std::stoull` is a parameter.
pub mod Hex
mod Tests
use advcpp.Prelude.{
  ℕ, ◌+◌, ◌-◌, ◌*◌, ◌/◌, ◌%◌, Bool, ◌&&◌, ◌||◌, not, List, [], ◌∷◌, length, ltb, leb, ◌==◌,
  if◌then◌else◌, u8, u16_max, u32_max, Result, ok, err, ◌>>=◌, ◌>>◌, throw_if,
}
use advcpp.Prelude.{invalid_argument, odd_hex_digits}

abbrev pub Text : Type 0
Text = List ℕ

count_colons : Text → ℕ
count_colons [] = 0
count_colons (c ∷ cs) = if c == b':' then count_colons cs + 1 else count_colons cs

unfoldable pub normalize_bdf : Text → Text
unfolding count_colons
normalize_bdf bdf = if count_colons bdf == 1 then b'0' ∷ b'0' ∷ b'0' ∷ b'0' ∷ b':' ∷ bdf else bdf

-- `stoull(text, &parsed, 0)`: the value and the number of characters that it was read from.
pub parse_ull : (Text → Result (ℕ × ℕ)) → Text → Result ℕ
parse_ull stoull text = do
  (value, parsed) ← stoull text
  throw_if (not (parsed == length text)) invalid_argument
  ok value

pub parse_u16 : (Text → Result (ℕ × ℕ)) → Text → Result ℕ
unfolding parse_ull
parse_u16 stoull text = do
  value ← parse_ull stoull text
  throw_if (ltb u16_max value) invalid_argument
  ok value

pub parse_u32 : (Text → Result (ℕ × ℕ)) → Text → Result ℕ
unfolding parse_ull
parse_u32 stoull text = do
  value ← parse_ull stoull text
  throw_if (ltb u32_max value) invalid_argument
  ok value

-- `std::isxdigit` and `std::isspace` in the C locale.
unfoldable pub is_xdigit : ℕ → Bool
is_xdigit c =
    (leb b'0' c && leb c b'9') || ((leb b'a' c && leb c b'f') || (leb b'A' c && leb c b'F'))

unfoldable pub is_space : ℕ → Bool
is_space c = c == 32 || (leb 9 c && leb c 13)

-- The digits of a text without its separators.
unfoldable pub digits_of : (ℕ → Bool) → Text → Result Text
unfolding is_xdigit
digits_of separates [] = ok []
digits_of separates (c ∷ cs) =
    let rest = digits_of separates cs in
    if separates c
    then rest
    else if is_xdigit c
    then rest >>= (λ r. ok (c ∷ r))
    else err invalid_argument

unfoldable pub hex_value : ℕ → ℕ
hex_value c = if leb c b'9' then c - b'0' else if leb c b'F' then c - b'A' + 10 else c - b'a' + 10

-- `stoul` of two digits in base 16, for each two of them.
unfoldable pub hex_bytes : Text → List ℕ
unfolding hex_value
hex_bytes [] = []
hex_bytes (c ∷ []) = []
hex_bytes (c ∷ d ∷ cs) = u8 (16 * hex_value c + hex_value d) ∷ hex_bytes cs

unfoldable pub is_mac_separator : ℕ → Bool
is_mac_separator c = c == b':' || c == b'-'

unfoldable pub parse_mac : Text → Result (List ℕ)
unfolding digits_of is_mac_separator hex_bytes
parse_mac text = do
  hex ← digits_of is_mac_separator text
  throw_if (not (length hex == 12)) invalid_argument
  ok (hex_bytes hex)

unfoldable pub is_byte_separator : ℕ → Bool
unfolding is_space is_mac_separator
is_byte_separator c = is_space c || is_mac_separator c

unfoldable pub parse_hex_bytes : Text → Result (List ℕ)
unfolding digits_of is_byte_separator hex_bytes
parse_hex_bytes text = do
  hex ← digits_of is_byte_separator text
  throw_if (not (length hex % 2 == 0)) odd_hex_digits
  ok (hex_bytes hex)

unfoldable pub hex_digit : ℕ → ℕ
hex_digit n = if ltb n 10 then b'0' + n else b'a' + n - 10

-- `{:02x}`, with a colon between each two bytes.
unfoldable pub mac_string : List ℕ → Text
unfolding hex_digit
mac_string [] = []
mac_string (b ∷ []) = hex_digit (b / 16) ∷ hex_digit (b % 16) ∷ []
mac_string (b ∷ c ∷ bytes) = hex_digit (b / 16) ∷ hex_digit (b % 16) ∷ b':' ∷ mac_string (c ∷ bytes)
