-- ===== src/Events/HexRoundTrip.antt =====
-- `hexToBuffer` undoes `bufferToHexPrefixString`.
use stacks_blockchain_rosett.Base.{
  ℕ, ◌+◌, ◌*◌, ◌/◌, ◌%◌, ◌<◌, ◌≡◌, refl, ap, [], ◌∷◌, some, ok, ◌==◌, length, arith, true,
}
use stacks_blockchain_rosett.Wire.Reader.{Buffer}
use stacks_blockchain_rosett.Wire.Reads.{All}
use stacks_blockchain_rosett.Events.Hex.{
  hex_digit, to_hex, digit_value, hex_byte, before_stop, from_hex, starts_with_0x, hex_to_buffer,
  buffer_to_hex_prefix_string,
}

digit_value-hex_digit : (d : ℕ) → d < 16 → digit_value (hex_digit d) ≡ some d
unfolding digit_value hex_digit
digit_value-hex_digit d h = grind arith

pub from_hex-to_hex : (bs : Buffer) → All (λ b. b < 256) bs → from_hex (to_hex bs) ≡ bs
unfolding from_hex to_hex hex_byte before_stop
from_hex-to_hex [] h = refl
from_hex-to_hex (b ∷ bs) h =
    let high = digit_value-hex_digit (b / 16) (omega (arith, h.0)) in
    let low = digit_value-hex_digit (b % 16) (omega arith) in
    let whole : b / 16 * 16 + b % 16 ≡ b = omega arith in
    rw (high, low, whole, from_hex-to_hex bs h.1)

length-to_hex : (bs : Buffer) → length (to_hex bs) % 2 ≡ 0
unfolding to_hex
length-to_hex [] = refl
length-to_hex (b ∷ bs) = let rest = length-to_hex bs in omega (arith, rest)

-- A buffer of bytes, written as a prefixed hex string and read back, is itself.
pub hex_to_buffer-buffer_to_hex_prefix_string :
    (buff : Buffer)
    → All (λ b. b < 256) buff
    → hex_to_buffer (buffer_to_hex_prefix_string buff) ≡ ok buff
unfolding hex_to_buffer buffer_to_hex_prefix_string starts_with_0x
hex_to_buffer-buffer_to_hex_prefix_string buff h =
    let even : (length (48 ∷ 120 ∷ to_hex buff) % 2 == 0) ≡ true =
      let e : length (48 ∷ 120 ∷ to_hex buff) % 2 ≡ 0 = omega (arith, length-to_hex buff) in rw e in
    rw even (ap ok (from_hex-to_hex buff h))
