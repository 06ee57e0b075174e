-- ===== src/Events/Hex.antt =====
-- `hexToBuffer` of src/helpers.ts, and the hex codec of Node's Buffer that the event stream uses.
use stacks_blockchain_rosett.Base.{
  ℕ, ◌+◌, ◌-◌, ◌*◌, ◌/◌, ◌%◌, Bool, false, ◌&&◌, [], ◌∷◌, Option, none, some, Result, ok, err, leb,
  ltb, ◌==◌, if◌then◌else◌, length, drop,
}
use stacks_blockchain_rosett.Wire.Reader.{Error, message_error, Buffer}
use stacks_blockchain_rosett.Wire.Tx.{Text}

unfoldable pub hex_digit : ℕ → ℕ
hex_digit d = if ltb d 10 then 48 + d else 87 + d

-- `buffer.toString('hex')`
unfoldable pub to_hex : Buffer → Text
to_hex [] = []
to_hex (b ∷ bs) = hex_digit (b / 16) ∷ hex_digit (b % 16) ∷ to_hex bs

-- The value of a hex digit, in either case.
unfoldable pub digit_value : ℕ → Option ℕ
digit_value c =
    if leb 48 c && leb c 57
    then some (c - 48)
    else if leb 97 c && leb c 102
    then some (c - 87)
    else if leb 65 c && leb c 70
    then some (c - 55)
    else none

unfoldable pub hex_byte : Option ℕ → Option ℕ → Option ℕ
hex_byte (some a) (some b) = some (a * 16 + b)
hex_byte none b = none
hex_byte (some a) none = none

unfoldable pub before_stop : Option ℕ → Buffer → Buffer
before_stop none rest = []
before_stop (some b) rest = b ∷ rest

-- `Buffer.from(text, 'hex')`: the bytes up to the first pair that is not two hex digits.
unfoldable pub from_hex : Text → Buffer
from_hex [] = []
from_hex (c ∷ []) = []
from_hex (c ∷ d ∷ cs) =
    let rest = from_hex cs in before_stop (hex_byte (digit_value c) (digit_value d)) rest

-- `hex.startsWith('0x')`
unfoldable pub starts_with_0x : Text → Bool
starts_with_0x [] = false
starts_with_0x (c ∷ []) = false
starts_with_0x (c ∷ d ∷ cs) = c == 48 && d == 120

unfoldable pub hex_to_buffer : Text → Result Error Buffer
hex_to_buffer hex =
    if starts_with_0x hex
    then (if length hex % 2 == 0
        then ok (from_hex (drop 2 hex))
        else err (message_error "Hex string is an odd number of digits"))
    else err (message_error "Hex string is missing the \"0x\" prefix")

unfoldable pub buffer_to_hex_prefix_string : Buffer → Text
buffer_to_hex_prefix_string buff = 48 ∷ 120 ∷ to_hex buff
