-- ===== src/Api/Hashes.antt =====
-- What `normalizeHashString` returns.
use stacks_blockchain_rosett.Base.{
  ℕ, ◌+◌, ◌*◌, ◌<◌, ◌≡◌, inl, inr, refl, sym, subst, true, ◌&&◌, [], ◌∷◌, Option, none, some,
  length, drop, ◌==◌, Bool-cases, ==_iff, arith,
}
use stacks_blockchain_rosett.Wire.Reader.{Buffer}
use stacks_blockchain_rosett.Wire.Tx.{Text}
use stacks_blockchain_rosett.Wire.Reads.{All}
use stacks_blockchain_rosett.Events.Hex.{from_hex, to_hex, hex_byte, digit_value, before_stop}
use stacks_blockchain_rosett.Events.HexRoundTrip.{from_hex-to_hex}
use stacks_blockchain_rosett.Api.Terms.{
  has_0x_prefix, hash_buffer, if_32_bytes, normalize_hash_string,
}

digit_value-lt : (c d : ℕ) → digit_value c ≡ some d → d < 16
unfolding digit_value
digit_value-lt c d h = ground arith

hex_byte-lt : (c d b : ℕ) → hex_byte (digit_value c) (digit_value d) ≡ some b → b < 256
unfolding hex_byte
hex_byte-lt c d b h = both (digit_value c) (digit_value d) refl refl h
  where
    both :
        (m n : Option ℕ) → digit_value c ≡ m → digit_value d ≡ n → hex_byte m n ≡ some b → b < 256
    both none n e f k = absurd (cc)
    both (some x) none e f k = absurd (cc)
    both (some x) (some y) e f k =
        let same : x * 16 + y ≡ b = cc in
        omega (arith, digit_value-lt c x e, digit_value-lt d y f, same)

before_stop-bytes :
    (m : Option ℕ) (bs : Buffer)
    → ((b : ℕ) → m ≡ some b → b < 256)
    → All (λ b. b < 256) bs
    → All (λ b. b < 256) (before_stop m bs)
unfolding before_stop
before_stop-bytes none bs h all = tt
before_stop-bytes (some b) bs h all = (h b refl, all)

from_hex-bytes : (t : Text) → All (λ b. b < 256) (from_hex t)
unfolding from_hex
from_hex-bytes [] = tt
from_hex-bytes (c ∷ []) = tt
from_hex-bytes (c ∷ d ∷ cs) =
    before_stop-bytes (hex_byte (digit_value c) (digit_value d)) (from_hex cs)
      (λ b. hex_byte-lt c d b) (from_hex-bytes cs)

pub hash_buffer-bytes :
    (input : Text) (bytes : Buffer) → hash_buffer input ≡ some bytes → All (λ b. b < 256) bytes
unfolding hash_buffer
hash_buffer-bytes input bytes h = elim (Bool-cases (length input == 66 && has_0x_prefix input)) [
  | inl t ↦
      let e : from_hex (drop 2 input) ≡ bytes = cc in
      subst (All (λ b. b < 256)) e (from_hex-bytes (drop 2 input))
  | inr f ↦ elim (Bool-cases (length input == 64)) [
    | inl t ↦
        let e : from_hex input ≡ bytes = cc in subst (All (λ b. b < 256)) e (from_hex-bytes input)
    | inr g ↦ absurd (cc)
  ]
]

if_32_bytes-eq_some :
    (found : Option Buffer) (out : Text)
    → if_32_bytes found ≡ some out
    → (bytes : Buffer) × (found ≡ some bytes)
      × (length bytes ≡ 32)
      × (out ≡ 48 ∷ 120 ∷ to_hex bytes)
unfolding if_32_bytes
if_32_bytes-eq_some none out h = absurd (cc)
if_32_bytes-eq_some (some bytes) out h = elim (Bool-cases (length bytes == 32)) [
  | inl t ↦ (bytes, refl, (==_iff (length bytes) 32).0 t, cc)
  | inr f ↦ absurd (cc)
]

length-to_hex : (bs : Buffer) → length (to_hex bs) ≡ 2 * length bs
unfolding to_hex
length-to_hex [] = refl
length-to_hex (b ∷ bs) = omega (arith, length-to_hex bs)

normalized :
    (bs : Buffer)
    → All (λ b. b < 256) bs
    → length bs ≡ 32
    → normalize_hash_string (48 ∷ 120 ∷ to_hex bs) ≡ some (48 ∷ 120 ∷ to_hex bs)
unfolding normalize_hash_string hash_buffer if_32_bytes has_0x_prefix
normalized bs small long =
    let whole : (length (48 ∷ 120 ∷ to_hex bs) == 66) ≡ true =
      let e : length (48 ∷ 120 ∷ to_hex bs) ≡ 66 = omega (arith, length-to_hex bs, long) in
      rw e refl in
    let back = from_hex-to_hex bs small in
    let size : (length bs == 32) ≡ true = rw long refl in rw (whole, back, size) refl

-- What `normalizeHashString` returns is `0x` and the lower-case hex digits of 32 bytes, those that its
-- input spells, and it returns that text unchanged when it is given it again.
pub normalize_hash_string_idempotent :
    (input out : Text)
    → normalize_hash_string input ≡ some out
    → (normalize_hash_string out ≡ some out)
      × ((bytes : Buffer) × (hash_buffer input ≡ some bytes)
          × (length bytes ≡ 32)
          × (out ≡ 48 ∷ 120 ∷ to_hex bytes))
unfolding normalize_hash_string
normalize_hash_string_idempotent input out h =
    let r = if_32_bytes-eq_some (hash_buffer input) out h in
    let again = normalized r.0 (hash_buffer-bytes input r.0 r.1) r.2 in
    (subst (λ o. normalize_hash_string o ≡ some o) (sym r.3) again, r)
