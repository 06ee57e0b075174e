-- ===== src/Api/Routes/HashText.antt =====
-- The hex string of a hash: it spells the bytes whose number the hash is.
use stacks_blockchain_rosett.Base.{
  ℕ, zero, suc, ◌+◌, ◌*◌, ◌/◌, ◌%◌, ◌<◌, ◌≡◌, refl, subst, ap₂, [], ◌∷◌, ◌++◌, length,
  length-append, arith,
}
use stacks_blockchain_rosett.Wire.Reader.{Buffer}
use stacks_blockchain_rosett.Wire.Reads.{be_value, All}
use stacks_blockchain_rosett.Wire.Encode.{be_bytes}
use stacks_blockchain_rosett.Wire.RoundTrip.Numbers.{be_value-append}
use stacks_blockchain_rosett.Events.Hex.{to_hex, buffer_to_hex_prefix_string}
use stacks_blockchain_rosett.Api.Routes.Search.{hash_text}

-- The bytes in front of the last one, and that byte.
unsnoc : (b : ℕ) (bs : Buffer) → (init : Buffer) × (last : ℕ) × (b ∷ bs ≡ init ++ last ∷ [])
unsnoc b [] = ([], b, refl)
unsnoc b (c ∷ bs) = let r = unsnoc c bs in (b ∷ r.0, r.1, ap₂ ◌∷◌ refl r.2)

All-append_snoc :
    (bs : Buffer) (b : ℕ) → All (λ c. c < 256) (bs ++ b ∷ []) → All (λ c. c < 256) bs × (b < 256)
All-append_snoc [] b h = (tt, h.0)
All-append_snoc (c ∷ bs) b h = let r = All-append_snoc bs b h.1 in ((h.0, r.0), r.1)

be_bytes-be_value :
    (n : ℕ) (bs : Buffer) → length bs ≡ n → All (λ b. b < 256) bs → be_bytes n (be_value 0 bs) ≡ bs
unfolding be_bytes
be_bytes-be_value zero [] h all = refl
be_bytes-be_value zero (b ∷ bs) h all = absurd (omega (arith, h))
be_bytes-be_value (suc n) [] h all = absurd (omega (arith, h))
be_bytes-be_value (suc n) (b ∷ bs) h all =
    let r = unsnoc b bs in
    let parts = All-append_snoc r.0 r.1 (subst (All (λ c. c < 256)) r.2 all) in
    let size : length r.0 ≡ n =
      let e : length (r.0 ++ r.1 ∷ []) ≡ suc n = subst (λ l. length l ≡ suc n) r.2 h in
      omega (arith, length-append r.0 (r.1 ∷ []), e) in
    let front = be_bytes-be_value n r.0 size parts.0 in
    let high : (be_value 0 r.0 * 256 + r.1) / 256 ≡ be_value 0 r.0 = omega (arith, parts.1) in
    let low : (be_value 0 r.0 * 256 + r.1) % 256 ≡ r.1 = omega (arith, parts.1) in
    rw (r.2, be_value-append 0 r.0 r.1, high, low, front) refl

pub hash_text-be_value :
    (bytes : Buffer)
    → length bytes ≡ 32
    → All (λ b. b < 256) bytes
    → hash_text (be_value 0 bytes) ≡ 48 ∷ 120 ∷ to_hex bytes
unfolding hash_text buffer_to_hex_prefix_string
hash_text-be_value bytes h all = rw (be_bytes-be_value 32 bytes h all) refl
