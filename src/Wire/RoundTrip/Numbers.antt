-- ===== src/Wire/RoundTrip/Numbers.antt =====
-- Numbers, enum members and texts: the parsers read what the encoders write.
use native.Mathlib.Nat.{pow-suc}
use stacks_blockchain_rosett.Base.{
  ℕ, zero, suc, ◌+◌, ◌*◌, ◌/◌, ◌%◌, ◌^◌, ◌<◌, ◌≡◌, refl, [], ◌∷◌, ◌++◌, map, length, length-append,
  some, String, arith,
}
use stacks_blockchain_rosett.Wire.Signed.{
  ℤ, signed64, pattern64, IsInt64, pattern64-lt, signed64-pattern64,
}
use stacks_blockchain_rosett.Wire.Reader.{
  Buffer, Library, Enum, parse_enum, enum_or_throw, read_uint8_enum,
}
use stacks_blockchain_rosett.Wire.Tx.{Text}
use stacks_blockchain_rosett.Wire.Fields.{read_string, read_contract_name, read_clarity_name}
use stacks_blockchain_rosett.Wire.Reads.{Reads, be_value, LibraryLaws, Reads-pure, Reads-bind, All}
use stacks_blockchain_rosett.Wire.Encode.{be_bytes, encode_name, encode_string}

pub length-be_bytes : (w n : ℕ) → length (be_bytes w n) ≡ w
unfolding be_bytes
length-be_bytes zero n = refl
length-be_bytes (suc w) n =
    omega (arith, length-append (be_bytes w (n / 256)) (n % 256 ∷ []), length-be_bytes w (n / 256))

pub be_value-append :
    (acc : ℕ) (bs : Buffer) (b : ℕ) → be_value acc (bs ++ b ∷ []) ≡ be_value acc bs * 256 + b
unfolding be_value
be_value-append acc [] b = refl
be_value-append acc (c ∷ bs) b = be_value-append (acc * 256 + c) bs b

-- A number that fits its width is what its big-endian bytes spell.
be_value-be_bytes : (w n : ℕ) → n < 256 ^ w → be_value 0 (be_bytes w n) ≡ n
unfolding be_value be_bytes
be_value-be_bytes zero n h = omega arith
be_value-be_bytes (suc w) n h =
    rw (be_value-append 0 (be_bytes w (n / 256)) (n % 256))
      (rw (be_value-be_bytes w (n / 256) (omega (arith, pow-suc 256 w))) (omega arith))

abbrev pub IsAscii : Text → Type 0
IsAscii s = All (λ c. c < 128) s

-- A text whose length fits the byte in front of it.
abbrev pub IsName : Text → Type 0
IsName s = IsAscii s × (length s < 256)

map-ascii : (s : Text) → IsAscii s → map (λ c. c % 128) s ≡ s
map-ascii [] h = refl
map-ascii (c ∷ s) h = let e : c % 128 ≡ c = omega arith in rw (e, map-ascii s h.1)

-- `parse_enum` finds every member by its number, which fits a byte.
abbrev pub Finds : {A : Type 0} → Enum A → Type 0
Finds {A} e = (a : A) → (parse_enum e.value e.members (e.value a) ≡ some a) × (e.value a < 256)

module _ (lib : Library) (laws : LibraryLaws lib) where
  pub u16-Reads : (n : ℕ) → n < 2 ^ 16 → Reads lib.read_uint16_be (be_bytes 2 n) n
  u16-Reads n h =
      rw (be_value-be_bytes 2 n (omega arith)) at
        (laws.read_uint16_be_reads (be_bytes 2 n) (length-be_bytes 2 n))

  pub u32-Reads : (n : ℕ) → n < 2 ^ 32 → Reads lib.read_uint32_be (be_bytes 4 n) n
  u32-Reads n h =
      rw (be_value-be_bytes 4 n (omega arith)) at
        (laws.read_uint32_be_reads (be_bytes 4 n) (length-be_bytes 4 n))

  pub u64-Reads : (n : ℕ) → n < 2 ^ 64 → Reads lib.read_big_uint64_be (be_bytes 8 n) n
  u64-Reads n h =
      rw (be_value-be_bytes 8 n (omega arith)) at
        (laws.read_big_uint64_be_reads (be_bytes 8 n) (length-be_bytes 8 n))

  pub signed-Reads : (n : ℕ) → n < 2 ^ 64 → Reads lib.read_big_int64_be (be_bytes 8 n) (signed64 n)
  signed-Reads n h =
      rw (be_value-be_bytes 8 n (omega arith)) at
        (laws.read_big_int64_be_reads (be_bytes 8 n) (length-be_bytes 8 n))

  pub i64-Reads : (z : ℤ) → IsInt64 z → Reads lib.read_big_int64_be (be_bytes 8 (pattern64 z)) z
  i64-Reads z h = rw (signed64-pattern64 z h) at (signed-Reads (pattern64 z) (pattern64-lt z h))

  pub buffer-Reads : (n : ℕ) (bs : Buffer) → length bs ≡ n → Reads (lib.read_buffer n) bs bs
  buffer-Reads n bs h = rw h at (laws.read_buffer_reads bs)

  ascii-Reads : (s : Text) → IsAscii s → Reads (lib.read_string (length s)) s s
  ascii-Reads s h = rw (map-ascii s h) at (laws.read_string_reads s)

  pub enum-Reads :
      {A : Type 0} (e : Enum A) (message : String) (a : A)
      → Finds e
      → Reads (read_uint8_enum lib e message) (e.value a ∷ []) a
  unfolding read_uint8_enum enum_or_throw
  enum-Reads e message a found =
      Reads-bind _ {bs = e.value a ∷ []} {cs = []} (laws.read_uint8_reads (e.value a) (found a).1)
        (rw (found a).0 (Reads-pure a))

  pub contract_name-Reads : (s : Text) → IsName s → Reads (read_contract_name lib) (encode_name s) s
  unfolding read_contract_name
  contract_name-Reads s h = Reads-bind _ (laws.read_uint8_reads (length s) h.1) (ascii-Reads s h.0)

  pub clarity_name-Reads : (s : Text) → IsName s → Reads (read_clarity_name lib) (encode_name s) s
  unfolding read_clarity_name
  clarity_name-Reads s h = Reads-bind _ (laws.read_uint8_reads (length s) h.1) (ascii-Reads s h.0)

  pub string-Reads :
      (s : Text) → IsAscii s → length s < 2 ^ 32 → Reads (read_string lib) (encode_string s) s
  unfolding read_string
  string-Reads s h fits = Reads-bind _ (u32-Reads (length s) fits) (ascii-Reads s h)
