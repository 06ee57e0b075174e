-- ===== src/Wire/Reader.antt =====
-- src/binary-reader.ts (BufferReader) and src/errors.ts: the reader that the parsers share. The
-- class extends SmartBuffer of a third-party package, and the Clarity deserializer is one too, so
-- their operations are the fields of `Library`; the state that the source itself reads and writes
-- (`internalBuffer`, `readOffset`) is the record `Reader`.
use stacks_blockchain_rosett.Base.{
  ℕ, ◌-◌, String, List, [], ◌∷◌, Option, none, some, Result, ok, err, and_then, ◌==◌, if◌then◌else◌,
  take, drop,
}
use stacks_blockchain_rosett.Wire.Signed.{ℤ}

-- What is thrown: a class of errors.ts or a plain `Error`, with the message's fixed part and, where
-- the message names it, the offending number, and what third-party code throws.
pub data Error : Type 0 where
  stacks_message_parsing_error : String → ℕ → Error
  plain_error : String → ℕ → Error
  library_error : String → Error
  not_implemented_error : String → Error
  message_error : String → Error

-- A buffer is the list of its bytes.
abbrev pub Buffer : Type 0
Buffer = List ℕ

pub record Reader : Type 0 where
  pub internal_buffer : Buffer
  pub read_offset : ℕ

-- A method call on a reader: what it returns with the reader after it, or what it throws.
abbrev pub Read {ℓ} : Type ℓ → Type ℓ
Read A = Reader → Result Error (A × Reader)

-- Third-party operations: SmartBuffer's read methods, and `deserializeCV` on its own reader.
pub record Library : Type 1 where
  pub ClarityValue : Type 0
  pub read_uint8 : Read ℕ
  pub read_uint16_be : Read ℕ
  pub read_uint32_be : Read ℕ
  pub read_big_uint64_be : Read ℕ
  pub read_big_int64_be : Read ℤ
  pub read_buffer : ℕ → Read Buffer
  pub read_string : ℕ → Read (List ℕ)
  pub deserialize_cv : Read ClarityValue

unfoldable pub pure {ℓ} : {A : Type ℓ} → A → Read A
pure a r = ok (a, r)

unfoldable pub throw {ℓ} : {A : Type ℓ} → Error → Read A
throw e r = err e

infixl 5 ◌>>=◌
unfoldable pub ◌>>=◌ {ℓ κ} : {A : Type ℓ} {B : Type κ} → Read A → (A → Read B) → Read B
◌>>=◌ m f r = and_then (m r) (λ p. f p.0 p.1)

-- `reader.readOffset`
unfoldable pub offset : Read ℕ
offset r = ok (r.read_offset, r)

-- `Buffer.alloc(reader.readOffset - start)` filled by `internalBuffer.copy(_, 0, start, readOffset)`
unfoldable pub copy_since : ℕ → Read Buffer
copy_since start r = ok (take (r.read_offset - start) (drop start r.internal_buffer), r)

unfoldable pub from_buffer : Buffer → Reader
from_buffer buffer = record { internal_buffer = buffer; read_offset = 0 }

-- A loop `for (let i = 0; i < count; i++) items[i] = p()`.
unfoldable pub read_times {ℓ} : {A : Type ℓ} → ℕ → Read A → Read (List A)
read_times ℕ.zero p = pure []
read_times (ℕ.suc n) p = p >>= λ x. read_times n p >>= λ xs. pure (x ∷ xs)

-- A numeric `enum`: its members, and the number of each.
pub record Enum (A : Type 0) : Type 0 where
  pub members : List A
  pub value : A → ℕ

-- The member that a number stands for; `isEnum` is whether there is one.
unfoldable pub parse_enum : {A : Type 0} → (A → ℕ) → List A → ℕ → Option A
parse_enum value [] n = none
parse_enum value (m ∷ ms) n = if value m == n then some m else parse_enum value ms n

unfoldable pub enum_or_throw : {A : Type 0} → Option A → Error → Read A
enum_or_throw none e = throw e
enum_or_throw (some a) e = pure a

-- `readUInt8Enum`
unfoldable pub read_uint8_enum : (lib : Library) {A : Type 0} → Enum A → String → Read A
read_uint8_enum lib e message = lib.read_uint8 >>= λ num.
    enum_or_throw (parse_enum e.value e.members num) (stacks_message_parsing_error message num)
