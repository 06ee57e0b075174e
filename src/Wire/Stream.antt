-- ===== src/Wire/Stream.antt =====
-- src/binary-reader.ts (BinaryReader): exact reads from a stream. The stream is Node's: what
-- `read(length)` returns, with the stream after it, and its state at the next 'readable' event, are
-- parameters. A read waits for as many events as its fuel.
use stacks_blockchain_rosett.Base.{
  ℕ, zero, suc, String, Option, none, some, length, ◌==◌, if◌then◌else◌,
}
use stacks_blockchain_rosett.Wire.Reader.{
  Error, stacks_message_parsing_error, plain_error, Buffer, Reader, Enum, parse_enum, from_buffer,
}

pub record Readable : Type 1 where
  pub Stream : Type 0
  pub read : ℕ → Stream → Option Buffer × Stream
  -- None where no further event comes.
  pub next_readable : Stream → Option Stream

-- A promise: its value or error, with the stream after it, or neither.
pub data Settled {ℓ} (S : Type 0) (A : Type ℓ) : Type ℓ where
  resolved : A → S → Settled S A
  rejected : Error → S → Settled S A
  unsettled : Settled S A

unfoldable pub then_do {ℓ κ} :
    {S : Type 0} {A : Type ℓ} {B : Type κ} → Settled S A → (A → S → Settled S B) → Settled S B
then_do (resolved a s) f = f a s
then_do (rejected e s) f = rejected e s
then_do unsettled f = unsettled

module _ (node : Readable) where
  -- A chunk of another length rejects the promise; the call of the callback behind it does nothing.
  unfoldable pub on_chunk : ℕ → Buffer → node.Stream → Settled node.Stream Buffer
  on_chunk n chunk s =
      if length chunk == n
      then resolved chunk s
      else rejected (plain_error "Unexpected chunk length, expected " n) s

  unfoldable pub read_exact : (fuel n : ℕ) → node.Stream → Settled node.Stream Buffer
  read_exact zero n s = unsettled
  read_exact (suc fuel) n s = elim ((node.read n s).0) [
    | some chunk ↦ on_chunk n chunk (node.read n s).1
    | none ↦ elim (node.next_readable (node.read n s).1) [
      | none ↦ unsettled
      | some later ↦ read_exact fuel n later
    ]
  ]

  -- `readBuffer`
  unfoldable pub read_buffer : (fuel n : ℕ) → node.Stream → Settled node.Stream Buffer
  read_buffer = read_exact

  unfoldable pub read_32_bytes : (fuel : ℕ) → node.Stream → Settled node.Stream Buffer
  read_32_bytes fuel = read_buffer fuel 32

  unfoldable pub read_fixed : (fuel n : ℕ) → node.Stream → Settled node.Stream Reader
  read_fixed fuel n s = then_do (read_buffer fuel n s) (λ buffer t. resolved (from_buffer buffer) t)

  -- `buffer[0]` and the methods of Buffer at offset 0 are parameters.
  module _ (at_0 read_uint16_be_at_0 read_uint32_be_at_0 read_big_uint64_be_at_0 : Buffer → ℕ) where
    unfoldable pub read_uint8 : (fuel : ℕ) → node.Stream → Settled node.Stream ℕ
    read_uint8 fuel s = then_do (read_buffer fuel 1 s) (λ buffer t. resolved (at_0 buffer) t)

    unfoldable pub read_uint16_be : (fuel : ℕ) → node.Stream → Settled node.Stream ℕ
    read_uint16_be fuel s =
        then_do (read_buffer fuel 2 s) (λ buffer t. resolved (read_uint16_be_at_0 buffer) t)

    unfoldable pub read_uint32_be : (fuel : ℕ) → node.Stream → Settled node.Stream ℕ
    read_uint32_be fuel s =
        then_do (read_buffer fuel 4 s) (λ buffer t. resolved (read_uint32_be_at_0 buffer) t)

    unfoldable pub read_uint64_be : (fuel : ℕ) → node.Stream → Settled node.Stream ℕ
    read_uint64_be fuel s =
        then_do (read_buffer fuel 8 s) (λ buffer t. resolved (read_big_uint64_be_at_0 buffer) t)

    unfoldable pub read_enum :
        {A : Type 0} → Enum A → String → (fuel : ℕ) → node.Stream → Settled node.Stream A
    read_enum e message fuel s = then_do (read_uint8 fuel s) (λ num t.
        elim (parse_enum e.value e.members num) [
          | some a ↦ resolved a t
          | none ↦ rejected (stacks_message_parsing_error message num) t
        ])
