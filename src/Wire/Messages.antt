-- ===== src/Wire/Messages.antt =====
-- src/p2p/messages.ts: the messages that a node of the network sends, read from a stream.
use stacks_blockchain_rosett.Base.{
  ℕ, zero, suc, ◌*◌, Bool, true, false, List, [], ◌∷◌, ok, err, ◌==◌, if◌then◌else◌,
}
use stacks_blockchain_rosett.Wire.Reader.{
  not_implemented_error, Buffer, Reader, Read, Library, pure, throw, ◌>>=◌, Enum, read_uint8_enum,
}
use stacks_blockchain_rosett.Wire.Tx.{Transaction}
use stacks_blockchain_rosett.Wire.Transaction.{read_transaction}
use stacks_blockchain_rosett.Wire.Block.{Block, read_blocks}
use stacks_blockchain_rosett.Wire.Stream.{
  Readable, Settled, resolved, rejected, unsettled, then_do, read_fixed,
}

pub data StacksMessageTypeId : Type 0 where
  handshake handshake_accept handshake_reject get_neighbors neighbors get_blocks_inv blocks_inv
        get_blocks blocks get_microblocks microblocks transaction nack ping pong reserved :
      StacksMessageTypeId

unfoldable pub type_id_value : StacksMessageTypeId → ℕ
type_id_value handshake = 0
type_id_value handshake_accept = 1
type_id_value handshake_reject = 2
type_id_value get_neighbors = 3
type_id_value neighbors = 4
type_id_value get_blocks_inv = 5
type_id_value blocks_inv = 6
type_id_value get_blocks = 7
type_id_value blocks = 8
type_id_value get_microblocks = 9
type_id_value microblocks = 10
type_id_value transaction = 11
type_id_value nack = 12
type_id_value ping = 13
type_id_value pong = 14
type_id_value reserved = 255

abbrev pub StacksMessageTypeId_enum : Enum StacksMessageTypeId
StacksMessageTypeId_enum = record {
  members =
      handshake ∷ handshake_accept ∷ handshake_reject ∷ get_neighbors ∷ neighbors ∷ get_blocks_inv
      ∷ blocks_inv ∷ get_blocks ∷ blocks ∷ get_microblocks ∷ microblocks ∷ transaction ∷ nack ∷ ping
      ∷ pong ∷ reserved ∷ [];
  value = type_id_value;
}

pub record Preamble : Type 0 where
  pub peer_version : ℕ
  pub network_id : ℕ
  pub sequence_number : ℕ
  pub burn_block_height : ℕ
  pub burn_consensus_hash : Buffer
  pub burn_stable_block_height : ℕ
  pub burn_stable_consensus_hash : Buffer
  pub additional_data : ℕ
  pub signature : Buffer
  pub payload_length : ℕ

-- `PREAMBLE_ENCODED_SIZE`
abbrev pub preamble_encoded_size : ℕ
preamble_encoded_size = 141

pub data StacksMessage (ClarityValue : Type 0) : Type 0 where
  message_blocks : List (Block ClarityValue) → StacksMessage ClarityValue
  message_transaction : Transaction ClarityValue → StacksMessage ClarityValue

module _ (lib : Library) where
  -- The fields of a preamble, from its buffer.
  unfoldable pub preamble_fields : Read Preamble
  preamble_fields = lib.read_uint32_be >>= λ peer_version. lib.read_uint32_be >>= λ network_id.
      lib.read_uint32_be >>= λ sequence_number. lib.read_big_uint64_be >>= λ burn_block_height.
      lib.read_buffer 20 >>= λ burn_consensus_hash.
      lib.read_big_uint64_be >>= λ burn_stable_block_height.
      lib.read_buffer 20 >>= λ burn_stable_consensus_hash. lib.read_uint32_be >>= λ additional_data.
      lib.read_buffer 65 >>= λ signature. lib.read_uint32_be >>= λ payload_length. pure (record {
        peer_version = peer_version;
        network_id = network_id;
        sequence_number = sequence_number;
        burn_block_height = burn_block_height;
        burn_consensus_hash = burn_consensus_hash;
        burn_stable_block_height = burn_stable_block_height;
        burn_stable_consensus_hash = burn_stable_consensus_hash;
        additional_data = additional_data;
        signature = signature;
        payload_length = payload_length;
      })

  unfoldable pub read_relayers : Read Buffer
  read_relayers = lib.read_uint32_be >>= λ length.
      if length == 0 then pure [] else lib.read_buffer (length * 107)

  unfoldable pub message_body : StacksMessageTypeId → Read (StacksMessage lib.ClarityValue)
  message_body blocks = read_blocks lib >>= λ bs. pure (message_blocks bs)
  message_body transaction = read_transaction lib >>= λ tx. pure (message_transaction tx)
  message_body _ = throw (not_implemented_error "stacks message type: ")

  -- What follows the preamble.
  unfoldable pub message_payload : Read (StacksMessage lib.ClarityValue)
  message_payload = read_relayers >>= λ relayers.
      read_uint8_enum lib StacksMessageTypeId_enum "unexpected Stacks message type ID "
      >>= message_body

  module _ (node : Readable) where
    -- A parser on a whole buffer, with what it throws.
    unfoldable pub parse_buffer {ℓ} :
        {A : Type ℓ} → Read A → Reader → node.Stream → Settled node.Stream A
    parse_buffer p r s = elim (p r) [ ok q ↦ resolved q.0 s | err e ↦ rejected e s ]

    unfoldable pub read_preamble : (fuel : ℕ) → node.Stream → Settled node.Stream Preamble
    read_preamble fuel s =
        then_do (read_fixed node fuel preamble_encoded_size s) (parse_buffer preamble_fields)

    -- One round of the loop of `readMessages`.
    unfoldable pub read_message :
        (fuel : ℕ) → node.Stream → Settled node.Stream (StacksMessage lib.ClarityValue)
    read_message fuel s = then_do (read_preamble fuel s) (λ preamble t.
        then_do (read_fixed node fuel preamble.payload_length t) (parse_buffer message_payload))

    -- The messages that are yielded in at most `rounds` rounds, and how the last round ended, if one
    -- did not yield. `destroyed` is `readableStream.destroyed`.
    unfoldable pub read_messages :
        (destroyed : node.Stream → Bool) (rounds fuel : ℕ)
        → node.Stream
        → List (StacksMessage lib.ClarityValue) × Settled {0} node.Stream Unit
    read_messages destroyed zero fuel s = ([], unsettled)
    read_messages destroyed (suc rounds) fuel s = elim (destroyed s) [
      | true ↦ ([], resolved tt s)
      | false ↦ elim (read_message fuel s) [
        | resolved message t ↦
            let rest = read_messages destroyed rounds fuel t in (message ∷ rest.0, rest.1)
        | rejected e t ↦ ([], rejected e t)
        | unsettled ↦ ([], unsettled)
      ]
    ]
