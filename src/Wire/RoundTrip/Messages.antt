-- ===== src/Wire/RoundTrip/Messages.antt =====
-- Messages of the network read back what was encoded, in whatever chunks the bytes arrive.
use stacks_blockchain_rosett.Base.{
  ℕ, zero, suc, ◌*◌, ◌<◌, ◌^◌, ◌≡◌, refl, sym, subst, false, [], ◌∷◌, ◌++◌, length, length-append,
  ◌==◌, ==_iff, Bool-cases, inl, inr, if◌then◌else◌, arith,
}
use stacks_blockchain_rosett.Wire.Reader.{Buffer, Library, pure, read_uint8_enum, parse_enum, ◌>>=◌}
use stacks_blockchain_rosett.Wire.Reads.{
  Reads, LibraryLaws, Reads-bind, Reads-last, Reads-pure, All,
}
use stacks_blockchain_rosett.Wire.Encode.{be_bytes, encode_list, encode_block, encode_transaction}
use stacks_blockchain_rosett.Wire.Encodable.{FitsTransaction, FitsBlock}
use stacks_blockchain_rosett.Wire.RoundTrip.Numbers.{
  Finds, u32-Reads, u64-Reads, buffer-Reads, enum-Reads, length-be_bytes,
}
use stacks_blockchain_rosett.Wire.RoundTrip.Transaction.{transaction-Reads}
use stacks_blockchain_rosett.Wire.RoundTrip.Blocks.{blocks-Reads}
use stacks_blockchain_rosett.Wire.Messages.{
  StacksMessageTypeId, StacksMessageTypeId_enum, type_id_value, Preamble, preamble_encoded_size,
  StacksMessage, message_blocks, message_transaction, preamble_fields, read_relayers, message_body,
  message_payload,
}

unfoldable pub encode_preamble : Preamble → Buffer
encode_preamble p =
    be_bytes 4 p.peer_version
    ++ (be_bytes 4 p.network_id
        ++ (be_bytes 4 p.sequence_number
            ++ (be_bytes 8 p.burn_block_height
                ++ (p.burn_consensus_hash
                    ++ (be_bytes 8 p.burn_stable_block_height
                        ++ (p.burn_stable_consensus_hash
                            ++ (be_bytes 4 p.additional_data
                                ++ (p.signature ++ be_bytes 4 p.payload_length))))))))

pub record FitsPreamble (p : Preamble) : Type 0 where
  pub peer_version : p.peer_version < 2 ^ 32
  pub network_id : p.network_id < 2 ^ 32
  pub sequence_number : p.sequence_number < 2 ^ 32
  pub burn_block_height : p.burn_block_height < 2 ^ 64
  pub burn_consensus_hash : length p.burn_consensus_hash ≡ 20
  pub burn_stable_block_height : p.burn_stable_block_height < 2 ^ 64
  pub burn_stable_consensus_hash : length p.burn_stable_consensus_hash ≡ 20
  pub additional_data : p.additional_data < 2 ^ 32
  pub signature : length p.signature ≡ 65
  pub payload_length : p.payload_length < 2 ^ 32

type_id-Finds : Finds StacksMessageTypeId_enum
unfolding type_id_value parse_enum
type_id-Finds StacksMessageTypeId.handshake = (refl, omega arith)
type_id-Finds StacksMessageTypeId.handshake_accept = (refl, omega arith)
type_id-Finds StacksMessageTypeId.handshake_reject = (refl, omega arith)
type_id-Finds StacksMessageTypeId.get_neighbors = (refl, omega arith)
type_id-Finds StacksMessageTypeId.neighbors = (refl, omega arith)
type_id-Finds StacksMessageTypeId.get_blocks_inv = (refl, omega arith)
type_id-Finds StacksMessageTypeId.blocks_inv = (refl, omega arith)
type_id-Finds StacksMessageTypeId.get_blocks = (refl, omega arith)
type_id-Finds StacksMessageTypeId.blocks = (refl, omega arith)
type_id-Finds StacksMessageTypeId.get_microblocks = (refl, omega arith)
type_id-Finds StacksMessageTypeId.microblocks = (refl, omega arith)
type_id-Finds StacksMessageTypeId.transaction = (refl, omega arith)
type_id-Finds StacksMessageTypeId.nack = (refl, omega arith)
type_id-Finds StacksMessageTypeId.ping = (refl, omega arith)
type_id-Finds StacksMessageTypeId.pong = (refl, omega arith)
type_id-Finds StacksMessageTypeId.reserved = (refl, omega arith)

pub length-encode_preamble :
    (p : Preamble) → FitsPreamble p → length (encode_preamble p) ≡ preamble_encoded_size
unfolding encode_preamble
length-encode_preamble p fits =
    let l = λ (w n : ℕ). length-be_bytes w n in
    omega (
      arith,
      length-append (be_bytes 4 p.peer_version) _,
      length-append (be_bytes 4 p.network_id) _,
      length-append (be_bytes 4 p.sequence_number) _,
      length-append (be_bytes 8 p.burn_block_height) _,
      length-append p.burn_consensus_hash _,
      length-append (be_bytes 8 p.burn_stable_block_height) _,
      length-append p.burn_stable_consensus_hash _,
      length-append (be_bytes 4 p.additional_data) _,
      length-append p.signature (be_bytes 4 p.payload_length),
      l 4 p.peer_version,
      l 4 p.network_id,
      l 4 p.sequence_number,
      l 8 p.burn_block_height,
      l 8 p.burn_stable_block_height,
      l 4 p.additional_data,
      l 4 p.payload_length,
      fits.burn_consensus_hash,
      fits.burn_stable_consensus_hash,
      fits.signature,
    )

suc-positive : (n : ℕ) → (suc n == 0) ≡ false
suc-positive n = elim (Bool-cases (suc n == 0)) [
  | inl t ↦ absurd (omega (arith, (==_iff (suc n) 0).0 t))
  | inr f ↦ f
]

-- A number of relayers and their data, 107 bytes for each.
unfoldable pub encode_relayers : ℕ → Buffer → Buffer
encode_relayers count data' = be_bytes 4 count ++ data'

module _ (lib : Library) (laws : LibraryLaws lib) where
  unfoldable pub encode_body : StacksMessage lib.ClarityValue → Buffer
  encode_body (message_blocks bs) = 8 ∷ encode_list (encode_block laws.serialize_cv) bs
  encode_body (message_transaction tx) = 11 ∷ encode_transaction laws.serialize_cv tx

  unfoldable pub FitsMessage : StacksMessage lib.ClarityValue → Type 0
  FitsMessage (message_blocks bs) = (length bs < 2 ^ 32) × All (FitsBlock laws.serialize_cv) bs
  FitsMessage (message_transaction tx) = FitsTransaction laws.serialize_cv tx

  pub preamble-Reads :
      (p : Preamble) → FitsPreamble p → Reads (preamble_fields lib) (encode_preamble p) p
  unfolding preamble_fields encode_preamble
  preamble-Reads p fits = Reads-bind _ (u32-Reads lib laws _ fits.peer_version) (
      Reads-bind _ (u32-Reads lib laws _ fits.network_id) (
        Reads-bind _ (u32-Reads lib laws _ fits.sequence_number) (
          Reads-bind _ (u64-Reads lib laws _ fits.burn_block_height) (
            Reads-bind _ (buffer-Reads lib laws 20 _ fits.burn_consensus_hash) (
              Reads-bind _ (u64-Reads lib laws _ fits.burn_stable_block_height) (
                Reads-bind _ (buffer-Reads lib laws 20 _ fits.burn_stable_consensus_hash) (
                  Reads-bind _ (u32-Reads lib laws _ fits.additional_data) (
                    Reads-bind _ (buffer-Reads lib laws 65 _ fits.signature)
                      (Reads-last _ (u32-Reads lib laws _ fits.payload_length))))))))))

  relayers-Reads :
      (count : ℕ) (data' : Buffer)
      → count < 2 ^ 32
      → length data' ≡ count * 107
      → Reads (read_relayers lib) (encode_relayers count data') data'
  unfolding read_relayers encode_relayers
  relayers-Reads zero [] small size = Reads-bind _ (u32-Reads lib laws 0 small) (Reads-pure [])
  relayers-Reads zero (b ∷ data') small size = absurd (omega (arith, size))
  relayers-Reads (suc n) data' small size = Reads-bind _ (u32-Reads lib laws (suc n) small) (
      subst (λ none_. Reads (if none_ then pure [] else lib.read_buffer (suc n * 107)) data' data')
        (sym (suc-positive n)) (buffer-Reads lib laws (suc n * 107) data' size))

  body-Reads :
      (m : StacksMessage lib.ClarityValue)
      → FitsMessage m
      → Reads
          (read_uint8_enum lib StacksMessageTypeId_enum "unexpected Stacks message type ID "
            >>= message_body lib)
          (encode_body m)
          m
  unfolding message_body encode_body FitsMessage type_id_value
  body-Reads (message_blocks bs) fits =
      Reads-bind _
        (enum-Reads lib laws StacksMessageTypeId_enum _ StacksMessageTypeId.blocks type_id-Finds)
        (Reads-last _ (blocks-Reads lib laws bs fits.0 fits.1))
  body-Reads (message_transaction tx) fits =
      Reads-bind _
        (enum-Reads lib laws StacksMessageTypeId_enum _ StacksMessageTypeId.transaction
          type_id-Finds)
        (Reads-last _ (transaction-Reads lib laws tx fits))

  pub payload-Reads :
      (count : ℕ) (data' : Buffer) (m : StacksMessage lib.ClarityValue)
      → count < 2 ^ 32
      → length data' ≡ count * 107
      → FitsMessage m
      → Reads (message_payload lib) (encode_relayers count data' ++ encode_body m) m
  unfolding message_payload
  payload-Reads count data' m small size fits =
      Reads-bind _ (relayers-Reads count data' small size) (body-Reads m fits)

  -- A message as it is sent: its preamble, the relayers and the body.
  pub record Sent : Type 0 where
    pub preamble : Preamble
    pub relayers : ℕ
    pub relayer_data : Buffer
    pub message : StacksMessage lib.ClarityValue

  unfoldable pub encode_sent_payload : Sent → Buffer
  encode_sent_payload m = encode_relayers m.relayers m.relayer_data ++ encode_body m.message

  unfoldable pub encode_sent : Sent → Buffer
  encode_sent m = encode_preamble m.preamble ++ encode_sent_payload m

  pub record IsSendable (m : Sent) : Type 0 where
    pub preamble : FitsPreamble m.preamble
    pub relayers : m.relayers < 2 ^ 32
    pub relayer_data : length m.relayer_data ≡ m.relayers * 107
    pub message : FitsMessage m.message
    pub payload_length : m.preamble.payload_length ≡ length (encode_sent_payload m)
