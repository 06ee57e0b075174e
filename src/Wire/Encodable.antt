-- ===== src/Wire/Encodable.antt =====
-- The values that the wire format can hold: every field within the width that it is written at.
use stacks_blockchain_rosett.Base.{◌^◌, ◌<◌, ◌≡◌, length}
use stacks_blockchain_rosett.Wire.Signed.{IsInt64}
use stacks_blockchain_rosett.Wire.Reader.{Buffer}
use stacks_blockchain_rosett.Wire.Reads.{All}
use stacks_blockchain_rosett.Wire.RoundTrip.Numbers.{IsAscii, IsName}
use stacks_blockchain_rosett.Wire.Tx.{
  microblock_header_size, TransactionSpendingCondition, single_sig, multi_sig, TransactionAuthField,
  key_compressed, key_uncompressed, sig_compressed, sig_uncompressed, TransactionAuth,
  auth_standard, auth_sponsored, StacksAddress, PostConditionPrincipal, principal_origin,
  principal_standard, principal_contract, RecipientPrincipal, recipient_address, recipient_contract,
  AssetInfo, TransactionPostCondition, post_condition_stx, post_condition_fungible,
  post_condition_nonfungible, TransactionPayload, payload_token_transfer, payload_coinbase,
  payload_contract_call, payload_smart_contract, payload_poison_microblock, Transaction,
}
use stacks_blockchain_rosett.Wire.Payload.{raw_unless_empty}
use stacks_blockchain_rosett.Wire.Encode.{encode_list, encode_mode_and_conditions}
use stacks_blockchain_rosett.Wire.Block.{BlockHeader, Block}

abbrev pub FitsAddress : StacksAddress → Type 0
FitsAddress a = (a.version < 256) × (length a.bytes ≡ 20)

abbrev pub FitsAssetInfo : AssetInfo → Type 0
FitsAssetInfo a = FitsAddress a.contract_address × IsName a.contract_name × IsName a.asset_name

abbrev pub FitsPrincipal : PostConditionPrincipal → Type 0
FitsPrincipal principal_origin = Unit
FitsPrincipal (principal_standard a) = FitsAddress a
FitsPrincipal (principal_contract a name) = FitsAddress a × IsName name

abbrev pub FitsRecipient : RecipientPrincipal → Type 0
FitsRecipient (recipient_address a) = FitsAddress a
FitsRecipient (recipient_contract a name) = FitsAddress a × IsName name

abbrev pub FitsAuthField : TransactionAuthField → Type 0
FitsAuthField (key_compressed k) = length k ≡ 33
FitsAuthField (key_uncompressed k) = length k ≡ 33
FitsAuthField (sig_compressed s) = length s ≡ 65
FitsAuthField (sig_uncompressed s) = length s ≡ 65

abbrev pub FitsCondition : TransactionSpendingCondition → Type 0
FitsCondition (single_sig c) =
    (length c.signer ≡ 20)
    × (c.nonce < 2 ^ 64)
    × (c.fee_rate < 2 ^ 64)
    × (c.key_encoding < 256)
    × (length c.signature ≡ 65)
FitsCondition (multi_sig c) =
    (length c.signer ≡ 20)
    × (c.nonce < 2 ^ 64)
    × (c.fee_rate < 2 ^ 64)
    × (length c.auth_fields < 2 ^ 32)
    × All FitsAuthField c.auth_fields
    × (c.signature_count < 2 ^ 16)

abbrev pub FitsAuth : TransactionAuth → Type 0
FitsAuth (auth_standard origin) = FitsCondition origin
FitsAuth (auth_sponsored origin sponsor) = FitsCondition origin × FitsCondition sponsor

abbrev pub FitsHeader : BlockHeader → Type 0
FitsHeader h =
    (h.version < 256)
    × (h.work_score.burn < 2 ^ 64)
    × (h.work_score.work < 2 ^ 64)
    × (length h.vrf_proof.gamma ≡ 32)
    × (length h.vrf_proof.c ≡ 16)
    × (length h.vrf_proof.s ≡ 32)
    × (length h.parent_block_hash ≡ 32)
    × (length h.parent_microblock_hash ≡ 32)
    × (h.parent_microblock_sequence < 2 ^ 16)
    × (length h.tx_merkle_root_hash ≡ 32)
    × (length h.state_merkle_root_hash ≡ 32)
    × (length h.microblock_pubkey_hash ≡ 20)

module _ {ClarityValue : Type 0} (serialize_cv : ClarityValue → Buffer) where
  abbrev pub FitsPostCondition : TransactionPostCondition ClarityValue → Type 0
  FitsPostCondition (post_condition_stx c) = FitsPrincipal c.principal × IsInt64 c.amount
  FitsPostCondition (post_condition_fungible c) =
      FitsPrincipal c.principal × FitsAssetInfo c.asset × (c.amount < 2 ^ 64)
  FitsPostCondition (post_condition_nonfungible c) =
      FitsPrincipal c.principal × FitsAssetInfo c.asset

  -- The raw arguments are those of the argument list.
  abbrev pub FitsPayload : TransactionPayload ClarityValue → Type 0
  FitsPayload (payload_token_transfer p) =
      FitsRecipient p.recipient × IsInt64 p.amount × (length p.memo ≡ 34)
  FitsPayload (payload_smart_contract p) =
      IsName p.name × IsAscii p.code_body × (length p.code_body < 2 ^ 32)
  FitsPayload (payload_contract_call p) =
      FitsAddress p.address
      × IsName p.contract_name
      × IsName p.function_name
      × (length p.function_args < 2 ^ 32)
      × (p.raw_function_args
          ≡ raw_unless_empty p.function_args (encode_list serialize_cv p.function_args))
  FitsPayload (payload_poison_microblock h1 h2) =
      (length h1 ≡ microblock_header_size) × (length h2 ≡ microblock_header_size)
  FitsPayload (payload_coinbase bytes) = length bytes ≡ 32

  abbrev pub FitsTransaction : Transaction ClarityValue → Type 0
  FitsTransaction tx =
      (tx.chain_id < 2 ^ 32)
      × FitsAuth tx.auth
      × (length tx.post_conditions < 2 ^ 32)
      × All FitsPostCondition tx.post_conditions
      × (tx.raw_post_conditions ≡ encode_mode_and_conditions serialize_cv tx)
      × FitsPayload tx.payload

  abbrev pub FitsBlock : Block ClarityValue → Type 0
  FitsBlock b =
      FitsHeader b.header × (length b.transactions < 2 ^ 32) × All FitsTransaction b.transactions
