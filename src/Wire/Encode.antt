-- ===== src/Wire/Encode.antt =====
-- The wire format as a description of its own: the bytes of each part of a block. The source has no
-- serializer; this one is what the parsers of src/p2p are measured against.
use stacks_blockchain_rosett.Base.{ℕ, zero, suc, ◌/◌, ◌%◌, List, [], ◌∷◌, ◌++◌, length}
use stacks_blockchain_rosett.Wire.Signed.{pattern64}
use stacks_blockchain_rosett.Wire.Reader.{Buffer, Enum}
use stacks_blockchain_rosett.Wire.Reads.{encode_all}
use stacks_blockchain_rosett.Wire.Tx.{
  Text, SingleSigHashMode, MultiSigHashMode, TransactionSpendingCondition, single_sig, multi_sig,
  TransactionAuthField, key_compressed, key_uncompressed, sig_compressed, sig_uncompressed,
  TransactionAuth, auth_standard, auth_sponsored, TransactionAnchorMode_enum,
  TransactionPostConditionMode_enum, TransactionVersion_enum, StacksAddress, PostConditionPrincipal,
  principal_origin, principal_standard, principal_contract, RecipientPrincipal, recipient_address,
  recipient_contract, FungibleConditionCode_enum, NonfungibleConditionCode_enum, AssetInfo,
  TransactionPostCondition, post_condition_stx, post_condition_fungible, post_condition_nonfungible,
  TransactionPayload, payload_token_transfer, payload_coinbase, payload_contract_call,
  payload_smart_contract, payload_poison_microblock, Transaction,
}
use stacks_blockchain_rosett.Wire.Block.{BlockHeader, Block}

-- `w` bytes, the most significant first.
unfoldable pub be_bytes : ℕ → ℕ → Buffer
be_bytes zero n = []
be_bytes (suc w) n = be_bytes w (n / 256) ++ n % 256 ∷ []

abbrev pub encode_enum : {A : Type 0} → Enum A → A → Buffer
encode_enum e a = e.value a ∷ []

-- A text behind one byte of length, or behind four.
abbrev pub encode_name : Text → Buffer
encode_name s = length s ∷ [] ++ s

abbrev pub encode_string : Text → Buffer
encode_string s = be_bytes 4 (length s) ++ s

unfoldable pub encode_list {ℓ} : {A : Type ℓ} → (A → Buffer) → List A → Buffer
encode_list encode xs = be_bytes 4 (length xs) ++ encode_all encode xs

unfoldable pub encode_address : StacksAddress → Buffer
encode_address a = a.version ∷ [] ++ a.bytes

unfoldable pub encode_asset_info : AssetInfo → Buffer
encode_asset_info a =
    encode_address a.contract_address ++ (encode_name a.contract_name ++ encode_name a.asset_name)

unfoldable pub encode_principal : PostConditionPrincipal → Buffer
encode_principal principal_origin = 0x01 ∷ []
encode_principal (principal_standard a) = 0x02 ∷ [] ++ encode_address a
encode_principal (principal_contract a name) = 0x03 ∷ [] ++ (encode_address a ++ encode_name name)

unfoldable pub encode_recipient : RecipientPrincipal → Buffer
encode_recipient (recipient_address a) = 0x05 ∷ [] ++ encode_address a
encode_recipient (recipient_contract a name) = 0x06 ∷ [] ++ (encode_address a ++ encode_name name)

unfoldable pub encode_auth_field : TransactionAuthField → Buffer
encode_auth_field (key_compressed k) = 0x00 ∷ [] ++ k
encode_auth_field (key_uncompressed k) = 0x01 ∷ [] ++ k
encode_auth_field (sig_compressed s) = 0x02 ∷ [] ++ s
encode_auth_field (sig_uncompressed s) = 0x03 ∷ [] ++ s

abbrev single_sig_mode : SingleSigHashMode → ℕ
single_sig_mode SingleSigHashMode.p2pkh = 0x00
single_sig_mode SingleSigHashMode.p2wpkh = 0x02

abbrev multi_sig_mode : MultiSigHashMode → ℕ
multi_sig_mode MultiSigHashMode.p2sh = 0x01
multi_sig_mode MultiSigHashMode.p2wsh = 0x03

unfoldable pub encode_spending_condition : TransactionSpendingCondition → Buffer
encode_spending_condition (single_sig c) =
    single_sig_mode c.hash_mode ∷ []
    ++ (c.signer
        ++ (be_bytes 8 c.nonce ++ (be_bytes 8 c.fee_rate ++ (c.key_encoding ∷ [] ++ c.signature))))
encode_spending_condition (multi_sig c) =
    multi_sig_mode c.hash_mode ∷ []
    ++ (c.signer
        ++ (be_bytes 8 c.nonce
            ++ (be_bytes 8 c.fee_rate
                ++ (be_bytes 4 (length c.auth_fields)
                    ++ (encode_all encode_auth_field c.auth_fields
                        ++ be_bytes 2 c.signature_count)))))

unfoldable pub encode_auth : TransactionAuth → Buffer
encode_auth (auth_standard origin) = 0x04 ∷ [] ++ encode_spending_condition origin
encode_auth (auth_sponsored origin sponsor) =
    0x05 ∷ [] ++ (encode_spending_condition origin ++ encode_spending_condition sponsor)

unfoldable pub encode_block_header : BlockHeader → Buffer
encode_block_header h =
    h.version ∷ []
    ++ (be_bytes 8 h.work_score.burn
        ++ (be_bytes 8 h.work_score.work
            ++ (h.vrf_proof.gamma
                ++ (h.vrf_proof.c
                    ++ (h.vrf_proof.s
                        ++ (h.parent_block_hash
                            ++ (h.parent_microblock_hash
                                ++ (be_bytes 2 h.parent_microblock_sequence
                                    ++ (h.tx_merkle_root_hash
                                        ++ (h.state_merkle_root_hash
                                            ++ h.microblock_pubkey_hash))))))))))

-- The parts that hold Clarity values, over the encoding of those.
module _ {ClarityValue : Type 0} (serialize_cv : ClarityValue → Buffer) where
  unfoldable pub encode_post_condition : TransactionPostCondition ClarityValue → Buffer
  encode_post_condition (post_condition_stx c) =
      0 ∷ []
      ++ (encode_principal c.principal
          ++ (encode_enum FungibleConditionCode_enum c.condition_code
              ++ be_bytes 8 (pattern64 c.amount)))
  encode_post_condition (post_condition_fungible c) =
      1 ∷ []
      ++ (encode_principal c.principal
          ++ (encode_asset_info c.asset
              ++ (encode_enum FungibleConditionCode_enum c.condition_code ++ be_bytes 8 c.amount)))
  encode_post_condition (post_condition_nonfungible c) =
      2 ∷ []
      ++ (encode_principal c.principal
          ++ (encode_asset_info c.asset
              ++ (serialize_cv c.asset_value
                  ++ encode_enum NonfungibleConditionCode_enum c.condition_code)))

  unfoldable pub encode_payload : TransactionPayload ClarityValue → Buffer
  encode_payload (payload_token_transfer p) =
      0 ∷ [] ++ (encode_recipient p.recipient ++ (be_bytes 8 (pattern64 p.amount) ++ p.memo))
  encode_payload (payload_smart_contract p) =
      1 ∷ [] ++ (encode_name p.name ++ encode_string p.code_body)
  encode_payload (payload_contract_call p) =
      2 ∷ []
      ++ (encode_address p.address
          ++ (encode_name p.contract_name
              ++ (encode_name p.function_name ++ encode_list serialize_cv p.function_args)))
  encode_payload (payload_poison_microblock h1 h2) = 3 ∷ [] ++ (h1 ++ h2)
  encode_payload (payload_coinbase bytes) = 4 ∷ [] ++ bytes

  -- The span that `rawPostConditions` keeps: the mode and the post-conditions.
  unfoldable pub encode_mode_and_conditions : Transaction ClarityValue → Buffer
  encode_mode_and_conditions tx =
      encode_enum TransactionPostConditionMode_enum tx.post_condition_mode
      ++ encode_list encode_post_condition tx.post_conditions

  unfoldable pub encode_transaction : Transaction ClarityValue → Buffer
  encode_transaction tx =
      encode_enum TransactionVersion_enum tx.version
      ++ (be_bytes 4 tx.chain_id
          ++ (encode_auth tx.auth
              ++ (encode_enum TransactionAnchorMode_enum tx.anchor_mode
                  ++ (encode_mode_and_conditions tx ++ encode_payload tx.payload))))

  unfoldable pub encode_block : Block ClarityValue → Buffer
  encode_block b = encode_block_header b.header ++ encode_list encode_transaction b.transactions
