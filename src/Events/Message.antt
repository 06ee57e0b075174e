-- ===== src/Events/Message.antt =====
-- The types of src/event-stream/core-node-message.ts, and the third-party code that the event stream
-- calls.
use stacks_blockchain_rosett.Base.{ℕ, List, Result, Option}
use stacks_blockchain_rosett.Wire.Signed.{ℤ}
use stacks_blockchain_rosett.Wire.Reader.{Error, Buffer}
use stacks_blockchain_rosett.Wire.Tx.{Text, SigHashMode, TransactionVersion, Transaction}
use stacks_blockchain_rosett.Datastore.Common.{Hash}

-- Third-party operations: the addresses of stacks-transactions and c32check, the hash of a
-- transaction, `BigInt` of a string, and `JSON.stringify` of an ABI.
pub record Services : Type 1 where
  pub ClarityAbi : Type 0
  pub address_hash_mode_to_version : SigHashMode → TransactionVersion → Result Error ℕ
  pub address_string : ℕ → Text → Result Error Text
  pub c32address : ℕ → Text → Result Error Text
  pub digest_sha512_256 : Buffer → Hash
  pub big_int : Text → Result Error ℤ
  pub stringify : ClarityAbi → Text

-- The payload of an event, a constructor for each of the eight values of `CoreNodeEventType`.
pub data CoreNodeEventType : Type 0 where
  contract_event : (contract_identifier topic raw_value : Text) → CoreNodeEventType
  stx_transfer_event : (recipient sender amount : Text) → CoreNodeEventType
  stx_mint_event : (recipient amount : Text) → CoreNodeEventType
  stx_burn_event : (sender amount : Text) → CoreNodeEventType
  ft_transfer_event : (asset_identifier recipient sender amount : Text) → CoreNodeEventType
  ft_mint_event : (asset_identifier recipient amount : Text) → CoreNodeEventType
  nft_transfer_event : (asset_identifier recipient sender raw_value : Text) → CoreNodeEventType
  nft_mint_event : (asset_identifier recipient raw_value : Text) → CoreNodeEventType

pub record CoreNodeEvent : Type 0 where
  pub txid : Hash
  pub event : CoreNodeEventType

pub data CoreNodeTxStatus : Type 0 where
  success abort_by_response abort_by_post_condition : CoreNodeTxStatus

module _ (ClarityAbi : Type 0) where
  pub record CoreNodeTxMessage : Type 0 where
    pub raw_tx : Text
    pub status : CoreNodeTxStatus
    pub raw_result : Text
    pub txid : Hash
    pub tx_index : ℕ
    pub contract_abi : ClarityAbi

  pub record CoreNodeMessage : Type 0 where
    pub block_hash : Hash
    pub block_height : ℕ
    pub burn_block_time : ℕ
    pub index_block_hash : Hash
    pub parent_index_block_hash : Hash
    pub parent_block_hash : Hash
    pub parent_microblock : Hash
    pub events : List CoreNodeEvent
    pub transactions : List CoreNodeTxMessage

  pub record CoreNodeParsedTxMessage (ClarityValue : Type 0) : Type 0 where
    pub core_tx : CoreNodeTxMessage
    pub parsed_tx : Transaction ClarityValue
    pub raw_tx : Buffer
    pub sender_address : Text
    pub sponsor_address : Option Text
    pub block_hash : Hash
    pub index_block_hash : Hash
    pub block_height : ℕ
    pub burn_block_time : ℕ
