-- ===== src/Datastore/Common.antt =====
-- The records of src/datastore/common.ts. A hash or a transaction id is the number that its bytes
-- spell, a buffer the list of its bytes, a string the list of its code units, an optional field an
-- `Option`.
use stacks_blockchain_rosett.Base.{ℕ, Bool, List, Option}
use stacks_blockchain_rosett.Wire.Signed.{ℤ}
use stacks_blockchain_rosett.Wire.Reader.{Buffer}
use stacks_blockchain_rosett.Wire.Tx.{Text}

abbrev pub Hash : Type 0
Hash = ℕ

pub record DbBlock : Type 0 where
  pub block_hash : Hash
  pub burn_block_time : ℕ
  pub index_block_hash : Hash
  pub parent_index_block_hash : Hash
  pub parent_block_hash : Hash
  pub parent_microblock : Hash
  pub block_height : ℕ
  pub canonical : Bool

pub data DbTxTypeId : Type 0 where
  token_transfer smart_contract contract_call poison_microblock coinbase : DbTxTypeId

pub data DbTxStatus : Type 0 where
  pending success abort_by_response abort_by_post_condition : DbTxStatus

-- The columns that depend on the type of a transaction, in `DbTx` and in `DbMempoolTx`.
pub record DbTxPayload : Type 0 where
  pub token_transfer_recipient_address : Option Text
  pub token_transfer_amount : Option ℤ
  pub token_transfer_memo : Option Buffer
  pub contract_call_contract_id : Option Text
  pub contract_call_function_name : Option Text
  pub contract_call_function_args : Option Buffer
  pub smart_contract_contract_id : Option Text
  pub smart_contract_source_code : Option Text
  pub poison_microblock_header_1 : Option Buffer
  pub poison_microblock_header_2 : Option Buffer
  pub coinbase_payload : Option Buffer

pub record DbTx : Type 0 where
  pub index_block_hash : Hash
  pub block_hash : Hash
  pub block_height : ℕ
  pub burn_block_time : ℕ
  pub tx_id : Hash
  pub raw_tx : Buffer
  pub tx_index : ℕ
  pub type_id : DbTxTypeId
  pub status : DbTxStatus
  pub raw_result : Option Text
  pub canonical : Bool
  pub post_conditions : Buffer
  pub fee_rate : ℕ
  pub sender_address : Text
  pub origin_hash_mode : ℕ
  pub sponsored : Bool
  pub sponsor_address : Option Text
  pub payload : DbTxPayload

pub record DbMempoolTx : Type 0 where
  pub tx_id : Hash
  pub raw_tx : Buffer
  pub type_id : DbTxTypeId
  pub status : DbTxStatus
  pub receipt_time : ℕ
  pub post_conditions : Buffer
  pub fee_rate : ℕ
  pub sender_address : Text
  pub origin_hash_mode : ℕ
  pub sponsored : Bool
  pub sponsor_address : Option Text
  pub payload : DbTxPayload

pub record DbSmartContract : Type 0 where
  pub tx_id : Hash
  pub canonical : Bool
  pub contract_id : Text
  pub block_height : ℕ
  pub source_code : Text
  pub abi : Text

pub data DbAssetEventTypeId : Type 0 where
  transfer mint burn : DbAssetEventTypeId

pub record DbSmartContractEvent : Type 0 where
  pub event_index : ℕ
  pub tx_id : Hash
  pub tx_index : ℕ
  pub block_height : ℕ
  pub canonical : Bool
  pub contract_identifier : Text
  pub topic : Text
  pub value : Buffer

pub record DbStxEvent : Type 0 where
  pub event_index : ℕ
  pub tx_id : Hash
  pub tx_index : ℕ
  pub block_height : ℕ
  pub canonical : Bool
  pub asset_event_type_id : DbAssetEventTypeId
  pub sender : Option Text
  pub recipient : Option Text
  pub amount : ℤ

pub record DbFtEvent : Type 0 where
  pub event_index : ℕ
  pub tx_id : Hash
  pub tx_index : ℕ
  pub block_height : ℕ
  pub canonical : Bool
  pub asset_event_type_id : DbAssetEventTypeId
  pub sender : Option Text
  pub recipient : Option Text
  pub asset_identifier : Text
  pub amount : ℤ

pub record DbNftEvent : Type 0 where
  pub event_index : ℕ
  pub tx_id : Hash
  pub tx_index : ℕ
  pub block_height : ℕ
  pub canonical : Bool
  pub asset_event_type_id : DbAssetEventTypeId
  pub sender : Option Text
  pub recipient : Option Text
  pub asset_identifier : Text
  pub value : Buffer

-- One entry of `DataStoreUpdateData.txs`: a transaction with what it emitted.
pub record TxUpdate : Type 0 where
  pub tx : DbTx
  pub stx_events : List DbStxEvent
  pub ft_events : List DbFtEvent
  pub nft_events : List DbNftEvent
  pub contract_log_events : List DbSmartContractEvent
  pub smart_contracts : List DbSmartContract

pub record DataStoreUpdateData : Type 0 where
  pub block : DbBlock
  pub txs : List TxUpdate

pub data DbFaucetRequestCurrency : Type 0 where
  btc stx : DbFaucetRequestCurrency

pub record DbFaucetRequest : Type 0 where
  pub currency : DbFaucetRequestCurrency
  pub address : Text
  pub ip : Text
  pub occurred_at : ℕ
