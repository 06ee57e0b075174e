-- ===== src/Events/Record.antt =====
-- src/datastore/common.ts: from a parsed transaction to the rows of the store.
use stacks_blockchain_rosett.Base.{
  ℕ, Bool, true, false, ◌∷◌, ◌++◌, Option, none, some, Result, ok, and_then,
}
use stacks_blockchain_rosett.Wire.Reader.{Error, Buffer}
use stacks_blockchain_rosett.Wire.Tx.{
  Text, SigHashMode_enum, TransactionAuth, auth_standard, auth_sponsored, Transaction,
  TransactionPayload, payload_token_transfer, payload_coinbase, payload_contract_call,
  payload_smart_contract, payload_poison_microblock,
}
use stacks_blockchain_rosett.Datastore.Common.{
  Hash, DbTxTypeId, DbTxStatus, DbTxPayload, DbTx, DbMempoolTx,
}
use stacks_blockchain_rosett.Events.Message.{Services, CoreNodeTxStatus, CoreNodeParsedTxMessage}
use stacks_blockchain_rosett.Events.Sender.{
  condition_fee_rate, condition_hash_mode, origin_condition, get_tx_sender_address, c32_of,
  recipient_principal,
}

unfoldable pub get_tx_db_status : CoreNodeTxStatus → DbTxStatus
get_tx_db_status CoreNodeTxStatus.success = DbTxStatus.success
get_tx_db_status CoreNodeTxStatus.abort_by_response = DbTxStatus.abort_by_response
get_tx_db_status CoreNodeTxStatus.abort_by_post_condition = DbTxStatus.abort_by_post_condition

-- `parseEnum(DbTxTypeId, payload.typeId)`: the two enums have the same numbers.
unfoldable pub type_id_of : {V : Type 0} → TransactionPayload V → DbTxTypeId
type_id_of (payload_token_transfer p) = DbTxTypeId.token_transfer
type_id_of (payload_smart_contract p) = DbTxTypeId.smart_contract
type_id_of (payload_contract_call p) = DbTxTypeId.contract_call
type_id_of (payload_poison_microblock one two) = DbTxTypeId.poison_microblock
type_id_of (payload_coinbase bytes) = DbTxTypeId.coinbase

unfoldable pub is_sponsored : TransactionAuth → Bool
is_sponsored (auth_standard origin) = false
is_sponsored (auth_sponsored origin sponsor) = true

abbrev pub no_payload : DbTxPayload
no_payload = record {
  token_transfer_recipient_address = none;
  token_transfer_amount = none;
  token_transfer_memo = none;
  contract_call_contract_id = none;
  contract_call_function_name = none;
  contract_call_function_args = none;
  smart_contract_contract_id = none;
  smart_contract_source_code = none;
  poison_microblock_header_1 = none;
  poison_microblock_header_2 = none;
  coinbase_payload = none;
}

module _ (services : Services) where
  unfoldable pub payload_columns :
      {V : Type 0} → Transaction V → TransactionPayload V → Result Error DbTxPayload
  payload_columns tx (payload_token_transfer p) =
      and_then (recipient_principal services p.recipient) (λ recipient. ok (record no_payload {
        token_transfer_recipient_address = some recipient;
        token_transfer_amount = some p.amount;
        token_transfer_memo = some p.memo;
      }))
  payload_columns tx (payload_smart_contract p) =
      and_then (get_tx_sender_address services tx) (λ sender_address. ok (record no_payload {
        smart_contract_contract_id = some (sender_address ++ 46 ∷ p.name);
        smart_contract_source_code = some p.code_body;
      }))
  payload_columns tx (payload_contract_call p) =
      and_then (c32_of services p.address) (λ contract_address. ok (record no_payload {
        contract_call_contract_id = some (contract_address ++ 46 ∷ p.contract_name);
        contract_call_function_name = some p.function_name;
        contract_call_function_args = p.raw_function_args;
      }))
  payload_columns tx (payload_poison_microblock one two) = ok (record no_payload {
    poison_microblock_header_1 = some one;
    poison_microblock_header_2 = some two;
  })
  payload_columns tx (payload_coinbase bytes) =
      ok (record no_payload { coinbase_payload = some bytes })

  unfoldable pub extract_transaction_payload :
      {V : Type 0} → Transaction V → Result Error DbTxPayload
  extract_transaction_payload tx = payload_columns tx tx.payload

  unfoldable pub create_db_tx_from_core_msg :
      {V : Type 0} → CoreNodeParsedTxMessage services.ClarityAbi V → Result Error DbTx
  create_db_tx_from_core_msg msg =
      let tx = msg.parsed_tx in
      and_then (extract_transaction_payload tx) (λ payload. ok (record {
        index_block_hash = msg.index_block_hash;
        block_hash = msg.block_hash;
        block_height = msg.block_height;
        burn_block_time = msg.burn_block_time;
        tx_id = msg.core_tx.txid;
        raw_tx = msg.raw_tx;
        tx_index = msg.core_tx.tx_index;
        type_id = type_id_of tx.payload;
        status = get_tx_db_status msg.core_tx.status;
        raw_result = some msg.core_tx.raw_result;
        canonical = true;
        post_conditions = tx.raw_post_conditions;
        fee_rate = condition_fee_rate (origin_condition tx.auth);
        sender_address = msg.sender_address;
        origin_hash_mode = SigHashMode_enum.value (condition_hash_mode (origin_condition tx.auth));
        sponsored = is_sponsored tx.auth;
        sponsor_address = msg.sponsor_address;
        payload = payload;
      }))

  unfoldable pub create_db_mempool_tx_from_core_msg :
      {V : Type 0}
      → Transaction V
      → (tx_id : Hash) (sender : Text) (sponsor_address : Option Text) (raw_tx : Buffer)
        (receipt_date : ℕ)
      → Result Error DbMempoolTx
  create_db_mempool_tx_from_core_msg tx tx_id sender sponsor_address raw_tx receipt_date =
      and_then (extract_transaction_payload tx) (λ payload. ok (record {
        tx_id = tx_id;
        raw_tx = raw_tx;
        type_id = type_id_of tx.payload;
        status = DbTxStatus.pending;
        receipt_time = receipt_date;
        post_conditions = tx.raw_post_conditions;
        fee_rate = condition_fee_rate (origin_condition tx.auth);
        sender_address = sender;
        origin_hash_mode = SigHashMode_enum.value (condition_hash_mode (origin_condition tx.auth));
        sponsored = is_sponsored tx.auth;
        sponsor_address = sponsor_address;
        payload = payload;
      }))
