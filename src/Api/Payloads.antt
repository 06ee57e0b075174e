-- ===== src/Api/Payloads.antt =====
-- src/api/controllers/db-controller.ts: `parseDbMempoolTx`, and the `switch` on the type that it shares
-- with `getTxFromDataStore`. `apiTx.tx_type` is the string of `type_id`, so the `switch` on it is a case
-- split on the id.
use stacks_blockchain_rosett.Base.{
  map_or_throw, ℕ, String, Bool, List, [], ◌∷◌, Option, none, some, Result, ok, err, same_text,
  drop, if◌then◌else◌,
}
use stacks_blockchain_rosett.Wire.Reader.{
  Error, message_error, library_error, Buffer, Library, from_buffer,
}
use stacks_blockchain_rosett.Wire.Tx.{Text}
use stacks_blockchain_rosett.Wire.Fields.{clarity_values_of_buffer}
use stacks_blockchain_rosett.Wire.PostConditions.{read_transaction_post_conditions}
use stacks_blockchain_rosett.Datastore.Common.{
  Hash, DbTxTypeId, token_transfer, smart_contract, contract_call, poison_microblock, coinbase,
  DbTxPayload, DbMempoolTx,
}
use stacks_blockchain_rosett.Postgres.Tables.{Db}
use stacks_blockchain_rosett.Postgres.Queries.Lists.{get_smart_contract}
use stacks_blockchain_rosett.Events.Hex.{buffer_to_hex_prefix_string}
use stacks_blockchain_rosett.Api.Services.{
  ApiServices, FunctionAbi, FunctionArgAbi, ◌>>=◌, unwrap_optional, decimal, decimal_ℕ,
  unix_epoch_to_iso,
}
use stacks_blockchain_rosett.Api.PostConditions.{
  PostConditionModeLabel, SerializedPostCondition, ClarityView, clarity_view,
  serialize_post_condition, serialize_post_condition_mode,
}
use stacks_blockchain_rosett.Api.Labels.{get_tx_type_string, get_tx_status_string}
use stacks_blockchain_rosett.Api.Events.{TransactionEvent}

pub record FunctionArgView : Type 0 where
  pub value : ClarityView
  pub name : Text
  pub arg_type : Text

-- A transaction of the mempool has no signature and no arguments.
pub record ContractCallView : Type 0 where
  pub contract_id : Text
  pub function_name : Text
  pub function_signature : Option Text
  pub function_args : Option (List FunctionArgView)

-- The property that the type of the transaction adds.
pub data PayloadView : Type 0 where
  token_transfer_view : (recipient_address amount memo : Text) → PayloadView
  smart_contract_view :
      (post_conditions : List SerializedPostCondition) (contract_id source_code : Text)
      → PayloadView
  contract_call_view :
      (post_conditions : List SerializedPostCondition) (call : ContractCallView) → PayloadView
  poison_microblock_view : (microblock_header_1 microblock_header_2 : Text) → PayloadView
  coinbase_view : (bytes : Text) → PayloadView

pub record ReceiptView : Type 0 where
  pub receipt_time : ℕ
  pub receipt_time_iso : Text

pub record MinedView : Type 0 where
  pub block_hash : Hash
  pub block_height : ℕ
  pub burn_block_time : ℕ
  pub burn_block_time_iso : Text
  pub canonical : Bool
  pub tx_index : ℕ
  pub tx_result : Option ClarityView

pub record TransactionView : Type 0 where
  pub tx_id : Hash
  pub tx_status : Text
  pub tx_type : Text
  pub fee_rate : Text
  pub sender_address : Text
  pub sponsored : Bool
  pub sponsor_address : Option Text
  pub post_condition_mode : PostConditionModeLabel
  pub mined : Option MinedView
  pub receipt : Option ReceiptView
  pub payload : PayloadView
  pub events : Option (List TransactionEvent)

-- `buffer.readUInt8(0)`
unfoldable pub read_first_byte : Buffer → Result Error ℕ
read_first_byte [] = err (library_error "ERR_OUT_OF_RANGE")
read_first_byte (byte ∷ rest) = ok byte

unfoldable pub find_function :
    {AbiType : Type 0} → Text → List (FunctionAbi AbiType) → Result Error (FunctionAbi AbiType)
find_function name [] = err (message_error "Could not find function name in ABI")
find_function name (f ∷ fs) =
    let rest = find_function name fs in if same_text f.name name then ok f else rest

module _ (lib : Library) (api : ApiServices lib.ClarityValue) where
  -- `readTransactionPostConditions` on what follows the mode's byte, then `serializePostCondition`.
  unfoldable pub post_condition_views : Buffer → Result Error (List SerializedPostCondition)
  post_condition_views buffer =
      read_transaction_post_conditions lib (from_buffer (drop 1 buffer)) >>= λ p.
      map_or_throw (serialize_post_condition api) p.0

  -- The arguments with those of the ABI at the same places; without one its fields cannot be read.
  unfoldable pub function_arg_views :
      List lib.ClarityValue
      → List (FunctionArgAbi api.AbiType)
      → Result Error (List FunctionArgView)
  function_arg_views [] abis = ok []
  function_arg_views (c ∷ cs) [] = err (library_error "Cannot read property 'name' of undefined")
  function_arg_views (c ∷ cs) (a ∷ as_) = function_arg_views cs as_ >>= λ views. ok (
      record {
        value = clarity_view api c;
        name = a.name;
        arg_type = api.get_type_string a.arg_type;
      }
      ∷ views)

  unfoldable pub optional_args :
      Option Buffer
      → List (FunctionArgAbi api.AbiType)
      → Result Error (Option (List FunctionArgView))
  optional_args none abis = ok none
  optional_args (some buffer) abis = do
    values ← clarity_values_of_buffer lib buffer
    views ← function_arg_views values abis
    ok (some views)

  -- The branch `contract_call` of `getTxFromDataStore`, after its checks of null.
  unfoldable pub call_with_abi :
      Db → (contract_id function_name : Text) → Option Buffer → Result Error ContractCallView
  call_with_abi db contract_id function_name args = do
    contract ←
        unwrap_optional (get_smart_contract db contract_id) "Failed to lookup smart contract by ID "
    functions ← api.parse_abi_functions contract.abi
    function ← find_function function_name functions
    views ← optional_args args function.args
    ok (record {
      contract_id = contract_id;
      function_name = function_name;
      function_signature = some (api.abi_function_to_string function);
      function_args = views;
    })

  unfoldable pub call_without_abi :
      (contract_id function_name : Text) → Option Buffer → Result Error ContractCallView
  call_without_abi contract_id function_name args = ok (record {
    contract_id = contract_id;
    function_name = function_name;
    function_signature = none;
    function_args = none;
  })

  abbrev hex_of : Option Buffer → String → Result Error Text
  hex_of column message =
      unwrap_optional column message >>= λ buffer. ok (buffer_to_hex_prefix_string buffer)

  -- The `switch` on the type that both functions have; `call` makes the view of a contract call.
  unfoldable pub payload_view :
      (call : (contract_id function_name : Text) → Option Buffer → Result Error ContractCallView)
      → DbTxTypeId
      → Buffer
      → DbTxPayload
      → Result Error PayloadView
  payload_view call token_transfer post_conditions p = do
    recipient ←
        unwrap_optional p.token_transfer_recipient_address
          "Unexpected nullish token_transfer_recipient_address"
    amount ← unwrap_optional p.token_transfer_amount "Unexpected nullish token_transfer_amount"
    memo ← hex_of p.token_transfer_memo "Unexpected nullish token_transfer_memo"
    ok (token_transfer_view recipient (decimal amount) memo)
  payload_view call smart_contract post_conditions p = do
    conditions ← post_condition_views post_conditions
    contract_id ←
        unwrap_optional p.smart_contract_contract_id "Unexpected nullish smart_contract_contract_id"
    source_code ←
        unwrap_optional p.smart_contract_source_code "Unexpected nullish smart_contract_source_code"
    ok (smart_contract_view conditions contract_id source_code)
  payload_view call contract_call post_conditions p = do
    conditions ← read_transaction_post_conditions lib (from_buffer (drop 1 post_conditions))
    contract_id ←
        unwrap_optional p.contract_call_contract_id "Unexpected nullish contract_call_contract_id"
    function_name ←
        unwrap_optional p.contract_call_function_name
          "Unexpected nullish contract_call_function_name"
    views ← map_or_throw (serialize_post_condition api) conditions.0
    made ← call contract_id function_name p.contract_call_function_args
    ok (contract_call_view views made)
  payload_view call poison_microblock post_conditions p = do
    header_1 ← hex_of p.poison_microblock_header_1 "value is null"
    header_2 ← hex_of p.poison_microblock_header_2 "value is null"
    ok (poison_microblock_view header_1 header_2)
  payload_view call coinbase post_conditions p = do
    bytes ← hex_of p.coinbase_payload "Unexpected nullish coinbase_payload"
    ok (coinbase_view bytes)

  unfoldable pub parse_db_mempool_tx : DbMempoolTx → Result Error TransactionView
  parse_db_mempool_tx tx = do
    byte ← read_first_byte tx.post_conditions
    mode ← serialize_post_condition_mode byte
    payload ← payload_view call_without_abi tx.type_id tx.post_conditions tx.payload
    ok (record {
      tx_id = tx.tx_id;
      tx_status = get_tx_status_string tx.status;
      tx_type = get_tx_type_string tx.type_id;
      fee_rate = decimal_ℕ tx.fee_rate;
      sender_address = tx.sender_address;
      sponsored = tx.sponsored;
      sponsor_address = tx.sponsor_address;
      post_condition_mode = mode;
      mined = none;
      receipt = some (record {
        receipt_time = tx.receipt_time;
        receipt_time_iso = unix_epoch_to_iso tx.receipt_time;
      });
      payload = payload;
      events = none;
    })
