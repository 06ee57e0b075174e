-- ===== src/Api/Transactions.antt =====
-- src/api/controllers/db-controller.ts: `getTxFromDataStore`, over the stored rows.
use stacks_blockchain_rosett.Base.{
  map_or_throw, ℕ, zero, suc, Bool, true, false, List, [], ◌∷◌, Option, none, some, Result, ok, err,
  if◌then◌else◌,
}
use stacks_blockchain_rosett.Wire.Reader.{Error, message_error, library_error, Library}
use stacks_blockchain_rosett.Wire.Tx.{Text}
use stacks_blockchain_rosett.Datastore.Common.{
  Hash, DbTxTypeId, token_transfer, smart_contract, contract_call, poison_microblock, coinbase,
  DbTxStatus, pending, success, abort_by_response, abort_by_post_condition, DbTx, DbMempoolTx,
}
use stacks_blockchain_rosett.Postgres.Tables.{Db}
use stacks_blockchain_rosett.Postgres.Queries.Lists.{get_mempool_tx, get_tx}
use stacks_blockchain_rosett.Postgres.Queries.Events.{DbEvent, get_tx_events}
use stacks_blockchain_rosett.Events.Hex.{hex_to_buffer}
use stacks_blockchain_rosett.Api.Services.{
  ApiServices, ◌>>=◌, deserialize_cv, decimal_ℕ, unix_epoch_to_iso,
}
use stacks_blockchain_rosett.Api.PostConditions.{ClarityView, serialize_post_condition_mode}
use stacks_blockchain_rosett.Api.Labels.{get_tx_type_string, get_tx_status_string}
use stacks_blockchain_rosett.Api.Events.{TransactionEvent, parse_db_event}
use stacks_blockchain_rosett.Api.Payloads.{
  MinedView, ReceiptView, TransactionView, read_first_byte, payload_view, call_with_abi,
}

-- `DbTx | DbMempoolTx`: what `getTxFromDataStore` goes on with.
pub data FoundTx : Type 0 where
  from_mempool : DbMempoolTx → FoundTx
  from_chain : DbTx → List DbEvent → FoundTx

-- The mempool comes first; the events are those of the block of the transaction that is found.
unfoldable pub find_tx : Db → Hash → Result Error (Option FoundTx)
find_tx db tx_id = get_mempool_tx db tx_id >>= λ unmined. elim unmined [
  | some tx ↦ ok (some (from_mempool tx))
  | none ↦ get_tx db tx_id >>= λ mined. elim mined [
    | none ↦ ok none
    | some tx ↦ ok (some (from_chain tx (get_tx_events db tx_id tx.index_block_hash)))
  ]
]

unfoldable pub is_pending : DbTxStatus → Bool
is_pending pending = true
is_pending success = false
is_pending abort_by_response = false
is_pending abort_by_post_condition = false

unfoldable pub can_have_events : DbTxTypeId → Bool
can_have_events token_transfer = true
can_have_events contract_call = true
can_have_events smart_contract = true
can_have_events poison_microblock = false
can_have_events coinbase = false

-- `if (receipt_time)`
unfoldable pub receipt_view : ℕ → Option ReceiptView
receipt_view zero = none
receipt_view (suc n) =
    some (record { receipt_time = suc n; receipt_time_iso = unix_epoch_to_iso (suc n) })

module _ (lib : Library) (api : ApiServices lib.ClarityValue) where
  -- `if (raw_result)`
  unfoldable pub result_view : Option Text → Result Error (Option ClarityView)
  result_view none = ok none
  result_view (some []) = ok none
  result_view (some (c ∷ cs)) = do
    buffer ← hex_to_buffer (c ∷ cs)
    value ← deserialize_cv lib buffer
    ok (some (record { hex = c ∷ cs; repr = api.cv_to_string value }))

  -- Where the status is not pending. A row of the mempool has no block time, and `toISOString` throws.
  unfoldable pub mined_view : FoundTx → Result Error (Option MinedView)
  mined_view (from_mempool tx) =
      if is_pending tx.status then ok none else err (library_error "Invalid time value")
  mined_view (from_chain tx events) =
      if is_pending tx.status
      then ok none
      else result_view tx.raw_result >>= λ result. ok (
          some (record {
            block_hash = tx.block_hash;
            block_height = tx.block_height;
            burn_block_time = tx.burn_block_time;
            burn_block_time_iso = unix_epoch_to_iso tx.burn_block_time;
            canonical = tx.canonical;
            tx_index = tx.tx_index;
            tx_result = result;
          }))

  unfoldable pub event_views :
      DbTxTypeId → List DbEvent → Result Error (Option (List TransactionEvent))
  event_views type_id events =
      if can_have_events type_id
      then (map_or_throw (parse_db_event lib api) events >>= λ views. ok (some views))
      else elim events [
        | [] ↦ ok none
        | e ∷ es ↦ err (message_error "Events exist for unexpected tx type_id: ")
      ]

  -- The fields that both kinds of rows have, in the order in which the source computes them.
  unfoldable pub common_view : Db → FoundTx → Result Error TransactionView
  common_view db (from_mempool tx) = do
    byte ← read_first_byte tx.post_conditions
    mode ← serialize_post_condition_mode byte
    mined ← mined_view (from_mempool tx)
    payload ←
        payload_view lib api (call_with_abi lib api db) tx.type_id tx.post_conditions tx.payload
    events ← event_views tx.type_id []
    ok (record {
      tx_id = tx.tx_id;
      tx_status = get_tx_status_string tx.status;
      tx_type = get_tx_type_string tx.type_id;
      fee_rate = decimal_ℕ tx.fee_rate;
      sender_address = tx.sender_address;
      sponsored = tx.sponsored;
      sponsor_address = tx.sponsor_address;
      post_condition_mode = mode;
      mined = mined;
      receipt = receipt_view tx.receipt_time;
      payload = payload;
      events = events;
    })
  common_view db (from_chain tx found) = do
    byte ← read_first_byte tx.post_conditions
    mode ← serialize_post_condition_mode byte
    mined ← mined_view (from_chain tx found)
    payload ←
        payload_view lib api (call_with_abi lib api db) tx.type_id tx.post_conditions tx.payload
    events ← event_views tx.type_id found
    ok (record {
      tx_id = tx.tx_id;
      tx_status = get_tx_status_string tx.status;
      tx_type = get_tx_type_string tx.type_id;
      fee_rate = decimal_ℕ tx.fee_rate;
      sender_address = tx.sender_address;
      sponsored = tx.sponsored;
      sponsor_address = tx.sponsor_address;
      post_condition_mode = mode;
      mined = mined;
      receipt = none;
      payload = payload;
      events = events;
    })

  unfoldable pub get_tx_from_data_store : Db → Hash → Result Error (Option TransactionView)
  get_tx_from_data_store db tx_id = find_tx db tx_id >>= λ found. elim found [
    | none ↦ ok none
    | some tx ↦ common_view db tx >>= λ view. ok (some view)
  ]
