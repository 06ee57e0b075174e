-- ===== src/Postgres/Refusals.antt =====
-- The rows that `update` cannot insert: what `hexToBuffer` throws in `updateTx`, and what the
-- columns and the CHECK constraints of src/migrations/ refuse. A refused row rolls the transaction
-- back, so the rows of an update are looked over, in the order of the inserts, before they are stored.
use stacks_blockchain_rosett.Base.{
  ℕ, ◌-◌, ◌^◌, Bool, true, false, not, ◌&&◌, List, [], ◌∷◌, Option, none, some, Result, ok, err,
  and_then, ◌==◌, ltb, if◌then◌else◌,
}
use stacks_blockchain_rosett.Wire.Signed.{ℤ, pos, negsuc}
use stacks_blockchain_rosett.Wire.Reader.{Error, Buffer}
use stacks_blockchain_rosett.Wire.Tx.{Text}
use stacks_blockchain_rosett.Events.Hex.{hex_to_buffer}
use stacks_blockchain_rosett.Datastore.Common.{
  DbBlock, DbTx, DbTxTypeId, DbTxPayload, DbAssetEventTypeId, DbSmartContract, DbSmartContractEvent,
  DbStxEvent, DbFtEvent, DbNftEvent, TxUpdate, DataStoreUpdateData,
}
use stacks_blockchain_rosett.Postgres.Reorg.{PgError, hex_refused, row_refused}

-- `smallint`, `integer`, `bigint` and `numeric(78, 0)`
unfoldable pub fits_smallint : ℕ → Bool
fits_smallint n = ltb n 32768

unfoldable pub fits_integer : ℕ → Bool
fits_integer n = ltb n 2147483648

unfoldable pub fits_bigint : ℤ → Bool
fits_bigint (pos n) = ltb n 9223372036854775808
fits_bigint (negsuc n) = ltb n 9223372036854775808

unfoldable pub fits_numeric : ℤ → Bool
fits_numeric (pos n) = ltb n (10 ^ 78)
fits_numeric (negsuc n) = ltb n (10 ^ 78 - 1)

-- A text of the database holds no character of code 0.
unfoldable pub fits_text : Text → Bool
fits_text [] = true
fits_text (c ∷ cs) = let rest = fits_text cs in not (c == 0) && rest

-- An undefined value is stored as NULL.
unfoldable pub fits_nullable : {A : Type 0} → (A → Bool) → Option A → Bool
fits_nullable fits none = true
fits_nullable fits (some a) = fits a

unfoldable pub is_null : {A : Type 0} → Option A → Bool
is_null none = true
is_null (some a) = false

unfoldable pub block_fits : DbBlock → Bool
block_fits block = fits_integer block.block_height && fits_integer block.burn_block_time

-- The columns that depend on the type. `NOT (a, b, c) IS NULL` holds where not all are NULL.
unfoldable pub payload_fits : DbTxPayload → Bool
payload_fits p =
    fits_nullable fits_text p.token_transfer_recipient_address
    && (fits_nullable fits_bigint p.token_transfer_amount
        && (fits_nullable fits_text p.smart_contract_contract_id
            && (fits_nullable fits_text p.smart_contract_source_code
                && (fits_nullable fits_text p.contract_call_contract_id
                    && fits_nullable fits_text p.contract_call_function_name))))

unfoldable pub valid_payload : DbTxTypeId → DbTxPayload → Bool
valid_payload type_id p = elim type_id [
  | DbTxTypeId.token_transfer ↦ not (
      is_null p.token_transfer_recipient_address
      && (is_null p.token_transfer_amount && is_null p.token_transfer_memo))
  | DbTxTypeId.smart_contract ↦
      not (is_null p.smart_contract_contract_id && is_null p.smart_contract_source_code)
  | DbTxTypeId.contract_call ↦ not (
      is_null p.contract_call_contract_id
      && (is_null p.contract_call_function_name && is_null p.contract_call_function_args))
  | DbTxTypeId.poison_microblock ↦
      not (is_null p.poison_microblock_header_1 && is_null p.poison_microblock_header_2)
  | DbTxTypeId.coinbase ↦ not (is_null p.coinbase_payload)
]

unfoldable pub tx_fits : DbTx → Bool
tx_fits tx =
    fits_smallint tx.tx_index
    && (fits_integer tx.block_height
        && (fits_integer tx.burn_block_time
            && (fits_bigint (pos tx.fee_rate)
                && (fits_nullable fits_text tx.sponsor_address
                    && (fits_text tx.sender_address
                        && (fits_smallint tx.origin_hash_mode
                            && (payload_fits tx.payload
                                && valid_payload tx.type_id tx.payload)))))))

-- `valid_asset_transfer`, `valid_asset_mint` and `valid_asset_burn`, the same for each asset.
unfoldable pub valid_asset : DbAssetEventTypeId → Option Text → Option Text → Bool
valid_asset type_id sender recipient = elim type_id [
  | DbAssetEventTypeId.transfer ↦ not (is_null sender && is_null recipient)
  | DbAssetEventTypeId.mint ↦ is_null sender && not (is_null recipient)
  | DbAssetEventTypeId.burn ↦ is_null recipient && not (is_null sender)
]

-- The columns that the rows of all events have.
unfoldable pub event_fits : (event_index tx_index block_height : ℕ) → Bool
event_fits event_index tx_index block_height =
    fits_integer event_index && (fits_smallint tx_index && fits_integer block_height)

unfoldable pub asset_fits : DbAssetEventTypeId → Option Text → Option Text → Bool
asset_fits type_id sender recipient =
    fits_nullable fits_text sender
    && (fits_nullable fits_text recipient && valid_asset type_id sender recipient)

unfoldable pub stx_event_fits : DbStxEvent → Bool
stx_event_fits e =
    event_fits e.event_index e.tx_index e.block_height
    && (asset_fits e.asset_event_type_id e.sender e.recipient && fits_bigint e.amount)

unfoldable pub ft_event_fits : DbFtEvent → Bool
ft_event_fits e =
    event_fits e.event_index e.tx_index e.block_height
    && (asset_fits e.asset_event_type_id e.sender e.recipient
        && (fits_text e.asset_identifier && fits_numeric e.amount))

unfoldable pub nft_event_fits : DbNftEvent → Bool
nft_event_fits e =
    event_fits e.event_index e.tx_index e.block_height
    && (asset_fits e.asset_event_type_id e.sender e.recipient && fits_text e.asset_identifier)

unfoldable pub contract_log_fits : DbSmartContractEvent → Bool
contract_log_fits e =
    event_fits e.event_index e.tx_index e.block_height
    && (fits_text e.contract_identifier && fits_text e.topic)

unfoldable pub smart_contract_fits : DbSmartContract → Bool
smart_contract_fits c =
    fits_text c.contract_id
    && (fits_integer c.block_height && (fits_text c.source_code && fits_text c.abi))

unfoldable pub all_fit : {A : Type 0} → (A → Bool) → List A → Bool
all_fit fits [] = true
all_fit fits (x ∷ xs) = let rest = all_fit fits xs in fits x && rest

unfoldable pub entry_fits : TxUpdate → Bool
entry_fits t =
    tx_fits t.tx
    && (all_fit stx_event_fits t.stx_events
        && (all_fit ft_event_fits t.ft_events
            && (all_fit nft_event_fits t.nft_events
                && (all_fit contract_log_fits t.contract_log_events
                    && all_fit smart_contract_fits t.smart_contracts))))

-- The answer to an insert that returns.
pub data Inserted : Type 0 where
  inserted : Inserted

-- The server's answer to rows that all fit, or to one that does not.
unfoldable pub insert_result : Bool → Result PgError Inserted
insert_result true = ok inserted
insert_result false = err row_refused

unfoldable pub parameter_result : Result Error Buffer → Result PgError Inserted
parameter_result (ok bytes) = ok inserted
parameter_result (err e) = err (hex_refused e)

-- `tx.raw_result ? hexToBuffer(tx.raw_result) : null`: an empty string is not truthy.
unfoldable pub accept_raw_result : Option Text → Result PgError Inserted
accept_raw_result none = ok inserted
accept_raw_result (some []) = ok inserted
accept_raw_result (some (c ∷ cs)) = parameter_result (hex_to_buffer (c ∷ cs))

unfoldable pub accept_txs : List TxUpdate → Result PgError Inserted
accept_txs [] = ok inserted
accept_txs (t ∷ ts) =
    let rest = accept_txs ts in
    and_then (accept_raw_result t.tx.raw_result)
      (λ u. and_then (insert_result (entry_fits t)) (λ v. rest))

-- `[block.block_height - 1, …]`, the parameter of the query for the parent.
unfoldable pub accept_parent_height : DbBlock → Result PgError Inserted
accept_parent_height block =
    if ltb 1 block.block_height
    then insert_result (fits_integer (block.block_height - 1))
    else ok inserted

-- The block, and the rows of its transactions where the block's row is new.
unfoldable pub accept_data : Bool → DataStoreUpdateData → Result PgError Inserted
accept_data is_new data' =
    and_then (insert_result (block_fits data'.block))
      (λ u. if is_new then accept_txs data'.txs else ok inserted)

-- All that an update of a new block has to insert.
unfoldable pub accept_rows : DataStoreUpdateData → Result PgError Inserted
accept_rows data' = and_then (accept_parent_height data'.block) (λ u. accept_data true data')
