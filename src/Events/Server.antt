-- ===== src/Events/Server.antt =====
-- src/event-stream/event-server.ts: `handleClientMessage`, from a message of the node to the update
-- of the store.
use stacks_blockchain_rosett.Base.{
  ℕ, ◌+◌, true, List, [], ◌∷◌, ◌++◌, Option, none, some, Result, ok, err, and_then, ◌==◌,
  if◌then◌else◌, length,
}
use stacks_blockchain_rosett.Wire.Reader.{Error, plain_error, Library}
use stacks_blockchain_rosett.Wire.Tx.{
  Text, TransactionPayload, payload_token_transfer, payload_coinbase, payload_contract_call,
  payload_smart_contract, payload_poison_microblock,
}
use stacks_blockchain_rosett.Datastore.Common.{
  DbBlock, DbSmartContract, DbAssetEventTypeId, DbSmartContractEvent, DbStxEvent, DbFtEvent,
  DbNftEvent, TxUpdate, DataStoreUpdateData,
}
use stacks_blockchain_rosett.Postgres.Tables.{Db}
use stacks_blockchain_rosett.Postgres.Update.{update}
use stacks_blockchain_rosett.Events.Message.{
  Services, CoreNodeEventType, contract_event, stx_transfer_event, stx_mint_event, stx_burn_event,
  ft_transfer_event, ft_mint_event, nft_transfer_event, nft_mint_event, CoreNodeEvent,
}
use stacks_blockchain_rosett.Events.Hex.{hex_to_buffer}
use stacks_blockchain_rosett.Events.Sender.{Msg, ParsedTx, parse_message_transactions}
use stacks_blockchain_rosett.Events.Record.{create_db_tx_from_core_msg}

-- `eventIndex`: how many events the entry holds.
unfoldable pub event_index : TxUpdate → ℕ
event_index t =
    length t.stx_events + length t.ft_events + length t.nft_events + length t.contract_log_events

-- The database after the call: what is thrown before `db.update` leaves it.
unfoldable pub db_after : Db → Result Error DataStoreUpdateData → Db
db_after db (err e) = db
db_after db (ok data') = (update db data').db

module _ (services : Services) where
  -- `BigInt(amount)`, and the STX event pushed on the entry.
  unfoldable pub push_stx :
      ℕ
      → DbAssetEventTypeId
      → (sender recipient : Option Text) (amount : Text) → TxUpdate
      → Result Error TxUpdate
  push_stx height type_id sender recipient amount t = and_then (services.big_int amount) (λ n.
      let event : DbStxEvent = record {
        event_index = event_index t;
        tx_id = t.tx.tx_id;
        tx_index = t.tx.tx_index;
        block_height = height;
        canonical = true;
        asset_event_type_id = type_id;
        sender = sender;
        recipient = recipient;
        amount = n;
      } in
      ok (record t { stx_events = t.stx_events ++ event ∷ [] }))

  unfoldable pub push_ft :
      ℕ
      → DbAssetEventTypeId
      → (sender recipient : Option Text) (asset amount : Text) → TxUpdate
      → Result Error TxUpdate
  push_ft height type_id sender recipient asset amount t = and_then (services.big_int amount) (λ n.
      let event : DbFtEvent = record {
        event_index = event_index t;
        tx_id = t.tx.tx_id;
        tx_index = t.tx.tx_index;
        block_height = height;
        canonical = true;
        asset_event_type_id = type_id;
        sender = sender;
        recipient = recipient;
        asset_identifier = asset;
        amount = n;
      } in
      ok (record t { ft_events = t.ft_events ++ event ∷ [] }))

  unfoldable pub push_nft :
      ℕ
      → DbAssetEventTypeId
      → (sender recipient : Option Text) (asset raw_value : Text) → TxUpdate
      → Result Error TxUpdate
  push_nft height type_id sender recipient asset raw_value t =
      and_then (hex_to_buffer raw_value) (λ value.
        let event : DbNftEvent = record {
          event_index = event_index t;
          tx_id = t.tx.tx_id;
          tx_index = t.tx.tx_index;
          block_height = height;
          canonical = true;
          asset_event_type_id = type_id;
          sender = sender;
          recipient = recipient;
          asset_identifier = asset;
          value = value;
        } in
        ok (record t { nft_events = t.nft_events ++ event ∷ [] }))

  unfoldable pub push_log :
      ℕ → (identifier topic raw_value : Text) → TxUpdate → Result Error TxUpdate
  push_log height identifier topic raw_value t = and_then (hex_to_buffer raw_value) (λ value.
      let event : DbSmartContractEvent = record {
        event_index = event_index t;
        tx_id = t.tx.tx_id;
        tx_index = t.tx.tx_index;
        block_height = height;
        canonical = true;
        contract_identifier = identifier;
        topic = topic;
        value = value;
      } in
      ok (record t { contract_log_events = t.contract_log_events ++ event ∷ [] }))

  -- The `switch` on the type of an event: the event pushed on the entry of its transaction, whose id
  -- is the event's.
  unfoldable pub push_event : ℕ → CoreNodeEventType → TxUpdate → Result Error TxUpdate
  push_event height (contract_event identifier topic raw_value) =
      push_log height identifier topic raw_value
  push_event height (stx_transfer_event recipient sender amount) =
      push_stx height DbAssetEventTypeId.transfer (some sender) (some recipient) amount
  push_event height (stx_mint_event recipient amount) =
      push_stx height DbAssetEventTypeId.mint none (some recipient) amount
  push_event height (stx_burn_event sender amount) =
      push_stx height DbAssetEventTypeId.burn (some sender) none amount
  push_event height (ft_transfer_event asset recipient sender amount) =
      push_ft height DbAssetEventTypeId.transfer (some sender) (some recipient) asset amount
  push_event height (ft_mint_event asset recipient amount) =
      push_ft height DbAssetEventTypeId.mint none (some recipient) asset amount
  push_event height (nft_transfer_event asset recipient sender raw_value) =
      push_nft height DbAssetEventTypeId.transfer (some sender) (some recipient) asset raw_value
  push_event height (nft_mint_event asset recipient raw_value) =
      push_nft height DbAssetEventTypeId.mint none (some recipient) asset raw_value

  -- The first entry with the id of the event's transaction takes the event.
  unfoldable pub add_event : ℕ → CoreNodeEvent → List TxUpdate → Result Error (List TxUpdate)
  add_event height e [] =
      err (plain_error "Unexpected missing tx during event parsing by tx_id " e.txid)
  add_event height e (t ∷ ts) =
      let rest = add_event height e ts in
      if t.tx.tx_id == e.txid
      then and_then (push_event height e.event t) (λ t'. ok (t' ∷ ts))
      else and_then rest (λ ts'. ok (t ∷ ts'))

  unfoldable pub add_events : ℕ → List CoreNodeEvent → List TxUpdate → Result Error (List TxUpdate)
  add_events height [] ts = ok ts
  add_events height (e ∷ es) ts = and_then (add_event height e ts) (add_events height es)

  module _ (lib : Library) where
    -- `smartContracts` of a new entry.
    unfoldable pub deployed :
        Msg services lib
        → ParsedTx services lib
        → TransactionPayload lib.ClarityValue
        → List DbSmartContract
    deployed msg tx (payload_smart_contract p) =
        record {
          tx_id = tx.core_tx.txid;
          canonical = true;
          contract_id = tx.sender_address ++ 46 ∷ p.name;
          block_height = msg.block_height;
          source_code = p.code_body;
          abi = services.stringify tx.core_tx.contract_abi;
        }
        ∷ []
    deployed msg tx (payload_token_transfer p) = []
    deployed msg tx (payload_coinbase bytes) = []
    deployed msg tx (payload_contract_call p) = []
    deployed msg tx (payload_poison_microblock one two) = []

    -- `dbData.txs` before the events.
    unfoldable pub create_entries :
        Msg services lib → List (ParsedTx services lib) → Result Error (List TxUpdate)
    create_entries msg [] = ok []
    create_entries msg (tx ∷ txs) = and_then (create_db_tx_from_core_msg services tx) (λ db_tx.
        and_then (create_entries msg txs) (λ entries.
          let entry : TxUpdate = record {
            tx = db_tx;
            stx_events = [];
            ft_events = [];
            nft_events = [];
            contract_log_events = [];
            smart_contracts = deployed msg tx tx.parsed_tx.payload;
          } in
          ok (entry ∷ entries)))

    unfoldable pub db_block : Msg services lib → DbBlock
    db_block msg = record {
      block_hash = msg.block_hash;
      burn_block_time = msg.burn_block_time;
      index_block_hash = msg.index_block_hash;
      parent_index_block_hash = msg.parent_index_block_hash;
      parent_block_hash = msg.parent_block_hash;
      parent_microblock = msg.parent_microblock;
      block_height = msg.block_height;
      canonical = true;
    }

    -- `dbData`
    unfoldable pub client_data : Msg services lib → Result Error DataStoreUpdateData
    client_data msg = and_then (parse_message_transactions services lib msg) (λ parsed.
        and_then (create_entries msg parsed) (λ entries.
          and_then (add_events msg.block_height msg.events entries)
            (λ txs. ok (record { block = db_block msg; txs = txs }))))

    unfoldable pub handle_client_message : Db → Msg services lib → Db
    handle_client_message db msg = db_after db (client_data msg)
