-- ===== src/Api/Events.antt =====
-- src/api/controllers/db-controller.ts: `parseDbEvent`, and `getBlockFromDataStore`.
use stacks_blockchain_rosett.Base.{ℕ, Bool, List, [], Option, none, some, Result, ok}
use stacks_blockchain_rosett.Wire.Reader.{Error, Buffer, Library}
use stacks_blockchain_rosett.Wire.Tx.{Text}
use stacks_blockchain_rosett.Datastore.Common.{Hash, DbBlock, DbTx}
use stacks_blockchain_rosett.Postgres.Tables.{Db}
use stacks_blockchain_rosett.Postgres.Queries.Lists.{get_block}
use stacks_blockchain_rosett.Postgres.Queries.Events.{
  DbEvent, smart_contract_log, stx_asset, fungible_token_asset, non_fungible_token_asset,
  get_block_txs, index_of,
}
use stacks_blockchain_rosett.Events.Hex.{buffer_to_hex_prefix_string}
use stacks_blockchain_rosett.Api.Services.{
  ApiServices, ◌>>=◌, deserialize_cv, decimal, unix_epoch_to_iso,
}
use stacks_blockchain_rosett.Api.PostConditions.{ClarityView}
use stacks_blockchain_rosett.Api.Labels.{get_event_type_string, get_asset_event_type_string}

-- The part of an event that depends on its type.
pub data EventView : Type 0 where
  contract_log : (contract_id topic : Text) (value : ClarityView) → EventView
  stx_asset_view : (asset_event_type sender recipient amount : Text) → EventView
  fungible_asset_view : (asset_event_type asset_id sender recipient amount : Text) → EventView
  non_fungible_asset_view :
      (asset_event_type asset_id sender recipient : Text) (value : ClarityView) → EventView

pub record TransactionEvent : Type 0 where
  pub event_index : ℕ
  pub event_type : Text
  pub view : EventView

-- `text || ''`
unfoldable pub or_blank : Option Text → Text
or_blank none = []
or_blank (some text) = text

module _ (lib : Library) (api : ApiServices lib.ClarityValue) where
  unfoldable pub view_of_buffer : Buffer → Result Error ClarityView
  view_of_buffer buffer = deserialize_cv lib buffer >>= λ value.
      ok (record { hex = buffer_to_hex_prefix_string buffer; repr = api.cv_to_string value })

  unfoldable pub event_view : DbEvent → Result Error EventView
  event_view (smart_contract_log e) =
      view_of_buffer e.value >>= λ value. ok (contract_log e.contract_identifier e.topic value)
  event_view (stx_asset e) = ok (
      stx_asset_view (get_asset_event_type_string e.asset_event_type_id) (or_blank e.sender)
        (or_blank e.recipient) (decimal e.amount))
  event_view (fungible_token_asset e) = ok (
      fungible_asset_view (get_asset_event_type_string e.asset_event_type_id) e.asset_identifier
        (or_blank e.sender) (or_blank e.recipient) (decimal e.amount))
  event_view (non_fungible_token_asset e) = view_of_buffer e.value >>= λ value. ok (
      non_fungible_asset_view (get_asset_event_type_string e.asset_event_type_id) e.asset_identifier
        (or_blank e.sender) (or_blank e.recipient) value)

  unfoldable pub parse_db_event : DbEvent → Result Error TransactionEvent
  parse_db_event e = event_view e >>= λ view.
      ok (record { event_index = index_of e; event_type = get_event_type_string e; view = view })

pub record BlockView : Type 0 where
  pub canonical : Bool
  pub height : ℕ
  pub hash : Hash
  pub parent_block_hash : Hash
  pub burn_block_time : ℕ
  pub burn_block_time_iso : Text
  pub txs : List Hash

unfoldable pub block_view : DbBlock → List Hash → BlockView
block_view b txs = record {
  canonical = b.canonical;
  height = b.block_height;
  hash = b.block_hash;
  parent_block_hash = b.parent_block_hash;
  burn_block_time = b.burn_block_time;
  burn_block_time_iso = unix_epoch_to_iso b.burn_block_time;
  txs = txs;
}

unfoldable pub get_block_from_data_store :
    (engine_sort : List DbTx → List DbTx) → Hash → Db → Option BlockView
get_block_from_data_store engine_sort block_hash db = elim (get_block db block_hash) [
  | none ↦ none
  | some b ↦ some (block_view b (get_block_txs engine_sort db b.index_block_hash))
]
