-- ===== src/Postgres/Queries/Events.antt =====
-- PgDataStore: `getBlockTxs`, `getTxEvents` and `getAddressAssetEvents`.
use stacks_blockchain_rosett.Base.{
  ℕ, Bool, true, ◌&&◌, ◌||◌, not, List, [], ◌∷◌, ◌++◌, map, Option, ◌==◌, ltb, sort_by, order_by,
  page,
}
use stacks_blockchain_rosett.Wire.Tx.{Text}
use stacks_blockchain_rosett.Datastore.Common.{
  Hash, DbTx, DbSmartContractEvent, DbStxEvent, DbFtEvent, DbNftEvent,
}
use stacks_blockchain_rosett.Postgres.Tables.{select, Row, Db}
use stacks_blockchain_rosett.Postgres.Queries.Lists.{Listed, entries, column_is}

-- `DbEvent`, a constructor for each `event_type`.
pub data DbEvent : Type 0 where
  smart_contract_log : DbSmartContractEvent → DbEvent
  stx_asset : DbStxEvent → DbEvent
  fungible_token_asset : DbFtEvent → DbEvent
  non_fungible_token_asset : DbNftEvent → DbEvent

unfoldable pub index_of : DbEvent → ℕ
index_of (smart_contract_log e) = e.event_index
index_of (stx_asset e) = e.event_index
index_of (fungible_token_asset e) = e.event_index
index_of (non_fungible_token_asset e) = e.event_index

-- `(a, b) => a.event_index - b.event_index`: a stays in front of b.
abbrev pub by_index : DbEvent → DbEvent → Bool
by_index a b = not (ltb (index_of b) (index_of a))

-- The entries of the rows with an index hash that meet a condition.
abbrev pub of_block : {E : Type 0} → (E → Bool) → Hash → List (Row E) → List E
of_block p hash table = entries (select (λ row. p row.entry && row.index_block_hash == hash) table)

-- The events of the four queries, one behind the other.
unfoldable pub tx_events : Db → (tx_id index_block_hash : Hash) → List DbEvent
tx_events db id hash =
    map stx_asset (of_block (λ (e : DbStxEvent). e.tx_id == id) hash db.stx_events)
    ++ (map fungible_token_asset (of_block (λ (e : DbFtEvent). e.tx_id == id) hash db.ft_events)
        ++ (map non_fungible_token_asset
              (of_block (λ (e : DbNftEvent). e.tx_id == id) hash db.nft_events)
            ++ map smart_contract_log
                (of_block (λ (e : DbSmartContractEvent). e.tx_id == id) hash db.contract_logs)))

unfoldable pub get_tx_events : Db → (tx_id index_block_hash : Hash) → List DbEvent
get_tx_events db id hash = sort_by by_index (tx_events db id hash)

-- `sender = $1 OR recipient = $1`
abbrev pub touches : Text → (sender recipient : Option Text) → Bool
touches address sender recipient = column_is address sender || column_is address recipient

-- `ORDER BY block_height DESC, tx_index DESC, event_index DESC`
unfoldable pub event_order : DbEvent → List ℕ
event_order (smart_contract_log e) = e.block_height ∷ e.tx_index ∷ e.event_index ∷ []
event_order (stx_asset e) = e.block_height ∷ e.tx_index ∷ e.event_index ∷ []
event_order (fungible_token_asset e) = e.block_height ∷ e.tx_index ∷ e.event_index ∷ []
event_order (non_fungible_token_asset e) = e.block_height ∷ e.tx_index ∷ e.event_index ∷ []

-- The UNION ALL of the three tables.
unfoldable pub asset_events : Db → Text → List DbEvent
asset_events db address =
    map stx_asset (
      select (λ (e : DbStxEvent). e.canonical && touches address e.sender e.recipient)
        (entries db.stx_events))
    ++ (map fungible_token_asset (
          select (λ (e : DbFtEvent). e.canonical && touches address e.sender e.recipient)
            (entries db.ft_events))
        ++ map non_fungible_token_asset (
            select (λ (e : DbNftEvent). e.canonical && touches address e.sender e.recipient)
              (entries db.nft_events)))

-- The total is the constant 0.
unfoldable pub get_address_asset_events : Db → Text → (limit offset : ℕ) → Listed DbEvent
get_address_asset_events db address limit offset = record {
  results = page limit offset (order_by event_order (asset_events db address));
  total = 0;
}

-- `result.rows.sort(tx => tx.tx_index)` hands the sort a comparator of one argument, which puts the rows
-- in an order of the engine's choice, here `engine_sort`.
unfoldable pub get_block_txs : (engine_sort : List DbTx → List DbTx) → Db → Hash → List Hash
get_block_txs engine_sort db hash =
    map (λ (t : DbTx). t.tx_id) (engine_sort (of_block (λ (t : DbTx). true) hash db.txs))
