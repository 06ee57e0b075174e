-- ===== src/Memory/Queries.antt =====
-- MemoryDataStore: the methods that read its maps. Those that throw 'not yet implemented' are left out.
use stacks_blockchain_rosett.Base.{
  ℕ, suc, ◌+◌, Bool, ◌&&◌, List, [], ◌∷◌, ◌++◌, map, Option, none, some, ◌==◌, leb, if◌then◌else◌,
  same_text, length, take, order_by,
}
use stacks_blockchain_rosett.Wire.Tx.{Text}
use stacks_blockchain_rosett.Datastore.Common.{
  Hash, DbBlock, DbTx, DbMempoolTx, DbTxTypeId, DbSmartContract, DbSmartContractEvent, DbStxEvent,
  DbFtEvent, DbNftEvent, DbFaucetRequest, DbFaucetRequestCurrency, btc, stx,
}
use stacks_blockchain_rosett.Postgres.Tables.{select, Row}
use stacks_blockchain_rosett.Postgres.Queries.Lists.{Listed, first, bit, any_type}
use stacks_blockchain_rosett.Postgres.Queries.Events.{
  DbEvent, smart_contract_log, stx_asset, fungible_token_asset, non_fungible_token_asset,
}
use stacks_blockchain_rosett.Api.Faucets.{asked_by}
use stacks_blockchain_rosett.Memory.Store.{MemoryDataStore, same_hash}

-- `map.get(key)`
unfoldable pub get_entry : {K V : Type 0} → (K → K → Bool) → K → List (K × V) → Option V
get_entry same k [] = none
get_entry same k ((j, v) ∷ m) = let rest = get_entry same k m in if same j k then some v else rest

-- `map.values()`
abbrev pub values : {K V : Type 0} → List (K × V) → List V
values = map (λ e. e.1)

unfoldable pub get_block : MemoryDataStore → Hash → Option DbBlock
get_block m hash = get_entry same_hash hash m.blocks

-- `.filter((_tx, i) => i >= offset && i <= offset + limit)`, from the index `i` on.
unfoldable pub in_range : {A : Type 0} → (i limit offset : ℕ) → List A → List A
in_range i limit offset [] = []
in_range i limit offset (x ∷ xs) =
    let rest = in_range (suc i) limit offset xs in
    if leb offset i && leb i (offset + limit) then x ∷ rest else rest

-- That filter, and `.slice(0, limit)`.
unfoldable pub page_of : {A : Type 0} → (limit offset : ℕ) → List A → List A
page_of limit offset xs = take limit (in_range 0 limit offset xs)

unfoldable pub get_blocks : MemoryDataStore → (limit offset : ℕ) → Listed DbBlock
get_blocks m limit offset =
    let block_list = select (λ (b : DbBlock). b.canonical) (values m.blocks) in
    record {
      results = page_of limit offset (order_by (λ (b : DbBlock). b.block_height ∷ []) block_list);
      total = length block_list;
    }

unfoldable pub get_block_txs : MemoryDataStore → Hash → List Hash
get_block_txs m index_block_hash =
    map (λ (t : DbTx). t.tx_id)
      (select (λ (t : DbTx). t.index_block_hash == index_block_hash) (values m.txs))

unfoldable pub get_mempool_tx : MemoryDataStore → Hash → Option DbMempoolTx
get_mempool_tx m tx_id = get_entry same_hash tx_id m.tx_mempool

unfoldable pub get_tx : MemoryDataStore → Hash → Option DbTx
get_tx m tx_id = get_entry same_hash tx_id m.txs

-- `if (txTypeFilter.length > 0)`
unfoldable pub of_types : List DbTxTypeId → List DbTx → List DbTx
of_types [] txs = txs
of_types (u ∷ us) txs = select (λ (t : DbTx). any_type t.type_id (u ∷ us)) txs

unfoldable pub get_tx_list : MemoryDataStore → (limit offset : ℕ) → List DbTxTypeId → Listed DbTx
get_tx_list m limit offset type_ids =
    let transactions = of_types type_ids (select (λ (t : DbTx). t.canonical) (values m.txs)) in
    record {
      results =
          page_of limit offset
            (order_by (λ (t : DbTx). t.block_height ∷ t.tx_index ∷ []) transactions);
      total = length transactions;
    }

abbrev of_tx :
    {K E : Type 0} → (E → Hash) → (tx_id index_block_hash : Hash) → List (K × Row E) → List E
of_tx id_of tx_id hash m =
    map (λ row. row.entry)
      (select (λ row. row.index_block_hash == hash && id_of row.entry == tx_id) (values m))

-- `.sort(e => e.entry.event_index)` hands the sort a comparator of one argument, which puts the events in
-- an order of the engine's choice, here `engine_sort`.
unfoldable pub get_tx_events :
    (engine_sort : List DbEvent → List DbEvent)
    → MemoryDataStore
    → (tx_id index_block_hash : Hash) → List DbEvent
get_tx_events engine_sort m id hash = engine_sort (
    map stx_asset (of_tx (λ (e : DbStxEvent). e.tx_id) id hash m.stx_token_events)
    ++ (map fungible_token_asset
          (of_tx (λ (e : DbFtEvent). e.tx_id) id hash m.fungible_token_events)
        ++ (map non_fungible_token_asset
              (of_tx (λ (e : DbNftEvent). e.tx_id) id hash m.non_fungible_token_events)
            ++ map smart_contract_log
                (of_tx (λ (e : DbSmartContractEvent). e.tx_id) id hash m.smart_contract_events))))

unfoldable pub get_smart_contract : MemoryDataStore → Text → Option DbSmartContract
get_smart_contract m contract_id = first (
    order_by (λ (c : DbSmartContract). bit c.canonical ∷ [])
      (select (λ (c : DbSmartContract). same_text c.contract_id contract_id)
        (map (λ (row : Row DbSmartContract). row.entry) (values m.smart_contracts))))

abbrev faucet_requests_of : DbFaucetRequestCurrency → MemoryDataStore → Text → List DbFaucetRequest
faucet_requests_of currency m address = take 5 (
    order_by (λ (r : DbFaucetRequest). r.occurred_at ∷ [])
      (select (asked_by currency address) m.faucet_requests))

unfoldable pub get_btc_faucet_requests : MemoryDataStore → Text → List DbFaucetRequest
get_btc_faucet_requests = faucet_requests_of btc

unfoldable pub get_stx_faucet_requests : MemoryDataStore → Text → List DbFaucetRequest
get_stx_faucet_requests = faucet_requests_of stx
