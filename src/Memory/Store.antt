-- ===== src/Memory/Store.antt =====
-- MemoryDataStore: its maps, and the methods that change them. A `Map` is the list of its entries in the
-- order of insertion; a key `${tx_id}_${index_block_hash}_${event_index}` is the record of its parts.
-- An entry is a copy (`{ ...block }`), so no other object changes with it. The source passes
-- `smartContractEvents` to `updateCanonicalStatus` twice, and the second pass changes nothing.
use stacks_blockchain_rosett.Base.{
  ℕ, Bool, false, not, ◌&&◌, ◌||◌, List, [], ◌∷◌, ◌++◌, map, ◌==◌, leb, if◌then◌else◌, same_text,
}
use stacks_blockchain_rosett.Wire.Tx.{Text}
use stacks_blockchain_rosett.Datastore.Common.{
  Hash, DbBlock, DbTx, DbMempoolTx, DbSmartContract, DbSmartContractEvent, DbStxEvent, DbFtEvent,
  DbNftEvent, DbFaucetRequest, TxUpdate, DataStoreUpdateData,
}
use stacks_blockchain_rosett.Postgres.Tables.{Row}
use stacks_blockchain_rosett.Postgres.Update.{
  StoreEvent, block_update, tx_update, mempool_tx_update,
}

pub record EventKey : Type 0 where
  pub tx_id : Hash
  pub index_block_hash : Hash
  pub event_index : ℕ

unfoldable pub same_key : EventKey → EventKey → Bool
same_key j k =
    j.tx_id == k.tx_id
    && (j.index_block_hash == k.index_block_hash && j.event_index == k.event_index)

abbrev pub same_hash : Hash → Hash → Bool
same_hash j k = j == k

-- `map.set(key, value)`: an entry that is there keeps its place.
unfoldable pub set_entry : {K V : Type 0} → (K → K → Bool) → K → V → List (K × V) → List (K × V)
set_entry same k v [] = (k, v) ∷ []
set_entry same k v ((j, w) ∷ m) =
    let rest = set_entry same k v m in if same j k then (j, v) ∷ m else (j, w) ∷ rest

pub record MemoryDataStore : Type 0 where
  pub blocks : List (Hash × DbBlock)
  pub txs : List (Hash × DbTx)
  pub tx_mempool : List (Hash × DbMempoolTx)
  pub stx_token_events : List (EventKey × Row DbStxEvent)
  pub fungible_token_events : List (EventKey × Row DbFtEvent)
  pub non_fungible_token_events : List (EventKey × Row DbNftEvent)
  pub smart_contract_events : List (EventKey × Row DbSmartContractEvent)
  pub smart_contracts : List (Text × Row DbSmartContract)
  pub faucet_requests : List DbFaucetRequest

abbrev pub empty_store : MemoryDataStore
empty_store = record {
  blocks = [];
  txs = [];
  tx_mempool = [];
  stx_token_events = [];
  fungible_token_events = [];
  non_fungible_token_events = [];
  smart_contract_events = [];
  smart_contracts = [];
  faucet_requests = [];
}

-- `updateCanonicalStatus` on one map, from the height and the flag of its entries.
unfoldable pub orphan_from : {K V : Type 0} → (V → ℕ) → (V → V) → ℕ → List (K × V) → List (K × V)
orphan_from height orphaned canonical_height =
    map λ e. if leb canonical_height (height e.1) then (e.0, orphaned e.1) else e

-- The same on a map of rows.
abbrev orphan_rows : {K E : Type 0} → (E → ℕ) → (E → E) → ℕ → List (K × Row E) → List (K × Row E)
orphan_rows height orphaned =
    orphan_from (λ row. height row.entry) (λ row. record row { entry = orphaned row.entry })

abbrev pub orphaned_block : DbBlock → DbBlock
orphaned_block b = record b { canonical = false }

unfoldable pub update_canonical_status : ℕ → MemoryDataStore → MemoryDataStore
update_canonical_status height m = record m {
  blocks = orphan_from (λ b. b.block_height) orphaned_block height m.blocks;
  txs = orphan_from (λ t. t.block_height) (λ t. record t { canonical = false }) height m.txs;
  stx_token_events =
      orphan_rows (λ (e : DbStxEvent). e.block_height) (λ e. record e { canonical = false }) height
        m.stx_token_events;
  fungible_token_events =
      orphan_rows (λ (e : DbFtEvent). e.block_height) (λ e. record e { canonical = false }) height
        m.fungible_token_events;
  non_fungible_token_events =
      orphan_rows (λ (e : DbNftEvent). e.block_height) (λ e. record e { canonical = false }) height
        m.non_fungible_token_events;
  smart_contract_events =
      orphan_rows (λ (e : DbSmartContractEvent). e.block_height)
        (λ e. record e { canonical = false }) height m.smart_contract_events;
  smart_contracts =
      orphan_rows (λ (e : DbSmartContract). e.block_height) (λ e. record e { canonical = false })
        height m.smart_contracts;
}

-- A canonical block of the same height and another hash.
unfoldable pub competes : DbBlock → DbBlock → Bool
competes block b =
    b.block_height == block.block_height && (not (b.block_hash == block.block_hash) && b.canonical)

unfoldable pub reorg_detected : DbBlock → List (Hash × DbBlock) → Bool
reorg_detected block [] = false
reorg_detected block (e ∷ es) = let rest = reorg_detected block es in competes block e.1 || rest

unfoldable pub update_block : DbBlock → MemoryDataStore → MemoryDataStore
update_block block m =
    let m' =
      if reorg_detected block m.blocks then update_canonical_status block.block_height m else m in
    record m' { blocks = set_entry same_hash block.block_hash block m'.blocks }

unfoldable pub update_tx : DbTx → MemoryDataStore → MemoryDataStore
update_tx tx m = record m { txs = set_entry same_hash tx.tx_id tx m.txs }

unfoldable pub update_stx_event : DbTx → DbStxEvent → MemoryDataStore → MemoryDataStore
update_stx_event tx event m = record m {
  stx_token_events =
      set_entry same_key
        (record {
          tx_id = event.tx_id;
          index_block_hash = tx.index_block_hash;
          event_index = event.event_index;
        })
        (record { index_block_hash = tx.index_block_hash; entry = event }) m.stx_token_events;
}

unfoldable pub update_ft_event : DbTx → DbFtEvent → MemoryDataStore → MemoryDataStore
update_ft_event tx event m = record m {
  fungible_token_events =
      set_entry same_key
        (record {
          tx_id = event.tx_id;
          index_block_hash = tx.index_block_hash;
          event_index = event.event_index;
        })
        (record { index_block_hash = tx.index_block_hash; entry = event }) m.fungible_token_events;
}

unfoldable pub update_nft_event : DbTx → DbNftEvent → MemoryDataStore → MemoryDataStore
update_nft_event tx event m = record m {
  non_fungible_token_events =
      set_entry same_key
        (record {
          tx_id = event.tx_id;
          index_block_hash = tx.index_block_hash;
          event_index = event.event_index;
        })
        (record { index_block_hash = tx.index_block_hash; entry = event })
        m.non_fungible_token_events;
}

unfoldable pub update_smart_contract_event :
    DbTx → DbSmartContractEvent → MemoryDataStore → MemoryDataStore
update_smart_contract_event tx event m = record m {
  smart_contract_events =
      set_entry same_key
        (record {
          tx_id = event.tx_id;
          index_block_hash = tx.index_block_hash;
          event_index = event.event_index;
        })
        (record { index_block_hash = tx.index_block_hash; entry = event }) m.smart_contract_events;
}

unfoldable pub update_smart_contract : DbTx → DbSmartContract → MemoryDataStore → MemoryDataStore
update_smart_contract tx contract m = record m {
  smart_contracts =
      set_entry same_text contract.contract_id
        (record { index_block_hash = tx.index_block_hash; entry = contract }) m.smart_contracts;
}

-- `for (const x of xs) { … }`
unfoldable pub for_each {ℓ} :
    {A : Type ℓ}
    → (A → MemoryDataStore → MemoryDataStore)
    → List A
    → MemoryDataStore
    → MemoryDataStore
for_each f [] m = m
for_each f (x ∷ xs) m = for_each f xs (f x m)

unfoldable pub update_entry : TxUpdate → MemoryDataStore → MemoryDataStore
update_entry entry m = for_each (update_smart_contract entry.tx) entry.smart_contracts (
    for_each (update_smart_contract_event entry.tx) entry.contract_log_events (
      for_each (update_nft_event entry.tx) entry.nft_events (
        for_each (update_ft_event entry.tx) entry.ft_events
          (for_each (update_stx_event entry.tx) entry.stx_events (update_tx entry.tx m)))))

-- What a call emits, with the store after it.
unfoldable pub update : DataStoreUpdateData → MemoryDataStore → List StoreEvent × MemoryDataStore
update data' m = (
  block_update data'.block ∷ map (λ (entry : TxUpdate). tx_update entry.tx) data'.txs,
  for_each update_entry data'.txs (update_block data'.block m),
)

unfoldable pub update_mempool_tx : DbMempoolTx → MemoryDataStore → List StoreEvent × MemoryDataStore
update_mempool_tx tx m = (
  mempool_tx_update tx ∷ [],
  record m { tx_mempool = set_entry same_hash tx.tx_id tx m.tx_mempool },
)

unfoldable pub insert_faucet_request : DbFaucetRequest → MemoryDataStore → MemoryDataStore
insert_faucet_request request m = record m { faucet_requests = m.faucet_requests ++ (request ∷ []) }

-- What happens to a store.
pub data StoreCall : Type 0 where
  call_update : DataStoreUpdateData → StoreCall
  call_update_mempool_tx : DbMempoolTx → StoreCall
  call_insert_faucet_request : DbFaucetRequest → StoreCall

unfoldable pub on_call : StoreCall → MemoryDataStore → MemoryDataStore
on_call (call_update data') m = (update data' m).1
on_call (call_update_mempool_tx tx) m = (update_mempool_tx tx m).1
on_call (call_insert_faucet_request request) m = insert_faucet_request request m

unfoldable pub on_calls : List StoreCall → MemoryDataStore → MemoryDataStore
on_calls [] m = m
on_calls (c ∷ cs) m = on_calls cs (on_call c m)
