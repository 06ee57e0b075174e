-- ===== src/Postgres/Update.antt =====
-- PgDataStore: `update` with the inserts that it makes, `updateMempoolTx`, and the events emitted.
use stacks_blockchain_rosett.Base.{
  ℕ, ◌+◌, Bool, same_text, true, false, not, ◌&&◌, List, [], ◌∷◌, ◌++◌, map, Option, none, some,
  Result, ok, err, and_then, ◌==◌, ltb, if◌then◌else◌,
}
use stacks_blockchain_rosett.Wire.Tx.{Text}
use stacks_blockchain_rosett.Datastore.Common.{
  Hash, DbBlock, DbTx, DbTxTypeId, DbMempoolTx, DbSmartContract, DbSmartContractEvent, DbStxEvent,
  DbFtEvent, DbNftEvent, TxUpdate, DataStoreUpdateData,
}
use stacks_blockchain_rosett.Postgres.Tables.{select, Row, Db}
use stacks_blockchain_rosett.Postgres.Reorg.{
  PgError, get_chain_tip_height, prune_mempool_txs, handle_reorg,
}
use stacks_blockchain_rosett.Postgres.Refusals.{accept_parent_height, accept_data}

-- What the store emits, the payload of `txUpdate` for a mined and for a mempool transaction.
pub data StoreEvent : Type 0 where
  block_update : DbBlock → StoreEvent
  tx_update : DbTx → StoreEvent
  mempool_tx_update : DbMempoolTx → StoreEvent
  address_update : Text → List DbTx → StoreEvent

-- `ON CONFLICT … DO NOTHING`, from the rows in conflict.
abbrev pub unless_found {ℓ} : {A : Type 0} {B : Type ℓ} → List A → B → B → B
unless_found [] inserted unchanged = inserted
unless_found (x ∷ xs) inserted unchanged = unchanged

-- The inserts. `update_rows` makes them once Postgres/Refusals has let their rows through: `hexToBuffer`
-- and the tables refuse a row before the conflict is looked for.

-- `ON CONFLICT (index_block_hash) DO NOTHING`: the table, and `rowCount`.
unfoldable pub update_block : List DbBlock → DbBlock → List DbBlock × ℕ
update_block blocks block =
    unless_found (select (λ b. b.index_block_hash == block.index_block_hash) blocks)
      (block ∷ blocks, 1) (blocks, 0)

-- `ON CONFLICT ON CONSTRAINT unique_tx_id_index_block_hash DO NOTHING`, for a row that
-- `accept_raw_result` and `tx_fits` accept.
unfoldable pub update_tx : Db → DbTx → Db
update_tx db tx =
    unless_found
      (select (λ row. row.entry.tx_id == tx.tx_id && row.index_block_hash == tx.index_block_hash)
        db.txs)
      (record db { txs = record { index_block_hash = tx.index_block_hash; entry = tx } ∷ db.txs })
      db

-- A row for each event, under the index hash of its transaction. The columns and the CHECK constraints
-- are those of `stx_event_fits` and its neighbours.
unfoldable pub insert_events : {E : Type 0} → DbTx → List E → List (Row E) → List (Row E)
insert_events tx [] table = table
insert_events tx (e ∷ es) table =
    insert_events tx es (record { index_block_hash = tx.index_block_hash; entry = e } ∷ table)

-- One round of the loop over `data.txs`.
unfoldable pub store_tx : Db → TxUpdate → Db
store_tx db entry =
    let db1 = update_tx db entry.tx in
    record db1 {
      stx_events = insert_events entry.tx entry.stx_events db1.stx_events;
      ft_events = insert_events entry.tx entry.ft_events db1.ft_events;
      nft_events = insert_events entry.tx entry.nft_events db1.nft_events;
      contract_logs = insert_events entry.tx entry.contract_log_events db1.contract_logs;
      smart_contracts = insert_events entry.tx entry.smart_contracts db1.smart_contracts;
    }

unfoldable pub store_txs : Db → List TxUpdate → Db
store_txs db [] = db
store_txs db (entry ∷ entries) = store_txs (store_tx db entry) entries

-- The copies with `canonical: false`.
unfoldable pub tx_non_canonical : TxUpdate → TxUpdate
tx_non_canonical t = record {
  tx = record (t.tx) { canonical = false };
  stx_events = map (λ (e : DbStxEvent). record e { canonical = false }) t.stx_events;
  ft_events = map (λ (e : DbFtEvent). record e { canonical = false }) t.ft_events;
  nft_events = map (λ (e : DbNftEvent). record e { canonical = false }) t.nft_events;
  contract_log_events =
      map (λ (e : DbSmartContractEvent). record e { canonical = false }) t.contract_log_events;
  smart_contracts = map (λ (e : DbSmartContract). record e { canonical = false }) t.smart_contracts;
}

unfoldable pub data_non_canonical : DataStoreUpdateData → DataStoreUpdateData
data_non_canonical data' = record {
  block = record (data'.block) { canonical = false };
  txs = map tx_non_canonical data'.txs;
}

unfoldable pub is_coinbase : DbTx → Bool
is_coinbase tx = elim (tx.type_id) [ DbTxTypeId.coinbase ↦ true | _ ↦ false ]

-- The ids of the mined transactions that the mempool may hold.
unfoldable pub candidate_tx_ids : List TxUpdate → List Hash
candidate_tx_ids txs = map (λ t. t.tx.tx_id) (select (λ (t : TxUpdate). not (is_coinbase t.tx)) txs)

-- The block, and if its row is new the rows of its transactions.
unfoldable pub store_data : Db → DataStoreUpdateData → Db
store_data db data' =
    let inserted = update_block db.blocks data'.block in
    let db1 = record db { blocks = inserted.0 } in
    let db2 = store_txs db1 data'.txs in if inserted.1 == 0 then db1 else db2

-- After `handleReorg`: what is stored, and the data as it was stored.
unfoldable pub store_incoming : Db → DataStoreUpdateData → ℕ → Db × DataStoreUpdateData
store_incoming db data' tip =
    if ltb tip data'.block.block_height
    then (store_data (prune_mempool_txs db (candidate_tx_ids data'.txs)).0 data', data')
    else (store_data db (data_non_canonical data'), data_non_canonical data')

unfoldable pub is_new : List DbBlock → DbBlock → Bool
is_new blocks block = not ((update_block blocks block).1 == 0)

-- The body of the transaction that `update` runs. The inserts of `store_incoming` come after all
-- the queries that can find the chain at fault, and store what `accept_data` lets through.
unfoldable pub update_rows : Db → DataStoreUpdateData → Result PgError (Db × DataStoreUpdateData)
update_rows db data' =
    let tip = get_chain_tip_height db.blocks in
    and_then (accept_parent_height data'.block) (λ u.
      and_then (handle_reorg db data'.block tip) (λ p.
        and_then (accept_data (is_new p.0.blocks data'.block) data')
          (λ v. ok (store_incoming p.0 data' tip))))

-- `addressTxUpdates`: each address with its set of transaction objects, in insertion order. An
-- object is known by the position of its entry in the update.
abbrev pub TxObject : Type 0
TxObject = ℕ × DbTx

abbrev pub AddressTxs : Type 0
AddressTxs = List (Text × List TxObject)

unfoldable pub add_to_set : TxObject → List TxObject → List TxObject
add_to_set tx [] = tx ∷ []
add_to_set tx (t ∷ ts) = let rest = add_to_set tx ts in if t.0 == tx.0 then t ∷ ts else t ∷ rest

unfoldable pub add_tx_at : Text → TxObject → AddressTxs → AddressTxs
add_tx_at addr tx [] = (addr, tx ∷ []) ∷ []
add_tx_at addr tx ((a, txs) ∷ m) =
    let rest = add_tx_at addr tx m in
    if same_text a addr then (a, add_to_set tx txs) ∷ m else (a, txs) ∷ rest

-- `addAddressTx`: an undefined or empty address is passed over.
unfoldable pub add_address_tx : TxObject → Option Text → AddressTxs → AddressTxs
add_address_tx tx none m = m
add_address_tx tx (some []) m = m
add_address_tx tx (some (c ∷ addr)) m = add_tx_at (c ∷ addr) tx m

unfoldable pub add_address_txs : TxObject → List (Option Text) → AddressTxs → AddressTxs
add_address_txs tx [] m = m
add_address_txs tx (a ∷ addrs) m = add_address_txs tx addrs (add_address_tx tx a m)

-- The addresses that take part in a transaction, in the order of the source.
unfoldable pub addresses_of_payload : DbTx → List (Option Text)
addresses_of_payload tx = elim (tx.type_id) [
  | DbTxTypeId.contract_call ↦ tx.payload.contract_call_contract_id ∷ []
  | DbTxTypeId.smart_contract ↦ tx.payload.smart_contract_contract_id ∷ []
  | DbTxTypeId.token_transfer ↦ tx.payload.token_transfer_recipient_address ∷ []
  | _ ↦ []
]

unfoldable pub parties :
    {E : Type 0} → (E → Option Text) → (E → Option Text) → List E → List (Option Text)
parties sender recipient [] = []
parties sender recipient (e ∷ es) = sender e ∷ recipient e ∷ parties sender recipient es

unfoldable pub addresses_of : TxUpdate → List (Option Text)
addresses_of entry =
    some entry.tx.sender_address
    ∷ (parties (λ (e : DbStxEvent). e.sender) (λ e. e.recipient) entry.stx_events
        ++ (parties (λ (e : DbFtEvent). e.sender) (λ e. e.recipient) entry.ft_events
            ++ (parties (λ (e : DbNftEvent). e.sender) (λ e. e.recipient) entry.nft_events
                ++ (map (λ (c : DbSmartContract). some c.contract_id) entry.smart_contracts
                    ++ addresses_of_payload entry.tx))))

unfoldable pub address_tx_updates : ℕ → List TxUpdate → AddressTxs → AddressTxs
address_tx_updates i [] m = m
address_tx_updates i (entry ∷ entries) m =
    address_tx_updates (i + 1) entries (add_address_txs (i, entry.tx) (addresses_of entry) m)

unfoldable pub emit_address_tx_updates : List TxUpdate → List StoreEvent
emit_address_tx_updates txs =
    map (λ p. address_update p.0 (map (λ t. t.1) p.1)) (address_tx_updates 0 txs [])

unfoldable pub emitted : DataStoreUpdateData → List StoreEvent
emitted data' =
    block_update data'.block
    ∷ (map (λ (t : TxUpdate). tx_update t.tx) data'.txs ++ emit_address_tx_updates data'.txs)

-- The state of the database with what a call emits and throws.
pub record Outcome : Type 0 where
  pub db : Db
  pub events : List StoreEvent
  pub thrown : Option PgError

-- COMMIT and the events, or ROLLBACK and the error.
unfoldable pub commit_or_rollback : Db → Result PgError (Db × DataStoreUpdateData) → Outcome
commit_or_rollback db (ok p) = record { db = p.0; events = emitted p.1; thrown = none }
commit_or_rollback db (err e) = record { db = db; events = []; thrown = some e }

unfoldable pub update : Db → DataStoreUpdateData → Outcome
update db data' = commit_or_rollback db (update_rows db data')

-- `updateMempoolTx`, `ON CONFLICT ON CONSTRAINT unique_tx_id DO NOTHING`
unfoldable pub update_mempool_tx : Db → DbMempoolTx → Outcome
update_mempool_tx db tx =
    unless_found (select (λ (t : DbMempoolTx). t.tx_id == tx.tx_id) db.mempool_txs)
      (record {
        db = record db { mempool_txs = tx ∷ db.mempool_txs };
        events = mempool_tx_update tx ∷ [];
        thrown = none;
      })
      (record { db = db; events = []; thrown = none })
