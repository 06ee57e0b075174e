-- ===== src/Postgres/Queries/Lists.antt =====
-- PgDataStore: `getBlock`, `getBlocks`, `getTx`, `getTxList`, `getMempoolTx`, `getMempoolTxList`,
-- `getSmartContract`, `getSmartContractEvents` and `getAddressTxs`. A result `{ found, result }` is an
-- option, one with `results` and `total` the record `Listed`.
use stacks_blockchain_rosett.Base.{
  ℕ, Bool, true, false, ◌&&◌, ◌||◌, List, [], ◌∷◌, map, Option, none, some, Result, ok, err,
  and_then, ◌==◌, same_text, length, order_by, page,
}
use stacks_blockchain_rosett.Wire.Reader.{Error, plain_error}
use stacks_blockchain_rosett.Wire.Tx.{Text}
use stacks_blockchain_rosett.Datastore.Common.{
  Hash, DbBlock, DbTxTypeId, DbTx, DbMempoolTx, DbSmartContract, DbSmartContractEvent,
}
use stacks_blockchain_rosett.Postgres.Tables.{
  select, Rows, no_row, one_row, many_rows, rows, Row, Db,
}
use stacks_blockchain_rosett.Postgres.Queries.Rows.{
  parse_tx_query_result, parse_mempool_tx_query_result, parse_rows,
}

pub record Listed (A : Type 0) : Type 0 where
  pub results : List A
  pub total : ℕ

abbrev pub bit : Bool → ℕ
bit true = 1
bit false = 0

-- `LIMIT 1`, and the test of `rowCount`.
abbrev pub first : {A : Type 0} → List A → Option A
first [] = none
first (x ∷ xs) = some x

abbrev pub parse_first : {A : Type 0} → (A → Result Error A) → Option A → Result Error (Option A)
parse_first parse none = ok none
parse_first parse (some row) = and_then (parse row) (λ a. ok (some a))

-- The rows of a table without their index hashes.
abbrev pub entries : {E : Type 0} → List (Row E) → List E
entries = map (λ row. row.entry)

-- `ORDER BY canonical DESC, block_height DESC`
abbrev pub block_order : DbBlock → List ℕ
block_order b = bit b.canonical ∷ b.block_height ∷ []

unfoldable pub get_block : Db → Hash → Option DbBlock
get_block db hash = first (order_by block_order (select (λ b. b.block_hash == hash) db.blocks))

unfoldable pub get_blocks : Db → (limit offset : ℕ) → Listed DbBlock
get_blocks db limit offset =
    let canonical = select (λ (b : DbBlock). b.canonical) db.blocks in
    record {
      results = page limit offset (order_by (λ (b : DbBlock). b.block_height ∷ []) canonical);
      total = length canonical;
    }

abbrev pub tx_order : DbTx → List ℕ
tx_order t = bit t.canonical ∷ t.block_height ∷ []

unfoldable pub get_tx : Db → Hash → Result Error (Option DbTx)
get_tx db tx_id =
    parse_first parse_tx_query_result
      (first (order_by tx_order (select (λ (t : DbTx). t.tx_id == tx_id) (entries db.txs))))

-- `type_id = ANY($1)`
unfoldable pub same_type : DbTxTypeId → DbTxTypeId → Bool
same_type DbTxTypeId.token_transfer DbTxTypeId.token_transfer = true
same_type DbTxTypeId.smart_contract DbTxTypeId.smart_contract = true
same_type DbTxTypeId.contract_call DbTxTypeId.contract_call = true
same_type DbTxTypeId.poison_microblock DbTxTypeId.poison_microblock = true
same_type DbTxTypeId.coinbase DbTxTypeId.coinbase = true
same_type _ _ = false

unfoldable pub any_type : DbTxTypeId → List DbTxTypeId → Bool
any_type t [] = false
any_type t (u ∷ us) = same_type t u || any_type t us

-- The WHERE clause: without a filter the two queries test the flag only.
unfoldable pub listed_tx : List DbTxTypeId → DbTx → Bool
listed_tx [] t = t.canonical
listed_tx (u ∷ us) t = t.canonical && any_type t.type_id (u ∷ us)

-- `ORDER BY block_height DESC, tx_index DESC`
abbrev pub newest_tx : DbTx → List ℕ
newest_tx t = t.block_height ∷ t.tx_index ∷ []

unfoldable pub get_tx_list : Db → (limit offset : ℕ) → List DbTxTypeId → Result Error (Listed DbTx)
get_tx_list db limit offset type_ids =
    let found = select (listed_tx type_ids) (entries db.txs) in
    and_then (parse_rows parse_tx_query_result (page limit offset (order_by newest_tx found)))
      (λ parsed. ok (record { results = parsed; total = length found }))

unfoldable pub mempool_row : Hash → Rows DbMempoolTx → Result Error (Option DbMempoolTx)
mempool_row tx_id no_row = ok none
mempool_row tx_id many_rows =
    err (plain_error "Multiple transactions found in mempool table for txid: " tx_id)
mempool_row tx_id (one_row row) = and_then (parse_mempool_tx_query_result row) (λ t. ok (some t))

unfoldable pub get_mempool_tx : Db → Hash → Result Error (Option DbMempoolTx)
get_mempool_tx db tx_id =
    mempool_row tx_id (rows (select (λ (t : DbMempoolTx). t.tx_id == tx_id) db.mempool_txs))

unfoldable pub get_mempool_tx_list : Db → (limit offset : ℕ) → Result Error (Listed DbMempoolTx)
get_mempool_tx_list db limit offset =
    and_then
      (parse_rows parse_mempool_tx_query_result
        (page limit offset (order_by (λ (t : DbMempoolTx). t.receipt_time ∷ []) db.mempool_txs)))
      (λ parsed. ok (record { results = parsed; total = length db.mempool_txs }))

unfoldable pub get_smart_contract : Db → Text → Option DbSmartContract
get_smart_contract db contract_id = first (
    order_by (λ (c : DbSmartContract). bit c.canonical ∷ c.block_height ∷ [])
      (select (λ (c : DbSmartContract). same_text c.contract_id contract_id)
        (entries db.smart_contracts)))

-- The query leaves the flag out; `canonical: true` is written into each event.
unfoldable pub get_smart_contract_events :
    Db → Text → (limit offset : ℕ) → List DbSmartContractEvent
get_smart_contract_events db contract_id limit offset =
    map (λ (e : DbSmartContractEvent). record e { canonical = true })
      (page limit offset (
        order_by (λ (e : DbSmartContractEvent). e.block_height ∷ e.tx_index ∷ e.event_index ∷ [])
          (select
            (λ (e : DbSmartContractEvent).
              e.canonical && same_text e.contract_identifier contract_id)
            (entries db.contract_logs))))

-- `column = $1`, which no null meets.
unfoldable pub column_is : Text → Option Text → Bool
column_is text none = false
column_is text (some t) = same_text t text

unfoldable pub involves : Text → DbTx → Bool
involves address t =
    same_text t.sender_address address
    || (column_is address t.payload.token_transfer_recipient_address
        || (column_is address t.payload.contract_call_contract_id
            || column_is address t.payload.smart_contract_contract_id))

-- `COUNT(*) OVER()` is a column of the rows that are returned: with no row there is no count, and the
-- source takes 0.
unfoldable pub count_of_rows : {A : Type 0} → List A → ℕ → ℕ
count_of_rows [] n = 0
count_of_rows (x ∷ xs) n = n

unfoldable pub get_address_txs : Db → Text → (limit offset : ℕ) → Result Error (Listed DbTx)
get_address_txs db address limit offset =
    let found = select (λ (t : DbTx). t.canonical && involves address t) (entries db.txs) in
    let returned = page limit offset (order_by newest_tx found) in
    and_then (parse_rows parse_tx_query_result returned)
      (λ parsed. ok (record { results = parsed; total = count_of_rows returned (length found) }))
