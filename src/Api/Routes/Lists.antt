-- ===== src/Api/Routes/Lists.antt =====
-- src/api/routes/block.ts, tx.ts and contract.ts, as they run in production, where the replies are not
-- checked against their schemas, and info.ts. The stream of transactions is left out.
use stacks_blockchain_rosett.Base.{
  map_or_throw, ℕ, ◌*◌, not, String, List, [], ◌∷◌, ◌++◌, Option, none, some, Result, ok, err,
  length, ◌==◌, if◌then◌else◌, same_text, units,
}
use stacks_blockchain_rosett.Wire.Reader.{Error, message_error, Library}
use stacks_blockchain_rosett.Wire.Tx.{Text}
use stacks_blockchain_rosett.Wire.Reads.{be_value}
use stacks_blockchain_rosett.Datastore.Common.{
  Hash, DbBlock, DbTx, DbSmartContract, DbSmartContractEvent,
}
use stacks_blockchain_rosett.Postgres.Tables.{Db}
use stacks_blockchain_rosett.Postgres.Queries.Lists.{
  get_blocks, get_tx_list, get_mempool_tx_list, get_smart_contract, get_smart_contract_events,
}
use stacks_blockchain_rosett.Postgres.Queries.Events.{smart_contract_log}
use stacks_blockchain_rosett.Events.Hex.{hex_to_buffer}
use stacks_blockchain_rosett.Api.Services.{ApiServices, ◌>>=◌}
use stacks_blockchain_rosett.Api.Labels.{parse_tx_type_strings, get_tx_type_id}
use stacks_blockchain_rosett.Api.Events.{
  TransactionEvent, parse_db_event, BlockView, get_block_from_data_store,
}
use stacks_blockchain_rosett.Api.Payloads.{TransactionView, parse_db_mempool_tx}
use stacks_blockchain_rosett.Api.Transactions.{get_tx_from_data_store}
use stacks_blockchain_rosett.Api.Terms.{
  QueryValue, query_number, has_0x_prefix, parse_paging_query_input, parse_limit_query,
  bigint_parameter,
}

-- `res.json(…)`, `res.status(…).json({ error: … })` with what the message names, `res.redirect(…)`.
pub data HttpReply (A : Type 0) : Type 0 where
  json : A → HttpReply A
  refused : (status : ℕ) (error_msg : String) (named : Text) → HttpReply A
  redirect : Text → HttpReply A

-- A page: `{ limit, offset, total, results }`.
pub record PageReply (A : Type 0) : Type 0 where
  pub limit : ℕ
  pub offset : ℕ
  pub total : ℕ
  pub results : List A

-- `req.query.limit ?? 20`
abbrev pub or_number : Option QueryValue → ℕ → QueryValue
or_number none n = query_number n
or_number (some v) n = v

-- The hash that a path names. A buffer of another length than 32 is the hash of no row.
unfoldable pub hash_of_text : Text → Result Error (Option Hash)
hash_of_text text = hex_to_buffer text >>= λ bytes.
    ok (if length bytes == 32 then some (be_value 0 bytes) else none)

-- `if (!query.found) { throw new Error(…) }`
unfoldable pub found_or_throw {ℓ} : {A : Type ℓ} → String → Option A → Result Error A
found_or_throw message none = err (message_error message)
found_or_throw message (some a) = ok a

unfoldable pub found_or_404 : {A : Type 0} → String → Text → Option A → HttpReply A
found_or_404 message named none = refused 404 message named
found_or_404 message named (some a) = json a

module _ (engine_sort : List DbTx → List DbTx) where
  unfoldable pub listed_block : Db → DbBlock → Result Error BlockView
  listed_block db block =
      found_or_throw "unexpected block not found -- fix block enumeration query"
        (get_block_from_data_store engine_sort block.block_hash db)

  -- `router.getAsync('/', …)` of block.ts
  unfoldable pub list_blocks :
      Db → (limit offset : Option QueryValue) → Result Error (PageReply BlockView)
  list_blocks db limit offset = do
    n ← parse_limit_query 30 "`limit` must be equal to or less than 30" (or_number limit 20)
    placed ← parse_paging_query_input (or_number offset 0)
    m ← bigint_parameter placed
    views ← map_or_throw (listed_block db) (get_blocks db n m).results
    ok (record { limit = n; offset = m; total = (get_blocks db n m).total; results = views })

  unfoldable pub block_of : Db → Option Hash → Option BlockView
  block_of db none = none
  block_of db (some h) = get_block_from_data_store engine_sort h db

  -- `router.getAsync('/:block_hash', …)`
  unfoldable pub block_route : Db → Text → Result Error (HttpReply BlockView)
  block_route db block_hash =
      if not (has_0x_prefix block_hash)
      then ok (redirect (units "/extended/v1/block/0x" ++ block_hash))
      else hash_of_text block_hash >>= λ h.
          ok (found_or_404 "cannot find block by hash " block_hash (block_of db h))

-- `req.query.type`
pub data TypeQuery : Type 0 where
  no_type : TypeQuery
  one_type : Text → TypeQuery
  many_types : List Text → TypeQuery
  other_type : TypeQuery

unfoldable pub tx_type_filter : TypeQuery → Result Error (List Text)
tx_type_filter no_type = ok []
tx_type_filter (one_type t) = parse_tx_type_strings (t ∷ [])
tx_type_filter (many_types ts) = parse_tx_type_strings ts
tx_type_filter other_type = err (message_error "Unexpected tx type query value: ")

module _ (lib : Library) (api : ApiServices lib.ClarityValue) where
  -- The view of a transaction that a query has listed.
  unfoldable pub listed_tx_view : Db → DbTx → Result Error TransactionView
  listed_tx_view db tx = get_tx_from_data_store lib api db tx.tx_id >>= λ found.
      found_or_throw "unexpected tx not found -- fix tx enumeration query" found

  -- `router.getAsync('/', …)` of tx.ts; `getTxList` turns the strings of the filter into ids.
  unfoldable pub list_txs :
      Db → (limit offset : Option QueryValue) → TypeQuery → Result Error (PageReply TransactionView)
  list_txs db limit offset type = do
    n ← parse_limit_query 200 "`limit` must be equal to or less than 200" (or_number limit 96)
    placed ← parse_paging_query_input (or_number offset 0)
    strings ← tx_type_filter type
    type_ids ← map_or_throw get_tx_type_id strings
    m ← bigint_parameter placed
    listed ← get_tx_list db n m type_ids
    views ← map_or_throw (listed_tx_view db) listed.results
    ok (record { limit = n; offset = m; total = listed.total; results = views })

  -- `router.getAsync('/mempool', …)`
  unfoldable pub list_mempool_txs :
      Db → (limit offset : Option QueryValue) → Result Error (PageReply TransactionView)
  list_mempool_txs db limit offset = do
    n ← parse_limit_query 200 "`limit` must be equal to or less than 200" (or_number limit 96)
    placed ← parse_paging_query_input (or_number offset 0)
    m ← bigint_parameter placed
    listed ← get_mempool_tx_list db n m
    views ← map_or_throw (parse_db_mempool_tx lib api) listed.results
    ok (record { limit = n; offset = m; total = listed.total; results = views })

  unfoldable pub tx_of : Db → Option Hash → Result Error (Option TransactionView)
  tx_of db none = ok none
  tx_of db (some h) = get_tx_from_data_store lib api db h

  -- `router.getAsync('/:tx_id', …)`
  unfoldable pub tx_route : Db → Text → Result Error (HttpReply TransactionView)
  tx_route db tx_id =
      if not (has_0x_prefix tx_id)
      then ok (redirect (units "/extended/v1/tx/0x" ++ tx_id))
      else hash_of_text tx_id >>= λ h.
          tx_of db h >>= λ found. ok (found_or_404 "could not find transaction by ID " tx_id found)

  -- `router.getAsync('/:contract_id/events', …)`: the query always has a result, with no event too.
  unfoldable pub contract_events_route :
      Db → Text → (limit offset : Option QueryValue) → Result Error (ℕ × ℕ × List TransactionEvent)
  contract_events_route db contract_id limit offset = do
    n ← parse_limit_query 50 "`limit` must be equal to or less than 50" (or_number limit 20)
    placed ← parse_paging_query_input (or_number offset 0)
    m ← bigint_parameter placed
    views ←
        map_or_throw (λ (e : DbSmartContractEvent). parse_db_event lib api (smart_contract_log e))
          (get_smart_contract_events db contract_id n m)
    ok (n, m, views)

-- `router.getAsync('/:contract_id', …)`
unfoldable pub contract_route : Db → Text → HttpReply DbSmartContract
contract_route db contract_id =
    found_or_404 "cannot find contract by ID " contract_id (get_smart_contract db contract_id)

-- `TargetBlockTime`, in seconds.
abbrev testnet_block_time : ℕ
testnet_block_time = 2 * 60

abbrev mainnet_block_time : ℕ
mainnet_block_time = 10 * 60

pub record NetworkBlockTimes : Type 0 where
  pub testnet : ℕ
  pub mainnet : ℕ

unfoldable pub network_block_times : NetworkBlockTimes
network_block_times = record { testnet = testnet_block_time; mainnet = mainnet_block_time }

unfoldable pub network_block_time : Text → HttpReply ℕ
network_block_time network =
    if same_text network (units "testnet")
    then json testnet_block_time
    else if same_text network (units "mainnet")
    then json mainnet_block_time
    else refused 400 "`network` param must be `testnet` or `mainnet`" []
