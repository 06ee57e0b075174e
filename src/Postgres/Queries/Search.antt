-- ===== src/Postgres/Queries/Search.antt =====
-- PgDataStore: `searchHash` and `searchPrincipal`.
use stacks_blockchain_rosett.Base.{
  Bool, true, false, ◌||◌, List, [], ◌∷◌, Option, none, some, Result, ok, and_then, ◌==◌,
  if◌then◌else◌, same_text, order_by,
}
use stacks_blockchain_rosett.Wire.Reader.{Error}
use stacks_blockchain_rosett.Wire.Tx.{Text}
use stacks_blockchain_rosett.Datastore.Common.{
  Hash, DbBlock, DbTx, DbMempoolTx, DbStxEvent, DbFtEvent, DbNftEvent,
}
use stacks_blockchain_rosett.Postgres.Tables.{select, Db}
use stacks_blockchain_rosett.Postgres.Queries.Rows.{
  parse_tx_query_result, parse_mempool_tx_query_result,
}
use stacks_blockchain_rosett.Postgres.Queries.Lists.{first, entries, tx_order, column_is}
use stacks_blockchain_rosett.Postgres.Queries.Events.{touches}

-- `DbSearchResult` with the data it carries. A hash names itself as `entity_id`, a principal too; a
-- contract's mined transaction has the entity type `tx_id` in the source.
pub data DbSearchResult : Type 0 where
  tx_id_result : Hash → DbTx → DbSearchResult
  mempool_tx_id_result : Hash → DbMempoolTx → DbSearchResult
  block_hash_result : Hash → DbBlock → DbSearchResult
  contract_mempool_result : Text → DbMempoolTx → DbSearchResult
  contract_tx_result : Text → DbTx → DbSearchResult
  standard_address_result : Text → DbSearchResult

abbrev pub or_block : Option DbBlock → Option DbSearchResult
or_block none = none
or_block (some b) = some (block_hash_result b.block_hash b)

abbrev pub or_mempool :
    Option DbMempoolTx → Option DbSearchResult → Result Error (Option DbSearchResult)
or_mempool none rest = ok rest
or_mempool (some row) rest =
    and_then (parse_mempool_tx_query_result row) (λ t. ok (some (mempool_tx_id_result row.tx_id t)))

abbrev pub or_tx :
    Option DbTx → Result Error (Option DbSearchResult) → Result Error (Option DbSearchResult)
or_tx none rest = rest
or_tx (some row) rest =
    and_then (parse_tx_query_result row) (λ t. ok (some (tx_id_result row.tx_id t)))

-- The mined transactions first, then the mempool, then the blocks, without an order among the rows.
unfoldable pub search_hash : Db → Hash → Result Error (Option DbSearchResult)
search_hash db hash = or_tx (first (select (λ (t : DbTx). t.tx_id == hash) (entries db.txs))) (
    or_mempool (first (select (λ (t : DbMempoolTx). t.tx_id == hash) db.mempool_txs))
      (or_block (first (select (λ (b : DbBlock). b.block_hash == hash) db.blocks))))

-- `principal.includes('.')`
unfoldable pub has_dot : Text → Bool
has_dot [] = false
has_dot (c ∷ cs) = let rest = has_dot cs in if c == 46 then true else rest

unfoldable pub contract_tx : Text → Option DbTx → Result Error (Option DbSearchResult)
contract_tx principal none = ok none
contract_tx principal (some row) =
    and_then (parse_tx_query_result row) (λ t. ok (some (contract_tx_result principal t)))

unfoldable pub contract_result :
    Text → Option DbMempoolTx → Option DbTx → Result Error (Option DbSearchResult)
contract_result principal (some row) mined =
    and_then (parse_mempool_tx_query_result row)
      (λ t. ok (some (contract_mempool_result principal t)))
contract_result principal none mined = contract_tx principal mined

abbrev pub is_found : {A : Type 0} → List A → Bool
is_found [] = false
is_found (x ∷ xs) = true

-- Whether one of the four queries on an address finds a row, canonical or not.
unfoldable pub has_activity : Db → Text → Bool
has_activity db address =
    is_found (
      select
        (λ (t : DbTx).
          same_text t.sender_address address
          || column_is address t.payload.token_transfer_recipient_address)
        (entries db.txs))
    || (is_found (
          select (λ (e : DbStxEvent). touches address e.sender e.recipient) (entries db.stx_events))
        || (is_found (
              select (λ (e : DbFtEvent). touches address e.sender e.recipient)
                (entries db.ft_events))
            || is_found (
                select (λ (e : DbNftEvent). touches address e.sender e.recipient)
                  (entries db.nft_events))))

unfoldable pub search_principal : Db → Text → Result Error (Option DbSearchResult)
search_principal db principal =
    if has_dot principal
    then contract_result principal
        (first (
          select (λ (t : DbMempoolTx). column_is principal t.payload.smart_contract_contract_id)
            db.mempool_txs))
        (first (
          order_by tx_order (
            select (λ (t : DbTx). column_is principal t.payload.smart_contract_contract_id)
              (entries db.txs))))
    else ok (if has_activity db principal then some (standard_address_result principal) else none)
