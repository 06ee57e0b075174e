-- ===== src/Postgres/Queries/Rows.antt =====
-- PgDataStore: what a row of `txs` or of `mempool_txs` is read as, `parseTxQueryResult` and
-- `parseMempoolTxQueryResult`. A null column is `none`.
use stacks_blockchain_rosett.Base.{List, [], ◌∷◌, Option, none, some, Result, ok, err, and_then}
use stacks_blockchain_rosett.Wire.Signed.{ℤ}
use stacks_blockchain_rosett.Wire.Reader.{Error, library_error}
use stacks_blockchain_rosett.Wire.Tx.{Text}
use stacks_blockchain_rosett.Datastore.Common.{DbTxTypeId, DbTxPayload, DbTx, DbMempoolTx}

-- `if (result.sponsor_address)`: a null or empty column is left undefined.
unfoldable pub unless_empty : Option Text → Option Text
unless_empty none = none
unless_empty (some []) = none
unless_empty (some (c ∷ cs)) = some (c ∷ cs)

-- `result.raw_result ? … : ''`
unfoldable pub or_empty : Option Text → Option Text
or_empty none = some []
or_empty (some text) = some text

-- `BigInt(column)`, which throws at null.
unfoldable pub big_int_column : Option ℤ → Result Error (Option ℤ)
big_int_column none = err (library_error "Cannot convert null to a BigInt")
big_int_column (some n) = ok (some n)

abbrev pub no_columns : DbTxPayload
no_columns = record {
  token_transfer_recipient_address = none;
  token_transfer_amount = none;
  token_transfer_memo = none;
  contract_call_contract_id = none;
  contract_call_function_name = none;
  contract_call_function_args = none;
  smart_contract_contract_id = none;
  smart_contract_source_code = none;
  poison_microblock_header_1 = none;
  poison_microblock_header_2 = none;
  coinbase_payload = none;
}

-- The columns that the type of the transaction asks for; the others are left undefined.
unfoldable pub parse_payload_columns : DbTxTypeId → DbTxPayload → Result Error DbTxPayload
parse_payload_columns DbTxTypeId.token_transfer p =
    and_then (big_int_column p.token_transfer_amount) (λ amount. ok (record no_columns {
      token_transfer_recipient_address = p.token_transfer_recipient_address;
      token_transfer_amount = amount;
      token_transfer_memo = p.token_transfer_memo;
    }))
parse_payload_columns DbTxTypeId.smart_contract p = ok (record no_columns {
  smart_contract_contract_id = p.smart_contract_contract_id;
  smart_contract_source_code = p.smart_contract_source_code;
})
parse_payload_columns DbTxTypeId.contract_call p = ok (record no_columns {
  contract_call_contract_id = p.contract_call_contract_id;
  contract_call_function_name = p.contract_call_function_name;
  contract_call_function_args = p.contract_call_function_args;
})
parse_payload_columns DbTxTypeId.poison_microblock p = ok (record no_columns {
  poison_microblock_header_1 = p.poison_microblock_header_1;
  poison_microblock_header_2 = p.poison_microblock_header_2;
})
parse_payload_columns DbTxTypeId.coinbase p =
    ok (record no_columns { coinbase_payload = p.coinbase_payload })

unfoldable pub parse_tx_query_result : DbTx → Result Error DbTx
parse_tx_query_result row = and_then (parse_payload_columns row.type_id row.payload) (λ payload.
    ok (record row {
      raw_result = or_empty row.raw_result;
      sponsor_address = unless_empty row.sponsor_address;
      payload = payload;
    }))

unfoldable pub parse_mempool_tx_query_result : DbMempoolTx → Result Error DbMempoolTx
parse_mempool_tx_query_result row =
    and_then (parse_payload_columns row.type_id row.payload) (λ payload.
      ok (record row { sponsor_address = unless_empty row.sponsor_address; payload = payload }))

-- `rows.map(r => this.parse…(r))`
unfoldable pub parse_rows : {A : Type 0} → (A → Result Error A) → List A → Result Error (List A)
parse_rows parse [] = ok []
parse_rows parse (row ∷ rows) =
    and_then (parse row) (λ a. and_then (parse_rows parse rows) (λ as'. ok (a ∷ as')))
