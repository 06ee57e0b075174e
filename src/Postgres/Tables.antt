-- ===== src/Postgres/Tables.antt =====
-- The tables that PgDataStore writes, and the SQL statements of the source on them. A table is the
-- list of its rows, a new row in front; the rows of the other tables of a block carry its index
-- hash. An UPDATE or SELECT goes through the rows in the list's order.
use stacks_blockchain_rosett.Base.{
  ℕ, Bool, true, false, not, ◌&&◌, List, [], ◌∷◌, map, ◌==◌, if◌then◌else◌, length,
}
use stacks_blockchain_rosett.Datastore.Common.{
  Hash, DbBlock, DbTx, DbMempoolTx, DbSmartContract, DbSmartContractEvent, DbStxEvent, DbFtEvent,
  DbNftEvent,
}

-- The rows for which a WHERE clause holds.
unfoldable pub select : {A : Type 0} → (A → Bool) → List A → List A
select p [] = []
select p (x ∷ xs) = let rest = select p xs in if p x then x ∷ rest else rest

-- `rowCount` as the source tests it.
pub data Rows (A : Type 0) : Type 0 where
  no_row : Rows A
  one_row : A → Rows A
  many_rows : Rows A

abbrev pub rows : {A : Type 0} → List A → Rows A
rows [] = no_row
rows (x ∷ []) = one_row x
rows (x ∷ y ∷ zs) = many_rows

-- A row with the `canonical` flag: how to read it and how to write it.
pub record Flagged (E : Type 0) : Type 0 where
  pub canonical_of : E → Bool
  pub with_canonical : Bool → E → E

pub record Row (E : Type 0) : Type 0 where
  pub index_block_hash : Hash
  pub entry : E

pub record Db : Type 0 where
  pub blocks : List DbBlock
  pub txs : List (Row DbTx)
  pub stx_events : List (Row DbStxEvent)
  pub ft_events : List (Row DbFtEvent)
  pub nft_events : List (Row DbNftEvent)
  pub contract_logs : List (Row DbSmartContractEvent)
  pub smart_contracts : List (Row DbSmartContract)
  pub mempool_txs : List DbMempoolTx

abbrev pub tx_flag : Flagged DbTx
tx_flag = record {
  canonical_of = λ e. e.canonical;
  with_canonical = λ c e. record e { canonical = c };
}

abbrev pub stx_flag : Flagged DbStxEvent
stx_flag = record {
  canonical_of = λ e. e.canonical;
  with_canonical = λ c e. record e { canonical = c };
}

abbrev pub ft_flag : Flagged DbFtEvent
ft_flag = record {
  canonical_of = λ e. e.canonical;
  with_canonical = λ c e. record e { canonical = c };
}

abbrev pub nft_flag : Flagged DbNftEvent
nft_flag = record {
  canonical_of = λ e. e.canonical;
  with_canonical = λ c e. record e { canonical = c };
}

abbrev pub log_flag : Flagged DbSmartContractEvent
log_flag = record {
  canonical_of = λ e. e.canonical;
  with_canonical = λ c e. record e { canonical = c };
}

abbrev pub contract_flag : Flagged DbSmartContract
contract_flag = record {
  canonical_of = λ e. e.canonical;
  with_canonical = λ c e. record e { canonical = c };
}

abbrev pub same : Bool → Bool → Bool
same true b = b
same false b = not b

-- `WHERE index_block_hash = $1 AND canonical != $2`
abbrev pub to_mark : {E : Type 0} → Flagged E → Hash → Bool → Row E → Bool
to_mark flag hash c row = row.index_block_hash == hash && not (same (flag.canonical_of row.entry) c)

-- `UPDATE … SET canonical = $2` on those rows.
unfoldable pub mark_rows : {E : Type 0} → Flagged E → Hash → Bool → List (Row E) → List (Row E)
mark_rows flag hash c = map λ row.
    if to_mark flag hash c row then record row { entry = flag.with_canonical c row.entry } else row

unfoldable pub count_rows : {E : Type 0} → Flagged E → Hash → Bool → List (Row E) → ℕ
unfolding select
count_rows flag hash c table = length (select (to_mark flag hash c) table)

-- `UPDATE blocks SET canonical = $2` on the rows of a WHERE clause.
unfoldable pub set_canonical : (DbBlock → Bool) → Bool → List DbBlock → List DbBlock
set_canonical p c = map λ b. if p b then record b { canonical = c } else b
