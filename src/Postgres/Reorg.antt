-- ===== src/Postgres/Reorg.antt =====
-- PgDataStore: `getChainTipHeight`, `pruneMempoolTxs`, `markEntitiesCanonical`,
-- `restoreOrphanedChain` and `handleReorg`.
use Prim.Native.Nat.{max}
use stacks_blockchain_rosett.Base.{
  ℕ, zero, suc, ◌+◌, Bool, true, false, not, ◌&&◌, List, [], ◌∷◌, map, Result, ok, err, ◌==◌, ltb,
  if◌then◌else◌,
}
use stacks_blockchain_rosett.Wire.Reader.{Error}
use stacks_blockchain_rosett.Datastore.Common.{Hash, DbBlock}
use stacks_blockchain_rosett.Postgres.Tables.{
  select, Rows, no_row, one_row, many_rows, rows, Db, tx_flag, stx_flag, ft_flag, nft_flag,
  log_flag, contract_flag, to_mark, mark_rows, count_rows, set_canonical,
}

-- What the write path throws: `hex_refused` what `hexToBuffer` throws, `row_refused` the server's error
-- for a value that its column cannot hold or a row that a CHECK refuses. `out_of_fuel` has no counterpart in the source: the recursion of
-- `restoreOrphanedChain` is given as much fuel as the incoming block is high.
pub data PgError : Type 0 where
  no_orphaned_block : Hash → PgError
  multiple_orphaned_blocks : Hash → PgError
  multiple_orphaned_parents : PgError
  multiple_parents : ℕ → Hash → PgError
  no_parent : ℕ → Hash → PgError
  hex_refused : Error → PgError
  row_refused : PgError
  out_of_fuel : PgError

pub record EntityCounts : Type 0 where
  pub blocks : ℕ
  pub txs : ℕ
  pub stx_events : ℕ
  pub ft_events : ℕ
  pub nft_events : ℕ
  pub contract_logs : ℕ
  pub smart_contracts : ℕ

pub record UpdatedEntities : Type 0 where
  pub marked_canonical : EntityCounts
  pub marked_non_canonical : EntityCounts

unfoldable pub max_height : List DbBlock → ℕ
max_height [] = 0
max_height (b ∷ bs) = max b.block_height (max_height bs)

abbrev pub first_height : List DbBlock → ℕ
first_height [] = 0
first_height (b ∷ bs) = b.block_height

-- The height that `getChainTipHeight` returns: 0 where no row is found.
unfoldable pub get_chain_tip_height : List DbBlock → ℕ
get_chain_tip_height blocks =
    first_height (select (λ b. b.canonical && b.block_height == max_height blocks) blocks)

unfoldable pub contains : Hash → List Hash → Bool
contains h [] = false
contains h (x ∷ xs) = let rest = contains h xs in if x == h then true else rest

-- `DELETE FROM mempool_txs WHERE tx_id = ANY($1) RETURNING tx_id`
unfoldable pub prune_mempool_txs : Db → List Hash → Db × List Hash
prune_mempool_txs db [] = (db, [])
prune_mempool_txs db (id ∷ ids) =
    let tx_ids = id ∷ ids in
    (
      record db { mempool_txs = select (λ tx. not (contains tx.tx_id tx_ids)) db.mempool_txs },
      map (λ tx. tx.tx_id) (select (λ tx. contains tx.tx_id tx_ids) db.mempool_txs),
    )

unfoldable pub plus_counts : EntityCounts → EntityCounts → EntityCounts
plus_counts a b = record {
  blocks = a.blocks + b.blocks;
  txs = a.txs + b.txs;
  stx_events = a.stx_events + b.stx_events;
  ft_events = a.ft_events + b.ft_events;
  nft_events = a.nft_events + b.nft_events;
  contract_logs = a.contract_logs + b.contract_logs;
  smart_contracts = a.smart_contracts + b.smart_contracts;
}

-- The counters that belong to the flag that is written go up.
unfoldable pub add_counts : Bool → EntityCounts → UpdatedEntities → UpdatedEntities
add_counts c n u =
    if c
    then record u { marked_canonical = plus_counts u.marked_canonical n }
    else record u { marked_non_canonical = plus_counts u.marked_non_canonical n }

abbrev pub no_counts : EntityCounts
no_counts = record {
  blocks = 0;
  txs = 0;
  stx_events = 0;
  ft_events = 0;
  nft_events = 0;
  contract_logs = 0;
  smart_contracts = 0;
}

pub record Marked : Type 0 where
  pub db : Db
  pub updated_entities : UpdatedEntities
  pub txs_marked_canonical : List Hash

unfoldable pub mark_entities_canonical : Db → Hash → Bool → UpdatedEntities → Marked
mark_entities_canonical db hash c u = record {
  db = record db {
    txs = mark_rows tx_flag hash c db.txs;
    stx_events = mark_rows stx_flag hash c db.stx_events;
    ft_events = mark_rows ft_flag hash c db.ft_events;
    nft_events = mark_rows nft_flag hash c db.nft_events;
    contract_logs = mark_rows log_flag hash c db.contract_logs;
    smart_contracts = mark_rows contract_flag hash c db.smart_contracts;
  };
  updated_entities =
      add_counts c
        (record {
          blocks = 0;
          txs = count_rows tx_flag hash c db.txs;
          stx_events = count_rows stx_flag hash c db.stx_events;
          ft_events = count_rows ft_flag hash c db.ft_events;
          nft_events = count_rows nft_flag hash c db.nft_events;
          contract_logs = count_rows log_flag hash c db.contract_logs;
          smart_contracts = count_rows contract_flag hash c db.smart_contracts;
        })
        u;
  txs_marked_canonical =
      if c then map (λ row. row.entry.tx_id) (select (to_mark tx_flag hash c) db.txs) else [];
}

-- The WHERE clauses of `restoreOrphanedChain`.
abbrev pub is_orphan : Hash → DbBlock → Bool
is_orphan hash b = b.index_block_hash == hash && not b.canonical

abbrev pub is_conflict : ℕ → Hash → DbBlock → Bool
is_conflict height hash b =
    b.block_height == height && (not (b.index_block_hash == hash) && b.canonical)

-- `block_height = $1` at `$1 = height - 1`, which no row meets at height 0.
abbrev pub is_orphaned_parent : ℕ → Hash → DbBlock → Bool
is_orphaned_parent height hash b =
    b.block_height + 1 == height && (b.index_block_hash == hash && not b.canonical)

-- The entities of the first of the blocks that were orphaned.
unfoldable pub orphan_entities : List DbBlock → Db → UpdatedEntities → Db × UpdatedEntities
orphan_entities [] db u = (db, u)
orphan_entities (b ∷ bs) db u =
    let counted = add_counts false (record no_counts { blocks = 1 }) u in
    let marked = mark_entities_canonical db b.index_block_hash false counted in
    (marked.db, marked.updated_entities)

-- From the restored row `block` on: its height is freed of other canonical blocks, and the entities
-- of both follow; what is now mined leaves the mempool.
unfoldable pub restore_block : Db → DbBlock → Hash → UpdatedEntities → Db × UpdatedEntities
restore_block db block hash u =
    let u1 = add_counts true (record no_counts { blocks = 1 }) u in
    let restored = set_canonical (is_orphan hash) true db.blocks in
    let conflict = is_conflict block.block_height hash in
    let db1 = record db { blocks = set_canonical conflict false restored } in
    let orphaned = orphan_entities (select conflict restored) db1 u1 in
    let marked = mark_entities_canonical orphaned.0 hash true orphaned.1 in
    let pruned = prune_mempool_txs marked.db marked.txs_marked_canonical in
    (pruned.0, marked.updated_entities)

unfoldable pub restore_orphaned_chain :
    ℕ → Db → Hash → UpdatedEntities → Result PgError (Db × UpdatedEntities)
restore_orphaned_chain zero db hash u = err out_of_fuel
restore_orphaned_chain (suc fuel) db hash u = elim (rows (select (is_orphan hash) db.blocks)) [
  | no_row ↦ err (no_orphaned_block hash)
  | many_rows ↦ err (multiple_orphaned_blocks hash)
  | one_row block ↦
      let after = restore_block db block hash u in
      let parents =
        select (is_orphaned_parent block.block_height block.parent_index_block_hash)
          after.0.blocks in
      elim (rows parents) [
        | no_row ↦ ok after
        | many_rows ↦ err multiple_orphaned_parents
        | one_row parent ↦ restore_orphaned_chain fuel after.0 parent.index_block_hash after.1
      ]
]

abbrev pub is_parent : DbBlock → DbBlock → Bool
is_parent block b =
    b.block_height + 1 == block.block_height && b.index_block_hash == block.parent_index_block_hash

-- From the rows found for the parent on.
unfoldable pub reorg_onto :
    Rows DbBlock → Db → DbBlock → ℕ → UpdatedEntities → Result PgError (Db × UpdatedEntities)
reorg_onto no_row db block tip u = err (no_parent block.block_height block.parent_index_block_hash)
reorg_onto many_rows db block tip u =
    err (multiple_parents block.block_height block.parent_index_block_hash)
reorg_onto (one_row parent) db block tip u =
    if not parent.canonical && ltb tip block.block_height
    then restore_orphaned_chain block.block_height db parent.index_block_hash u
    else ok (db, u)

abbrev pub no_updates : UpdatedEntities
no_updates = record { marked_canonical = no_counts; marked_non_canonical = no_counts }

unfoldable pub handle_reorg : Db → DbBlock → ℕ → Result PgError (Db × UpdatedEntities)
handle_reorg db block tip =
    if ltb 1 block.block_height
    then reorg_onto (rows (select (is_parent block) db.blocks)) db block tip no_updates
    else ok (db, no_updates)
