-- ===== src/Postgres/Tests.antt =====
-- A fork of three blocks against a fork of two: the theorems on `update` at it, and runs.
use stacks_blockchain_rosett.Base.{
  ℕ, ◌≤◌, ◌<◌, ◌≡◌, ◌≢◌, ◌↔◌, refl, ap, sym, subst, inl, inr, true, false, List, [], ◌∷◌, In, none,
  some, ok, arith,
}
use stacks_blockchain_rosett.Wire.Signed.{pos}
use stacks_blockchain_rosett.Wire.Reader.{message_error}
use stacks_blockchain_rosett.Events.Hex.{starts_with_0x, hex_to_buffer}
use stacks_blockchain_rosett.Wire.Reads.{All}
use stacks_blockchain_rosett.Datastore.Common.{
  DbBlock, DataStoreUpdateData, DbMempoolTx, DbTx, DbTxTypeId, DbTxStatus, TxUpdate,
}
use stacks_blockchain_rosett.Postgres.Tables.{Db, select, mark_rows, set_canonical}
use stacks_blockchain_rosett.Postgres.Reorg.{
  hex_refused, row_refused, get_chain_tip_height, max_height, handle_reorg, reorg_onto,
  restore_orphaned_chain, restore_block, orphan_entities, mark_entities_canonical,
  prune_mempool_txs, contains,
}
use stacks_blockchain_rosett.Postgres.Update.{
  update, update_rows, is_new, commit_or_rollback, store_incoming, store_data, store_txs,
  update_block, candidate_tx_ids, data_non_canonical, is_coinbase, store_tx, update_tx,
}
use stacks_blockchain_rosett.Postgres.Refusals.{
  inserted, insert_result, parameter_result, accept_parent_height, accept_data, accept_txs,
  accept_raw_result, accept_rows, block_fits, entry_fits, tx_fits, fits_integer, fits_smallint,
  fits_bigint, fits_nullable, fits_text, payload_fits, valid_payload, is_null, all_fit,
}
use stacks_blockchain_rosett.Postgres.Queries.Rows.{no_columns}
use stacks_blockchain_rosett.Postgres.Chain.Invariant.{IsChain}
use stacks_blockchain_rosett.Postgres.Chain.Updates.{HasRow}
use stacks_blockchain_rosett.Postgres.Chain.Canonical.{IsIncoming, update-IsChain, update_tip}
use stacks_blockchain_rosett.Postgres.Chain.Ancestors.{
  Ancestor, updates, empty_db, blocks_after, IsChain-empty, updates-IsChain, canonical_iff_Ancestor,
}
use stacks_blockchain_rosett.Postgres.Chain.Mined.{update_mined}
use stacks_blockchain_rosett.Postgres.Chain.Stale.{canonical_rows, update_stale}

abbrev block : ℕ → ℕ → ℕ → DbBlock
block hash parent height = record {
  block_hash = hash;
  burn_block_time = 1594647994;
  index_block_hash = hash;
  parent_index_block_hash = parent;
  parent_block_hash = parent;
  parent_microblock = 0;
  block_height = height;
  canonical = true;
}

abbrev mined : DbBlock → DataStoreUpdateData
mined b = record { block = b; txs = [] }

-- 1 is the genesis; 12 and 22 compete at height 2; 23 makes the second fork the longer one.
abbrev two_forks : List DataStoreUpdateData
two_forks = mined (block 1 0 1) ∷ mined (block 12 1 2) ∷ mined (block 22 1 2) ∷ []

abbrev reorganised : List DataStoreUpdateData
reorganised =
    mined (block 1 0 1) ∷ mined (block 12 1 2) ∷ mined (block 22 1 2) ∷ mined (block 23 22 3) ∷ []

incoming : (hash parent height : ℕ) → 1 ≤ height → IsIncoming (block hash parent height)
incoming hash parent height h = record { flagged = refl; positive = h }

All-IsIncoming : All (λ (d : DataStoreUpdateData). IsIncoming d.block) reorganised
All-IsIncoming = (
  incoming 1 0 1 (omega arith),
  (
    incoming 12 1 2 (omega arith),
    (incoming 22 1 2 (omega arith), (incoming 23 22 3 (omega arith), tt)),
  ),
)

-- The second fork is canonical after the reorganisation, and block 12 is not.
reorganised_blocks :
    blocks_after reorganised
    ≡ block 23 22 3
      ∷ block 22 1 2
      ∷ (record (block 12 1 2) { canonical = false })
      ∷ block 1 0 1
      ∷ []
unfolding updates update update_rows accept_parent_height accept_data accept_txs accept_raw_result
    insert_result is_new block_fits fits_integer commit_or_rollback handle_reorg reorg_onto
    restore_orphaned_chain restore_block orphan_entities mark_entities_canonical mark_rows
    prune_mempool_txs contains select set_canonical get_chain_tip_height max_height store_incoming
    store_data store_txs update_block candidate_tx_ids data_non_canonical
reorganised_blocks = refl

canonical_iff_Ancestor_example :
    (block 1 0 1).canonical ≡ true
    ↔ Ancestor (blocks_after reorganised) (block 1 0 1) (block 23 22 3)
unfolding updates update update_rows accept_parent_height accept_data accept_txs accept_raw_result
    insert_result is_new block_fits fits_integer commit_or_rollback handle_reorg reorg_onto
    restore_orphaned_chain restore_block orphan_entities mark_entities_canonical mark_rows
    prune_mempool_txs contains select set_canonical get_chain_tip_height max_height store_incoming
    store_data store_txs update_block candidate_tx_ids data_non_canonical
canonical_iff_Ancestor_example =
    canonical_iff_Ancestor reorganised All-IsIncoming (block 23 22 3) (block 1 0 1) (inl refl) refl
      refl (inr (inr (inr (inl refl))))

abbrev fork_db : Db
fork_db = updates empty_db two_forks

fork_db-IsChain : IsChain fork_db.blocks
fork_db-IsChain = updates-IsChain empty_db two_forks IsChain-empty (
  incoming 1 0 1 (omega arith),
  (incoming 12 1 2 (omega arith), (incoming 22 1 2 (omega arith), tt)),
)

update-IsChain_example : IsChain (update fork_db (mined (block 23 22 3))).db.blocks
update-IsChain_example =
    update-IsChain fork_db (mined (block 23 22 3)) fork_db-IsChain (incoming 23 22 3 (omega arith))

fork_blocks :
    fork_db.blocks ≡ (record (block 22 1 2) { canonical = false }) ∷ block 12 1 2 ∷ block 1 0 1 ∷ []
unfolding updates update update_rows accept_parent_height accept_data accept_txs accept_raw_result
    insert_result is_new block_fits fits_integer commit_or_rollback handle_reorg reorg_onto
    restore_orphaned_chain restore_block orphan_entities mark_entities_canonical mark_rows
    prune_mempool_txs contains select set_canonical get_chain_tip_height max_height store_incoming
    store_data store_txs update_block candidate_tx_ids data_non_canonical
fork_blocks = refl

fresh_23 : (x : DbBlock) → In x fork_db.blocks → x.index_block_hash ≢ 23
fresh_23 x m = go (subst (In x) fork_blocks m)
  where
    hash : DbBlock → ℕ
    hash y = y.index_block_hash

    go :
        In x ((record (block 22 1 2) { canonical = false }) ∷ block 12 1 2 ∷ block 1 0 1 ∷ [])
        → x.index_block_hash ≢ 23
    go (inl e) = omega (arith, ap hash e)
    go (inr (inl e)) = omega (arith, ap hash e)
    go (inr (inr (inl e))) = omega (arith, ap hash e)
    go (inr (inr (inr x4))) = elim x4 [ ]

parent_22 : HasRow fork_db.blocks (block 23 22 3)
parent_22 = (
  record (block 22 1 2) { canonical = false },
  subst (In (record (block 22 1 2) { canonical = false })) (sym fork_blocks) (inl refl),
  record { below = refl; named = refl },
)

fork_tip : get_chain_tip_height fork_db.blocks ≡ 2
fork_tip = rw fork_blocks (unfold get_chain_tip_height select max_height in refl)

rows_of_23 : accept_rows (mined (block 23 22 3)) ≡ ok inserted
unfolding accept_rows accept_parent_height accept_data accept_txs insert_result block_fits
    fits_integer
rows_of_23 = refl

-- The block that makes the second fork longer, at a database where the first is canonical.
update_tip_example :
    ((update fork_db (mined (block 23 22 3))).thrown ≡ none)
    × In (block 23 22 3) (update fork_db (mined (block 23 22 3))).db.blocks
    × (get_chain_tip_height (update fork_db (mined (block 23 22 3))).db.blocks ≡ 3)
update_tip_example =
    update_tip fork_db (mined (block 23 22 3)) fork_db-IsChain (incoming 23 22 3 (omega arith))
      rows_of_23 (omega (arith, fork_tip)) fresh_23 (λ _. parent_22)

update_stale_example :
    (canonical_rows (update fork_db (mined (block 32 1 2))).db.blocks
      ≡ canonical_rows fork_db.blocks)
    × ((update fork_db (mined (block 32 1 2))).db.mempool_txs ≡ fork_db.mempool_txs)
update_stale_example =
    update_stale fork_db (mined (block 32 1 2)) fork_db-IsChain (omega (arith, fork_tip))

abbrev pending : ℕ → DbMempoolTx
pending id = record {
  tx_id = id;
  raw_tx = [];
  type_id = DbTxTypeId.token_transfer;
  status = DbTxStatus.pending;
  receipt_time = 0;
  post_conditions = [];
  fee_rate = 0;
  sender_address = [];
  origin_hash_mode = 0;
  sponsored = false;
  sponsor_address = none;
  payload = no_columns;
}

abbrev mined_tx : TxUpdate
mined_tx = record {
  tx = record {
    index_block_hash = 1;
    block_hash = 1;
    block_height = 1;
    burn_block_time = 0;
    tx_id = 5;
    raw_tx = [];
    tx_index = 0;
    type_id = DbTxTypeId.token_transfer;
    status = DbTxStatus.success;
    raw_result = none;
    canonical = true;
    post_conditions = [];
    fee_rate = 0;
    sender_address = [];
    origin_hash_mode = 0;
    sponsored = false;
    sponsor_address = none;
    payload = record no_columns { token_transfer_amount = some (pos 7) };
  };
  stx_events = [];
  ft_events = [];
  nft_events = [];
  contract_log_events = [];
  smart_contracts = [];
}

abbrev waiting_db : Db
waiting_db = record empty_db { mempool_txs = pending 5 ∷ pending 6 ∷ [] }

abbrev mining : DataStoreUpdateData
mining = record { block = block 1 0 1; txs = mined_tx ∷ [] }

mining_thrown : (update waiting_db mining).thrown ≡ none
unfolding update update_rows accept_parent_height accept_data accept_txs accept_raw_result
    insert_result entry_fits tx_fits fits_smallint fits_bigint fits_nullable fits_text payload_fits
    valid_payload is_null all_fit is_new block_fits fits_integer commit_or_rollback handle_reorg
    select get_chain_tip_height max_height store_incoming store_data store_txs update_block
    candidate_tx_ids prune_mempool_txs contains is_coinbase
mining_thrown = refl

mining_left : (update waiting_db mining).db.mempool_txs ≡ pending 6 ∷ []
unfolding update update_rows accept_parent_height accept_data accept_txs accept_raw_result
    insert_result entry_fits tx_fits fits_smallint fits_bigint fits_nullable fits_text payload_fits
    valid_payload is_null all_fit is_new block_fits fits_integer commit_or_rollback handle_reorg
    select get_chain_tip_height max_height store_incoming store_data store_txs store_tx update_tx
    update_block candidate_tx_ids prune_mempool_txs contains is_coinbase
mining_left = refl

not_coinbase : is_coinbase mined_tx.tx ≡ false
unfolding is_coinbase
not_coinbase = refl

no_tip : get_chain_tip_height [] < 1
unfolding get_chain_tip_height select max_height
no_tip = omega arith

update_mined_example : (pending 6).tx_id ≢ 5
update_mined_example =
    update_mined waiting_db mining no_tip mined_tx (inl refl) not_coinbase (pending 6) mining_thrown
      (subst (In (pending 6)) (sym mining_left) (inl refl))

-- The block with its transaction's result changed to a text without the prefix, and then with the
-- transaction taken for a coinbase, which has no payload: both are rolled back.
abbrev mining_with : DbTx → DataStoreUpdateData
mining_with t = record { block = block 1 0 1; txs = record mined_tx { tx = t } ∷ [] }

mining_bad_result :
    update waiting_db (mining_with (record (mined_tx.tx) { raw_result = some (120 ∷ 49 ∷ []) }))
    ≡ record {
      db = waiting_db;
      events = [];
      thrown = some (hex_refused (message_error "Hex string is missing the \"0x\" prefix"));
    }
unfolding update update_rows accept_parent_height accept_data accept_txs accept_raw_result
    parameter_result hex_to_buffer starts_with_0x insert_result is_new update_block block_fits
    fits_integer commit_or_rollback handle_reorg select get_chain_tip_height max_height
mining_bad_result = refl

mining_no_payload :
    update waiting_db (mining_with (record (mined_tx.tx) { type_id = DbTxTypeId.coinbase }))
    ≡ record { db = waiting_db; events = []; thrown = some row_refused }
unfolding update update_rows accept_parent_height accept_data accept_txs accept_raw_result
    insert_result is_new update_block block_fits entry_fits tx_fits payload_fits valid_payload
    is_null all_fit fits_integer fits_smallint fits_bigint fits_nullable fits_text
    commit_or_rollback handle_reorg select get_chain_tip_height max_height
mining_no_payload = refl
