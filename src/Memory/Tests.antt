-- ===== src/Memory/Tests.antt =====
-- A MemoryDataStore with a fork: the theorems at it, and runs.
use stacks_blockchain_rosett.Base.{
  Bool, In, ◌∙◌, ap, none, ok, and_then, sym, subst, arith, ℕ, ◌<◌, ◌≡◌, ◌⊎◌, refl, inl, inr, true,
  false, List, [], ◌∷◌, some,
}
use stacks_blockchain_rosett.Datastore.Common.{
  DbBlock, DataStoreUpdateData, DbTx, DbTxTypeId, DbTxStatus,
}
use mathlib.Core.List.{Permᴰ}
use stacks_blockchain_rosett.Postgres.Tables.{Db, select}
use stacks_blockchain_rosett.Postgres.Reorg.{
  get_chain_tip_height, max_height, handle_reorg, reorg_onto, prune_mempool_txs,
}
use stacks_blockchain_rosett.Postgres.Refusals.{
  insert_result, accept_parent_height, accept_data, accept_txs, block_fits, fits_integer,
}
use stacks_blockchain_rosett.Postgres.Update.{
  update_rows, is_new, commit_or_rollback, store_incoming, store_data, store_txs, candidate_tx_ids,
}
use stacks_blockchain_rosett.Postgres.Update as Pg
use stacks_blockchain_rosett.Postgres.Queries.Rows.{no_columns, parse_tx_query_result, parse_rows}
use stacks_blockchain_rosett.Postgres.Queries.Lists
use stacks_blockchain_rosett.Postgres.Chain.Invariant.{IsChain}
use stacks_blockchain_rosett.Postgres.Chain.Ancestors.{
  updates, empty_db, IsChain-empty, updates-IsChain,
}
use stacks_blockchain_rosett.Memory.Agreement.{get_blocks_agree, get_tx_list_agree}
use stacks_blockchain_rosett.Memory.Store.{
  MemoryDataStore, empty_store, StoreCall, call_update, on_calls, on_call, update, update_block,
  update_canonical_status, orphan_from, set_entry, reorg_detected, competes, for_each,
}
use stacks_blockchain_rosett.Memory.Queries.{values, get_block, get_blocks, get_tx_list}
use stacks_blockchain_rosett.Memory.Calls.{
  IsStore-empty, on_calls-IsStore, on_calls-one_at_height, update_reorg,
}

abbrev block : ℕ → ℕ → ℕ → DbBlock
block hash parent height = record {
  block_hash = hash;
  burn_block_time = 1594647994;
  index_block_hash = hash;
  parent_index_block_hash = parent;
  parent_block_hash = parent;
  parent_microblock = 0;
  block_height = height;
  canonical = true;
}

abbrev mined : DbBlock → DataStoreUpdateData
mined b = record { block = b; txs = [] }

abbrev three : List StoreCall
three =
    call_update (mined (block 1 0 1))
    ∷ call_update (mined (block 12 1 2))
    ∷ call_update (mined (block 13 12 3))
    ∷ []

abbrev stored : MemoryDataStore
stored = on_calls three empty_store

stored_blocks : stored.blocks ≡ (1, block 1 0 1) ∷ (12, block 12 1 2) ∷ (13, block 13 12 3) ∷ []
unfolding on_calls on_call update update_block reorg_detected competes set_entry for_each
stored_blocks = refl

-- A block that competes with the second takes the third with it.
reorganised :
    (update (mined (block 22 1 2)) stored).1.blocks
    ≡ (1, block 1 0 1)
      ∷ (12, record (block 12 1 2) { canonical = false })
      ∷ (13, record (block 13 12 3) { canonical = false })
      ∷ (22, block 22 1 2)
      ∷ []
unfolding on_calls on_call update update_block reorg_detected competes set_entry for_each
    update_canonical_status orphan_from
reorganised = refl

on_calls-one_at_height_example : block 13 12 3 ≡ block 13 12 3
unfolding on_calls on_call update update_block reorg_detected competes set_entry for_each
on_calls-one_at_height_example =
    on_calls-one_at_height three (block 13 12 3) (block 13 12 3) (inr (inr (inl refl)))
      (inr (inr (inl refl))) refl refl refl

detected : reorg_detected (block 22 1 2) stored.blocks ≡ true
unfolding on_calls on_call update update_block reorg_detected competes set_entry for_each
detected = refl

update_reorg_example :
    (get_block (update (mined (block 22 1 2)) stored).1 22 ≡ some (block 22 1 2))
    × ((block 1 0 1 ≡ block 22 1 2) ⊎ (1 < 2))
unfolding on_calls on_call update update_block reorg_detected competes set_entry for_each
    update_canonical_status orphan_from
update_reorg_example =
    update_reorg (mined (block 22 1 2)) stored (block 1 0 1)
      (on_calls-IsStore three empty_store IsStore-empty) detected (inl refl) refl

-- The two stores after the same updates hold their blocks in opposite orders.
abbrev database : Db
database =
    updates empty_db (mined (block 1 0 1) ∷ mined (block 12 1 2) ∷ mined (block 13 12 3) ∷ [])

database-IsChain : IsChain database.blocks
database-IsChain =
    updates-IsChain empty_db
      (mined (block 1 0 1) ∷ mined (block 12 1 2) ∷ mined (block 13 12 3) ∷ []) IsChain-empty
      (
        record { flagged = refl; positive = omega arith },
        (
          record { flagged = refl; positive = omega arith },
          (record { flagged = refl; positive = omega arith }, tt),
        ),
      )

database_blocks : database.blocks ≡ block 13 12 3 ∷ block 12 1 2 ∷ block 1 0 1 ∷ []
unfolding updates Pg.update update_rows accept_parent_height accept_data accept_txs insert_result
    is_new block_fits fits_integer commit_or_rollback handle_reorg reorg_onto prune_mempool_txs
    select get_chain_tip_height max_height store_incoming store_data store_txs Pg.update_block
    candidate_tx_ids
database_blocks = refl

same_blocks : Permᴰ database.blocks (values stored.blocks)
same_blocks =
    subst (λ bs. Permᴰ bs (values stored.blocks)) (sym database_blocks)
      (subst (λ es. Permᴰ (block 13 12 3 ∷ block 12 1 2 ∷ block 1 0 1 ∷ []) (values es))
        (sym stored_blocks)
        (Permᴰ.trans (Permᴰ.cons refl (Permᴰ.swap refl refl))
          (Permᴰ.trans (Permᴰ.swap refl refl) (Permᴰ.cons refl (Permᴰ.swap refl refl)))))

get_blocks_agree_example : get_blocks stored 2 1 ≡ Lists.get_blocks database 2 1
get_blocks_agree_example = get_blocks_agree stored database 2 1 database-IsChain same_blocks

abbrev coinbase : (tx_id index : ℕ) → Bool → DbTx
coinbase tx_id index flag = record {
  index_block_hash = 1;
  block_hash = 1;
  block_height = 1;
  burn_block_time = 0;
  tx_id = tx_id;
  raw_tx = [];
  tx_index = index;
  type_id = DbTxTypeId.coinbase;
  status = DbTxStatus.success;
  raw_result = none;
  canonical = flag;
  post_conditions = [];
  fee_rate = 3;
  sender_address = 83 ∷ [];
  origin_hash_mode = 0;
  sponsored = false;
  sponsor_address = none;
  payload = no_columns;
}

abbrev with_txs : MemoryDataStore
with_txs = record empty_store { txs = (5, coinbase 5 0 true) ∷ (6, coinbase 6 1 true) ∷ [] }

-- The rows of the database, with an orphaned one among them.
abbrev tx_rows : Db
tx_rows = record empty_db {
  txs =
      record { index_block_hash = 1; entry = coinbase 6 1 true }
      ∷ record { index_block_hash = 2; entry = coinbase 6 0 false }
      ∷ record { index_block_hash = 1; entry = coinbase 5 0 true }
      ∷ [];
}

same_txs :
    Permᴰ
      (select (λ (t : DbTx). t.canonical) (Lists.entries tx_rows.txs))
      (select (λ (t : DbTx). t.canonical) (values with_txs.txs))
unfolding select
same_txs = Permᴰ.swap refl refl

txs_apart :
    (a b : DbTx)
    → In a (select (λ (t : DbTx). t.canonical) (Lists.entries tx_rows.txs))
    → In b (select (λ (t : DbTx). t.canonical) (Lists.entries tx_rows.txs))
    → a.block_height ≡ b.block_height
    → a.tx_index ≡ b.tx_index
    → a ≡ b
unfolding select
txs_apart a b (inl m) (inl n) h i = m ∙ sym n
txs_apart a b (inl m) (inr (inl n)) h i =
    absurd (omega (arith, i, ap (λ (t : DbTx). t.tx_index) m, ap (λ (t : DbTx). t.tx_index) n))
txs_apart a b (inr (inl m)) (inl n) h i =
    absurd (omega (arith, i, ap (λ (t : DbTx). t.tx_index) m, ap (λ (t : DbTx). t.tx_index) n))
txs_apart a b (inr (inl m)) (inr (inl n)) h i = m ∙ sym n
txs_apart a b (inr (inr m)) n h i = absurd m
txs_apart a b m (inr (inr n)) h i = absurd n

get_tx_list_agree_example :
    Lists.get_tx_list tx_rows 10 0 (DbTxTypeId.coinbase ∷ [])
    ≡ and_then
        (parse_rows parse_tx_query_result
          (get_tx_list with_txs 10 0 (DbTxTypeId.coinbase ∷ [])).results)
        (λ parsed. ok (record {
          results = parsed;
          total = (get_tx_list with_txs 10 0 (DbTxTypeId.coinbase ∷ [])).total;
        }))
get_tx_list_agree_example =
    get_tx_list_agree with_txs tx_rows 10 0 (DbTxTypeId.coinbase ∷ []) same_txs txs_apart
