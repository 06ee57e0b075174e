-- ===== src/Postgres/Chain/Mined.antt =====
-- What `update` removes from the mempool.
use mathlib.Core.Bool.{false≢true}
use stacks_blockchain_rosett.Base.{
  ◌<◌, ◌≡◌, ◌≢◌, sym, subst, true, false, not, List, [], ◌∷◌, none, Result, ok, err, and_then, ◌==◌,
  ==_refl, lt→ltb, In, In-map, inl, inr, Bool-cases,
}
use stacks_blockchain_rosett.Datastore.Common.{Hash, DbMempoolTx, TxUpdate, DataStoreUpdateData}
use stacks_blockchain_rosett.Postgres.Tables.{Db}
use stacks_blockchain_rosett.Postgres.Reorg.{
  PgError, UpdatedEntities, get_chain_tip_height, contains, prune_mempool_txs, handle_reorg,
}
use stacks_blockchain_rosett.Postgres.Update.{
  is_coinbase, candidate_tx_ids, store_data, store_incoming, is_new, update_rows,
  commit_or_rollback, update,
}
use stacks_blockchain_rosett.Postgres.Refusals.{Inserted, accept_parent_height, accept_data}
use stacks_blockchain_rosett.Postgres.Chain.Invariant.{In-select, In-select_inv}
use stacks_blockchain_rosett.Postgres.Chain.Stale.{mempool-store_data}

contains-In : (id : Hash) (ids : List Hash) → In id ids → contains id ids ≡ true
unfolding contains
contains-In id [] m = absurd m
contains-In id (x ∷ xs) (inl e) =
    let h : (x == id) ≡ true = subst (λ y. (y == id) ≡ true) e (==_refl id) in rw h
contains-In id (x ∷ xs) (inr m) = elim (Bool-cases (x == id)) [
  | inl t ↦ rw t
  | inr f ↦ rw f (contains-In id xs m)
]

prune-gone :
    (db : Db) (ids : List Hash) (row : DbMempoolTx)
    → In row (prune_mempool_txs db ids).0.mempool_txs
    → In row.tx_id ids
    → ⊥
unfolding prune_mempool_txs
prune-gone db [] row m h = absurd h
prune-gone db (id ∷ ids) row m h =
    let r =
      In-select_inv (λ (tx : DbMempoolTx). not (contains tx.tx_id (id ∷ ids))) row db.mempool_txs
        m in
    let there = contains-In row.tx_id (id ∷ ids) h in
    let bad : not true ≡ true = rw there at r.1 in absurd (false≢true bad)

candidate-In :
    (txs : List TxUpdate) (t : TxUpdate)
    → In t txs
    → is_coinbase t.tx ≡ false
    → In t.tx.tx_id (candidate_tx_ids txs)
unfolding candidate_tx_ids
candidate-In txs t m h =
    In-map (λ (u : TxUpdate). u.tx.tx_id) t _
      (In-select (λ (u : TxUpdate). not (is_coinbase u.tx)) t txs m (rw h))

module _ (db : Db) (d : DataStoreUpdateData)
    (above : get_chain_tip_height db.blocks < d.block.block_height) (t : TxUpdate)
    (mined : In t d.txs) (not_coinbase : is_coinbase t.tx ≡ false) (row : DbMempoolTx) where
  stored_gone :
      (db' : Db)
      → In row (store_incoming db' d (get_chain_tip_height db.blocks)).0.mempool_txs
      → row.tx_id ≢ t.tx.tx_id
  unfolding store_incoming
  stored_gone db' m e =
      let pruned = (prune_mempool_txs db' (candidate_tx_ids d.txs)).0 in
      let m' : In row (store_data pruned d).mempool_txs = rw (lt→ltb _ _ above) at m in
      prune-gone db' (candidate_tx_ids d.txs) row (subst (In row) (mempool-store_data pruned d) m')
        (subst (λ id. In id (candidate_tx_ids d.txs)) (sym e)
          (candidate-In d.txs t mined not_coinbase))

  stored_result :
      (db' : Db) (m : Result PgError Inserted)
      → let o =
          commit_or_rollback db
            (and_then m (λ v. ok (store_incoming db' d (get_chain_tip_height db.blocks)))) in
        o.thrown ≡ none → In row o.db.mempool_txs → row.tx_id ≢ t.tx.tx_id
  unfolding commit_or_rollback
  stored_result db' (err e) h m = cc h
  stored_result db' (ok v) h m = stored_gone db' m

  reorg_result :
      (r : Result PgError (Db × UpdatedEntities))
      → let o = commit_or_rollback db (
          and_then r (λ p.
            and_then
              (accept_data (is_new p.0.blocks d.block) d)
              (λ v. ok (store_incoming p.0 d (get_chain_tip_height db.blocks))))) in
        o.thrown ≡ none → In row o.db.mempool_txs → row.tx_id ≢ t.tx.tx_id
  unfolding commit_or_rollback
  reorg_result (err e) h m = cc h
  reorg_result (ok p) h m = stored_result p.0 (accept_data (is_new p.0.blocks d.block) d) h m

  height_result :
      (a : Result PgError Inserted)
      → let o = commit_or_rollback db (
          and_then a (λ u. and_then (handle_reorg db d.block (get_chain_tip_height db.blocks)) (λ p.
            and_then
              (accept_data (is_new p.0.blocks d.block) d)
              (λ v. ok (store_incoming p.0 d (get_chain_tip_height db.blocks)))))) in
        o.thrown ≡ none → In row o.db.mempool_txs → row.tx_id ≢ t.tx.tx_id
  unfolding commit_or_rollback
  height_result (err e) h m = cc h
  height_result (ok u) h m =
      reorg_result (handle_reorg db d.block (get_chain_tip_height db.blocks)) h m

  -- Where `update` commits a block above the tip, no transaction of the block but a coinbase is left in
  -- the mempool: no row of it has the id of one.
  pub update_mined :
      (update db d).thrown ≡ none → In row (update db d).db.mempool_txs → row.tx_id ≢ t.tx.tx_id
  unfolding update update_rows
  update_mined h m = height_result (accept_parent_height d.block) h m
