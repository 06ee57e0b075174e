-- ===== src/Postgres/Chain/Stale.antt =====
-- A block that is not above the tip.
use stacks_blockchain_rosett.Base.{
  ℕ, ◌≤◌, ◌≡◌, refl, ap, ◌∙◌, ◌&&◌, inl, inr, false, List, [], ◌∷◌, arith, ltb, Bool-cases, ◌==◌,
}
use stacks_blockchain_rosett.Datastore.Common.{DbBlock, DbTx, TxUpdate, DataStoreUpdateData}
use stacks_blockchain_rosett.Postgres.Tables.{select, Row, Db}
use stacks_blockchain_rosett.Postgres.Reorg.{get_chain_tip_height}
use stacks_blockchain_rosett.Postgres.Update.{
  update_block, update_tx, store_tx, store_txs, store_data, data_non_canonical, store_incoming,
  Outcome, update,
}
use stacks_blockchain_rosett.Postgres.Chain.Invariant.{IsChain}
use stacks_blockchain_rosett.Postgres.Chain.Updates.{unless_found-cases, blocks-store_data}
use stacks_blockchain_rosett.Postgres.Chain.Keeps.{update_block-cases}
use stacks_blockchain_rosett.Postgres.Chain.Canonical.{rolled_back, update-cases}

mempool-store_tx : (db : Db) (entry : TxUpdate) → (store_tx db entry).mempool_txs ≡ db.mempool_txs
unfolding store_tx update_tx
mempool-store_tx db entry =
    let tx = entry.tx in
    elim (unless_found-cases
      (select
        (λ (row : Row DbTx).
          row.entry.tx_id == tx.tx_id && row.index_block_hash == tx.index_block_hash)
        db.txs)
      (record db { txs = record { index_block_hash = tx.index_block_hash; entry = tx } ∷ db.txs })
      db) [ inl e ↦ ap (λ (d : Db). d.mempool_txs) e.1 | inr e ↦ ap (λ (d : Db). d.mempool_txs) e ]

mempool-store_txs :
    (db : Db) (txs : List TxUpdate) → (store_txs db txs).mempool_txs ≡ db.mempool_txs
unfolding store_txs
mempool-store_txs db [] = refl
mempool-store_txs db (entry ∷ txs) =
    mempool-store_txs (store_tx db entry) txs ∙ mempool-store_tx db entry

pub mempool-store_data :
    (db : Db) (d : DataStoreUpdateData) → (store_data db d).mempool_txs ≡ db.mempool_txs
unfolding store_data
mempool-store_data db d = elim (Bool-cases ((update_block db.blocks d.block).1 == 0)) [
  | inl e ↦ rw e
  | inr e ↦ rw e (mempool-store_txs _ d.txs)
]

abbrev pub canonical_rows : List DbBlock → List DbBlock
canonical_rows = select (λ (b : DbBlock). b.canonical)

canonical_rows-update_block :
    (bs : List DbBlock) (b : DbBlock)
    → b.canonical ≡ false
    → canonical_rows (update_block bs b).0 ≡ canonical_rows bs
unfolding select
canonical_rows-update_block bs b orphan = elim (update_block-cases bs b) [
  | inl e ↦ rw e.1 (rw orphan)
  | inr e ↦ ap canonical_rows e
]

module _ (db : Db) (d : DataStoreUpdateData) (chain : IsChain db.blocks)
    (low : ltb (get_chain_tip_height db.blocks) d.block.block_height ≡ false) where
  stale_incoming :
      (db' : Db)
      → db' ≡ db
      → (canonical_rows (store_incoming db' d (get_chain_tip_height db.blocks)).0.blocks
          ≡ canonical_rows db.blocks)
        × ((store_incoming db' d (get_chain_tip_height db.blocks)).0.mempool_txs ≡ db.mempool_txs)
  unfolding store_incoming data_non_canonical
  stale_incoming db' e = (
    rw low (
        rw (blocks-store_data db' (data_non_canonical d)) (
          canonical_rows-update_block db'.blocks _ refl
          ∙ ap (λ (s : Db). canonical_rows s.blocks) e)),
    rw low (mempool-store_data db' (data_non_canonical d) ∙ ap (λ (s : Db). s.mempool_txs) e),
  )

-- A block that is not above the tip of a chain changes neither the canonical blocks nor the mempool,
-- whether its row is stored, was there, or is refused.
pub update_stale :
    (db : Db) (d : DataStoreUpdateData)
    → IsChain db.blocks
    → d.block.block_height ≤ get_chain_tip_height db.blocks
    → (canonical_rows (update db d).db.blocks ≡ canonical_rows db.blocks)
      × ((update db d).db.mempool_txs ≡ db.mempool_txs)
update_stale db d chain le =
    let low = not_ltb _ _ le in
    elim (update-cases db d chain) [
      | inl r ↦
          let same = r.1.stale (λ above. omega (arith, le, above)) in
          let kept = stale_incoming db d chain low (r.0.0) same in
          (
            ap (λ (s : Db). canonical_rows s.blocks) (r.2.stored) ∙ kept.0,
            ap (λ (s : Db). s.mempool_txs) (r.2.stored) ∙ kept.1,
          )
      | inr (inl r) ↦ unchanged (rolled_back db _) r.2
      | inr (inr r) ↦ unchanged (rolled_back db _) r.2
    ]
  where
    not_ltb : (t h : ℕ) → h ≤ t → ltb t h ≡ false
    not_ltb t h le = ground arith

    unchanged :
        (o : Outcome)
        → update db d ≡ record { db = db; events = o.events; thrown = o.thrown }
        → (canonical_rows (update db d).db.blocks ≡ canonical_rows db.blocks)
          × ((update db d).db.mempool_txs ≡ db.mempool_txs)
    unchanged o e = (
      ap (λ (x : Outcome). canonical_rows x.db.blocks) e,
      ap (λ (x : Outcome). x.db.mempool_txs) e,
    )
