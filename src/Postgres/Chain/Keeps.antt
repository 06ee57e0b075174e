-- ===== src/Postgres/Chain/Keeps.antt =====
-- The statements about `update` and the chain of canonical blocks.
use stacks_blockchain_rosett.Base.{
  ℕ, ◌≤◌, ◌<◌, ◌≡◌, ◌≢◌, refl, sym, ap, subst, ◌∙◌, ◌⊎◌, inl, inr, true, false, List, [], ◌∷◌, In,
  arith, ◌==◌, ==_iff, ltb, ltb→lt, lt→ltb, Bool-cases,
}
use mathlib.Core.Bool.{false≢true}
use stacks_blockchain_rosett.Datastore.Common.{DbBlock, DataStoreUpdateData}
use stacks_blockchain_rosett.Postgres.Tables.{select, Db}
use stacks_blockchain_rosett.Postgres.Reorg.{get_chain_tip_height}
use stacks_blockchain_rosett.Postgres.Update.{
  update_block, data_non_canonical, candidate_tx_ids, store_incoming,
}
use stacks_blockchain_rosett.Postgres.Chain.Invariant.{IsChain, In-select, select-none}
use stacks_blockchain_rosett.Postgres.Chain.Restore.{prune_blocks}
use stacks_blockchain_rosett.Postgres.Chain.Tip.{le-get_chain_tip_height, tip_row}
use stacks_blockchain_rosett.Postgres.Chain.Insert.{IsChain-insert_top, IsChain-insert_orphan}
use stacks_blockchain_rosett.Postgres.Chain.Updates.{
  Reorganised, unless_found-cases, blocks-store_data,
}

-- No row has the hash of `b` if the conflict query finds none.
fresh_of_none :
    (bs : List DbBlock) (b : DbBlock)
    → select (λ (x : DbBlock). x.index_block_hash == b.index_block_hash) bs ≡ []
    → (x : DbBlock) → In x bs
    → x.index_block_hash ≢ b.index_block_hash
fresh_of_none bs b e x m same = subst (In x) e (
    In-select (λ (y : DbBlock). y.index_block_hash == b.index_block_hash) x bs m
      ((==_iff _ _).1 same))

-- The INSERT of a block: it lands in front if its hash is new, and changes nothing if not.
pub update_block-cases :
    (bs : List DbBlock) (b : DbBlock)
    → (((x : DbBlock) → In x bs → x.index_block_hash ≢ b.index_block_hash)
        × ((update_block bs b).0 ≡ b ∷ bs))
      ⊎ ((update_block bs b).0 ≡ bs)
unfolding update_block
update_block-cases bs b =
    elim (unless_found-cases {B = List DbBlock × ℕ}
      (select (λ (x : DbBlock). x.index_block_hash == b.index_block_hash) bs) (b ∷ bs, 1) (bs, 0)) [
        | inl e ↦ inl (fresh_of_none bs b e.0, ap (λ p. p.0) e.1)
        | inr e ↦ inr (ap (λ p. p.0) e)
      ]

pub update_block-fresh :
    (bs : List DbBlock) (b : DbBlock)
    → ((x : DbBlock) → In x bs → x.index_block_hash ≢ b.index_block_hash)
    → (update_block bs b).0 ≡ b ∷ bs
unfolding update_block
update_block-fresh bs b fresh =
    let none_found =
      select-none (λ (x : DbBlock). x.index_block_hash == b.index_block_hash) bs
        (λ x m. not_equal x (fresh x m)) in
    rw none_found
  where
    not_equal :
        (x : DbBlock)
        → x.index_block_hash ≢ b.index_block_hash
        → (x.index_block_hash == b.index_block_hash) ≡ false
    not_equal x ne = ground arith

module _ (db db' : Db) (d : DataStoreUpdateData) (chain : IsChain db.blocks)
    (reorg : Reorganised db db' d.block (get_chain_tip_height db.blocks))
    (flagged : d.block.canonical ≡ true) (positive : 1 ≤ d.block.block_height) where
  abbrev tip : ℕ
  tip = get_chain_tip_height db.blocks

  pub below_tip : (x : DbBlock) → In x db'.blocks → x.block_height ≤ tip
  below_tip x m =
      let r = reorg.same_rows x m in
      omega (arith, le-get_chain_tip_height db.blocks r.0 chain r.1, r.2)

  insert_top : tip < d.block.block_height → IsChain (update_block db'.blocks d.block).0
  insert_top above = elim (update_block-cases db'.blocks d.block) [
    | inl e ↦ rw (e.1) (
        IsChain-insert_top db'.blocks d.block reorg.chain e.0 positive reorg.grounded flagged
          (λ x m. omega (arith, below_tip x m, above)) (λ high. reorg.linked high above))
    | inr e ↦ rw e reorg.chain
  ]

  abbrev orphan : DbBlock
  orphan = record (d.block) { canonical = false }

  insert_orphan : (tip < d.block.block_height → ⊥) → IsChain (update_block db'.blocks orphan).0
  insert_orphan low = elim (update_block-cases db'.blocks orphan) [
    | inl e ↦
        let t = tip_row db.blocks (omega (arith, positive, low)) in
        let same = ap (λ (s : Db). s.blocks) (sym (reorg.stale low)) in
        rw (e.1) (
          IsChain-insert_orphan db'.blocks orphan reorg.chain e.0 positive
            (λ high.
              let up = reorg.grounded high in
              (up.0, up.1, record { below = up.2.below; named = up.2.named }))
            refl (t.0, subst (In t.0) same t.1, t.2, omega (arith, t.3, low)))
    | inr e ↦ rw e reorg.chain
  ]

  pub store_incoming-IsChain : IsChain ((store_incoming db' d tip).0.blocks)
  unfolding store_incoming data_non_canonical
  store_incoming-IsChain = elim (Bool-cases (ltb tip d.block.block_height)) [
    | inl above ↦ rw above (
        rw (blocks-store_data _ d, prune_blocks db' (candidate_tx_ids d.txs))
          (insert_top (ltb→lt _ _ above)))
    | inr low ↦ rw low (
        rw (blocks-store_data db' (data_non_canonical d))
          (insert_orphan (λ h. false≢true (sym low ∙ lt→ltb _ _ h))))
  ]
