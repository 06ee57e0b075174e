-- ===== src/Postgres/Chain/Restore.antt =====
-- One round of `restoreOrphanedChain` on the table `blocks`.
use stacks_blockchain_rosett.Base.{
  ℕ, ◌≡◌, refl, ap₂, ◌∙◌, Bool, true, false, List, [], ◌∷◌, map, ◌==◌, if◌then◌else◌, arith,
}
use stacks_blockchain_rosett.Datastore.Common.{Hash, DbBlock}
use stacks_blockchain_rosett.Postgres.Tables.{Db, set_canonical}
use stacks_blockchain_rosett.Postgres.Reorg.{
  UpdatedEntities, prune_mempool_txs, mark_entities_canonical, is_orphan, is_conflict,
  orphan_entities, restore_block,
}

-- The flag of a row after the block `hash` at `height` is restored.
abbrev pub flag_after : Hash → ℕ → DbBlock → Bool
flag_after hash height b =
    if b.index_block_hash == hash
    then true
    else if b.block_height == height
    then false
    else b.canonical

abbrev pub reflag : Hash → ℕ → DbBlock → DbBlock
reflag hash height b = record b { canonical = flag_after hash height b }

reflag_row :
    (hash : Hash) (height : ℕ) (b : DbBlock)
    → let restored = if is_orphan hash b then record b { canonical = true } else b in
      (if is_conflict height hash restored then record restored { canonical = false } else restored)
      ≡ reflag hash height b
reflag_row hash height b = ground arith

-- The two UPDATE statements on `blocks` together.
pub reflag_blocks :
    (hash : Hash) (height : ℕ) (bs : List DbBlock)
    → set_canonical (is_conflict height hash) false (set_canonical (is_orphan hash) true bs)
      ≡ map (reflag hash height) bs
unfolding set_canonical
reflag_blocks hash height [] = refl
reflag_blocks hash height (b ∷ bs) =
    ap₂ (λ x xs. x ∷ xs) (reflag_row hash height b) (reflag_blocks hash height bs)

pub prune_blocks : (db : Db) (ids : List Hash) → (prune_mempool_txs db ids).0.blocks ≡ db.blocks
unfolding prune_mempool_txs
prune_blocks db [] = refl
prune_blocks db (id ∷ ids) = refl

orphan_entities_blocks :
    (bs : List DbBlock) (db : Db) (u : UpdatedEntities)
    → (orphan_entities bs db u).0.blocks ≡ db.blocks
unfolding orphan_entities mark_entities_canonical
orphan_entities_blocks [] db u = refl
orphan_entities_blocks (b ∷ bs) db u = refl

pub blocks-restore_block :
    (db : Db) (block : DbBlock) (hash : Hash) (u : UpdatedEntities)
    → (restore_block db block hash u).0.blocks ≡ map (reflag hash block.block_height) db.blocks
unfolding restore_block mark_entities_canonical
blocks-restore_block db block hash u =
    prune_blocks _ _
    ∙ (orphan_entities_blocks _ _ _ ∙ reflag_blocks hash block.block_height db.blocks)
